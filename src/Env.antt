-- ===== src/Env.antt =====
-- env.go: the settings file, and the flags that it and the environment fill in.
pub mod Precedence
pub mod Quoted
use zts_airdrop.Base.{
  ℕ, ◌+◌, ◌-◌, ◌*◌, Bool, true, false, ◌&&◌, ◌||◌, List, [], ◌∷◌, ◌++◌, map, Option, none, some,
  Bytes, codes, Err, errorf, wrapf, outside, Result, ok, err, leb, ltb, ◌==◌, if◌then◌else◌,
  is_empty, length, take, drop,
}
use zts_airdrop.Decimal.{decimal}
use zts_airdrop.Effect.{M, next}
use zts_airdrop.Journal.{split_lines, drop_cr}
use zts_airdrop.Text.{trim_space, has_prefix, cut, same_text}

abbrev pub env_prefix : Bytes
env_prefix = codes "ZTS_AIRDROP_"

-- the process environment, each variable once, and what `os.Setenv` refuses
abbrev pub Environment : Type 0
Environment = List (Bytes × Bytes)

-- `os.LookupEnv`
unfoldable pub lookup_env : Bytes → Environment → Option Bytes
unfolding same_text
lookup_env key [] = none
lookup_env key ((k, v) ∷ rest) = if same_text k key then some v else lookup_env key rest

-- `os.Setenv` of a variable that is not present
abbrev pub add_env : Bytes → Bytes → Environment → Environment
add_env key value env = (key, value) ∷ env

-- the last byte of a text that is not empty
unfoldable pub ends_with : ℕ → Bytes → Bool
ends_with q [] = false
ends_with q (c ∷ []) = c == q
ends_with q (c ∷ d ∷ s) = ends_with q (d ∷ s)

-- `value[0] == q && value[len(value)-1] == q`, and two bytes at least
unfoldable pub quoted_by : ℕ → Bytes → Bool
unfolding ends_with
quoted_by q [] = false
quoted_by q (c ∷ s) = c == q && ends_with q s

-- the text before the first blank that a # follows; `none` if there is none
unfoldable pub before_comment : Bytes → Option Bytes
unfolding has_prefix
before_comment [] = none
before_comment (c ∷ s) =
    let rest = before_comment s in
    if c == b' ' && has_prefix (codes "#") s
    then some []
    else elim rest [ none ↦ none | some t ↦ some (c ∷ t) ]

-- quotes stripped, or else a comment cut off
unfoldable pub setting_value : Bytes → Bytes
unfolding quoted_by before_comment
setting_value value =
    if quoted_by b'"' value || quoted_by b'\'' value
    then take (length value - 2) (drop 1 value)
    else elim (before_comment value) [ none ↦ value | some t ↦ trim_space t ]

-- what one line says
pub data Line : Type 0 where
  nothing : Line
  malformed : Line
  setting : Bytes → Bytes → Line

-- `strings.TrimPrefix(text, "export ")`
unfoldable pub without_export : Bytes → Bytes
unfolding has_prefix
without_export text = if has_prefix (codes "export ") text then drop 7 text else text

unfoldable pub parse_line : Bytes → Line
parse_line raw =
    let text = trim_space raw in
    let parts = cut b'=' (without_export text) in
    if is_empty text || has_prefix (codes "#") text
    then nothing
    else if parts.found
    then setting (trim_space parts.before) (setting_value (trim_space parts.after))
    else malformed

-- what opening a file gives: that there is none, another error, or its text
pub data Opened : Type 0 where
  missing : Opened
  unreadable : Err → Opened
  opened : Bytes → Opened

module _ (refuses : Bytes → Bytes → Option Err) where
  -- a variable that is present stays as it is
  unfoldable pub define : Bytes → Bytes → M Environment (Unit {0})
  unfolding lookup_env
  define key value env = elim (lookup_env key env) [
    | some v ↦ (ok tt, env)
    | none ↦ elim (refuses key value) [
      | some e ↦ (err e, env)
      | none ↦ (ok tt, add_env key value env)
    ]
  ]

  unfoldable pub take_setting : Bytes → ℕ → Line → M Environment (Unit {0})
  unfolding define
  take_setting path n nothing env = (ok tt, env)
  take_setting path n malformed env =
      (err (errorf "%s line %d: expected KEY=VALUE" (path ∷ decimal n ∷ [])), env)
  take_setting path n (setting key value) env = define key value env

  -- the loop from line `n` on; a line fills the scanner's buffer at 64 kB
  unfoldable pub take_settings : Bytes → ℕ → List Bytes → M Environment (Unit {0})
  unfolding take_setting
  take_settings path n [] env = (ok tt, env)
  take_settings path n (l ∷ ls) env =
      if leb (64 * 1024) (length l)
      then (err (outside (codes "bufio.Scanner: token too long")), env)
      else next (λ _. take_settings path (n + 1) ls)
          (take_setting path n (parse_line (drop_cr l)) env)

  -- what `LoadDotEnv` makes of the opened file
  unfoldable pub take_opened : Bytes → Opened → M Environment (Unit {0})
  unfolding take_settings
  take_opened path missing env = (ok tt, env)
  take_opened path (unreadable e) env = (err e, env)
  take_opened path (opened text) env = take_settings path 1 (split_lines text) env

  -- `LoadDotEnv`, with `os.Open` given
  unfoldable pub load_dot_env : (Bytes → Opened) → Bytes → M Environment (Unit {0})
  unfolding take_opened
  load_dot_env open_file path = take_opened path (open_file path)

-- a flag of the set: its name, whether the command line gave it, and its value's text
pub record Flag : Type 0 where
  pub name : Bytes
  pub explicit : Bool
  pub value : Bytes

-- `strings.ToUpper` and the dashes, byte by byte
abbrev pub shout : ℕ → ℕ
shout c = if c == b'-' then b'_' else if leb b'a' c && leb c b'z' then c - 32 else c

unfoldable pub env_key : Bytes → Bytes
env_key name = env_prefix ++ map shout name

-- `f.Value.Set`, which may refuse the text
module _ (set : Bytes → Bytes → Bytes × Option Err) (env : Environment) where
  -- one flag of `VisitAll`, once no error came before
  unfoldable pub apply_one : Flag → Flag × Option Err
  unfolding env_key lookup_env
  apply_one f = if f.explicit then (f, none) else elim (lookup_env (env_key f.name) env) [
    | none ↦ (f, none)
    | some text ↦
        let (value, failure) = set f.name text in
        if is_empty text then (f, none) else (
          record f { value = value },
          elim failure [
            | none ↦ none
            | some e ↦ some (wrapf "%s=%q: %w" (env_key f.name ∷ text ∷ []) e)
          ],
        )
  ]

  -- `ApplyEnvDefaults`: after an error the flags are left alone
  unfoldable pub apply_env_defaults : List Flag → List Flag × Option Err
  unfolding apply_one
  apply_env_defaults [] = ([], none)
  apply_env_defaults (f ∷ rest) =
      let (f', failure) = apply_one f in
      let (rest', later) = apply_env_defaults rest in
      elim failure [ some e ↦ (f' ∷ rest, some e) | none ↦ (f' ∷ rest', later) ]

-- `run` between its flags and its commands: the error, if there is one, ends it
unfoldable pub settle :
    (Bytes → Bytes → Option Err)
    → (Bytes → Opened)
    → Bytes
    → (Bytes → Bytes → Bytes × Option Err)
    → Environment
    → List Flag
    → List Flag × Option Err
unfolding load_dot_env apply_env_defaults
settle refuses open_file path set env flags =
    let (read, env') = load_dot_env refuses open_file path env in
    elim read [ err e ↦ (flags, some e) | ok _ ↦ apply_env_defaults set env' flags ]
