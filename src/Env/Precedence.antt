-- ===== src/Env/Precedence.antt =====
-- Flags win over the environment, and the environment over the file.
use zts_airdrop.Base.{
  ℕ, ◌+◌, ◌*◌, ◌≡◌, refl, ap, suc, ◌∙◌, inl, inr, false, List, [], ◌∷◌, Option, none, some, Bytes,
  Err, Result, arith, Bool-cases, Option-cases, Result-cases, leb, length, is_empty, if◌then◌else◌,
  ◌++◌, All, map,
}
use zts_airdrop.Effect.{next_cases}
use zts_airdrop.Env.{
  Environment, lookup_env, define, Line, nothing, malformed, setting, take_setting, take_settings,
  Opened, missing, unreadable, opened, take_opened, load_dot_env, apply_env_defaults, Flag, env_key,
  apply_one, parse_line, settle,
}
use zts_airdrop.Journal.{drop_cr, split_lines}
use zts_airdrop.Text.{same_text}
use zts_airdrop.Text.Laws.{same_text_sound}

-- a variable that is added under a new name hides no other
add_env-lookup :
    (key value : Bytes) (env : Environment) (k v : Bytes)
    → lookup_env key env ≡ none
    → lookup_env k env ≡ some v
    → lookup_env k ((key, value) ∷ env) ≡ some v
unfolding lookup_env
add_env-lookup key value env k v absent e = elim (Bool-cases (same_text key k)) [
  | inl same ↦
      absurd
        (let e' : lookup_env key env ≡ some v = rw (same_text_sound key k same) e in ground arith)
  | inr other ↦ rw other e
]

module _ (refuses : Bytes → Bytes → Option Err) (k v : Bytes) where
  abbrev Present : Environment → Type 0
  Present env = lookup_env k env ≡ some v

  define-Present :
      (key value : Bytes) (env : Environment)
      → Present env
      → Present (define refuses key value env).1
  unfolding define
  define-Present key value env h = elim (Option-cases (lookup_env key env)) [
    | inr (x, e) ↦ rw (e, define) h
    | inl absent ↦ elim (Option-cases (refuses key value)) [
      | inr (x, e) ↦ rw (absent, e, define) h
      | inl fine ↦ rw (absent, fine, define) (add_env-lookup key value env k v absent h)
    ]
  ]

  take_setting-Present :
      (path : Bytes) (n : ℕ) (line : Line) (env : Environment)
      → Present env
      → Present (take_setting refuses path n line env).1
  unfolding take_setting
  take_setting-Present path n nothing env h = h
  take_setting-Present path n malformed env h = h
  take_setting-Present path n (setting key value) env h = define-Present key value env h

  take_settings-Present :
      (path : Bytes) (n : ℕ) (lines : List Bytes) (env : Environment)
      → Present env
      → Present (take_settings refuses path n lines env).1
  unfolding take_settings
  take_settings-Present path n [] env h = h
  take_settings-Present path n (l ∷ ls) env h = elim (Bool-cases (leb (64 * 1024) (length l))) [
    | inl long ↦ rw (long, take_settings) h
    | inr fits ↦
        rw (fits, take_settings)
          (let first = take_setting-Present path n (parse_line (drop_cr l)) env h in
            next_cases (λ (q : Result Unit × Environment). Present q.1)
              (λ _. take_settings refuses path (n + 1) ls)
              (take_setting refuses path n (parse_line (drop_cr l)) env) (λ e failed. first)
              (λ _ went. take_settings-Present path (n + 1) ls _ first))
  ]

  take_opened-Present :
      (path : Bytes) (file : Opened) (env : Environment)
      → Present env
      → Present (take_opened refuses path file env).1
  unfolding take_opened
  take_opened-Present path missing env h = h
  take_opened-Present path (unreadable e) env h = h
  take_opened-Present path (opened text) env h =
      take_settings-Present path 1 (split_lines text) env h

apply_env_defaults-cons :
    (set : Bytes → Bytes → Bytes × Option Err) (env : Environment) (f : Flag) (rest : List Flag)
    → (apply_one set env f).1 ≡ none
    → apply_env_defaults set env (f ∷ rest)
      ≡ (let q = apply_env_defaults set env rest in ((apply_one set env f).0 ∷ q.0, q.1))
unfolding apply_env_defaults
apply_env_defaults-cons set env f rest e = rw (e, apply_env_defaults) refl

apply_env_defaults-fails :
    (set : Bytes → Bytes → Bytes × Option Err) (env : Environment) (f : Flag) (rest : List Flag)
    {e : Err}
    → (apply_one set env f).1 ≡ some e
    → (apply_env_defaults set env (f ∷ rest)).1 ≡ some e
unfolding apply_env_defaults
apply_env_defaults-fails set env f rest e = rw (e, apply_env_defaults) refl

-- `f` stands in the list behind so many others
pub record IsAt (n : ℕ) (f : Flag) (flags : List Flag) : Type 0 where
  pub before : List Flag
  pub after : List Flag
  pub split : flags ≡ before ++ (f ∷ after)
  pub place : length before ≡ n

IsAt-cons :
    {n : ℕ} {f : Flag} (g : Flag) {flags : List Flag} → IsAt n f flags → IsAt (suc n) f (g ∷ flags)
IsAt-cons g x = record {
  before = g ∷ x.before;
  after = x.after;
  split = ap (λ l. g ∷ l) x.split;
  place = ap suc x.place;
}

module _ (set : Bytes → Bytes → Bytes × Option Err) (env : Environment) (f : Flag) where
  -- a flag that is set without an error on the way
  apply_env_defaults-IsAt :
      (before after : List Flag)
      → (apply_env_defaults set env (before ++ (f ∷ after))).1 ≡ none
      → IsAt
          (length before)
          (apply_one set env f).0
          (apply_env_defaults set env (before ++ (f ∷ after))).0
  apply_env_defaults-IsAt [] after e = elim (Option-cases (apply_one set env f).1) [
    | inr (x, failed) ↦
        absurd (let g = apply_env_defaults-fails set env f after failed in ground arith)
    | inl fine ↦ rw (apply_env_defaults-cons set env f after fine) (record {
      before = [];
      after = (apply_env_defaults set env after).0;
      split = refl;
      place = refl;
    })
  ]
  apply_env_defaults-IsAt (g ∷ before) after e =
      let rest = before ++ (f ∷ after) in
      elim (Option-cases (apply_one set env g).1) [
        | inr (x, failed) ↦
            absurd (let h = apply_env_defaults-fails set env g rest failed in ground arith)
        | inl fine ↦ rw (apply_env_defaults-cons set env g rest fine) (
            IsAt-cons (apply_one set env g).0 (
              apply_env_defaults-IsAt before after
                (rw (apply_env_defaults-cons set env g rest fine) at e)))
      ]

module _ (refuses : Bytes → Bytes → Option Err) (open_file : Bytes → Opened) (path : Bytes)
    (set : Bytes → Bytes → Bytes × Option Err) (env : Environment) where
  settle_loaded :
      (flags : List Flag)
      → (settle refuses open_file path set env flags).1 ≡ none
      → settle refuses open_file path set env flags
        ≡ apply_env_defaults set (load_dot_env refuses open_file path env).1 flags
  unfolding settle
  settle_loaded flags e = elim (Result-cases (load_dot_env refuses open_file path env).0) [
    | inl (u, read) ↦ rw (read, settle) refl
    | inr (x, failed) ↦ absurd (ground arith)
  ]

  -- If LoadDotEnv and then ApplyEnvDefaults end without an error, then a flag that the command
  -- line does not give, whose variable the real environment holds with a text that is not
  -- empty, stands in its place with the value set from that text, whatever the settings file
  -- says.
  pub settings_precedence :
      (before after : List Flag) (f : Flag) (text : Bytes)
      → f.explicit ≡ false
      → lookup_env (env_key f.name) env ≡ some text
      → is_empty text ≡ false
      → let q = settle refuses open_file path set env (before ++ (f ∷ after)) in
        q.1 ≡ none → IsAt (length before) (record f { value = (set f.name text).0 }) q.0
  unfolding apply_one load_dot_env
  settings_precedence before after f text omitted present full e =
      let still =
        take_opened-Present refuses (env_key f.name) text path (open_file path) env present in
      let loaded = settle_loaded (before ++ (f ∷ after)) e in
      let env' = (load_dot_env refuses open_file path env).1 in
      let placed = apply_env_defaults-IsAt set env' f before after (rw loaded at e) in
      let set_one : (apply_one set env' f).0 ≡ record f { value = (set f.name text).0 } =
        simp (omitted, still, full) refl in
      rw loaded (rw set_one at placed)

-- the flags that the command line gave
unfoldable pub given : List Flag → List Flag
given [] = []
given (f ∷ rest) = let others = given rest in if f.explicit then f ∷ others else others

-- The flags that the command line gave, and their values, are the same behind
-- ApplyEnvDefaults, whatever the environment holds and whether or not it returns an error.
pub given-apply_env_defaults :
    (set : Bytes → Bytes → Bytes × Option Err) (env : Environment) (flags : List Flag)
    → given (apply_env_defaults set env flags).0 ≡ given flags
unfolding given apply_env_defaults apply_one
given-apply_env_defaults set env [] = refl
given-apply_env_defaults set env (f ∷ rest) = ground (arith, given-apply_env_defaults set env rest)

-- If ApplyEnvDefaults sets the flags before some flag without an error and that flag's own
-- value is refused, then it returns that error, the flags before are set, and those behind are
-- left as they were.
pub apply_env_defaults-stops :
    (set : Bytes → Bytes → Bytes × Option Err) (env : Environment) (before after : List Flag)
    (f : Flag) (e : Err)
    → All (λ g. (apply_one set env g).1 ≡ none) before
    → (apply_one set env f).1 ≡ some e
    → apply_env_defaults set env (before ++ (f ∷ after))
      ≡ (map (λ g. (apply_one set env g).0) before ++ ((apply_one set env f).0 ∷ after), some e)
unfolding apply_env_defaults
apply_env_defaults-stops set env [] after f e h failed = rw (failed, apply_env_defaults) refl
apply_env_defaults-stops set env (g ∷ before) after f e (h, l) failed =
    apply_env_defaults-cons set env g (before ++ (f ∷ after)) h
    ∙ ap (λ q. ((apply_one set env g).0 ∷ q.0, q.1))
        (apply_env_defaults-stops set env before after f e l failed)
