-- ===== src/ScanLog/Write.antt =====
-- scanlog.go: a log is written to a temporary file and renamed into place.
use zts_airdrop.Base.{
  ℕ, ◌≡◌, refl, ◌⊎◌, inl, inr, false, List, [], ◌∷◌, ◌++◌, Option, none, some, Bytes, Err, wrapf,
  Result, ok, err, arith, All, if◌then◌else◌, is_empty, take, Option-cases,
}
use zts_airdrop.ScanLog.{ScanLog, filename}

-- the file under the log's name, and the temporary file
pub record Folder : Type 0 where
  pub target : Option Bytes
  pub temp : Option Bytes

-- what the operating system answers to each step of `Write`, and `json.MarshalIndent`
pub record Answers : Type 0 where
  pub make_dir : Option Err
  pub encode : ScanLog → Result Bytes
  pub create_temp : Option Err
  -- how many bytes reached the file, and the error if there is one
  pub write : ℕ × Option Err
  pub sync : Option Err
  pub close : Option Err
  pub rename : Option Err
  pub remove : Option Err

module _ (A : Answers) where
  -- `os.Remove(tmpName)`, whose error is dropped
  unfoldable pub removed : Folder → Folder
  removed f = elim A.remove [ none ↦ record f { temp = none } | some e ↦ f ]

  -- behind a write that was whole
  unfoldable pub put_in_place : Bytes → Bytes → Folder → Result Bytes × List Folder
  unfolding removed
  put_in_place path body f = elim A.sync [
    | some e ↦ (err e, f ∷ removed f ∷ [])
    | none ↦ elim A.close [
      | some e ↦ (err e, f ∷ removed f ∷ [])
      | none ↦ elim A.rename [
        | some e ↦ (err e, f ∷ removed f ∷ [])
        | none ↦ (ok path, f ∷ record { target = some body; temp = none } ∷ [])
      ]
    ]
  ]

  -- behind the creation of the temporary file
  unfoldable pub fill_temp : Bytes → Bytes → Folder → Result Bytes × List Folder
  unfolding put_in_place
  fill_temp path body f =
      let (reached, failure) = A.write in
      let short = record f { temp = some (take reached body) } in
      elim failure [
        | some e ↦ (err e, short ∷ removed short ∷ [])
        | none ↦ put_in_place path body (record f { temp = some body })
      ]

  abbrev pub through : Folder → Result Bytes × List Folder → Result Bytes × List Folder
  through f (r, states) = (r, f ∷ states)

  -- the body at hand
  unfoldable pub write_body : Bytes → Bytes → Folder → Result Bytes × List Folder
  unfolding fill_temp
  write_body path body f = elim A.create_temp [
    | some e ↦ (err e, f ∷ [])
    | none ↦
        through f (
          through (record f { temp = some [] }) (fill_temp path body (record f { temp = some [] })))
  ]

  -- `Write`: its result, and the states of the directory that it goes through, with the text
  -- of the time and `filepath.Join` given
  unfoldable pub write_scan_log :
      (ℕ → Bytes) → (Bytes → Bytes → Bytes) → Bytes → ScanLog → Folder → Result Bytes × List Folder
  unfolding write_body
  write_scan_log stamp join_path dir l f =
      if is_empty dir then (ok [], f ∷ []) else elim A.make_dir [
        | some e ↦ (err (wrapf "scan log dir: %w" [] e), f ∷ [])
        | none ↦ elim (A.encode l) [
          | err e ↦ (err e, f ∷ [])
          | ok text ↦ write_body (join_path dir (filename stamp l)) (text ++ (10 ∷ [])) f
        ]
      ]

  -- the state that a list of states ends in
  abbrev pub final_state : Folder → List Folder → Folder
  final_state f [] = f
  final_state f (g ∷ rest) = final_state g rest

  -- The log under its name is the old one all the time, or the whole new one; it is the old one
  -- if there was an error, and without an error it ends as the new one, with nothing beside it.
  pub record IsAtomic (f : Folder) (body : Bytes) (q : Result Bytes × List Folder) : Type 0 where
    pub whole : All (λ (g : Folder). (g.target ≡ f.target) ⊎ (g.target ≡ some body)) q.1
    pub kept : (e : Err) → q.0 ≡ err e → All (λ (g : Folder). g.target ≡ f.target) q.1
    pub placed :
        (path : Bytes)
        → q.0 ≡ ok path
        → final_state f q.1 ≡ record { target = some body; temp = none }

  write_body-IsAtomic : (path body : Bytes) (f : Folder) → IsAtomic f body (write_body path body f)
  unfolding write_body fill_temp put_in_place removed
  write_body-IsAtomic path body f = record {
    whole = ground arith;
    kept = λ e failed. ground arith;
    placed = λ p done. ground arith;
  }

  unwritten : (f : Folder) (body : Bytes) (e : Err) → IsAtomic f body (err e, f ∷ [])
  unwritten f body e = record {
    whole = (inl refl, tt);
    kept = λ x failed. (refl, tt);
    placed = λ p done. absurd (ground arith);
  }

  -- In every state of the directory that Write goes through, the file under the log's name is
  -- the one that was there before or the whole new log; with an error it stays the one before,
  -- and without one it ends as the new log with no temporary file left, whichever step fails.
  -- It assumes that a directory is given and that the log can be encoded.
  pub write_scan_log-IsAtomic :
      (stamp : ℕ → Bytes) (join_path : Bytes → Bytes → Bytes) (dir : Bytes) (l : ScanLog)
      (f : Folder) (text : Bytes)
      → is_empty dir ≡ false
      → A.encode l ≡ ok text
      → IsAtomic f (text ++ (10 ∷ [])) (write_scan_log stamp join_path dir l f)
  unfolding write_scan_log
  write_scan_log-IsAtomic stamp join_path dir l f text named encoded =
      elim (Option-cases A.make_dir) [
        | inr (e, failed) ↦
            simp (named, failed, write_scan_log)
              (unwritten f (text ++ (10 ∷ [])) (wrapf "scan log dir: %w" [] e))
        | inl made ↦
            simp (named, made, encoded, write_scan_log)
              (write_body-IsAtomic (join_path dir (filename stamp l)) (text ++ (10 ∷ [])) f)
      ]
