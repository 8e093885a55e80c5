-- ===== src/Fixer/Renaming/Keeps.antt =====
-- pkg/fixer/fixer.go: what a move keeps of the provider and of the report, on every branch.
use regal.Base.{
  ℕ, zero, suc, ◌≡◌, ◌≢◌, inl, inr, Bool, true, false, List, if◌then◌else◌, Bool-cases, contains,
  Text, ok, OnOk, OnOk-then, OnOk-ok, OnOk-unfinished, Outcome-cases, OnOk-err, OnOk-panicked,
  text_eq,
}
use regal.Fixer.Provider.{FileProvider}
use regal.Fixer.Fixes.{FixResult}
use regal.Fixer.Report.{Report, register_conflict_many_to_one, register_conflict_source_file}
use regal.Fixer.Setup.{OnConflictOperation, on_conflict_error, operation-cases}
use regal.Fixer.Renaming.{is_rename_conflict, record_move, try_rename}

module _ {S : Type 0} (fp : FileProvider S) (candidate : Text → Text) (P : S → Type 0)
    (Q : Report → Type 0) (renames : (s : S) (from to : Text) → P s → P (fp.rename s from to).1)
    (deletes : (s : S) (from : Text) → P s → P (fp.delete s from).1)
    (apart : (s : S) (from to : Text) → (fp.rename s from to).0 ≡ ok tt → from ≢ to)
    (records : (r : Report) (to from : Text) (x : FixResult)
      → from ≢ to
      → Q r
      → Q (record_move r to from x))
    (many : (r : Report) (root to from : Text)
      → Q r
      → Q (register_conflict_many_to_one r root to from))
    (source : (r : Report) (root to from : Text)
      → Q r
      → Q (register_conflict_source_file r root to from)) where
  abbrev pub Kept : S × Report × FixResult → Type 0
  Kept x = P x.0 × Q x.1

  -- The branch that reports a conflict.
  registers :
      (b : Bool) (r : Report) (root to from : Text)
      → Q r
      → Q (
          if b
          then register_conflict_source_file r root to from
          else register_conflict_many_to_one r root to from)
  registers true r root to from q = source r root to from q
  registers false r root to from q = many r root to from q

  pub try_rename-keeps :
      (fuel : ℕ) (op : OnConflictOperation) (starting_files : List Text) (from to : Text)
      (x : FixResult) (s : S) (r : Report)
      → (op ≡ on_conflict_error → from ≢ to)
      → P s
      → Q r
      → OnOk Kept (try_rename fp candidate fuel op starting_files from to x (s, r))
  unfolding try_rename
  try_rename-keeps zero op starting_files from to x s r differ p q = OnOk-unfinished Kept
  try_rename-keeps (suc fuel) op starting_files from to x s r differ p q =
      elim (Outcome-cases (fp.rename s from to).0) [
        | inl (_, moved) ↦
            rw (moved, try_rename)
              (OnOk-ok Kept _ (renames s from to p, records r to from _ (apart s from to moved) q))
        | inr (inl (e, failed)) ↦
            rw (failed, try_rename)
              (elim (Bool-cases (is_rename_conflict e)) [
                | inr plain ↦ rw plain (OnOk-err Kept _)
                | inl conflict ↦ rw conflict (elim (operation-cases op) [
                  | inr (inl renaming) ↦ rw renaming (
                      try_rename-keeps fuel op starting_files from (candidate to) x
                        (fp.rename s from to).1 r (λ h. cc) (renames s from to p) q)
                  | inr (inr (t, unknown)) ↦ rw unknown (OnOk-err Kept _)
                  | inl stops ↦ rw stops (
                      OnOk-then Kept _ _ (λ _ _. OnOk-ok Kept _ (
                        deletes (fp.rename s from to).1 from (renames s from to p),
                        records _ to from x (differ stops)
                            (registers (contains starting_files to) r x.root to from q),
                      )))
                ])
              ])
        | inr (inr (inl e)) ↦ rw (e, try_rename) (OnOk-panicked Kept)
        | inr (inr (inr e)) ↦ rw (e, try_rename) (OnOk-unfinished Kept)
      ]
