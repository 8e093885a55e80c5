-- ===== src/Fixer/Provider.antt =====
-- pkg/fixer/fileprovider/fp.go: the interface through which the fixer reads and changes files, and
-- what the fixer relies on. A method that mutates returns its error beside the new state.
use regal.Base.{
  false, Option, none, some, List, Text, text_eq, Outcome, ok, err, rename_conflict, ◌≡◌,
  if◌then◌else◌, ◌==◌, contains,
}

pub record FileProvider (S : Type 0) : Type 0 where
  pub list : S → Outcome (List Text)
  pub get : S → Text → Outcome Text
  pub put : S → Text → Text → Outcome (Unit {0}) × S
  pub delete : S → Text → Outcome (Unit {0}) × S
  pub rename : S → Text → Text → Outcome (Unit {0}) × S

-- What the operations mean for the abstract file system `content`.
pub record IsFileSystem {S : Type 0} (fp : FileProvider S) (content : S → Text → Option Text)
    : Type 0 where
  pub listed :
      (s : S)
      → (fs : List Text) × (fp.list s ≡ ok fs)
        × ((f : Text) → (contains fs f ≡ false) → content s f ≡ none)
  pub got : (s : S) (f c : Text) → content s f ≡ some c → fp.get s f ≡ ok c
  pub put_ok : (s : S) (f c : Text) → (fp.put s f c).0 ≡ ok tt
  pub put_content :
      (s : S) (f c j : Text) → content (fp.put s f c).1 j ≡ (if f == j then some c else content s j)
  pub delete_ok : (s : S) (f : Text) → (fp.delete s f).0 ≡ ok tt
  pub delete_content :
      (s : S) (f j : Text) → content (fp.delete s f).1 j ≡ (if f == j then none else content s j)
  pub moved :
      (s : S) (from to c : Text)
      → content s from ≡ some c
      → content s to ≡ none
      → (fp.rename s from to).0 ≡ ok tt
  pub moved_content :
      (s : S) (from to c j : Text)
      → content s from ≡ some c
      → content s to ≡ none
      → content (fp.rename s from to).1 j
        ≡ (if from == j then none else if to == j then some c else content s j)
  pub in_the_way :
      (s : S) (from to c d : Text)
      → content s from ≡ some c
      → content s to ≡ some d
      → fp.rename s from to ≡ (err (rename_conflict from to), s)
