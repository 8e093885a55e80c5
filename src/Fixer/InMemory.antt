-- ===== src/Fixer/InMemory.antt =====
-- pkg/fixer/fileprovider/inmem.go: files held in a map, with the sets of those changed and those
-- taken away since they were read.
pub mod Laws
pub mod Tracking
use regal.Base.{
  none, some, List, [], ◌∷◌, ◌++◌, Text, codes, message, wrapped, rename_conflict, Outcome, ok, err,
  ◌>>=◌, ◌>>◌, text_eq,
}
use regal.Base.Dict.{Dict, keys, lookup, insert, erase}
use regal.Util.Set
use regal.Util.Set.{Set}
use regal.Fixer.Provider.{FileProvider}

pub record InMemoryFileProvider : Type 0 where
  pub files : Dict Text Text
  pub modified : Set Text
  pub deleted : Set Text

unfoldable pub new_in_memory : Dict Text Text → InMemoryFileProvider
new_in_memory files = record { files = files; modified = Set.new_set []; deleted = Set.new_set [] }

-- The files of `paths` as the disk has them.
read_all : Dict Text Text → List Text → Dict Text Text → Outcome (Dict Text Text)
read_all disk [] files = ok files
read_all disk (path ∷ paths) files = elim (lookup path disk) [
  | none ↦ err (wrapped (codes "failed to read file " ++ path) (message (codes "no such file")))
  | some fc ↦ read_all disk paths (insert path fc files)
]

unfoldable pub new_from_fs : Dict Text Text → List Text → Outcome InMemoryFileProvider
unfolding ◌>>=◌ read_all
new_from_fs disk paths = do files ← read_all disk paths []; ok (new_in_memory files)

unfoldable pub list : InMemoryFileProvider → Outcome (List Text)
list p = ok (keys p.files)

unfoldable pub get : InMemoryFileProvider → Text → Outcome Text
get p file = elim (lookup file p.files) [
  | none ↦ err (message (codes "file " ++ file ++ codes " not found"))
  | some content ↦ ok content
]

unfoldable pub put : InMemoryFileProvider → Text → Text → InMemoryFileProvider
put p file content = record p {
  files = insert file content p.files;
  modified = Set.add p.modified (file ∷ []);
}

unfoldable pub delete : InMemoryFileProvider → Text → InMemoryFileProvider
delete p file = record p {
  deleted = Set.add p.deleted (file ∷ []);
  modified = Set.remove p.modified (file ∷ []);
  files = erase file p.files;
}

unfoldable pub rename :
    InMemoryFileProvider → Text → Text → Outcome (Unit {0}) × InMemoryFileProvider
unfolding put delete
rename p from to = elim (lookup from p.files) [
  | none ↦ (err (message (codes "file " ++ from ++ codes " not found")), p)
  | some content ↦ elim (lookup to p.files) [
    | some _ ↦ (err (rename_conflict from to), p)
    | none ↦ (ok tt, delete (put p to content) from)
  ]
]

unfoldable pub modified_files : InMemoryFileProvider → List Text
unfolding Set.items
modified_files p = Set.items p.modified

unfoldable pub deleted_files : InMemoryFileProvider → List Text
unfolding Set.items
deleted_files p = Set.items p.deleted

-- The methods as the interface has them.
unfoldable pub in_memory : FileProvider InMemoryFileProvider
unfolding list get put delete rename
in_memory = record {
  list = list;
  get = get;
  put = λ p file content. (ok tt, put p file content);
  delete = λ p file. (ok tt, delete p file);
  rename = rename;
}
