-- ===== src/Fixer/WriteBack.antt =====
-- cmd/fix.go, the end of `fix`: the paths that the provider has deleted are removed from the disk,
-- then its modified files are written. Directories, which are made on the way and cleaned up when
-- they are empty, and file modes are not modelled; the disk is a map from paths to contents.
pub mod Laws
pub mod Overwrite
mod Tests
use regal.Base.{
  none, some, List, [], ◌∷◌, ◌++◌, Text, codes, message, Outcome, ok, err, ◌>>=◌, ◌>>◌, wrap,
  text_eq,
}
use regal.Base.Dict.{Dict, lookup, insert, erase}
use regal.Fixer.InMemory
use regal.Fixer.InMemory.{InMemoryFileProvider}

-- `os.Remove` fails on a path that is not there.
os_remove : Dict Text Text → Text → Outcome (Dict Text Text)
os_remove disk file = elim (lookup file disk) [
  | none ↦ err (message (codes "no such file or directory"))
  | some _ ↦ ok (erase file disk)
]

remove_files : Dict Text Text → List Text → Outcome (Dict Text Text)
unfolding ◌>>=◌ os_remove
remove_files disk [] = ok disk
remove_files disk (file ∷ files) = do
  disk' ← wrap (codes "failed to delete file " ++ file) (os_remove disk file)
  remove_files disk' files

-- `os.WriteFile` replaces what is there.
write_files : InMemoryFileProvider → Dict Text Text → List Text → Outcome (Dict Text Text)
unfolding ◌>>=◌ InMemory.get
write_files p disk [] = ok disk
write_files p disk (file ∷ files) = do
  fc ← wrap (codes "failed to get file " ++ file) (InMemory.get p file)
  write_files p (insert file fc disk) files

pub write_back : Dict Text Text → InMemoryFileProvider → Outcome (Dict Text Text)
unfolding ◌>>=◌ remove_files write_files InMemory.modified_files InMemory.deleted_files
write_back disk p = do
  cleared ← remove_files disk (InMemory.deleted_files p)
  write_files p cleared (InMemory.modified_files p)
