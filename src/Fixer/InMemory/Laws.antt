-- ===== src/Fixer/InMemory/Laws.antt =====
-- pkg/fixer/fileprovider/inmem.go: each method against a file system seen as a function from paths
-- to contents.
use regal.Base.{◌≡◌, refl, Option, none, some, arith, if◌then◌else◌, ◌==◌, Text, ok, text_eq}
use regal.Base.Dict.{keys, lookup, lookup-insert, lookup-erase, contains-keys}
use regal.Fixer.Provider.{IsFileSystem}
use regal.Fixer.InMemory.{InMemoryFileProvider, get, put, delete, rename, in_memory}

abbrev pub content : InMemoryFileProvider → Text → Option Text
content p f = lookup f p.files

pub lookup-put :
    (p : InMemoryFileProvider) (f c j : Text)
    → content (put p f c) j ≡ (if f == j then some c else content p j)
unfolding put
lookup-put p f c j = lookup-insert f j c p.files

pub lookup-delete :
    (p : InMemoryFileProvider) (f j : Text)
    → content (delete p f) j ≡ (if f == j then none else content p j)
unfolding delete
lookup-delete p f j = lookup-erase f j p.files

pub rename_moves :
    (p : InMemoryFileProvider) (from to c : Text)
    → content p from ≡ some c
    → content p to ≡ none
    → rename p from to ≡ (ok tt, delete (put p to c) from)
unfolding rename
rename_moves p from to c hf ht = ground arith

-- The in-memory provider behaves as a file system: reads give what was last written, a rename moves
-- the content and clears the old path, and a rename onto a path that is taken, or onto itself, is a
-- conflict that changes nothing.
pub in_memory-IsFileSystem : IsFileSystem in_memory content
unfolding in_memory
in_memory-IsFileSystem = record {
  listed = λ p. (keys p.files, refl, λ f. (contains-keys p.files f).0);
  got = λ p f c h. unfold get in ground arith;
  put_ok = λ p f c. refl;
  put_content = lookup-put;
  delete_ok = λ p f. refl;
  delete_content = lookup-delete;
  moved = λ p from to c hf ht. ground (arith, rename_moves p from to c hf ht);
  moved_content = λ p from to c j hf ht. ground (
    arith,
    rename_moves p from to c hf ht,
    lookup-delete (put p to c) from j,
    lookup-put p to c j,
  );
  in_the_way = λ p from to c d hf ht. unfold rename in ground arith;
}
