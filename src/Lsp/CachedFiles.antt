-- ===== src/Lsp/CachedFiles.antt =====
-- pkg/fixer/fileprovider/cache.go: the file provider over the language server's cache. `from_path` is
-- `uri.FromPath` for the client, and `to_path` is `uri.ToPath`.
mod Tests
use regal.Base.{
  ◌≡◌, ◌≢◌, none, some, List, [], ◌∷◌, ◌++◌, arith, if◌then◌else◌, eq_iff, Text, codes, message,
  rename_conflict, Outcome, ok, err, text_eq, nat_eq,
}
use regal.Base.Dict.{keys, lookup, insert, erase, lookup-insert}
use regal.Util.Set
use regal.Util.Set.{Set}
use regal.Fixer.Provider.{FileProvider}
use regal.Lsp.Cache
use regal.Lsp.Cache.{Cache}

pub record CacheFileProvider (M : Type 0) : Type 0 where
  pub cache : Cache M
  pub modified_files : Set Text
  pub deleted_files : Set Text

abbrev all_paths : (Text → Text) → List Text → List Text
all_paths to_path [] = []
all_paths to_path (u ∷ us) = to_path u ∷ all_paths to_path us

module _ {M : Type 0} (from_path to_path : Text → Text) where
  unfoldable pub list : CacheFileProvider M → Outcome (List Text)
  list p = ok (all_paths to_path (keys p.cache.file_contents))

  unfoldable pub get : CacheFileProvider M → Text → Outcome Text
  get p file = elim (Cache.get_file_contents p.cache (from_path file)) [
    | none ↦ err (message (codes "failed to get file " ++ file))
    | some contents ↦ ok contents
  ]

  -- The file is used as the key as it is.
  unfoldable pub put : CacheFileProvider M → Text → Text → CacheFileProvider M
  put p file content = record p { cache = Cache.set_file_contents p.cache file content }

  unfoldable pub delete_file : CacheFileProvider M → Text → CacheFileProvider M
  delete_file p file = record p { cache = Cache.delete p.cache (from_path file) }

  unfoldable pub rename_file :
      CacheFileProvider M → Text → Text → Outcome (Unit {0}) × CacheFileProvider M
  rename_file p from to = elim (Cache.get_file_contents p.cache (from_path from)) [
    | none ↦ (err (message (codes "file " ++ from ++ codes " not found")), p)
    | some content ↦
        if Cache.has_file_contents p.cache (from_path to)
        then (err (rename_conflict from to), p)
        else (
          ok tt,
          record {
            cache =
                Cache.delete (Cache.set_file_contents p.cache (from_path to) content)
                  (from_path from);
            modified_files = Set.remove (Set.add p.modified_files (to ∷ [])) (from ∷ []);
            deleted_files = Set.add p.deleted_files (from ∷ []);
          },
        )
  ]

  -- If the URI of a path is another text than the path, then what is put at the path is not what is
  -- read there afterwards: reading gives what it gave before.
  pub get-put :
      (p : CacheFileProvider M) (file content : Text)
      → from_path file ≢ file
      → get (put p file content) file ≡ get p file
  unfolding get put Cache.get_file_contents Cache.set_file_contents
  get-put p file content differ = ground (
    arith,
    lookup-insert file (from_path file) content p.cache.file_contents,
    eq_iff file (from_path file),
    differ,
  )
