-- ===== src/Lsp/CachedFiles/Tests.antt =====
-- pkg/fixer/fileprovider/cache.go: a file that is put at its path.
use regal.Base.{◌≡◌, refl, ◌≢◌, [], ◌∷◌, ◌++◌, Text, codes, text_beq, ne-of_beq, text_eq}
use regal.Lsp.CachedFiles.{CacheFileProvider, get, put, get-put}

abbrev from_path : Text → Text
from_path path = codes "file://" ++ path

abbrev provider : CacheFileProvider (Unit {0})
provider = record {
  cache = record {
    file_contents = (codes "file:///a", codes "x") ∷ [];
    ignored_file_contents = [];
    modules = [];
    diagnostics_file = [];
    diagnostics_parse_errors = [];
    successful_parse_line_counts = [];
  };
  modified_files = record { elements = [] };
  deleted_files = record { elements = [] };
}

apart : from_path (codes "/a") ≢ codes "/a"
unfolding regal.Base.text_beq
apart = ne-of_beq (from_path (codes "/a")) (codes "/a") refl

get-put_example :
    get from_path (λ u. u) (put from_path (λ u. u) provider (codes "/a") (codes "y")) (codes "/a")
    ≡ get from_path (λ u. u) provider (codes "/a")
get-put_example = get-put from_path (λ u. u) provider (codes "/a") (codes "y") apart
