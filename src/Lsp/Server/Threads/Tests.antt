-- ===== src/Lsp/Server/Threads/Tests.antt =====
-- The threads of a server whose parser takes each text for its own module.
use regal.Base.{◌≡◌, refl, true, false, [], ◌∷◌, ◌==◌, Text, codes, text_beq, ok, text_eq, nat_eq}
use regal.Base.Dict.{lookup, insert}
use regal.Config.Settings.Types.{zero_config}
use regal.Lsp.Cache.{
  Cache, new_cache, set_file_contents, set_parse_errors, set_module, get_file_contents, get_module,
  get_parse_errors,
}
use regal.Lsp.Server.{Env, parsed, parse_uri}
use regal.Lsp.Server.Threads.{sets, parses, sets_errors, sets_module, sets_count, perform, World}
use regal.Lsp.Server.Threads.Given.{OnSome, FromText, FromErrors}
use regal.Lsp.Server.Threads.Reached.{Reach, begins, works, runs, Reach-FromText}

abbrev env : Env Text Text
env = record {
  root_uri = codes "file:///w";
  config = zero_config;
  all_rego_versions = [];
  server_testing = false;
  glob = λ p. ok p;
  matches = λ g name. g == name;
  walk = λ p found. ok found;
  parse = λ name content version. parsed content;
  store_module = λ m. ok tt;
  defined_refs = λ m. record { is_package = true; label = codes "data.p" } ∷ [];
}

abbrev policy : Text
policy = codes "file:///w/p.rego"

abbrev text : Text
text = codes "package p"

abbrev Given : Text → Type 0
Given t = t ≡ text

abbrev done : Cache Text
done = set_module (set_parse_errors (set_file_contents new_cache policy text) policy []) policy text

abbrev world : World Text
world = record { cache = done; threads = (sets_count policy 1 ∷ []) ∷ [] }

reached : Reach env Given world
unfolding perform get_file_contents set_file_contents new_cache insert lookup
    regal.Lsp.Concurrent.get regal.Lsp.Concurrent.set_key regal.Lsp.Concurrent.map_of
    regal.Base.text_beq regal.Util.Lines.num_lines parse_uri
reached =
    runs (set_parse_errors (set_file_contents new_cache policy text) policy []) [] []
      (sets_module policy text) (sets_count policy 1 ∷ [])
      (runs (set_file_contents new_cache policy text) [] [] (sets_errors policy [])
        (sets_module policy text ∷ sets_count policy 1 ∷ [])
        (runs (set_file_contents new_cache policy text) [] [] (parses policy) [] (
          runs new_cache [] [] (sets policy text) (parses policy ∷ [])
            (works begins (sets policy text ∷ parses policy ∷ []) (refl, (tt, tt))))))

Reach-FromText_example :
    OnSome (FromText env Given policy) (get_module world.cache policy)
    × OnSome (FromErrors env Given policy) (get_parse_errors world.cache policy)
Reach-FromText_example = Reach-FromText env Given world reached policy
