-- ===== src/Lsp/Server/Threads/Race.antt =====
-- internal/lsp/server.go: two changes of one file whose handlers overlap.
use regal.Base.{Bool, true, false, List, [], ◌∷◌, Text, text_eq}
use regal.Util.Lines
use regal.Lsp.Cache.{Cache, set_parse_errors, set_module, set_successful_parse_line_count}
use regal.Lsp.Server.{Env}
use regal.Lsp.Server.Threads.{Call}

-- Every text may come from the client.
abbrev pub Any : Text → Type 0
Any text = Unit

abbrev pub all_done : {M : Type 0} → List (List (Call M)) → Bool
all_done [] = true
all_done ([] ∷ threads) = all_done threads
all_done ((_ ∷ _) ∷ threads) = false

module _ {M G : Type 0} (env : Env M G) where
  stored : Cache M → Text → Text → M → Cache M
  stored c uri text m =
      set_successful_parse_line_count (set_module (set_parse_errors c uri []) uri m) uri
        (Lines.num_lines text)
