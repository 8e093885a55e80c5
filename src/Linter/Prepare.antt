-- ===== src/Linter/Prepare.antt =====
-- pkg/linter/linter.go: `GetConfig` and `Prepare`. `combine` is `WithDefaultsFromBundle` on the bundle
-- that the program embeds; `compile` makes the query, with its store, and `run_prepare` evaluates the
-- preparation in it: both run the policy engine. In debug mode `GetConfig` also prints the
-- configuration, which with the error of printing it is left out.
use regal.Base.{
  ◌≡◌, true, Option, none, some, List, Text, codes, Outcome, ok, ◌>>=◌, ◌>>◌, wrap, text_eq,
}
use regal.Config.Settings.Types.{Config}
use regal.Util.Set.{Set}
use regal.Linter.Types.{Linter}
use regal.Linter.Validate.{validate}

module _ (combine : Option Config → Outcome Config) where
  unfoldable pub get_config : {M Q : Type 0} → Linter M Q → Outcome Config
  get_config l = elim l.combined_cfg [
    | some conf ↦ ok conf
    | none ↦ wrap (codes "failed to read provided config:") (combine l.user_config)
  ]

  module _ {M Q : Type 0} (path_of : M → List Text) (print : Set Text → Text)
      (compile : Linter M Q → Config → Outcome Q) (run_prepare : Q → Outcome Q) where
    -- The linter that comes back where there is no error.
    unfoldable pub prepare : Linter M Q → Outcome (Linter M Q)
    unfolding get_config
    prepare l = do
      conf ← wrap (codes "failed to merge config:") (get_config l)
      wrap (codes "validation failed:") (validate path_of print l conf)
      let l1 : Linter M Q = record l { combined_cfg = some conf }
      q ← wrap (codes "failed preparing query for linting:") (compile l1 conf)
      q' ← wrap (codes "failed to prepare Rego:") (run_prepare q)
      ok (record l1 { prepared_query = some q'; is_prepared = true })

    -- A linter whose query and configuration are there.
    pub record IsReady (l : Linter M Q) : Type 0 where
      pub config : Config
      pub query : Q
      pub combined : l.combined_cfg ≡ some config
      pub accepted : validate path_of print l config ≡ ok tt
      pub compiled : l.prepared_query ≡ some query
      pub prepared : l.is_prepared ≡ true
