-- ===== src/Linter/Run/Again.antt =====
-- pkg/linter/linter.go: what a linter that was prepared keeps.
use regal.Base.{
  ℕ, ◌<◌, ◌≡◌, refl, sym, ◌∙◌, true, Option, some, List, arith, set, Text, Outcome, ok, ◌>>=◌, wrap,
  >>=-eq-ok, wrap-eq-ok, text_eq,
}
use regal.Config.Settings.Types.{Config}
use regal.Util.Set.{Set}
use regal.Linter.Types.{Linter, Report}
use regal.Linter.Options.{not_prepared, with_user_config}
use regal.Linter.Validate.{validate}
use regal.Linter.Merge.{lint_with_aggregate_rules}
use regal.Linter.Prepare.{get_config, prepare, IsReady}
use regal.Linter.Run.{Engine, has_aggregates, with_aggregates}

module _ (combine : Option Config → Outcome Config) {M Q : Type 0} (path_of : M → List Text)
    (print : Set Text → Text) (compile : Linter M Q → Config → Outcome Q)
    (run_prepare : Q → Outcome Q) where
  ready :
      (l l' : Linter M Q) (conf : Config) (q : Q)
      → validate path_of print l conf ≡ ok tt
      → record l { combined_cfg = some conf; prepared_query = some q; is_prepared = true } ≡ l'
      → IsReady combine path_of print compile run_prepare l'
  unfolding validate
  ready l l' conf q valid done = rw (← done) (record {
    config = conf;
    query = q;
    combined = refl;
    accepted = valid;
    compiled = refl;
    prepared = refl;
  })

  -- A linter that `Prepare` returns has a query and a configuration that `validate` accepts.
  pub prepare-IsReady :
      (l l' : Linter M Q)
      → prepare combine path_of print compile run_prepare l ≡ ok l'
      → IsReady combine path_of print compile run_prepare l'
  unfolding prepare
  prepare-IsReady l l' h =
      let (conf, _, h1) = >>=-eq-ok _ _ h in
      let (u, valid, h2) = >>=-eq-ok _ _ h1 in
      let (q0, _, h3) = >>=-eq-ok _ _ h2 in
      let (q, _, done) = >>=-eq-ok _ _ h3 in
      ready l l' conf q (wrap-eq-ok _ _ valid)
        (let final : (x : Linter M Q) → ok x ≡ ok l' → x ≡ l' = λ x e. cc (e) in final _ done)

  get_config_kept :
      (l : Linter M Q) (conf : Config) → l.combined_cfg ≡ some conf → get_config combine l ≡ ok conf
  unfolding get_config
  get_config_kept l conf e = rw (e, get_config) refl

  prepare_kept :
      (l l' : Linter M Q) (conf : Config)
      → l.combined_cfg ≡ some conf
      → prepare combine path_of print compile run_prepare l ≡ ok l'
      → l'.combined_cfg ≡ some conf
  unfolding prepare
  prepare_kept l l' conf kept h =
      let (conf', found, h1) = >>=-eq-ok _ _ h in
      let (u, _, h2) = >>=-eq-ok _ _ h1 in
      let (q0, _, h3) = >>=-eq-ok _ _ h2 in
      let (q, _, done) = >>=-eq-ok _ _ h3 in
      let final : (x : Linter M Q) → ok x ≡ ok l' → x.combined_cfg ≡ l'.combined_cfg =
        λ x e. cc (e) in
      let same : ok conf ≡ ok conf' = sym (get_config_kept l conf kept) ∙ wrap-eq-ok _ _ found in
      sym (final _ done) ∙ cc (same)

  prepare-user_config :
      (l l' : Linter M Q)
      → prepare combine path_of print compile run_prepare l ≡ ok l'
      → l'.user_config ≡ l.user_config
  unfolding prepare
  prepare-user_config l l' h =
      let (conf, _, h1) = >>=-eq-ok _ _ h in
      let (u, _, h2) = >>=-eq-ok _ _ h1 in
      let (q0, _, h3) = >>=-eq-ok _ _ h2 in
      let (q, _, done) = >>=-eq-ok _ _ h3 in
      let final : (x : Linter M Q) → ok x ≡ ok l' → x.user_config ≡ l'.user_config =
        λ x e. cc (e) in
      sym (final _ done)

  options_kept :
      (l : Linter M Q) (cfg : Config)
      → ((with_user_config l cfg).combined_cfg ≡ l.combined_cfg)
        × ((with_user_config l cfg).user_config ≡ some cfg)
  unfolding with_user_config not_prepared
  options_kept l cfg = (refl, refl)

  -- When a linter was prepared, is given another user configuration, and is prepared again without an
  -- error, the new user configuration is not merged: `GetConfig` returns the combined configuration
  -- from before, and that is the combined configuration after the second preparation too, although
  -- the user configuration that the linter holds is then the new one.
  pub with_user_config_ignored :
      (l l' again : Linter M Q) (cfg : Config)
      → prepare combine path_of print compile run_prepare l ≡ ok l'
      → prepare combine path_of print compile run_prepare (with_user_config l' cfg) ≡ ok again
      → (get_config combine (with_user_config l' cfg) ≡ get_config combine l')
        × (again.combined_cfg ≡ l'.combined_cfg)
        × (again.user_config ≡ some cfg)
  with_user_config_ignored l l' again cfg h k =
      let r = prepare-IsReady l l' h in
      let (same, set) = options_kept l' cfg in
      let kept = same ∙ r.combined in
      (
        get_config_kept (with_user_config l' cfg) r.config kept
            ∙ sym (get_config_kept l' r.config r.combined),
        prepare_kept (with_user_config l' cfg) again r.config kept k ∙ sym r.combined,
        prepare-user_config (with_user_config l' cfg) again k ∙ set,
      )

module _ {M Q O G : Type 0} (engine : Engine M Q O G) where
  -- With profiling, what was measured in the files is lost where aggregate rules run: the profile is
  -- then that of the aggregate rules alone.
  pub with_aggregates_profile :
      (l : Linter M Q) (q : Q) (num_files : ℕ) (r out rep : Report O)
      → 1 < num_files
      → has_aggregates r.aggregates ≡ true
      → l.profiling ≡ true
      → lint_with_aggregate_rules engine.empty_object
          (engine.evaluate_aggregates q l.profiling)
          r.aggregates
          r.ignore_directives
        ≡ ok rep
      → with_aggregates engine l q num_files r ≡ ok out
      → out.aggregate_profile ≡ rep.aggregate_profile
  unfolding with_aggregates wrap ◌>>=◌
  with_aggregates_profile l q num_files r out rep several collected profiling found h =
      ground (arith, several, collected, profiling, found, h)
