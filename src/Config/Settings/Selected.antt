-- ===== src/Config/Settings/Selected.antt =====
-- pkg/config/config.go: which settings of `capabilities.from` are taken, and what comes of them.
use regal.Base.{
  ◌≡◌, refl, ap, ◌∙◌, subst, ◌≢◌, ◌↔◌, true, Option, none, some, List, [], ◌∷◌, ◌++◌, arith,
  if◌then◌else◌, ◌==◌, eq_iff, contains, Text, codes, message, Outcome, ok, err, ◌>>=◌, wrap,
  >>=-eq-ok, wrap-eq-ok, text_eq, nat_eq,
}
use regal.Base.Dict.{Dict, lookup, insert, erase, lookup-insert, lookup-erase}
use regal.Go.Strings.{has_prefix}
use regal.Config.Settings.Values.{Value, null, text}
use regal.Config.Settings.Types.{Builtin, Capabilities, Config, Ignore}
use regal.Config.Settings.Source.{
  EngineBuiltin, EngineCapabilities, From, MarshallingIntermediary, is_set, default_url, engine_url,
  file_url, capabilities_url, from_opa_builtin, from_opa_capabilities, remove_builtins,
  add_builtins, unmarshal_yaml,
}

-- The four ways in which the settings name a document.
pub data Selected (abs : Text → Outcome Text) (from : From) (url : Text) : Type 0 where
  by_engine :
      (version : Text)
      → from.url ≡ []
      → from.file ≡ []
      → from.engine ≢ []
      → version ≢ []
      → from.version ≡ text version
      → (from.engine ≡ codes "opa" → has_prefix version (codes "v") ≡ true)
      → codes "regal:///capabilities/" ++ (from.engine ++ (codes "/" ++ version)) ≡ url
      → Selected abs from url
  by_file :
      (absfp : Text)
      → from.url ≡ []
      → from.engine ≡ []
      → from.file ≢ []
      → abs from.file ≡ ok absfp
      → file_url absfp ≡ url
      → Selected abs from url
  by_url :
      from.file ≡ []
      → from.engine ≡ []
      → url ≢ []
      → from.version ≡ text []
      → from.url ≡ url
      → Selected abs from url
  by_default :
      from.url ≡ [] → from.file ≡ [] → from.engine ≡ [] → default_url ≡ url → Selected abs from url

module _ (abs : Text → Outcome Text) where
  engine_accepted :
      (engine version url : Text)
      → engine_url engine (text version) ≡ ok url
      → (engine ≡ codes "opa" → has_prefix version (codes "v") ≡ true)
        × (codes "regal:///capabilities/" ++ (engine ++ (codes "/" ++ version)) ≡ url)
  unfolding engine_url
  engine_accepted engine version url h = ground (arith, h, eq_iff engine (codes "opa"))

  -- By the fields, each empty or not.
  selected :
      (e : Text) (v : Value) (f u url : Text)
      → capabilities_url abs (record { engine = e; version = v; file = f; url = u }) ≡ ok url
      → Selected abs (record { engine = e; version = v; file = f; url = u }) url
  unfolding capabilities_url engine_url
  selected [] v [] [] url h = Selected.by_default refl refl refl (ground (arith, h))
  selected [] v (c ∷ f) [] url h =
      let (absfp, found, done) = >>=-eq-ok _ _ h in
      Selected.by_file absfp refl refl (λ e. cc) (wrap-eq-ok _ _ found) (ground (arith, done))
  selected (c ∷ e) (text (d ∷ v)) [] [] url h =
      let (prefixed, same) = engine_accepted (c ∷ e) (d ∷ v) url h in
      Selected.by_engine (d ∷ v) refl refl (λ x. cc) (λ x. cc) refl prefixed same
  selected [] (text []) [] (c ∷ u) url h =
      Selected.by_url refl refl (λ e. ground (arith, h, e)) refl (ground (arith, h))
  selected e v f u url h = absurd (ground (arith, h))

  set : (t : Text) → t ≢ [] → is_set t ≡ true
  set [] h = absurd (h refl)
  set (c ∷ t) h = refl

  settles : (from : From) (url : Text) → Selected abs from url → capabilities_url abs from ≡ ok url
  unfolding capabilities_url engine_url wrap ◌>>=◌
  settles from url
        (Selected.by_engine version no_url no_file has_engine has_version is_text prefixed same) =
      ground (
        arith,
        set from.engine has_engine,
        set version has_version,
        eq_iff from.engine (codes "opa"),
        prefixed,
      )
  settles from url (Selected.by_file absfp no_url no_engine has_file found same) =
      ground (arith, set from.file has_file)
  settles from url (Selected.by_url no_file no_engine has_url empty same) =
      ground (arith, set url has_url, same)
  settles from url (Selected.by_default no_url no_file no_engine same) = ground arith

  -- `UnmarshalYAML` settles on a URL exactly where one of these holds: the settings are an engine and
  -- a version, a string that starts with `v` for OPA; a file; a URL with an empty string as version; or
  -- none of the three; and in each case it is the URL of that document.
  pub capabilities_url_iff :
      (from : From) (url : Text) → (capabilities_url abs from ≡ ok url) ↔ Selected abs from url
  capabilities_url_iff from url =
      (selected from.engine from.version from.file from.url url, settles from url)

  -- A URL alone, as the documentation has it, is refused, as if it stood beside a version: the missing
  -- version is nil, which differs from the empty string.
  pub capabilities_url_alone :
      (from : From)
      → from.url ≢ []
      → from.version ≡ null
      → from.file ≡ []
      → from.engine ≡ []
      → capabilities_url abs from
        ≡ err (
            message
              (codes "capabilities from.url and from.version" ++ codes " are mutually exclusive"))
  unfolding capabilities_url
  capabilities_url_alone from has_url missing no_file no_engine =
      ground (arith, set from.url has_url)

-- Removing and adding built-ins.
lookup-remove_builtins :
    (minus : List Text) (builtins : Dict Text Builtin) (name : Text)
    → lookup name (remove_builtins minus builtins)
      ≡ (if contains minus name then none else lookup name builtins)
unfolding remove_builtins contains
lookup-remove_builtins [] builtins name = refl
lookup-remove_builtins (m ∷ minus) builtins name = ground (
  arith,
  lookup-remove_builtins minus (erase m builtins) name,
  lookup-erase m name builtins,
  eq_iff m name,
)

-- The last built-in of a name.
abbrev pub last_named : Text → List (Option EngineBuiltin) → Option Builtin
last_named name [] = none
last_named name (none ∷ plus) = last_named name plus
last_named name (some b ∷ plus) = elim (last_named name plus) [
  | some later ↦ some later
  | none ↦ if b.name == name then some (from_opa_builtin b) else none
]

abbrev pub or_old {ℓ} : {A : Type ℓ} → Option A → Option A → Option A
or_old none old = old
or_old (some now) old = some now

lookup-add_builtins :
    (plus : List (Option EngineBuiltin)) (builtins out : Dict Text Builtin) (name : Text)
    → add_builtins plus builtins ≡ ok out
    → lookup name out ≡ or_old (last_named name plus) (lookup name builtins)
unfolding add_builtins
lookup-add_builtins [] builtins out name h = ground (arith, h)
lookup-add_builtins (none ∷ plus) builtins out name h = absurd (cc)
lookup-add_builtins (some b ∷ plus) builtins out name h = ground (
  arith,
  lookup-add_builtins plus (insert b.name (from_opa_builtin b) builtins) out name,
  lookup-insert b.name name (from_opa_builtin b) builtins,
)

-- The names of the settings that end up as built-ins, and with which declaration.
abbrev pub BuiltinsRead : MarshallingIntermediary → EngineCapabilities → Capabilities → Type 0
BuiltinsRead result opa_caps caps =
    (name : Text)
    → lookup name caps.builtins
      ≡ or_old (last_named name result.plus) (
          if contains result.minus name
          then none
          else lookup name (from_opa_capabilities opa_caps).builtins)

module _ (decode_ignore : Value → Outcome Ignore) (abs : Text → Outcome Text)
    (find : Text → Outcome EngineCapabilities) where
  -- Where a configuration is read, its capabilities are those found at the URL that the settings
  -- name, and it keeps that URL; of the built-ins, one that `plus` names has the declaration that
  -- `plus` gives it last, also if `minus` names it; one that only `minus` names is gone, and every
  -- other one is as it was found.
  pub unmarshal_yaml-builtins :
      (c conf : Config) (result : MarshallingIntermediary)
      → unmarshal_yaml decode_ignore abs find c result ≡ ok conf
      → (opa_caps : EngineCapabilities) × (caps : Capabilities) × (Selected abs result.from
          conf.capabilities_url)
        × (find conf.capabilities_url ≡ ok opa_caps)
        × (conf.capabilities ≡ some caps)
        × BuiltinsRead result opa_caps caps
  unfolding unmarshal_yaml
  unmarshal_yaml-builtins c conf result h =
      let (c1, _, h1) = >>=-eq-ok _ _ h in
      let (c2, _, h2) = >>=-eq-ok _ _ h1 in
      let (url, url_found, h3) = >>=-eq-ok _ _ h2 in
      let (opa_caps, found, h4) = >>=-eq-ok _ _ h3 in
      let (builtins, added, done) = >>=-eq-ok _ _ h4 in
      let same : url ≡ conf.capabilities_url = ground (arith, done) in
      (
        opa_caps,
        record (from_opa_capabilities opa_caps) { builtins = builtins },
        subst (λ u. Selected abs result.from u) same
            ((capabilities_url_iff abs result.from url).0 url_found),
        subst (λ u. find u ≡ ok opa_caps) same (wrap-eq-ok _ _ found),
        ground (arith, done),
        λ name.
            lookup-add_builtins result.plus
              (remove_builtins result.minus (from_opa_capabilities opa_caps).builtins) builtins name
              added
            ∙ ap (or_old (last_named name result.plus)) (
                lookup-remove_builtins result.minus (from_opa_capabilities opa_caps).builtins name),
      )
