-- ===== src/Mcp/Surface.antt =====
-- `build_server` of enterprise-mcp/enterprise_mcp/server.py, and which tools it registers. The server is the
-- list of the names that are registered.
use hermes_enterprise_deploy.Base.{
  String, true, Option, none, some, List, [], ◌∷◌, ◌≡◌, ◌≢◌, refl, subst, Result, ok, err, ◌||◌,
  ◌==◌, string_eq, if◌then◌else◌, ◌>>=◌, ◌⊎◌, inl, inr, eq_iff, arith, Bool-cases, ok-injective,
  sym, ◌∙◌,
}
use hermes_enterprise_deploy.Base.Members.{contains, contains_of_filter}
use hermes_enterprise_deploy.Platform.{Platform}
use hermes_enterprise_deploy.Mcp.Config.{
  ConfigurationError, no_implementation, all_tools, default_tools, Texts, items_of, unknown_of,
  resolve_known, resolve_enabled_tools,
}

-- The loop: `TOOL_IMPLEMENTATIONS` has the four tools.
unfoldable pub register_all : List String → Result ConfigurationError (List String)
register_all [] = ok []
register_all (name ∷ names) =
    if contains all_tools name
    then register_all names >>= (λ registered. ok (name ∷ registered))
    else err (no_implementation name)

-- `sorted` of the set, as a parameter
unfoldable pub build_server :
    (List String → List String) → List String → Result ConfigurationError (List String)
unfolding register_all
build_server sorted enabled = register_all (sorted enabled)

abbrev pub AllKnown : List String → Type 0
AllKnown tools = (name : String) → contains tools name ≡ true → contains all_tools name ≡ true

either :
    (value : String) → (value == "all" || value == "*") ≡ true → (value ≡ "all") ⊎ (value ≡ "*")
either value h = elim (Bool-cases (value == "all")) [
  | inl yes_all ↦ inl ((eq_iff value "all").0 yes_all)
  | inr other ↦ inr ((eq_iff value "*").0 (rw other at h))
]

module _ (p : Platform) (texts : Texts) where
  known-AllKnown :
      (unknown requested tools : List String)
      → unknown_of p texts requested ≡ unknown
      → resolve_known p texts unknown requested ≡ ok tools
      → (tools ≡ requested) × AllKnown requested × (requested ≢ [])
  unfolding unknown_of
  known-AllKnown (n ∷ rest) requested tools u e = cc
  known-AllKnown [] [] tools u e = cc
  known-AllKnown [] (n ∷ rest) tools u e =
      (sym (ok-injective e), λ name h. contains_of_filter all_tools (n ∷ rest) name u h, λ no. cc)

  -- How the set of tools may have come about.
  pub data Chosen (tools : List String) : Option String → Type 0 where
    unset : tools ≡ default_tools → Chosen tools none
    blank : (raw : String) → p.strip raw ≡ "" → tools ≡ default_tools → Chosen tools (some raw)
    all_of_them :
        (raw : String)
        → (p.lower (p.strip raw) ≡ "all") ⊎ (p.lower (p.strip raw) ≡ "*")
        → tools ≡ all_tools
        → Chosen tools (some raw)
    named :
        (raw : String)
        → tools ≡ items_of p texts (texts.split_commas (p.strip raw))
        → tools ≢ []
        → Chosen tools (some raw)

  default-AllKnown : AllKnown default_tools
  unfolding contains
  default-AllKnown name h = ground (arith)

  -- A set of tools that is resolved has known names only; it is the default when the variable is
  -- unset or blank, all tools for all or *, and otherwise the names of the list, of which there is
  -- one at least.
  pub resolve_enabled_tools-Chosen :
      (raw : Option String) (tools : List String)
      → resolve_enabled_tools p texts raw ≡ ok tools
      → Chosen tools raw × AllKnown tools
  unfolding resolve_enabled_tools
  resolve_enabled_tools-Chosen none tools e =
      let same : tools ≡ default_tools = sym (ok-injective e) in
      (unset same, subst AllKnown (sym same) default-AllKnown)
  resolve_enabled_tools-Chosen (some raw) tools e = elim (Bool-cases (p.strip raw == "")) [
    | inl empty ↦
        let same : tools ≡ default_tools = sym (ok-injective (rw empty at e)) in
        (
          blank raw ((eq_iff (p.strip raw) "").0 empty) same,
          subst AllKnown (sym same) default-AllKnown,
        )
    | inr some_value ↦
        elim (Bool-cases (p.lower (p.strip raw) == "all" || p.lower (p.strip raw) == "*")) [
          | inl every ↦
              let same : tools ≡ all_tools = sym (ok-injective (rw (some_value, every) at e)) in
              (
                all_of_them raw (either (p.lower (p.strip raw)) every) same,
                subst AllKnown (sym same) (λ name h. h),
              )
          | inr listed ↦
              let requested = items_of p texts (texts.split_commas (p.strip raw)) in
              let (same, known, some_name) =
                known-AllKnown (unknown_of p texts requested) requested tools refl
                  (rw (some_value, listed) at e) in
              (
                named raw same (λ none_left. some_name (sym same ∙ none_left)),
                subst AllKnown (sym same) known,
              )
        ]
  ]
