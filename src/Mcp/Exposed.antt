-- ===== src/Mcp/Exposed.antt =====
-- When the server that is built from the environment offers the one tool that mutates.
use hermes_enterprise_deploy.Base.{
  String, true, Option, some, List, [], ◌∷◌, ok, ◌≡◌, sym, ap, subst, ◌∙◌, ◌⊎◌, inl, inr,
  Bool-cases, ok-injective, >>=-eq-ok, string_eq,
}
use hermes_enterprise_deploy.Base.Members.{contains}
use hermes_enterprise_deploy.Platform.{Platform}
use hermes_enterprise_deploy.Mcp.Config.{
  Environ, Texts, items_of, all_tools, enabled_tools_from_env,
}
use hermes_enterprise_deploy.Mcp.Surface.{
  Chosen, unset, blank, all_of_them, named, register_all, build_server,
  resolve_enabled_tools-Chosen,
}

register_all-eq : (names server : List String) → register_all names ≡ ok server → server ≡ names
unfolding register_all
register_all-eq [] server e = sym (ok-injective e)
register_all-eq (name ∷ names) server e = elim (Bool-cases (contains all_tools name)) [
  | inl known ↦
      let (rest, e1, e2) = >>=-eq-ok (register_all names) _ (rw known at e) in
      sym (ok-injective e2) ∙ ap (◌∷◌ name) (register_all-eq names rest e1)
  | inr unknown ↦ cc (rw unknown at e)
]

module _ (p : Platform) (texts : Texts) where
  -- The operator has asked for the tool: by `all`, by `*`, or by its name.
  pub data Asked : Option String → Type 0 where
    everything :
        (raw : String)
        → (p.lower (p.strip raw) ≡ "all") ⊎ (p.lower (p.strip raw) ≡ "*")
        → Asked (some raw)
    by_name :
        (raw : String)
        → contains (items_of p texts (texts.split_commas (p.strip raw))) "apply_incident_plan"
          ≡ true
        → Asked (some raw)

  Chosen-Asked :
      (tools : List String) (raw : Option String)
      → Chosen p texts tools raw
      → contains tools "apply_incident_plan" ≡ true
      → Asked raw
  unfolding contains
  Chosen-Asked tools _ (unset e) h = cc (subst (λ t. contains t "apply_incident_plan" ≡ true) e h)
  Chosen-Asked tools _ (blank raw b e) h =
      cc (subst (λ t. contains t "apply_incident_plan" ≡ true) e h)
  Chosen-Asked tools _ (all_of_them raw every e) h = everything raw every
  Chosen-Asked tools _ (named raw e some_name) h =
      by_name raw (subst (λ t. contains t "apply_incident_plan" ≡ true) e h)

  -- When sorting keeps the names, the server offers exactly the tools that the environment
  -- resolves to, and it offers the mutating tool only if the variable is set to all, to *, or to a
  -- list that names it.
  pub build_server-Asked :
      (sorted : List String → List String)
      → ((names : List String) (name : String) → contains (sorted names) name ≡ contains names name)
      → (env : Environ) (tools server : List String) → enabled_tools_from_env p texts env ≡ ok tools
      → build_server sorted tools ≡ ok server
      → ((name : String) → contains server name ≡ contains tools name)
        × (contains server "apply_incident_plan" ≡ true
            → Asked (env "ENTERPRISE_MCP_ENABLED_TOOLS"))
  unfolding build_server enabled_tools_from_env
  build_server-Asked sorted keeps env tools server enabled built =
      let same = register_all-eq (sorted tools) server built in
      let all : (name : String) → contains server name ≡ contains tools name =
        λ name. ap (λ l. contains l name) same ∙ keeps tools name in
      (
        all,
        λ h.
            Chosen-Asked tools _
              (resolve_enabled_tools-Chosen p texts (env "ENTERPRISE_MCP_ENABLED_TOOLS") tools
                enabled).0
              (sym (all "apply_incident_plan") ∙ h),
      )
