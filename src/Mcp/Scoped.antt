-- ===== src/Mcp/Scoped.antt =====
-- The mutating tool: which token it presents, what it says of it, and when it sends the write.
use hermes_enterprise_deploy.Base.{
  ℕ, String, true, false, Option, none, some, Result, ok, err, ◌==◌, string_eq, ◌≡◌, ◌≢◌, refl, sym,
  ap, subst, ◌⊎◌, inl, inr, eq_iff, Bool-cases,
}
use hermes_enterprise_deploy.Json.{Json, str, Fields, get, set, has, get-set}
use hermes_enterprise_deploy.Platform.{Platform}
use hermes_enterprise_deploy.Approvals.Entry.{ApprovalError}
use hermes_enterprise_deploy.Runner.Executor.{Request, Inputs, Runner}
use hermes_enterprise_deploy.Runner.Executor.Gate.{Authorized, apply_incident_action-gate}
use hermes_enterprise_deploy.Mcp.Config.{
  ConfigurationError, Environ, McpSettings, Texts, load_settings, can_mutate, written,
}
use hermes_enterprise_deploy.Mcp.Server

-- The token of a client, and the scope that the tool's answer names.
pub data IsScoped (settings : McpSettings) (payload : Fields) : String → Type 0 where
  writing :
      (token : String)
      → settings.api_write_token ≡ some token
      → token ≢ ""
      → get "credential_scope" payload ≡ some (str "write_token")
      → IsScoped settings payload token
  reading :
      can_mutate settings ≡ false
      → get "credential_scope" payload ≡ some (str "read_token_only")
      → has "scope_note" payload ≡ true
      → IsScoped settings payload settings.api_token

has_of_get :
    (key : String) (fields : Fields) (j : Json) → get key fields ≡ some j → has key fields ≡ true
has_of_get key fields j e = ap (λ o. elim o [ none ↦ false | some _ ↦ true ]) e

noted :
    (fields : Fields)
    → get "credential_scope" fields ≡ some (str "read_token_only")
    → (get "credential_scope" (Server.set_default "scope_note" (str Server.scope_note) fields)
        ≡ some (str "read_token_only"))
      × (has "scope_note" (Server.set_default "scope_note" (str Server.scope_note) fields) ≡ true)
noted fields e = elim (Bool-cases (has "scope_note" fields)) [
  | inl there ↦ rw there (e, there)
  | inr missing ↦ rw missing (
    simp (get-set, e),
    has_of_get "scope_note" (set "scope_note" (str Server.scope_note) fields)
        (str Server.scope_note) (simp get-set),
  )
]

-- What the client and the answer are, from the write token and the read token.
written_token :
    (o : Option String) (token : String)
    → ((t : String) × (o ≡ some t)
        × (t ≢ "")
        × (written o ≡ true)
        × (Server.non_empty_or o token ≡ t))
      ⊎ ((written o ≡ false) × (Server.non_empty_or o token ≡ token))
written_token none token = inr (refl, refl)
written_token (some t) token = elim (Bool-cases (t == "")) [
  | inl empty ↦ inr (rw empty, rw empty)
  | inr full ↦ inl (t, refl, (λ e. cc ((eq_iff t "").1 e, full)), rw full, rw full)
]

token-IsScoped :
    (settings : McpSettings) (result : Fields)
    → IsScoped settings
        (Server.scoped (can_mutate settings) result)
        (Server.token_for true settings)
unfolding Server.token_for
token-IsScoped settings result = elim (written_token settings.api_write_token settings.api_token) [
  | inl (t, there, full, can, same) ↦ rw (can, same) (writing t there full (simp get-set))
  | inr (cannot, same) ↦
      let (scope, note) =
        noted (set "credential_scope" (str "read_token_only") result) (simp get-set) in
      rw same (
        subst (λ b. IsScoped settings (Server.scoped b result) settings.api_token) (sym cannot)
          (reading cannot scope note))
]

module _ (p : Platform) (texts : Texts) (env : Environ) {S : Type 0}
    (connect : McpSettings → String → Server.Connection S) (run_id : String) (now : ℕ) (i : Inputs)
    (q : Request) where
  abbrev pub Told : McpSettings → String → Result Server.ToolError Fields → Type 0
  Told settings token (ok payload) = IsScoped settings payload token
  Told settings token (err e) = token ≡ Server.token_for true settings

  -- The API saw the request of the runbook only, or the write of a capability that is accepted for this incident
  -- and action.
  abbrev pub Sent : McpSettings → String → Runner S → Runner S → Type 0
  Sent settings token r r' =
      let client = (connect settings token).client in
      (r'.server ≡ (client.get_runbook q.incident_id r.server).1)
      ⊎ Authorized p client i (Server.request_with p texts env connect run_id now i settings q)
          r.approvals (client.get_runbook q.incident_id r.server).1 r'.server

  -- Either the configuration is refused and nothing is done, or the executor ran with the client of `token`.
  pub data Outcome (r : Runner S) : Result Server.ToolError Fields → Runner S → Type 0 where
    unconfigured :
        (e : ConfigurationError)
        → load_settings p texts env ≡ err e
        → Outcome r (err (Server.configuration e)) r
    ran :
        (settings : McpSettings) (token : String) (result : Result Server.ToolError Fields)
        (r' : Runner S)
        → load_settings p texts env ≡ ok settings
        → Told settings token result
        → Sent settings token r r'
        → Outcome r result r'

  with_scope-Told :
      (settings : McpSettings) (result : Result ApprovalError Fields)
      → Told settings
          (Server.token_for true settings)
          (Server.with_scope p texts env connect run_id now settings result)
  with_scope-Told settings (err e) = refl
  with_scope-Told settings (ok payload) = token-IsScoped settings payload

  apply_with-Sent :
      (r : Runner S) (settings : McpSettings)
      → Sent settings
          (Server.token_for true settings)
          r
          (Server.apply_with p texts env connect run_id now i q settings r).1
  unfolding Server.apply_with Server.audit_invocation
  apply_with-Sent r settings =
      apply_incident_action-gate p (connect settings (Server.token_for true settings)).client i
        (Server.request_with p texts env connect run_id now i settings q) _

  apply_with-Told :
      (r : Runner S) (settings : McpSettings)
      → Told settings
          (Server.token_for true settings)
          (Server.apply_with p texts env connect run_id now i q settings r).0
  unfolding Server.apply_with
  apply_with-Told r settings = with_scope-Told settings _

  settings-Outcome :
      (r : Runner S) (s : Result ConfigurationError McpSettings)
      → load_settings p texts env ≡ s
      → Outcome r
          (Server.with_settings p texts env connect run_id now
            (Server.apply_with p texts env connect run_id now i q)
            s
            r).0
          (Server.with_settings p texts env connect run_id now
            (Server.apply_with p texts env connect run_id now i q)
            s
            r).1
  settings-Outcome r (err e) h = unconfigured e h
  settings-Outcome r (ok settings) h =
      ran settings (Server.token_for true settings) _ _ h (apply_with-Told r settings)
        (apply_with-Sent r settings)

  -- The mutating tool changes nothing when the configuration is refused. Otherwise it presents the
  -- write token if there is one, and else the read token; an answer says which; and the API is
  -- left as the runbook request left it, or a capability was given that validate accepts on the
  -- entries on file and the API gets one request to apply the action.
  pub apply_incident_plan-Outcome :
      (r : Runner S)
      → Outcome r
          (Server.apply_incident_plan p texts env connect run_id now i q r).0
          (Server.apply_incident_plan p texts env connect run_id now i q r).1
  unfolding Server.apply_incident_plan
  apply_incident_plan-Outcome r = settings-Outcome r (load_settings p texts env) refl
