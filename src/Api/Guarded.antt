-- ===== src/Api/Guarded.antt =====
-- What must hold before a mutation of the API reaches the action store.
use hermes_enterprise_deploy.Base.{
  String, Bool, Option, none, ◌≡◌, ◌≢◌, eq_iff, refl, sym, ◌⊎◌, inl, inr, Result, ok, err, arith,
  string_eq, subst,
}
use hermes_enterprise_deploy.Base.Exec.{continue}
use hermes_enterprise_deploy.Json.{Fields}
use hermes_enterprise_deploy.Platform.{Platform}
use hermes_enterprise_deploy.ActionStore.{World, Stamp, list_for_incident, reload, commit}
use hermes_enterprise_deploy.ActionStore.Record.{StoreError, key_binding_conflict, already_applied}
use hermes_enterprise_deploy.Api.{
  Api, Call, ApplyActionRequest, injection_mode, guard, dispatch, commit_of, key_text, commit_reply,
  conflicted, after_commit, apply_incident_action,
}
use hermes_enterprise_deploy.Api.Fixtures.{incidents}
use hermes_enterprise_deploy.Api.Auth.{Failure, Settings, require_write_token}

module _ (p : Platform) where
  list_for_incident-disk : (id : String) (w : World) → (list_for_incident p id w).1.disk ≡ w.disk
  unfolding list_for_incident reload
  list_for_incident-disk id w = ground arith

  module _ (settings : Settings) where
    commit_reply-disk :
        (mode id : String) (done : Fields × Bool) (api : Api)
        → (commit_reply p settings mode id done api).1.world.disk ≡ api.world.disk
    unfolding commit_reply
    commit_reply-disk mode id (item, created) api =
        ground (arith, list_for_incident-disk id api.world)

    after_commit-disk :
        (mode id : String) (r : Result StoreError (Fields × Bool)) (api : Api)
        → (after_commit p settings mode id r api).1.world.disk ≡ api.world.disk
    unfolding conflicted
    after_commit-disk mode id (ok done) api = commit_reply-disk mode id done api
    after_commit-disk mode id (err (key_binding_conflict existing)) api = refl
    after_commit-disk mode id (err (already_applied existing)) api = refl
    after_commit-disk mode id (err _) api = refl

    guard-ok :
        (id : String) (key : Option String) (mode : String)
        → guard p settings id key mode ≡ ok tt
        → (incidents id ≢ none) × (key_text p key ≢ "") × (mode ≢ "error")
    unfolding guard
    guard-ok id key mode h = (
      λ e. ground arith,
      ground (arith, eq_iff (key_text p key) ""),
      ground (arith, eq_iff mode "error"),
    )

    module _ (incident_id : String) (payload : ApplyActionRequest) (c : Call) (key : Option String)
        (correlation_id : String) (s : Stamp) where
      -- What a request has passed, and what it leaves on the disk.
      pub record Passed (before after : Api) : Type 0 where
        pub authorized : require_write_token p settings c.credentials ≡ ok tt
        pub known : incidents incident_id ≢ none
        pub named : key_text p key ≢ ""
        pub no_fault : injection_mode p settings c ≢ "error"
        pub disk :
            after.world.disk
            ≡ (commit p
                (commit_of p settings incident_id payload (key_text p key) correlation_id)
                s
                before.world).1.disk

      guarded-Passed :
          (api : Api) (r : Result Failure (Unit {0}))
          → require_write_token p settings c.credentials ≡ ok tt
          → guard p settings incident_id key (injection_mode p settings c) ≡ r
          → ((continue r
                (λ _.
                  dispatch p settings
                    (commit_of p settings incident_id payload (key_text p key) correlation_id)
                    s
                    (injection_mode p settings c))
                api).1
              ≡ api)
            ⊎ Passed api
                (continue r
                  (λ _.
                    dispatch p settings
                      (commit_of p settings incident_id payload (key_text p key) correlation_id)
                      s
                      (injection_mode p settings c))
                  api).1
      guarded-Passed api (err e) authorized h = inl refl
      guarded-Passed api (ok tt) authorized h =
          let (known, named, no_fault) = guard-ok incident_id key (injection_mode p settings c) h in
          inr (record {
            authorized = authorized;
            known = known;
            named = named;
            no_fault = no_fault;
            disk = after_commit-disk _ incident_id _ _;
          })

      authorized-Passed :
          (api : Api) (r : Result Failure (Unit {0}))
          → require_write_token p settings c.credentials ≡ r
          → (after : Api)
          → after
            ≡ (continue r
                (λ _ a.
                  continue
                    (guard p settings incident_id key (injection_mode p settings c))
                    (λ _.
                      dispatch p settings
                        (commit_of p settings incident_id payload (key_text p key) correlation_id)
                        s
                        (injection_mode p settings c))
                    a)
                api).1
          → (after ≡ api) ⊎ Passed api after
      authorized-Passed api (err e) h after same = inl same
      authorized-Passed api (ok tt) h after same =
          subst (λ a. (a ≡ api) ⊎ Passed api a) (sym same) (guarded-Passed api _ h refl)

      -- A request to apply an action leaves the API as it is, or it bears the write token, names a
      -- known incident, has a key that is not blank, asks for no fault before the commit, and
      -- leaves on the disk what one commit under that key without its blanks leaves.
      pub apply_incident_action-guarded :
          (api : Api)
          → ((apply_incident_action p settings incident_id payload c key correlation_id s api).1
              ≡ api)
            ⊎ Passed api
                (apply_incident_action p settings incident_id payload c key correlation_id s api).1
      unfolding apply_incident_action
      apply_incident_action-guarded api = authorized-Passed api _ refl _ refl
