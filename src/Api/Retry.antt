-- ===== src/Api/Retry.antt =====
-- A request to apply an action that is sent again.
use hermes_enterprise_deploy.Base.{
  String, Bool, true, false, Option, [], ◌∷◌, ◌≡◌, refl, ap, ◌∙◌, ok, arith, string_eq, length, pos,
}
use hermes_enterprise_deploy.Json.{str, bool, int, obj, Fields, dict}
use hermes_enterprise_deploy.Platform.{Platform, IsLawful}
use hermes_enterprise_deploy.ActionStore.{World, Stamp, list_for_incident, commit, for_incident}
use hermes_enterprise_deploy.ActionStore.Valid.{IsRequest}
use hermes_enterprise_deploy.ActionStore.Spec.{loaded, reload-eq}
use hermes_enterprise_deploy.ActionStore.Durable.{IsStore}
use hermes_enterprise_deploy.ActionStore.Idempotent.{commit-loaded, commit_retry}
use hermes_enterprise_deploy.Api.{
  Api, Reply, Call, ApplyActionRequest, injection_mode, guard, commit_of, key_text, commit_reply,
  apply_incident_action,
}
use hermes_enterprise_deploy.Api.Auth.{Settings, require_write_token}

module _ (p : Platform) where
  list_for_incident-loaded :
      (id : String) (w : World)
      → loaded p w ≡ ok w.store.index
      → list_for_incident p id w ≡ (ok (for_incident p id w.store.records), w)
  unfolding list_for_incident
  list_for_incident-loaded id w e = rw (reload-eq p w e)

  module _ (settings : Settings) where
    commit_reply-world :
        (mode id : String) (done : Fields × Bool) (api : Api)
        → loaded p api.world ≡ ok api.world.store.index
        → (commit_reply p settings mode id done api).1.world ≡ api.world
    unfolding commit_reply
    commit_reply-world mode id (item, created) api e =
        ground (arith, list_for_incident-loaded id api.world e)

    apply-eq :
        (incident_id : String) (payload : ApplyActionRequest) (c : Call) (key : Option String)
        (correlation_id : String) (s : Stamp) (api : Api) (w : World) (done : Fields × Bool)
        → require_write_token p settings c.credentials ≡ ok tt
        → guard p settings incident_id key (injection_mode p settings c) ≡ ok tt
        → commit p
            (commit_of p settings incident_id payload (key_text p key) correlation_id)
            s
            api.world
          ≡ (ok done, w)
        → apply_incident_action p settings incident_id payload c key correlation_id s api
          ≡ commit_reply p settings
              (injection_mode p settings c)
              incident_id
              done
              (record api { world = w })
    unfolding apply_incident_action
    apply-eq incident_id payload c key correlation_id s api w done authorized guarded committed =
        rw (authorized, guarded, committed)

    -- The answer to a request whose commit replayed the record `r`.
    abbrev pub replay_reply : String → Fields → World → Reply
    replay_reply incident_id r w = record {
      status = 200;
      body = dict (
          ("incident_id", str incident_id)
          ∷ ("replayed", bool true)
          ∷ ("record", obj r)
          ∷ (
            "total_actions_for_incident",
            int (pos (length (for_incident p incident_id w.store.records))),
          )
          ∷ []);
    }

    commit_reply-replayed :
        (id : String) (r : Fields) (api : Api) (mode : String)
        → mode ≡ ""
        → loaded p api.world ≡ ok api.world.store.index
        → ((commit_reply p settings mode id (r, false) api).0 ≡ ok (replay_reply id r api.world))
          × ((commit_reply p settings mode id (r, false) api).1.world ≡ api.world)
    unfolding commit_reply list_for_incident
    commit_reply-replayed id r api mode blank e =
        rw (blank, list_for_incident-loaded id api.world e) (refl, refl)

    module _ (law : IsLawful p) where
      -- On a lawful platform, once the commit without empty texts of an authorized request that
      -- passes the guards has succeeded on an exact store over a file that loads, whatever its
      -- caller was told, the same request sent again with the write token and without a fault is
      -- answered 200 with the same record, as a replay, and leaves the store and the disk as that
      -- commit left them.
      pub apply_incident_action-retry :
          (incident_id : String) (payload : ApplyActionRequest) (c c' : Call) (key : Option String)
          (correlation_id correlation_id' : String) (s s' : Stamp) (api : Api) (w : World)
          (r : Fields) (created : Bool)
          → IsRequest (commit_of p settings incident_id payload (key_text p key) correlation_id)
          → IsStore p api.world
          → require_write_token p settings c.credentials ≡ ok tt
          → guard p settings incident_id key (injection_mode p settings c) ≡ ok tt
          → commit p
              (commit_of p settings incident_id payload (key_text p key) correlation_id)
              s
              api.world
            ≡ (ok (r, created), w)
          → require_write_token p settings c'.credentials ≡ ok tt
          → guard p settings incident_id key (injection_mode p settings c') ≡ ok tt
          → injection_mode p settings c' ≡ ""
          → ((apply_incident_action p settings incident_id payload c' key correlation_id' s'
                (apply_incident_action p settings incident_id payload c key correlation_id s
                  api).1).0
              ≡ ok (replay_reply incident_id r w))
            × ((apply_incident_action p settings incident_id payload c' key correlation_id' s'
                  (apply_incident_action p settings incident_id payload c key correlation_id s
                    api).1).1.world
                ≡ w)
      apply_incident_action-retry incident_id payload c c' key correlation_id correlation_id' s s'
            api w r created request exact authorized guarded committed authorized' guarded' blank =
          let cm = commit_of p settings incident_id payload (key_text p key) correlation_id in
          let cm' = commit_of p settings incident_id payload (key_text p key) correlation_id' in
          let durable = commit-loaded p law cm s request api.world w r created exact committed in
          let api1 =
            (apply_incident_action p settings incident_id payload c key correlation_id s api).1 in
          let first : api1.world ≡ w =
            ap (λ q. q.1.world)
              (apply-eq incident_id payload c key correlation_id s api w (r, created) authorized
                guarded committed)
            ∙ commit_reply-world (injection_mode p settings c) incident_id (r, created)
                (record api { world = w }) durable in
          let again : commit p cm' s' api1.world ≡ (ok (r, false), w) =
            ap (commit p cm' s') first
            ∙ commit_retry p law cm s request api.world w r created cm' s' exact committed refl refl
                refl in
          rw
            (apply-eq incident_id payload c' key correlation_id' s' api1 w (r, false) authorized'
              guarded' again)
            (commit_reply-replayed incident_id r (record api1 { world = w })
              (injection_mode p settings c') blank durable)
