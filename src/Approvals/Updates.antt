-- ===== src/Approvals/Updates.antt =====
-- Every entry that a method writes passes the validator that reads it back.
use hermes_enterprise_deploy.Base.{
  ℕ, ◌+◌, String, ◌<>◌, true, false, Option, ◌≡◌, ◌≢◌, refl, arith, eq_iff, ◌==◌, string_eq,
}
use text.Mathlib.TextLemmas.{append-eq-nil_iff}
use text.Mathlib.TextPositions.{eq_refl}
use hermes_enterprise_deploy.Json.{
  str, obj, Fields, get, has_all, all_text, all_optional_text, all_dicts, push, all_dicts-push,
}
use hermes_enterprise_deploy.Platform.{Platform, IsLawful, iso}
use hermes_enterprise_deploy.ActionStore.Valid.{iso_ne, ne-beq, optional_text}
use hermes_enterprise_deploy.Approvals.{
  new_request, expired_entry, approved_entry, applied_entry, with_event, action_idempotency_key,
  lifetime,
}
use hermes_enterprise_deploy.Approvals.Entry.{to_dict, contains, history_of}
use hermes_enterprise_deploy.Approvals.Facts.{
  Facts, status-Facts, optional-Facts, history-Facts, history-dicts,
}

module _ (p : Platform) (id : String) (raw : Fields) (f : Facts p id raw) where
  pushed_dicts : (e : Fields) → all_dicts (push (history_of (get "history" raw)) (obj e)) ≡ true
  pushed_dicts e =
      all_dicts-push (history_of (get "history" raw)) e
        (history-dicts (get "history" raw) f.history)

  pub with_event-Facts : (e : Fields) → Facts p id (with_event (obj e) raw)
  with_event-Facts e = history-Facts p id raw f _ (pushed_dicts e)

  pub expired_entry-Facts : (now : ℕ) → Facts p id (expired_entry p now raw)
  expired_entry-Facts now =
      history-Facts p id _ (status-Facts p id raw f "expired" (unfold contains in refl) refl) _
        (pushed_dicts _)

  pub approved_entry-Facts :
      (now : ℕ) (approver capability : String)
      → Facts p id (approved_entry p now approver capability raw)
  unfolding contains
  approved_entry-Facts now approver capability =
      let f1 = status-Facts p id raw f "approved" refl refl in
      let f2 = optional-Facts p id _ f1 "approved_at" (iso p now) refl refl refl refl refl refl in
      let f3 = optional-Facts p id _ f2 "approved_by" approver refl refl refl refl refl refl in
      let f4 =
        optional-Facts p id _ f3 "capability_hash" (p.sha256_hex capability) refl refl refl refl
          refl refl in
      history-Facts p id _ f4 _ (pushed_dicts _)

  pub applied_entry-Facts :
      (now : ℕ) (record_id : String) → Facts p id (applied_entry p now (str record_id) raw)
  unfolding contains
  applied_entry-Facts now record_id =
      let f1 = status-Facts p id raw f "applied" refl refl in
      let f2 = optional-Facts p id _ f1 "applied_at" (iso p now) refl refl refl refl refl refl in
      let f3 =
        optional-Facts p id _ f2 "applied_record_id" record_id refl refl refl refl refl refl in
      history-Facts p id _ f3 _ (pushed_dicts _)

pub prefix_ne : (s t : String) → s ≢ "" → ((s <> t) == "") ≡ false
prefix_ne s t h = ne-beq (s <> t) (λ e. h ((append-eq-nil_iff {p = s} {q = t}).0 e).0)

apr_ne : (t : String) → (("apr_" <> t) == "") ≡ false
apr_ne t = prefix_ne "apr_" t (ground (arith, eq_iff "apr_" ""))

idem_ne : (t : String) → (("idem-action-" <> t) == "") ≡ false
idem_ne t = prefix_ne "idem-action-" t (ground (arith, eq_iff "idem-action-" ""))

module _ (p : Platform) (law : IsLawful p) where
  pub new_request-Facts :
      (ttl : ℕ) (incident_id action_id : String) (correlation_id : Option String) (token : String)
      (now : ℕ)
      → incident_id ≢ ""
      → action_id ≢ ""
      → let a = new_request p ttl incident_id action_id correlation_id token now in
        Facts p a.approval_id (to_dict a)
  unfolding new_request to_dict get has_all all_text all_optional_text all_dicts contains
      action_idempotency_key
  new_request-Facts ttl incident_id action_id correlation_id token now hi ha = record {
    present = refl;
    texts = simp (
      apr_ne token,
      idem_ne _,
      ne-beq incident_id hi,
      ne-beq action_id ha,
      iso_ne p law now,
      iso_ne p law (now + lifetime ttl),
    );
    own_id = simp eq_refl;
    status = refl;
    requested = rw (law.fromisoformat-isoformat now);
    expires = rw (law.fromisoformat-isoformat (now + lifetime ttl));
    optionals = simp (optional_text correlation_id);
    history = refl;
  }
