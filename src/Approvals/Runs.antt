-- ===== src/Approvals/Runs.antt =====
-- Any sequence of calls, by any processes, on one approval file.
use hermes_enterprise_deploy.Base.{
  ℕ, String, ◌<>◌, Bool, true, false, Option, none, some, ◌≡◌, ◌≢◌, refl, sym, ◌∙◌, ok, ◌==◌,
  string_eq, eq_iff, arith,
}
use hermes_enterprise_deploy.Base.Dict.{lookup}
use hermes_enterprise_deploy.Json.{str, Json, Fields, get, get-set, obj}
use hermes_enterprise_deploy.Platform.{Platform, IsLawful}
use hermes_enterprise_deploy.Disk.{Disk}
use hermes_enterprise_deploy.Approvals.{
  Entries, load_file, status_of, is_live, request, get_request, approve, validate, record_attempt,
  mark_applied, all_requests, expired_entry, approved_entry, applied_entry, with_event,
}
use hermes_enterprise_deploy.Approvals.Lifecycle.{
  Evolves, same, notes, expires, grants, applies, Kept, EvolveAll-refl,
}
use hermes_enterprise_deploy.Approvals.Methods.{
  request-Kept, get_request-Kept, approve-Kept, validate-Kept, record_attempt-Kept,
  mark_applied-Kept, all_requests-Kept,
}

-- How an entry may stand to itself later on: what it is bound to is fixed, an expired or applied entry
-- keeps its status, and an entry that has been approved keeps its hash and is never pending again.
pub record Progress (raw raw' : Fields) : Type 0 where
  pub approval : get "approval_id" raw' ≡ get "approval_id" raw
  pub incident : get "incident_id" raw' ≡ get "incident_id" raw
  pub action : get "action_id" raw' ≡ get "action_id" raw
  pub key : get "idempotency_key" raw' ≡ get "idempotency_key" raw
  pub expiry : get "expires_at" raw' ≡ get "expires_at" raw
  pub hash : status_of raw ≢ "pending" → get "capability_hash" raw' ≡ get "capability_hash" raw
  pub no_return : status_of raw ≢ "pending" → status_of raw' ≢ "pending"
  pub applied : status_of raw ≡ "applied" → status_of raw' ≡ "applied"
  pub expired : status_of raw ≡ "expired" → status_of raw' ≡ "expired"

Progress-refl : (raw : Fields) → Progress raw raw
Progress-refl raw = record {
  approval = refl;
  incident = refl;
  action = refl;
  key = refl;
  expiry = refl;
  hash = λ _. refl;
  no_return = λ h. h;
  applied = λ h. h;
  expired = λ h. h;
}

Progress-trans : (a b c : Fields) → Progress a b → Progress b c → Progress a c
Progress-trans a b c f g = record {
  approval = g.approval ∙ f.approval;
  incident = g.incident ∙ f.incident;
  action = g.action ∙ f.action;
  key = g.key ∙ f.key;
  expiry = g.expiry ∙ f.expiry;
  hash = λ h. g.hash (f.no_return h) ∙ f.hash h;
  no_return = λ h. g.no_return (f.no_return h);
  applied = λ h. g.applied (f.applied h);
  expired = λ h. g.expired (f.expired h);
}

pub differ : (s t : String) → (s == t) ≡ false → s ≢ t
differ s t h = ground (arith, eq_iff s t)

applied_dead : (raw : Fields) → status_of raw ≡ "applied" → is_live raw ≡ false
applied_dead raw e = rw e

module _ (p : Platform) where
  expired_entry-Progress :
      (now : ℕ) (raw : Fields) → is_live raw ≡ true → Progress raw (expired_entry p now raw)
  unfolding status_of
  expired_entry-Progress now raw l = record {
    approval = simp get-set;
    incident = simp get-set;
    action = simp get-set;
    key = simp get-set;
    expiry = simp get-set;
    hash = λ _. simp get-set;
    no_return = λ _. simp get-set (differ "expired" "pending" refl);
    applied = λ h. cc (applied_dead raw h);
    expired = λ _. simp get-set;
  }

  approved_entry-Progress :
      (now : ℕ) (approver capability : String) (raw : Fields)
      → status_of raw ≡ "pending"
      → Progress raw (approved_entry p now approver capability raw)
  unfolding status_of
  approved_entry-Progress now approver capability raw l = record {
    approval = simp get-set;
    incident = simp get-set;
    action = simp get-set;
    key = simp get-set;
    expiry = simp get-set;
    hash = λ h. absurd (h l);
    no_return = λ h. absurd (h l);
    applied = λ h. absurd (differ "pending" "applied" refl (sym l ∙ h));
    expired = λ h. absurd (differ "pending" "expired" refl (sym l ∙ h));
  }

  applied_entry-Progress :
      (now : ℕ) (record_id : String) (raw : Fields)
      → status_of raw ≡ "approved"
      → Progress raw (applied_entry p now (str record_id) raw)
  unfolding status_of
  applied_entry-Progress now record_id raw l = record {
    approval = simp get-set;
    incident = simp get-set;
    action = simp get-set;
    key = simp get-set;
    expiry = simp get-set;
    hash = λ h. simp get-set;
    no_return = λ h. simp get-set (differ "applied" "pending" refl);
    applied = λ h. simp get-set;
    expired = λ h. absurd (differ "approved" "expired" refl (sym l ∙ h));
  }

  with_event-Progress : (e : Json) (raw : Fields) → Progress raw (with_event e raw)
  unfolding status_of
  with_event-Progress e raw = record {
    approval = simp get-set;
    incident = simp get-set;
    action = simp get-set;
    key = simp get-set;
    expiry = simp get-set;
    hash = λ h. simp get-set;
    no_return = λ h. simp get-set h;
    applied = λ h. simp get-set h;
    expired = λ h. simp get-set h;
  }

  pub Evolves-Progress : (raw raw' : Fields) → Evolves p raw raw' → Progress raw raw'
  Evolves-Progress raw raw' (same e) = rw e (Progress-refl raw)
  Evolves-Progress raw raw' (notes v e) = rw e (with_event-Progress (obj v) raw)
  Evolves-Progress raw raw' (expires now l e) = rw e (expired_entry-Progress now raw l)
  Evolves-Progress raw raw' (grants now approver capability l e) =
      rw e (approved_entry-Progress now approver capability raw l)
  Evolves-Progress raw raw' (applies now record_id l e) =
      rw e (applied_entry-Progress now record_id raw l)

  -- One call by some process, or a change of whether the disk takes writes. A request names an
  -- incident and an action, and draws an ID that the file does not hold.
  pub data Call (d d' : Disk) : Type 0 where
    requests :
        (ttl : ℕ) (incident_id action_id : String) (correlation_id : Option String) (token : String)
        (now : ℕ)
        → incident_id ≢ ""
        → action_id ≢ ""
        → ((es : Entries) → load_file p d.file ≡ ok es → lookup ("apr_" <> token) es ≡ none)
        → d' ≡ (request p ttl incident_id action_id correlation_id token now d).1
        → Call d d'
    gets : (id : String) (now : ℕ) → d' ≡ (get_request p id now d).1 → Call d d'
    approves :
        (id identity token : String) (now : ℕ)
        → d' ≡ (approve p id identity token now d).1
        → Call d d'
    validates :
        (capability incident_id action_id : String) (now : ℕ)
        → d' ≡ (validate p capability incident_id action_id now d).1
        → Call d d'
    records :
        (id : String) (now : ℕ) (outcome : String) (detail : Fields)
        → d' ≡ (record_attempt p id now outcome detail d).1
        → Call d d'
    marks :
        (id : String) (now : ℕ) (record_id : String)
        → d' ≡ (mark_applied p id now (str record_id) d).1
        → Call d d'
    lists : (now : ℕ) → d' ≡ (all_requests p now d).1 → Call d d'
    outage : (writable : Bool) → d' ≡ record d { writable = writable } → Call d d'

  pub data Run (start : Disk) : Disk → Type 0 where
    here : Run start start
    next : {d d' : Disk} → Run start d → Call d d' → Run start d'

  module _ (law : IsLawful p) where
    Call-Kept : (d d' : Disk) (es : Entries) → load_file p d.file ≡ ok es → Call d d' → Kept p es d'
    Call-Kept d d' es l (requests ttl i a c token now hi ha fresh e) =
        rw e (request-Kept p law d es l ttl i a c token now hi ha (fresh es l))
    Call-Kept d d' es l (gets id now e) = rw e (get_request-Kept p law d es l id now)
    Call-Kept d d' es l (approves id identity token now e) =
        rw e (approve-Kept p law d es l id identity token now)
    Call-Kept d d' es l (validates capability i a now e) =
        rw e (validate-Kept p law d es l capability i a now)
    Call-Kept d d' es l (records id now outcome detail e) =
        rw e (record_attempt-Kept p law d es l id now outcome detail)
    Call-Kept d d' es l (marks id now record_id e) =
        rw e (mark_applied-Kept p law d es l id now record_id)
    Call-Kept d d' es l (lists now e) = rw e (all_requests-Kept p law d es l now)
    Call-Kept d d' es l (outage writable e) = rw e (es, l, EvolveAll-refl p es)

    -- For every entry at once.
    pub Run-Progress :
        (start d : Disk) (es : Entries)
        → load_file p start.file ≡ ok es
        → Run start d
        → (es' : Entries) × (load_file p d.file ≡ ok es')
          × ((id : String) (raw : Fields)
              → lookup id es ≡ some raw
              → (raw' : Fields) × (lookup id es' ≡ some raw') × Progress raw raw')
    Run-Progress start d es l here = (es, l, λ id raw e. (raw, e, Progress-refl raw))
    Run-Progress start d es l (next {d = c} r call) =
        let (es1, l1, f) = Run-Progress start c es l r in
        let (es2, l2, g) = Call-Kept c d es1 l1 call in
        (
          es2,
          l2,
          λ id raw e.
              let (raw1, e1, h1) = f id raw e in
              let (raw2, e2, step) = g.at id raw1 e1 in
              (raw2, e2, Progress-trans raw raw1 raw2 h1 (Evolves-Progress raw1 raw2 step)),
        )

    -- On a lawful platform and from a file that loads, whatever calls are made and whether or not
    -- writes fail, the file loads, and an entry that was in it is still in it, bound as it was,
    -- and has only made progress. Here a call is any of the store's methods, or a change of
    -- whether writes succeed; a request names a non-empty incident and action and draws an ID that
    -- the file does not hold, and a mark carries a text as its record ID.
    pub Run-entry :
        (start d : Disk) (es : Entries) (id : String) (raw : Fields)
        → load_file p start.file ≡ ok es
        → lookup id es ≡ some raw
        → Run start d
        → (es' : Entries) × (raw' : Fields) × (load_file p d.file ≡ ok es')
          × (lookup id es' ≡ some raw')
          × Progress raw raw'
    Run-entry start d es id raw l at r =
        let (es', l', f) = Run-Progress start d es l r in
        let (raw', at', step) = f id raw at in (es', raw', l', at', step)
