-- ===== src/Approvals/Spent.antt =====
-- What an applied request means for the other requests of its incident and action.
use hermes_enterprise_deploy.Base.{
  ℕ, String, true, false, some, [], ◌∷◌, ◌≡◌, ◌≢◌, refl, sym, ◌∙◌, ap, ok, ◌==◌, string_eq, arith,
  eq_iff, some-inj, Bool-cases, inl, inr,
}
use hermes_enterprise_deploy.Base.Dict.{lookup}
use hermes_enterprise_deploy.Json.{Fields, get, is_str}
use hermes_enterprise_deploy.Platform.{Platform, IsLawful}
use hermes_enterprise_deploy.Disk.{Disk}
use hermes_enterprise_deploy.Approvals.{
  Entries, granted, load_file, status_of, other_applied, validate,
}
use hermes_enterprise_deploy.Approvals.Entry.{ApprovalRequest}
use hermes_enterprise_deploy.Approvals.Runs.{Run, Run-entry, differ}
use hermes_enterprise_deploy.Approvals.Validated.{Accepted, validate-Accepted}

-- The file holds a request that has been applied for the incident and the action.
pub record IsSpent (incident_id action_id : String) (es : Entries) : Type 0 where
  pub id : String
  pub raw : Fields
  pub found : lookup id es ≡ some raw
  pub applied : status_of raw ≡ "applied"
  pub incident : is_str incident_id (get "incident_id" raw) ≡ true
  pub action : is_str action_id (get "action_id" raw) ≡ true

other_applied-true :
    (own id incident_id action_id : String) (es : Entries) (raw : Fields)
    → lookup id es ≡ some raw
    → (id == own) ≡ false
    → status_of raw ≡ "applied"
    → is_str incident_id (get "incident_id" raw) ≡ true
    → is_str action_id (get "action_id" raw) ≡ true
    → other_applied own incident_id action_id es ≡ true
unfolding other_applied lookup
other_applied-true own id i a [] raw e other s hi ha = cc
other_applied-true own id i a ((j, r) ∷ es) raw e other s hi ha =
    ground
      (arith, other_applied-true own id i a es raw, eq_iff j id, eq_iff (status_of r) "applied")

module _ (p : Platform) (incident_id action_id : String) where
  pub spent_refuses :
      (capability : String) (now : ℕ) (es : Entries) (a : ApprovalRequest)
      → IsSpent incident_id action_id es
      → ¬ Accepted p capability incident_id action_id now es a
  spent_refuses capability now es a s y = elim (Bool-cases (s.id == y.id)) [
    | inl same ↦
        let eq : s.raw ≡ y.raw =
          some-inj (sym s.found ∙ ap (λ j. lookup j es) ((eq_iff s.id y.id).0 same) ∙ y.found) in
        differ "applied" "approved" refl (sym s.applied ∙ ap status_of eq ∙ y.approved)
    | inr other ↦ cc (
      other_applied-true y.id s.id incident_id action_id es s.raw s.found other s.applied s.incident
          s.action,
      y.first,
    )
  ]

  module _ (law : IsLawful p) where
    pub Run-IsSpent :
        (d d' : Disk) (es : Entries)
        → load_file p d.file ≡ ok es
        → IsSpent incident_id action_id es
        → Run p d d'
        → (es' : Entries) × (load_file p d'.file ≡ ok es') × IsSpent incident_id action_id es'
    Run-IsSpent d d' es loads s run =
        let (es', raw', loads', found, progress) =
          Run-entry p law d d' es s.id s.raw loads s.found run in
        (
          es',
          loads',
          record {
            id = s.id;
            raw = raw';
            found = found;
            applied = progress.applied s.applied;
            incident = rw progress.incident s.incident;
            action = rw progress.action s.action;
          },
        )

    -- On a lawful platform and from a file that loads and has an applied entry for an incident and
    -- action, whatever calls are made in between, validate accepts no capability for that incident
    -- and action. Here a call is any of the store's methods, or a change of whether writes
    -- succeed; a request names a non-empty incident and action and draws an ID that the file does
    -- not hold, and a mark carries a text as its record ID.
    pub pair_never_accepted :
        (d d' : Disk) (es : Entries) (capability : String) (now : ℕ) (a : ApprovalRequest)
        → load_file p d.file ≡ ok es
        → IsSpent incident_id action_id es
        → Run p d d'
        → (validate p capability incident_id action_id now d').0 ≢ ok (granted a)
    pair_never_accepted d d' es capability now a loads s run accepted =
        let (es', loads', s') = Run-IsSpent d d' es loads s run in
        spent_refuses capability now es' a s'
          (validate-Accepted p d' es' loads' capability incident_id action_id now a accepted)
