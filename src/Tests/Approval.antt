-- ===== src/Tests/Approval.antt =====
-- Runs of the approval store: one request that waits, one that is applied, one that is approved.
use hermes_enterprise_deploy.Base.{true, none, some, [], ◌∷◌, ◌≡◌, ◌≢◌, refl, ok, string_eq}
use hermes_enterprise_deploy.Base.Dict.{lookup, insert}
use hermes_enterprise_deploy.Json.{
  Fields, obj, nil, get, set, has_all, all_text, all_optional_text, all_dicts,
}
use hermes_enterprise_deploy.Disk.{document, Disk}
use hermes_enterprise_deploy.Approvals.{
  Entries, ApprovalGrant, granted, load_file, load_entries, of_entries, approve, validate,
  get_request, grant_of, approved_entry, status_of, find_by_capability, expire_if_needed,
  check_entry, other_applied, load, save,
}
use hermes_enterprise_deploy.Approvals.Entry.{
  ApprovalRequest, to_dict, from_dict, validate_approval_entry, validate_fields, contains,
  only_known,
}
use hermes_enterprise_deploy.Approvals.Entries.{load_file-IsEntries, Saved, save-Saved}
use hermes_enterprise_deploy.Approvals.Runs.{here, next, gets, Progress, Run-entry}
use hermes_enterprise_deploy.Approvals.Validated.{Accepted, validate-Accepted}
use hermes_enterprise_deploy.Approvals.Spent.{IsSpent, pair_never_accepted}
use hermes_enterprise_deploy.Approvals.Granted.{
  Granted, approve-Granted, approve_once, applied_never_accepted,
}
use hermes_enterprise_deploy.Tests.Setup.{demo, demo-IsLawful}

abbrev pub waiting : ApprovalRequest
waiting = record {
  approval_id = "apr_1";
  incident_id = "INC-2026-0042";
  action_id = "S1";
  idempotency_key = "k1";
  requested_at = "t";
  expires_at = "ttttttttt";
  status = "pending";
  correlation_id = none;
  approved_at = none;
  approved_by = none;
  capability_hash = none;
  applied_at = none;
  applied_record_id = none;
  history = nil;
}

abbrev done : ApprovalRequest
done = record waiting {
  approval_id = "apr_2";
  action_id = "S2";
  status = "applied";
  capability_hash = some "hcap_2";
}

abbrev open_request : ApprovalRequest
open_request = record waiting {
  approval_id = "apr_3";
  action_id = "RB-PAY-GATEWAY-01-S2";
  status = "approved";
  capability_hash = some "hcap_3";
}

abbrev pub entries : Entries
entries =
    ("apr_1", to_dict waiting) ∷ ("apr_2", to_dict done) ∷ ("apr_3", to_dict open_request) ∷ []

abbrev pub start : Disk
start = record { file = document (obj (of_entries entries)); writable = true }

pub start-loads : load_file demo start.file ≡ ok entries
unfolding load_file load_entries of_entries to_dict validate_approval_entry validate_fields contains
    get insert has_all all_text all_optional_text all_dicts
start-loads = refl

open_accepted :
    (validate demo "cap_3" "INC-2026-0042" "RB-PAY-GATEWAY-01-S2" 2 start).0
    ≡ ok (granted open_request)
unfolding validate load save load_file load_entries of_entries to_dict validate_approval_entry
    validate_fields contains get insert lookup find_by_capability expire_if_needed check_entry
    other_applied from_dict only_known status_of has_all all_text all_optional_text all_dicts
open_accepted = refl

validate-Accepted_example :
    Accepted demo "cap_3" "INC-2026-0042" "RB-PAY-GATEWAY-01-S2" 2 entries open_request
validate-Accepted_example =
    validate-Accepted demo start entries start-loads "cap_3" "INC-2026-0042" "RB-PAY-GATEWAY-01-S2"
      2 open_request open_accepted

done_entry : lookup "apr_2" entries ≡ some (to_dict done)
unfolding lookup
done_entry = refl

done_applied : status_of (to_dict done) ≡ "applied"
unfolding status_of to_dict get
done_applied = refl

unfoldable pub given : ApprovalGrant
given =
    grant_of demo "apr_1" "cap_1" 1 "ops" (approved_entry demo 1 "ops" "cap_1" (to_dict waiting))

approved :
    approve demo "apr_1" "ops" "1" 1 start
    ≡ (ok (granted given), (approve demo "apr_1" "ops" "1" 1 start).1)
unfolding given approve load save load_file load_entries of_entries to_dict validate_approval_entry
    validate_fields contains get insert lookup expire_if_needed status_of has_all all_text
    all_optional_text all_dicts set
approved = refl

abbrev looked_up : Disk
looked_up = (get_request demo "apr_1" 2 (approve demo "apr_1" "ops" "1" 1 start).1).1

approve-Granted_example :
    Granted demo demo-IsLawful "apr_1" "ops" "1" 1 entries given
      (approve demo "apr_1" "ops" "1" 1 start).1
approve-Granted_example =
    approve-Granted demo demo-IsLawful start entries start-loads "apr_1" "ops" "1" 1 given
      (approve demo "apr_1" "ops" "1" 1 start).1 approved

approve_once_example : (approve demo "apr_1" "eve" "9" 3 looked_up).0 ≢ ok (granted given)
approve_once_example =
    approve_once demo demo-IsLawful start (approve demo "apr_1" "ops" "1" 1 start).1 looked_up
      entries "apr_1" "ops" "1" "eve" "9" 1 3 given given start-loads approved
      (next here (gets "apr_1" 2 refl))

applied_never_accepted_example : open_request.approval_id ≢ "apr_2"
applied_never_accepted_example =
    applied_never_accepted demo demo-IsLawful start start entries "apr_2" (to_dict done) "cap_3"
      "INC-2026-0042" "RB-PAY-GATEWAY-01-S2" 2 open_request start-loads done_entry done_applied here
      open_accepted

Run-entry_example :
    (es' : Entries) × (raw' : Fields) × (load_file demo (get_request demo "apr_1" 9 start).1.file
      ≡ ok es')
    × (lookup "apr_2" es' ≡ some raw')
    × Progress (to_dict done) raw'
Run-entry_example =
    Run-entry demo demo-IsLawful start (get_request demo "apr_1" 9 start).1 entries "apr_2"
      (to_dict done) start-loads done_entry (next here (gets "apr_1" 9 refl))

save-Saved_example : Saved demo entries start (save demo entries start)
save-Saved_example =
    save-Saved demo demo-IsLawful entries start (load_file-IsEntries demo start.file start-loads)

done-IsSpent : IsSpent "INC-2026-0042" "S2" entries
unfolding to_dict get
done-IsSpent = record {
  id = "apr_2";
  raw = to_dict done;
  found = done_entry;
  applied = done_applied;
  incident = refl;
  action = refl;
}

pair_never_accepted_example :
    (validate demo "cap_3" "INC-2026-0042" "S2" 2 start).0 ≢ ok (granted open_request)
pair_never_accepted_example =
    pair_never_accepted demo "INC-2026-0042" "S2" demo-IsLawful start start entries "cap_3" 2
      open_request start-loads done-IsSpent here
