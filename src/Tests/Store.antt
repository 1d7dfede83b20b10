-- ===== src/Tests/Store.antt =====
-- Runs of the action store: a first request, a retry of it, and another request for the same pair.
use hermes_enterprise_deploy.Base.{
  String, true, false, none, some, [], ◌≡◌, refl, ok, err, string_eq, count, ◌≤◌, find, pair_eq,
}
use hermes_enterprise_deploy.Base.Dict.{lookup}
use hermes_enterprise_deploy.Json.{Fields, get}
use hermes_enterprise_deploy.Disk.{absent, Disk}
use hermes_enterprise_deploy.ActionStore.{
  open_store, World, Commit, Stamp, commit, new_record, set_index, reset, persist_records, reload,
}
use hermes_enterprise_deploy.ActionStore.Record.{already_applied}
use hermes_enterprise_deploy.ActionStore.Loading.{Index, empty_index, load_unlocked, publish}
use hermes_enterprise_deploy.ActionStore.Indexed.{has_key, has_pair}
use hermes_enterprise_deploy.ActionStore.Valid.{IsRequest}
use hermes_enterprise_deploy.ActionStore.Spec.{decide_commit, perform, commit-refines}
use hermes_enterprise_deploy.ActionStore.Durable.{
  IsStore, commit-IsStore, Emptied, reset-Emptied, load_unlocked-IsIndexed,
}
use hermes_enterprise_deploy.ActionStore.Idempotent.{commit_durable, commit_retry, commit_other_key}
use hermes_enterprise_deploy.ActionStore.Shared.{
  Extends, commits, here, next, Reach-one_record, commit_memory, commit-Extends,
}
use hermes_enterprise_deploy.Approvals.Runs.{differ}
use hermes_enterprise_deploy.Tests.Setup.{demo, demo-IsLawful}

abbrev pub scale : Commit
scale = record {
  incident_id = "INC-2026-0042";
  action_id = "RB-PAY-GATEWAY-01-S2";
  idempotency_key = "k1";
  correlation_id = "c1";
  note = none;
}

abbrev scale_again : Commit
scale_again = record scale { correlation_id = "c2"; note = some "again" }

abbrev scale_other_key : Commit
scale_other_key = record scale { idempotency_key = "k2" }

pub scale-IsRequest : IsRequest scale
scale-IsRequest = record {
  incident = differ scale.incident_id "" refl;
  action = differ scale.action_id "" refl;
  key = differ scale.idempotency_key "" refl;
  correlation = differ scale.correlation_id "" refl;
}

abbrev pub first : Stamp
first = record { hex = "00000000000a"; now = 1 }

abbrev pub second : Stamp
second = record { hex = "00000000000b"; now = 2 }

abbrev empty_disk : Disk
empty_disk = record { file = absent; writable = true }

abbrev pub empty_world : World
empty_world = record {
  store = record { file_backed = true; index = empty_index };
  disk = empty_disk;
}

abbrev pub scaled : Fields
scaled = new_record demo scale first 1

unfoldable pub applied_world : World
unfolding commit
applied_world = (commit demo scale first empty_world).1

empty-loads : load_unlocked demo empty_disk.file ≡ ok empty_index
unfolding load_unlocked
empty-loads = refl

pub empty-IsStore : IsStore demo empty_world
empty-IsStore = record {
  indexed = load_unlocked-IsIndexed demo empty_disk.file empty-loads;
  loads = (empty_index, empty-loads);
}

pub committed : commit demo scale first empty_world ≡ (ok (scaled, true), applied_world)
unfolding applied_world commit reload persist_records load_unlocked lookup
committed = refl

unbound : find (has_key "k2") applied_world.store.records ≡ none
unfolding applied_world commit reload persist_records load_unlocked find new_record lookup get
unbound = refl

Reach-one_record_example :
    (ix : Index) × (load_unlocked demo applied_world.disk.file ≡ ok ix)
    × ((q : String × String) → count (has_pair q) ix.records ≤ 1)
    × ((k : String) → count (has_key k) ix.records ≤ 1)
unfolding applied_world
Reach-one_record_example =
    Reach-one_record demo demo-IsLawful true
      (next here (commits empty_world scale first refl refl scale-IsRequest refl))

commit_retry_example :
    commit demo scale_again second applied_world ≡ (ok (scaled, false), applied_world)
commit_retry_example =
    commit_retry demo demo-IsLawful scale first scale-IsRequest empty_world applied_world scaled
      true scale_again second empty-IsStore committed refl refl refl

commit_other_key_example :
    commit demo scale_other_key second applied_world ≡ (err (already_applied scaled), applied_world)
commit_other_key_example =
    commit_other_key demo demo-IsLawful scale first scale-IsRequest empty_world applied_world scaled
      true scale_other_key second empty-IsStore committed unbound refl refl

applied-backed : applied_world.store.file_backed ≡ true
unfolding applied_world commit reload persist_records load_unlocked lookup
applied-backed = refl

commit_durable_example : open_store demo true applied_world.disk ≡ ok applied_world
commit_durable_example =
    commit_durable demo demo-IsLawful scale first scale-IsRequest empty_world applied_world scaled
      true empty-IsStore applied-backed committed

commit-refines_example :
    commit demo scale first empty_world
    ≡ perform demo (decide_commit demo scale first []) (set_index empty_index empty_world)
commit-refines_example =
    commit-refines demo scale first empty_world empty_index empty-loads empty-IsStore.indexed

commit-IsStore_example : IsStore demo (commit demo scale first empty_world).1
commit-IsStore_example =
    commit-IsStore demo demo-IsLawful scale first scale-IsRequest empty_world empty-IsStore

applied-IsStore : IsStore demo applied_world
unfolding applied_world
applied-IsStore =
    commit-IsStore demo demo-IsLawful scale first scale-IsRequest empty_world empty-IsStore

reset-Emptied_example :
    IsStore demo (reset demo applied_world).1
    × Emptied demo applied_world.disk (reset demo applied_world)
reset-Emptied_example = reset-Emptied demo applied_world applied-IsStore

commit-Extends_example : Extends [] empty_disk (commit demo scale first empty_world)
commit-Extends_example =
    commit-Extends demo empty_world scale first empty_index empty-loads empty-IsStore.indexed

commit_memory_example :
    commit demo scale first (set_index (publish scaled empty_index) empty_world)
    ≡ commit demo scale first empty_world
commit_memory_example =
    commit_memory demo empty_world scale first (publish scaled empty_index) refl empty-loads
