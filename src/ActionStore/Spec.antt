-- ===== src/ActionStore/Spec.antt =====
-- What `commit` promises, over the bare list of records, and the proof that it does.
use hermes_enterprise_deploy.Base.{
  ℕ, ◌+◌, Bool, true, false, Option, none, some, List, [], ◌∷◌, ◌++◌, ◌≡◌, refl, ◌∙◌, arith, Result,
  ok, err, length, find, if◌then◌else◌, ◌&&◌, string_eq, pair_eq, not,
}
use text.Mathlib.TextPositions.{eq_refl}
use hermes_enterprise_deploy.Json.{Fields, get, is_str}
use hermes_enterprise_deploy.Platform.{Platform}
use hermes_enterprise_deploy.Disk.{document}
use hermes_enterprise_deploy.ActionStore.{
  World, Commit, Stamp, commit, new_record, payload, persist_records, commit_loaded, commit_keyed,
  commit_paired, set_index, reload,
}
use hermes_enterprise_deploy.ActionStore.Record.{
  StoreError, write_failed, key_binding_conflict, already_applied,
}
use hermes_enterprise_deploy.ActionStore.Loading.{key_of, pair_of, Index, load_unlocked, publish}
use hermes_enterprise_deploy.ActionStore.Indexed.{
  Finds, has_key, has_pair, IsIndexed, IsIndexed-Finds,
}

-- The decision of one call, by the records alone.
pub data Decision : Type 0 where
  replayed key_conflict pair_conflict created : Fields → Decision

abbrev pub same_pair : Commit → Fields → Bool
same_pair c r = is_str c.incident_id (get "incident_id" r) && is_str c.action_id (get "action_id" r)

-- The index that a call works on: the file's, or the memory's for a store with no path.
abbrev pub loaded : Platform → World → Result StoreError Index
loaded p w = if w.store.file_backed then load_unlocked p w.disk.file else ok w.store.index

module _ (p : Platform) where
  abbrev decide_paired : Commit → Stamp → List Fields → Option Fields → Decision
  decide_paired c s rs (some r) = pair_conflict r
  decide_paired c s rs none = created (new_record p c s (length rs + 1))

  abbrev decide_keyed : Commit → Stamp → List Fields → Option Fields → Decision
  decide_keyed c s rs (some r) = if same_pair c r then replayed r else key_conflict r
  decide_keyed c s rs none = decide_paired c s rs (find (has_pair (c.incident_id, c.action_id)) rs)

  unfoldable pub decide_commit : Commit → Stamp → List Fields → Decision
  decide_commit c s rs = decide_keyed c s rs (find (has_key c.idempotency_key) rs)

  -- A new record is written to the file before it is published in memory.
  abbrev pub store_record : Fields → World → Result StoreError (Fields × Bool) × World
  store_record r w =
      if not w.store.file_backed
      then (ok (r, true), set_index (publish r w.store.index) w)
      else if w.disk.writable
      then (
        ok (r, true),
        set_index (publish r w.store.index) (record w {
          disk = record (w.disk) { file = document (payload (w.store.records ++ r ∷ [])) };
        }),
      )
      else (err write_failed, w)

  abbrev pub perform : Decision → World → Result StoreError (Fields × Bool) × World
  perform (replayed r) w = (ok (r, false), w)
  perform (key_conflict r) w = (err (key_binding_conflict r), w)
  perform (pair_conflict r) w = (err (already_applied r), w)
  perform (created r) w = store_record r w

  pub reload-eq :
      (w : World) {ix : Index} → loaded p w ≡ ok ix → reload p w ≡ (ok tt, set_index ix w)
  unfolding reload
  reload-eq w {ix} e = ground arith

  commit-eq-loaded :
      (c : Commit) (s : Stamp) (w : World) (ix : Index)
      → loaded p w ≡ ok ix
      → commit p c s w ≡ commit_loaded p c s (set_index ix w)
  unfolding commit
  commit-eq-loaded c s w ix e = rw (reload-eq w e, commit)

  new_record_keys :
      (c : Commit) (s : Stamp) (n : ℕ)
      → (key_of (new_record p c s n) ≡ c.idempotency_key)
        × (pair_of (new_record p c s n) ≡ (c.incident_id, c.action_id))
  unfolding new_record get
  new_record_keys c s n = (refl, refl)

  commit_paired-refines :
      (c : Commit) (s : Stamp) (w : World) (o : Option Fields)
      → commit_paired p c s o w ≡ perform (decide_paired c s w.store.records o) w
  unfolding persist_records
  commit_paired-refines c s w (some r) = refl
  commit_paired-refines c s w none =
      let (k, q) = new_record_keys c s (length w.store.records + 1) in rw (k, q) ground arith

  commit_keyed-refines :
      (c : Commit) (s : Stamp) (w : World)
      → Finds w.store.index
      → (o : Option Fields)
      → commit_keyed p c s o w ≡ perform (decide_keyed c s w.store.records o) w
  commit_keyed-refines c s w f (some r) = ground arith
  commit_keyed-refines c s w f none =
      rw (f.at_pair (c.incident_id, c.action_id))
        (commit_paired-refines c s w (find (has_pair (c.incident_id, c.action_id)) w.store.records))

  commit_loaded-refines :
      (c : Commit) (s : Stamp) (w : World)
      → Finds w.store.index
      → commit_loaded p c s w ≡ perform (decide_commit c s w.store.records) w
  unfolding decide_commit
  commit_loaded-refines c s w f =
      rw (f.at_key c.idempotency_key)
        (commit_keyed-refines c s w f (find (has_key c.idempotency_key) w.store.records))

  -- On a store whose index loads and is exact, a call does what the decision over the plain list
  -- of records says: replay, conflict of the key, conflict of the pair, or create.
  pub commit-refines :
      (c : Commit) (s : Stamp) (w : World) (ix : Index)
      → loaded p w ≡ ok ix
      → IsIndexed p ix
      → commit p c s w ≡ perform (decide_commit c s ix.records) (set_index ix w)
  commit-refines c s w ix e h =
      commit-eq-loaded c s w ix e
      ∙ commit_loaded-refines c s (set_index ix w) (IsIndexed-Finds p ix h)

  pub decide_created :
      (c : Commit) (s : Stamp) (rs : List Fields) {r : Fields}
      → decide_commit c s rs ≡ created r
      → (find (has_key c.idempotency_key) rs ≡ none)
        × (find (has_pair (c.incident_id, c.action_id)) rs ≡ none)
        × (r ≡ new_record p c s (length rs + 1))
  unfolding decide_commit
  decide_created c s rs e = (ground arith, ground arith, ground arith)

  pub created_keys :
      (c : Commit) (s : Stamp) (rs : List Fields) {r : Fields}
      → decide_commit c s rs ≡ created r
      → (key_of r ≡ c.idempotency_key) × (pair_of r ≡ (c.incident_id, c.action_id))
  created_keys c s rs e =
      let (_, _, same) = decide_created c s rs e in rw same (new_record_keys c s (length rs + 1))

  pub decide_replayed :
      (c : Commit) (s : Stamp) (rs : List Fields) {r : Fields}
      → decide_commit c s rs ≡ replayed r
      → (find (has_key c.idempotency_key) rs ≡ some r) × (same_pair c r ≡ true)
  unfolding decide_commit
  decide_replayed c s rs e = (ground arith, ground arith)

  -- What is created is found under the key and the pair of the request.
  pub created_fits :
      (c : Commit) (s : Stamp) (n : ℕ)
      → (has_key c.idempotency_key (new_record p c s n) ≡ true)
        × (has_pair (c.incident_id, c.action_id) (new_record p c s n) ≡ true)
        × (same_pair c (new_record p c s n) ≡ true)
  unfolding new_record get
  created_fits c s n = simp eq_refl (refl, refl, refl)

  pub decide_replays :
      (c : Commit) (s : Stamp) (rs : List Fields) {r : Fields}
      → find (has_key c.idempotency_key) rs ≡ some r
      → same_pair c r ≡ true
      → decide_commit c s rs ≡ replayed r
  unfolding decide_commit
  decide_replays c s rs at same = rw (at, same)

  pub decide_taken :
      (c : Commit) (s : Stamp) (rs : List Fields) {r : Fields}
      → find (has_key c.idempotency_key) rs ≡ none
      → find (has_pair (c.incident_id, c.action_id)) rs ≡ some r
      → decide_commit c s rs ≡ pair_conflict r
  unfolding decide_commit
  decide_taken c s rs new_key at = rw (new_key, at)
