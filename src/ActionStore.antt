-- ===== src/ActionStore.antt =====
-- enterprise-api/app/store.py: `ActionStore`. Every method runs under the thread lock and the file
-- lock, so one call is one step on the store and the file. A raise leaves both as they then stand.
pub mod Record
pub mod Loading
pub mod Indexed
pub mod Valid
pub mod Spec
pub mod Durable
pub mod Idempotent
pub mod Shared
use hermes_enterprise_deploy.Base.{
  ℕ, suc, ◌+◌, String, ◌<>◌, Bool, true, false, Option, none, some, List, [], ◌∷◌, ◌++◌, Result, ok,
  err, if◌then◌else◌, not, ◌&&◌, ◌==◌, string_eq, pair_eq, length, filter, pos,
}
use hermes_enterprise_deploy.Base.Exec.{Exec, ◌>>=◌, ◌>>◌, pure, raise, gets}
use hermes_enterprise_deploy.Base.Dict.{lookup, insert}
use hermes_enterprise_deploy.Json.{
  Json, str, int, arr, obj, Fields, field, end, get, is_str, optional, of_dicts,
}
use hermes_enterprise_deploy.Platform.{Platform, iso}
use hermes_enterprise_deploy.Disk.{File, document, Disk}
use Record.{StoreError, write_failed, key_binding_conflict, already_applied}
use Loading.{Index, empty_index, load_unlocked}

pub record ActionStore : Type 0 where
  pub file_backed : Bool
  pub index : Index
  pub open index use *

-- The store object and the file that it shares with other processes.
pub record World : Type 0 where
  pub store : ActionStore
  pub disk : Disk

abbrev pub Action : Type 0 → Type 0
Action = Exec StoreError World

abbrev pub set_index : Index → World → World
set_index ix w = record w { store = record (w.store) { index = ix } }

abbrev pub publish_index : Index → Action (Unit {0})
publish_index ix w = (ok tt, set_index ix w)

-- `{"records": records}`
abbrev pub payload : List Fields → Json
payload records = obj (field "records" (arr (of_dicts records)) end)

-- The file is written beside and then replaced, so a failed write leaves the old one.
unfoldable pub persist_records : List Fields → Action (Unit {0})
persist_records records w =
    if not w.store.file_backed
    then (ok tt, w)
    else if w.disk.writable
    then (ok tt, record w { disk = record (w.disk) { file = document (payload records) } })
    else (err write_failed, w)

abbrev loaded_as : Result StoreError Index → Action (Unit {0})
loaded_as (ok ix) w = (ok tt, set_index ix w)
loaded_as (err e) w = (err e, w)

module _ (p : Platform) where
  -- `_reload_if_file_backed_unlocked`
  unfoldable pub reload : Action (Unit {0})
  reload w = if w.store.file_backed then loaded_as (load_unlocked p w.disk.file) w else (ok tt, w)

-- The keyword arguments of `commit`.
pub record Commit : Type 0 where
  pub incident_id : String
  pub action_id : String
  pub idempotency_key : String
  pub correlation_id : String
  pub note : Option String

-- What `commit` draws from outside: twelve hex digits of a `uuid4`, and the time.
pub record Stamp : Type 0 where
  pub hex : String
  pub now : ℕ

module _ (p : Platform) where
  unfoldable pub new_record : Commit → Stamp → ℕ → Fields
  new_record c s sequence = field "record_id" (str ("ACT-" <> s.hex)) (
      field "incident_id" (str c.incident_id) (
        field "action_id" (str c.action_id) (
          field "idempotency_key" (str c.idempotency_key) (
            field "correlation_id" (str c.correlation_id) (
              field "note" (optional c.note) (
                field "applied_at" (str (iso p s.now))
                  (field "sequence" (int (pos sequence)) end)))))))

  -- A key that is already bound replays its record, or conflicts if bound to another pair.
  abbrev replay : Commit → Fields → Action (Fields × Bool)
  replay c existing w =
      if is_str c.incident_id (get "incident_id" existing)
        && is_str c.action_id (get "action_id" existing)
      then (ok (existing, false), w)
      else (err (key_binding_conflict existing), w)

  abbrev create : Commit → Stamp → Action (Fields × Bool)
  create c s w =
      let ix = w.store.index in
      let item = new_record c s (length ix.records + 1) in
      (persist_records (ix.records ++ item ∷ []) >> do
        publish_index (record {
          records = ix.records ++ item ∷ [];
          by_key = insert c.idempotency_key item ix.by_key;
          by_pair = insert (c.incident_id, c.action_id) item ix.by_pair;
        })
        pure (item, true))
        w

  abbrev commit_paired : Commit → Stamp → Option Fields → Action (Fields × Bool)
  commit_paired c s (some existing) w = (err (already_applied existing), w)
  commit_paired c s none w = create c s w

  abbrev commit_keyed : Commit → Stamp → Option Fields → Action (Fields × Bool)
  commit_keyed c s (some existing) w = replay c existing w
  commit_keyed c s none w =
      commit_paired c s (lookup (c.incident_id, c.action_id) w.store.by_pair) w

  abbrev commit_loaded : Commit → Stamp → Action (Fields × Bool)
  commit_loaded c s w = commit_keyed c s (lookup c.idempotency_key w.store.by_key) w

  unfoldable pub commit : Commit → Stamp → Action (Fields × Bool)
  unfolding reload persist_records
  commit c s = do reload p; commit_loaded c s

  unfoldable pub get_by_key : String → Action (Option Fields)
  unfolding reload
  get_by_key key = do reload p; gets (λ w. lookup key w.store.by_key)

  abbrev pub for_incident : String → List Fields → List Fields
  for_incident incident_id = filter (λ r. is_str incident_id (get "incident_id" r))

  unfoldable pub list_for_incident : String → Action (List Fields)
  unfolding reload
  list_for_incident incident_id = do reload p; gets (λ w. for_incident incident_id w.store.records)

  unfoldable pub all_records : Action (List Fields)
  unfolding reload
  all_records = do reload p; gets (λ w. w.store.records)

  unfoldable pub reset : Action ℕ
  unfolding reload persist_records
  reset = do
    reload p
    count ← gets (λ w. length w.store.records)
    persist_records []
    publish_index empty_index
    pure count

  -- `ActionStore(path)`: with a path the file is loaded, and a bad file raises.
  unfoldable pub open_store : Bool → Disk → Result StoreError World
  unfolding reload
  open_store file_backed disk =
      let w : World = record {
        store = record { file_backed = file_backed; index = empty_index };
        disk = disk;
      } in
      let (r, w') = reload p w in elim r [ ok _ ↦ ok w' | err e ↦ err e ]
