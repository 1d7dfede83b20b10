-- ===== src/ActionStore/Durable.antt =====
-- The invariant of the store and its file, kept by every operation, errors included.
use hermes_enterprise_deploy.Base.{
  ℕ, [], Result, err, false, ◌⊎◌, Option, some, ◌≡◌, refl, sym, ap, ◌∙◌, subst, ok, length,
  Bool-cases, inl, inr, ok-injective,
}
use hermes_enterprise_deploy.Json.{Json, Items, arr, obj, Fields, get, of_dicts}
use hermes_enterprise_deploy.Platform.{Platform, IsLawful}
use hermes_enterprise_deploy.Disk.{Disk, File, absent, unreadable, document}
use hermes_enterprise_deploy.ActionStore.{World, Commit, Stamp, commit, payload, set_index, reset}
use hermes_enterprise_deploy.ActionStore.Record.{StoreError}
use hermes_enterprise_deploy.ActionStore.Loading.{
  Index, empty_index, load_unlocked, load_records, index_items, publish,
}
use hermes_enterprise_deploy.ActionStore.Indexed.{
  IsIndexed, IsIndexed-Finds, publish-IsIndexed, index_items-records,
}
use hermes_enterprise_deploy.ActionStore.Valid.{IsRequest, new_record-IsRecord}
use hermes_enterprise_deploy.ActionStore.Spec.{
  Decision, created, decide_commit, decide_created, created_keys, loaded, perform, commit-refines,
  reload-eq,
}

module _ (p : Platform) where
  empty-IsIndexed : IsIndexed p empty_index
  empty-IsIndexed = record { reloads = unfold index_items of_dicts in refl }

  index_items-IsIndexed :
      (items : Items) {ix : Index} → index_items p items empty_index ≡ ok ix → IsIndexed p ix
  index_items-IsIndexed items {ix} e =
      let (new, grown, same, valid) = index_items-records p items empty_index e in
      record {
        reloads =
            ap (λ rs. index_items p (of_dicts rs) empty_index) grown
            ∙ ap (λ rest. index_items p rest empty_index) (sym same)
            ∙ e;
      }

  load_records-IsIndexed :
      (o : Option Json) {ix : Index} → load_records p o ≡ ok ix → IsIndexed p ix
  load_records-IsIndexed (some (arr items)) e = index_items-IsIndexed items e
  load_records-IsIndexed _ e = cc

  -- Whatever the file holds, an index that loads from it is exact.
  pub load_unlocked-IsIndexed : (f : File) {ix : Index} → load_unlocked p f ≡ ok ix → IsIndexed p ix
  unfolding load_unlocked
  load_unlocked-IsIndexed absent e = subst (IsIndexed p) (ok-injective e) empty-IsIndexed
  load_unlocked-IsIndexed unreadable e = cc
  load_unlocked-IsIndexed (document (obj raw)) e = load_records-IsIndexed (get "records" raw) e
  load_unlocked-IsIndexed (document _) e = cc

  pub load-payload :
      (ix : Index) → IsIndexed p ix → load_unlocked p (document (payload ix.records)) ≡ ok ix
  unfolding load_unlocked get
  load-payload ix h = h.reloads

  -- The index in memory is exact and the file loads.
  pub record IsStore (w : World) : Type 0 where
    pub indexed : IsIndexed p w.store.index
    pub loads : (ix : Index) × (load_unlocked p w.disk.file ≡ ok ix)

  pub IsStore-loaded :
      (w : World) → IsStore w → (ix : Index) × (loaded p w ≡ ok ix) × IsIndexed p ix
  IsStore-loaded w h = elim (Bool-cases w.store.file_backed) [
    | inl backed ↦ (h.loads.0, rw backed h.loads.1, load_unlocked-IsIndexed w.disk.file h.loads.1)
    | inr memory ↦ (w.store.index, rw memory, h.indexed)
  ]

  module _ (law : IsLawful p) (c : Commit) (s : Stamp) (request : IsRequest c) where
    pub created-IsIndexed :
        (ix : Index) {r : Fields}
        → IsIndexed p ix
        → decide_commit p c s ix.records ≡ created r
        → IsIndexed p (publish r ix)
    created-IsIndexed ix {r} h e =
        let f = IsIndexed-Finds p ix h in
        let (new_key, new_pair, same) = decide_created p c s ix.records e in
        let (k, q) = created_keys p c s ix.records e in
        publish-IsIndexed p r ix
          (rw same (new_record-IsRecord p law c s (length ix.records) request))
          (rw k (f.at_key c.idempotency_key ∙ new_key))
          (rw q (f.at_pair (c.incident_id, c.action_id) ∙ new_pair)) h

    perform-IsStore :
        (w : World) (d : Decision)
        → IsStore w
        → decide_commit p c s w.store.records ≡ d
        → IsStore (perform p d w).1
    perform-IsStore w (created r) h e =
        let exact = created-IsIndexed w.store.index h.indexed e in
        elim (Bool-cases w.store.file_backed) [
          | inr memory ↦ rw memory (record { indexed = exact; loads = h.loads })
          | inl backed ↦ rw backed (elim (Bool-cases w.disk.writable) [
            | inr blocked ↦ rw blocked (record { indexed = h.indexed; loads = h.loads })
            | inl free ↦ rw free (record {
              indexed = exact;
              loads = (publish r w.store.index, load-payload (publish r w.store.index) exact);
            })
          ])
        ]
    perform-IsStore w _ h e = h

    pub commit-loaded-IsStore :
        (w : World) (ix : Index)
        → loaded p w ≡ ok ix
        → IsIndexed p ix
        → ((jx : Index) × (load_unlocked p w.disk.file ≡ ok jx))
        → IsStore (commit p c s w).1
    commit-loaded-IsStore w ix e hx loads = rw (commit-refines p c s w ix e hx) (
        perform-IsStore (set_index ix w) (decide_commit p c s ix.records)
          (record { indexed = hx; loads = loads }) refl)

    -- On a lawful platform and from an exact store over a file that loads, a commit without empty
    -- texts leaves an exact store over a file that loads, whether it replays, conflicts, creates,
    -- or fails to write.
    pub commit-IsStore : (w : World) → IsStore w → IsStore (commit p c s w).1
    commit-IsStore w h =
        let (ix, e, hx) = IsStore-loaded w h in commit-loaded-IsStore w ix e hx h.loads

  -- A reset that returns leaves no record in memory, nor, with a path, in the file. One that raises
  -- leaves the disk `d` as it was.
  abbrev pub Emptied : Disk → Result StoreError ℕ × World → Type 0
  Emptied d (ok n, w) =
      (w.store.records ≡ [])
      × (w.store.index ≡ empty_index)
      × ((w.store.file_backed ≡ false) ⊎ (load_unlocked p w.disk.file ≡ ok empty_index))
  Emptied d (err _, w) = w.disk ≡ d

  reset-loaded-Emptied : (w : World) (ix : Index) → loaded p w ≡ ok ix → Emptied w.disk (reset p w)
  unfolding reset
  reset-loaded-Emptied w ix e =
      rw (reload-eq p w e, reset)
        (elim (Bool-cases w.store.file_backed) [
          | inr memory ↦ rw memory (refl, refl, inl refl)
          | inl backed ↦ rw backed (elim (Bool-cases w.disk.writable) [
            | inr blocked ↦ rw blocked refl
            | inl free ↦ rw free (refl, refl, inr (load-payload empty_index empty-IsIndexed))
          ])
        ])

  pub reset-loaded-IsStore :
      (w : World) (ix : Index)
      → loaded p w ≡ ok ix
      → IsIndexed p ix
      → ((jx : Index) × (load_unlocked p w.disk.file ≡ ok jx))
      → IsStore (reset p w).1
  unfolding reset
  reset-loaded-IsStore w ix e hx loads =
      rw (reload-eq p w e, reset)
        (elim (Bool-cases w.store.file_backed) [
          | inr memory ↦ rw memory (record { indexed = empty-IsIndexed; loads = loads })
          | inl backed ↦ rw backed (elim (Bool-cases w.disk.writable) [
            | inr blocked ↦ rw blocked (record { indexed = hx; loads = loads })
            | inl free ↦ rw free (record {
              indexed = empty-IsIndexed;
              loads = (empty_index, load-payload empty_index empty-IsIndexed);
            })
          ])
        ])

  -- From an exact store over a file that loads, reset leaves an exact store over a file that
  -- loads. When it returns, the store has no record and, with a path, the file loads as the empty
  -- index; when it raises, the disk is as it was.
  pub reset-Emptied : (w : World) → IsStore w → IsStore (reset p w).1 × Emptied w.disk (reset p w)
  reset-Emptied w h =
      let (ix, e, hx) = IsStore-loaded w h in
      (reset-loaded-IsStore w ix e hx h.loads, reset-loaded-Emptied w ix e)
