-- ===== src/Agent/Consistent.antt =====
-- The graph and the evaluator together: what the graph leaves passes, against the documents that it searched.
use hermes_enterprise_deploy.Base.{
  String, true, false, Option, none, some, List, [], ◌∷◌, ◌≡◌, refl, sym, ap, subst, ◌∙◌, inl, inr,
  All, ok, filter, string_eq,
}
use hermes_enterprise_deploy.Base.Dict.{lookup}
use hermes_enterprise_deploy.Base.Members.{
  In, All-In, All-of, Descends, contains, is_empty, same_set,
}
use hermes_enterprise_deploy.Json.{Json, str, get}
use hermes_enterprise_deploy.Platform.{Platform}
use hermes_enterprise_deploy.Agent.Retrieval.{RunbookDocument, search, set_of}
use hermes_enterprise_deploy.Agent.Ranking.{search-IsBest}
use hermes_enterprise_deploy.Agent.State.{IncidentGraphState}
use hermes_enterprise_deploy.Agent.Checks.{
  unhashable, well_formed, check_digests, authority_violations, Index, digests_at,
}
use hermes_enterprise_deploy.Agent.Evaluation
use hermes_enterprise_deploy.Agent.Graph
use hermes_enterprise_deploy.Agent.Graph.{ids_of, text_or_empty}
use hermes_enterprise_deploy.Agent.Flat.{Entry, IsEntry, flat, names, tidy, id_of, digest}
use hermes_enterprise_deploy.Agent.Silent.{
  Different, set_of-eq, minus-none, same_set-of, rev_onto, In-rev_onto, In-of_rev_onto,
  check_digests-eq, filter-none, gate_violations-none,
}
use hermes_enterprise_deploy.Agent.Passing.{
  Indexes, Fits, OtherId, index_documents-eq, digests_at-eq, check_actions-eq, map-fuse, In-map,
  Apart,
}
use hermes_enterprise_deploy.Agent.Library.{
  IsLibrary, Differ, Separate, Descends-map, search-IsLibrary, In-flat, flat-Differ,
}
use hermes_enterprise_deploy.Agent.Inversion.{In-of_map}
use hermes_enterprise_deploy.Agent.Gated.{All_map}
use mathlib.Core.List.{map}
use hermes_enterprise_deploy.Agent.Left.{
  join, Descends-mono, taken, status-none, invoke-eq, left_by,
}

module _ (p : Platform) (show : Json → String) where
  module _ (found : List RunbookDocument) (lib : IsLibrary p show found) where
    ids-Different : Descends Different (ids_of found)
    ids-Different =
        Descends-map (Separate p show) Different (λ d. d.document_id) found (λ d d' s. s.0)
          lib.apart

    digests-Different : Descends Different (map (digest p show) (flat found))
    digests-Different =
        Descends-map (Differ p show) Different (digest p show) (flat found) (λ e e' s. s.1)
          (flat-Differ p show found lib)

    entries-Fits :
        (index : Index)
        → Indexes p show index found
        → All (Fits p show index (ids_of found)) (flat found)
    entries-Fits index h = All-of (Fits p show index (ids_of found)) (flat found) λ e m.
        let (d_there, a_there) = In-flat p show found e m in
        (
          All-In (IsEntry p) e.0.actions e.1
              (All-In (λ d. All (IsEntry p) d.actions) found e.0 lib.entries d_there) a_there,
          a_there,
          In-map (λ d. d.document_id) found e.0 d_there,
          All-In (λ d. lookup d.document_id index ≡ some (Evaluation.digests p show d)) found e.0 h
              d_there,
        )

    provenance-eq :
        ((s : String) → well_formed (p.sha256_hex s) ≡ true)
        → check_digests (map (λ e. str (digest p show e)) (flat found)) []
          ≡ ([], rev_onto (map (digest p show) (flat found)) [])
    unfolding contains Evaluation.action_provenance_sha256
    provenance-eq hex =
        let xs = map (digest p show) (flat found) in
        ap (λ l. check_digests l []) (sym (map-fuse (λ t. str t) (digest p show) (flat found)))
        ∙ check_digests-eq xs []
            (All-of (λ x. well_formed x ≡ true) xs
              λ x m.
                let (e, _, same) = In-of_map (digest p show) (flat found) x m in
                subst (λ t. well_formed t ≡ true) (sym same) (hex _))
            digests-Different (All-of (λ x. contains [] x ≡ false) xs λ x m. refl)

    authority-none :
        (index : Index)
        → Indexes p show index found
        → authority_violations
            (some index)
            (ids_of found)
            (rev_onto (map (digest p show) (flat found)) [])
          ≡ []
    unfolding authority_violations
    authority-none index h =
        let xs = map (digest p show) (flat found) in
        let known =
          filter-none (λ id. elim (lookup id index) [ none ↦ true | some _ ↦ false ]) (ids_of found)
            (All_map (λ d. lookup d.document_id index ≡ some (Evaluation.digests p show d)) _
              (λ d. d.document_id) found
              (λ d e. ap (λ o. elim o [ none ↦ true | some _ ↦ false ]) e) h) in
        let same : same_set (rev_onto xs []) (digests_at index (ids_of found)) ≡ true =
          ap (same_set (rev_onto xs [])) (digests_at-eq p show index found h)
          ∙ same_set-of (rev_onto xs []) xs
              (λ x m. elim (In-of_rev_onto xs [] x m) [
                | inl there ↦ there
                | inr nothing ↦ absurd nothing
              ])
              (λ x m. In-rev_onto xs [] x (inl m)) in
        rw (known, same) refl

    retrieved-eq : set_of (ids_of found) ≡ ids_of found
    retrieved-eq = set_of-eq (ids_of found) ids-Different

    violations-none :
        (documents : List RunbookDocument) (before : IncidentGraphState)
        → IsLibrary p show documents
        → ((d : RunbookDocument) → In d found → In d documents)
        → ((s : String) → well_formed (p.sha256_hex s) ≡ true)
        → Evaluation.violations_of p show (left_by p show found before) (some documents) ≡ []
    unfolding Evaluation.violations_of
    violations-none documents before all part hex =
        let (silent, indexes) =
          index_documents-eq p show documents [] (apart-of all)
            (All-of _ documents λ d m. none_yet d) in
        let index = (Evaluation.index_documents p show documents []).1 in
        let here : Indexes p show index found =
          All-of _ found λ d m. All-In _ documents d indexes (part d m) in
        let (actions, ids) =
          check_actions-eq p show index (ids_of found) (flat found) [] (entries-Fits index here)
            (Descends-mono (Differ p show) (OtherId p show) (flat found) (λ e e' d. d.0)
              (flat-Differ p show found lib))
            (All-of _ (flat found) λ e m. not_seen e) in
        rw (retrieved-eq, provenance-eq hex)
          (join _ _
            (join _ _
              (join _ _
                (join _ _
                  (join _ _
                    (join _ _ (join _ _ (join _ _ silent refl) (authority-none index here))
                      (status-none found _ λ e. ap (λ l. map tidy (flat l)) e))
                    (ap (map _) (minus-none (ids_of found) (ids_of found) λ x m. m)))
                  actions)
                (declared ids))
              (gate_violations-none (flat found)))
            refl)
      where
        apart-of : IsLibrary p show documents → Descends (Apart p show) documents
        apart-of l =
            Descends-mono (Separate p show) (Apart p show) documents (λ d d' s. s.0) l.apart

        none_yet :
            (d : RunbookDocument) → ◌≡◌ {A = Option (List String)} (lookup d.document_id []) none
        none_yet d = unfold lookup in refl

        not_seen : (e : Entry) → contains [] (id_of e.1) ≡ false
        not_seen e = unfold contains in refl

        declared :
            {ids : List String}
            → ids ≡ names (flat found)
            → Evaluation.declared_violations p show (some (names (flat found))) ids ≡ []
        declared {ids} e = rw (e, same_set-of (names (flat found)) _ (λ x m. m) (λ x m. m)) refl

    hashable :
        is_empty (filter (λ action. unhashable (get "citation_id" action)) (map tidy (flat found)))
        ≡ true
    unfolding get
    hashable = ap is_empty (filter-none _ (map tidy (flat found)) (all_texts (flat found)))
      where
        all_texts :
            (es : List Entry) → All (λ a. unhashable (get "citation_id" a) ≡ false) (map tidy es)
        all_texts [] = tt
        all_texts (e ∷ es) = (refl, all_texts es)

  judged :
      (result : IncidentGraphState) (documents : List RunbookDocument)
      → is_empty (
          filter
            (λ action. unhashable (get "citation_id" action))
            (Evaluation.all_actions p show result (some documents)))
        ≡ true
      → Evaluation.violations_of p show result (some documents) ≡ []
      → (e : Evaluation.Evaluation) × (Evaluation.evaluate_workflow_result p show result
            (some documents)
          ≡ some e)
        × (e.passed ≡ true)
  unfolding Evaluation.evaluate_workflow_result
  judged result documents h v = (_, taken _ _ h, ap is_empty v)

  -- If SHA-256 digests are 64 hexadecimal digits, and in the library every action is well-formed
  -- and neither two documents share an ID nor two actions an ID or a fingerprint, then for any
  -- question a run of the graph returns, and the evaluator passes what it leaves against that
  -- library.
  pub invoke-passes :
      (documents : List RunbookDocument) (before : IncidentGraphState)
      → ((s : String) → well_formed (p.sha256_hex s) ≡ true)
      → IsLibrary p show documents
      → (after : IncidentGraphState) × (Graph.invoke p show documents before ≡ ok after)
        × ((e : Evaluation.Evaluation) × (Evaluation.evaluate_workflow_result p show after
                (some documents)
              ≡ some e)
            × (e.passed ≡ true))
  invoke-passes documents before hex all =
      let found = search p (text_or_empty before.question) documents 3 in
      let best = search-IsBest p (text_or_empty before.question) documents 3 in
      let lib = search-IsLibrary p show (text_or_empty before.question) documents 3 all in
      (
        left_by p show found before,
        invoke-eq p show documents before lib.entries,
        judged (left_by p show found before) documents (hashable found lib)
            (violations-none found lib documents before all (λ d m. (best.matches d m).0) hex),
      )
