-- ===== src/Agent/Reviewed.antt =====
-- What a result that passes the evaluator is: every action is grounded in an authoritative document, and is
-- gated exactly when it is consequential.
use hermes_enterprise_deploy.Base.{
  String, Bool, true, false, Option, some, List, [], ◌∷◌, ◌++◌, ◌==◌, ◌≡◌, ◌≢◌, refl, sym, ap,
  subst, ◌∙◌, inl, inr, arith, eq_iff, Bool-cases, Option-cases, All, some-inj, string_eq,
}
use hermes_enterprise_deploy.Base.Dict.{lookup}
use hermes_enterprise_deploy.Base.Members.{contains, In, contains-In, append-eq-nil}
use hermes_enterprise_deploy.Json.{Json, str, bool, Fields, get, json_of}
use hermes_enterprise_deploy.Platform.{Platform}
use hermes_enterprise_deploy.Agent.Retrieval.{RunbookDocument}
use hermes_enterprise_deploy.Agent.Checks.{gate_violations, Index, cites, digests_of}
use hermes_enterprise_deploy.Agent.Evaluation
use hermes_enterprise_deploy.Agent.Inversion.{report-eq-nil, In-of_map, flags-agree}

module _ (p : Platform) (show : Json → String) (documents : List RunbookDocument) where
  -- An entry of the index comes from a document.
  abbrev pub Sourced : String → List String → Type 0
  Sourced id ds =
      (d : RunbookDocument) × In d documents
      × (d.document_id ≡ id)
      × (ds ≡ Evaluation.digests p show d)

  abbrev pub AllSourced : Index → Type 0
  AllSourced index = (id : String) (ds : List String) → lookup id index ≡ some ds → Sourced id ds

  AllSourced-cons :
      (d : RunbookDocument) (index : Index)
      → In d documents
      → AllSourced index
      → AllSourced ((d.document_id, Evaluation.digests p show d) ∷ index)
  unfolding lookup
  AllSourced-cons d index m h id ds e = elim (Bool-cases (d.document_id == id)) [
    | inl same ↦ (d, m, (eq_iff d.document_id id).0 same, sym (some-inj (rw same at e)))
    | inr other ↦ h id ds (rw other at e)
  ]

  pub index_documents-AllSourced :
      (ds : List RunbookDocument) (index : Index)
      → All (λ d. In d documents) ds
      → AllSourced index
      → AllSourced (Evaluation.index_documents p show ds index).1
  unfolding Evaluation.index_documents
  index_documents-AllSourced [] index h sourced = sourced
  index_documents-AllSourced (d ∷ ds) index h sourced =
      elim (Bool-cases (Evaluation.known p show index d.document_id)) [
        | inl twice ↦ rw twice (index_documents-AllSourced ds index h.1 sourced)
        | inr once ↦
            rw once (index_documents-AllSourced ds _ h.1 (AllSourced-cons d index h.0 sourced))
      ]

  pub AllSourced-nil : AllSourced []
  unfolding lookup
  AllSourced-nil id ds e = cc

  -- An action that passes the review: it repeats an action of the retrieved document that it cites, and it
  -- needs an approval exactly when it is consequential.
  pub record IsReviewed (retrieved : List String) (action : Fields) : Type 0 where
    pub id : String
    pub has_id : get "action_id" action ≡ some (str id)
    pub not_blank : p.strip id ≢ ""
    pub document : RunbookDocument
    pub authoritative : In document documents
    pub cited : get "citation_id" action ≡ some (str document.document_id)
    pub retrieved_document : In document.document_id retrieved
    pub origin : Fields
    pub of_document : In origin document.actions
    pub same_digest :
        Evaluation.action_provenance_sha256 p show (str document.document_id) action
        ≡ Evaluation.action_provenance_sha256 p show (str document.document_id) origin
    pub consequential : Bool
    pub flagged : get "consequential" action ≡ some (bool consequential)
    pub gated : get "approval_required" action ≡ some (bool consequential)

  -- The IDs of the actions are distinct, and none is one of those seen.
  abbrev pub Fresh : List String → List Fields → Type 0
  Fresh seen [] = Unit
  Fresh seen (action ∷ rest) =
      (id : String) × (get "action_id" action ≡ some (str id))
      × (contains seen id ≡ false)
      × Fresh (id ∷ seen) rest

  named :
      (o : Option Json) (seen : List String)
      → (Evaluation.name_action p show o seen).0 ≡ []
      → (id : String) × (o ≡ some (str id))
        × (p.strip id ≢ "")
        × (contains seen id ≡ false)
        × ((Evaluation.name_action p show o seen).2 ≡ id ∷ seen)
  named (some (str s)) seen e = elim (Bool-cases (p.strip s == "")) [
    | inl blank ↦ cc (rw blank at e)
    | inr fine ↦ elim (Bool-cases (contains seen s)) [
      | inl again ↦ cc (rw (fine, again) at e)
      | inr new ↦ (s, refl, (λ b. cc ((eq_iff (p.strip s) "").1 b, fine)), new, rw (fine, new))
    ]
  ]
  named _ seen e = cc

  cited_entry :
      (index : Index) (retrieved : List String) (o : Option Json) (digest : Json → String)
      → cites retrieved o ≡ true
      → contains (digests_of index o) (digest (json_of o)) ≡ true
      → (id : String) × (o ≡ some (str id))
        × In id retrieved
        × (ds : List String) × (lookup id index ≡ some ds)
        × In (digest (str id)) ds
  unfolding contains
  cited_entry index retrieved (some (str id)) digest c h = elim (Option-cases (lookup id index)) [
    | inl missing ↦ cc (rw missing at h)
    | inr (ds, there) ↦ (
      id,
      refl,
      contains-In retrieved id c,
      ds,
      there,
      contains-In ds (digest (str id)) (rw there at h),
    )
  ]
  cited_entry index retrieved _ digest c h = cc

  no_report :
      (index : Index) (retrieved : List String) (id : String) (action : Fields)
      → Evaluation.grounding_violations p show (some index) retrieved id action ≡ []
      → (cites retrieved (get "citation_id" action) ≡ true)
        × (Evaluation.independently_grounded p show (some index) action ≡ true)
  no_report index retrieved id action e = ground arith

  grounded :
      (index : Index) (retrieved : List String) (id : String) (action : Fields)
      → AllSourced index
      → Evaluation.grounding_violations p show (some index) retrieved id action ≡ []
      → (document : RunbookDocument) × In document documents
        × (get "citation_id" action ≡ some (str document.document_id))
        × In document.document_id retrieved
        × (origin : Fields) × In origin document.actions
        × (Evaluation.action_provenance_sha256 p show (str document.document_id) action
            ≡ Evaluation.action_provenance_sha256 p show (str document.document_id) origin)
  grounded index retrieved id action sourced e =
      let (c, h) = no_report index retrieved id action e in
      let (cited_id, cited, there, ds, entry, m) =
        cited_entry index retrieved (get "citation_id" action)
          (λ j. Evaluation.action_provenance_sha256 p show j action) c h in
      let (d, d_there, same, all) = sourced cited_id ds entry in
      let (origin, o_there, digest) =
        In-of_map (λ a. Evaluation.action_provenance_sha256 p show (str d.document_id) a) d.actions
          _ (subst (In _) all m) in
      (
        d,
        d_there,
        rw same cited,
        rw same there,
        origin,
        o_there,
        ap (λ i. Evaluation.action_provenance_sha256 p show (str i) action) same ∙ digest,
      )

  four_nil :
      {A : Type 0} (a b c d : List A)
      → a ++ b ++ c ++ d ≡ []
      → (a ≡ []) × (b ≡ []) × (c ≡ []) × (d ≡ [])
  four_nil a b c d e =
      let (abc, d_nil) = append-eq-nil (a ++ b ++ c) d e in
      let (ab, c_nil) = append-eq-nil (a ++ b) c abc in
      let (a_nil, b_nil) = append-eq-nil a b ab in (a_nil, b_nil, c_nil, d_nil)

  pub check_actions-IsReviewed :
      (index : Index) (retrieved : List String) (actions : List Fields) (seen : List String)
      → AllSourced index
      → (Evaluation.check_actions p show (some index) retrieved actions seen).0 ≡ []
      → gate_violations actions ≡ []
      → All (IsReviewed retrieved) actions × Fresh seen actions
  unfolding Evaluation.check_actions gate_violations
  check_actions-IsReviewed index retrieved [] seen sourced e gates = (tt, tt)
  check_actions-IsReviewed index retrieved (action ∷ rest) seen sourced e gates =
      let name = Evaluation.name_action p show (get "action_id" action) seen in
      let (no_name, no_grounding, no_flags, no_more) = four_nil _ _ _ _ e in
      let (id, has_id, not_blank, new, seen') = named (get "action_id" action) seen no_name in
      let (d, there, cited, retrieved_document, origin, of_document, digest) =
        grounded index retrieved name.1 action sourced no_grounding in
      let (no_gate, no_gates) = append-eq-nil _ (gate_violations rest) gates in
      let (b, flagged, gated) =
        flags-agree name.1 (get "consequential" action) (get "approval_required" action) no_flags
          (report-eq-nil _ _ no_gate) in
      let (others, fresh) =
        check_actions-IsReviewed index retrieved rest name.2 sourced no_more no_gates in
      (
        (
          record {
            id = id;
            has_id = has_id;
            not_blank = not_blank;
            document = d;
            authoritative = there;
            cited = cited;
            retrieved_document = retrieved_document;
            origin = origin;
            of_document = of_document;
            same_digest = digest;
            consequential = b;
            flagged = flagged;
            gated = gated;
          },
          others,
        ),
        (id, has_id, new, subst (λ s. Fresh s rest) seen' fresh),
      )
