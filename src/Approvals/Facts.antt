-- ===== src/Approvals/Facts.antt =====
-- What the entry validator checks, one fact at a time, and the updates that keep all of them.
use hermes_enterprise_deploy.Base.{
  String, true, false, Option, none, some, List, [], ◌∷◌, ◌≡◌, refl, ◌∙◌, arith, eq_iff, ok, ◌==◌,
  string_eq,
}
use hermes_enterprise_deploy.Json.{
  Json, str, arr, obj, Items, Fields, get, set, get-set, has_all, all_text, all_optional_text,
  is_optional_text, all_dicts, is_str, text_at,
}
use hermes_enterprise_deploy.Platform.{Platform}
use hermes_enterprise_deploy.Approvals.Entry.{
  validate_approval_entry, required_fields, optional_fields, allowed_statuses, contains, is_instant,
  is_history, parse, history_of,
}

pub has_all-set :
    (ks : List String) (k : String) (v : Json) (raw : Fields)
    → has_all ks raw ≡ true
    → has_all ks (set k v raw) ≡ true
unfolding has_all
has_all-set [] k v raw h = refl
has_all-set (j ∷ ks) k v raw h = ground (arith, get-set j k v raw, has_all-set ks k v raw)

all_text-set :
    (ks : List String) (k s : String) (raw : Fields)
    → (s == "") ≡ false
    → all_text ks raw ≡ true
    → all_text ks (set k (str s) raw) ≡ true
unfolding all_text
all_text-set [] k s raw e h = refl
all_text-set (j ∷ ks) k s raw e h = ground (arith, get-set j k (str s) raw, all_text-set ks k s raw)

all_text-set_other :
    (ks : List String) (k : String) (v : Json) (raw : Fields)
    → contains ks k ≡ false
    → all_text ks (set k v raw) ≡ all_text ks raw
unfolding all_text contains
all_text-set_other [] k v raw e = refl
all_text-set_other (j ∷ ks) k v raw e =
    ground (arith, get-set j k v raw, all_text-set_other ks k v raw, eq_iff j k, eq_iff k j)

all_optional_text-set :
    (ks : List String) (k : String) (v : Json) (raw : Fields)
    → is_optional_text (some v) ≡ true
    → all_optional_text ks raw ≡ true
    → all_optional_text ks (set k v raw) ≡ true
unfolding all_optional_text
all_optional_text-set [] k v raw e h = refl
all_optional_text-set (j ∷ ks) k v raw e h =
    ground (arith, get-set j k v raw, all_optional_text-set ks k v raw)

all_optional_text-set_other :
    (ks : List String) (k : String) (v : Json) (raw : Fields)
    → contains ks k ≡ false
    → all_optional_text ks (set k v raw) ≡ all_optional_text ks raw
unfolding all_optional_text contains
all_optional_text-set_other [] k v raw e = refl
all_optional_text-set_other (j ∷ ks) k v raw e =
    ground
      (arith, get-set j k v raw, all_optional_text-set_other ks k v raw, eq_iff j k, eq_iff k j)

pub history-dicts : (o : Option Json) → is_history o ≡ true → all_dicts (history_of o) ≡ true
history-dicts none h = unfold all_dicts in refl
history-dicts (some (arr items)) h = h
history-dicts (some _) h = cc

module _ (p : Platform) where
  -- An entry that the validator accepts under this ID.
  abbrev pub IsEntry : String → Fields → Type 0
  IsEntry id raw = validate_approval_entry p id (obj raw) ≡ ok raw

  pub record Facts (id : String) (raw : Fields) : Type 0 where
    pub present : has_all required_fields raw ≡ true
    pub texts : all_text required_fields raw ≡ true
    pub own_id : is_str id (get "approval_id" raw) ≡ true
    pub status : contains allowed_statuses (text_at "status" raw) ≡ true
    pub requested : is_instant (parse p (text_at "requested_at" raw)) ≡ true
    pub expires : is_instant (parse p (text_at "expires_at" raw)) ≡ true
    pub optionals : all_optional_text optional_fields raw ≡ true
    pub history : is_history (get "history" raw) ≡ true

  pub Facts-IsEntry : (id : String) (raw : Fields) → Facts id raw → IsEntry id raw
  unfolding validate_approval_entry
  Facts-IsEntry id raw f =
      rw (f.present, f.texts, f.own_id, f.status, f.requested, f.expires, f.optionals, f.history)

  pub IsEntry-Facts : (id : String) (raw : Fields) → IsEntry id raw → Facts id raw
  unfolding validate_approval_entry
  IsEntry-Facts id raw h = record {
    present = ground arith;
    texts = ground arith;
    own_id = ground arith;
    status = ground arith;
    requested = ground arith;
    expires = ground arith;
    optionals = ground arith;
    history = ground arith;
  }

  module _ (id : String) (raw : Fields) (f : Facts id raw) where
    pub status-Facts :
        (s : String)
        → contains allowed_statuses s ≡ true
        → (s == "") ≡ false
        → Facts id (set "status" (str s) raw)
    status-Facts s allowed full = record {
      present = has_all-set required_fields "status" (str s) raw f.present;
      texts = all_text-set required_fields "status" s raw full f.texts;
      own_id = simp get-set f.own_id;
      status = simp get-set allowed;
      requested = simp get-set f.requested;
      expires = simp get-set f.expires;
      optionals =
          all_optional_text-set_other optional_fields "status" (str s) raw (unfold contains in refl)
          ∙ f.optionals;
      history = simp get-set f.history;
    }

    -- A key that the validator reads only as an optional text.
    pub optional-Facts :
        (k s : String)
        → contains required_fields k ≡ false
        → (k == "approval_id") ≡ false
        → (k == "status") ≡ false
        → (k == "requested_at") ≡ false
        → (k == "expires_at") ≡ false
        → (k == "history") ≡ false
        → Facts id (set k (str s) raw)
    optional-Facts k s other a b c d e = record {
      present = has_all-set required_fields k (str s) raw f.present;
      texts = all_text-set_other required_fields k (str s) raw other ∙ f.texts;
      own_id = simp (get-set, a) f.own_id;
      status = simp (get-set, b) f.status;
      requested = simp (get-set, c) f.requested;
      expires = simp (get-set, d) f.expires;
      optionals = all_optional_text-set optional_fields k (str s) raw refl f.optionals;
      history = simp (get-set, e) f.history;
    }

    pub history-Facts :
        (items : Items) → all_dicts items ≡ true → Facts id (set "history" (arr items) raw)
    history-Facts items dicts = record {
      present = has_all-set required_fields "history" (arr items) raw f.present;
      texts =
          all_text-set_other required_fields "history" (arr items) raw (unfold contains in refl)
          ∙ f.texts;
      own_id = simp get-set f.own_id;
      status = simp get-set f.status;
      requested = simp get-set f.requested;
      expires = simp get-set f.expires;
      optionals =
          all_optional_text-set_other optional_fields "history" (arr items) raw
            (unfold contains in refl)
          ∙ f.optionals;
      history = simp get-set dicts;
    }
