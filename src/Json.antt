-- ===== src/Json.antt =====
-- JSON values as Python holds them after `json.loads`, and the dict operations on them.
use hermes_enterprise_deploy.Base.{
  zero, pos, ℤ, String, Bool, true, false, Option, none, some, List, [], ◌∷◌, ◌≡◌, refl, arith,
  eq_iff, string_eq, ◌==◌, if◌then◌else◌, not, ◌&&◌,
}

mutual
  pub data Json : Type 0 where
    null : Json
    bool : Bool → Json
    int : ℤ → Json
    float : String → Json
    str : String → Json
    arr : Items → Json
    obj : Fields → Json

  pub data Items : Type 0 where
    nil : Items
    cons : Json → Items → Items

  pub data Fields : Type 0 where
    end : Fields
    field : String → Json → Fields → Fields

-- `raw.get(k)`, with `none` for a missing key
unfoldable pub get : String → Fields → Option Json
get k end = none
get k (field j v rest) = if j == k then some v else get k rest

-- `raw[k] = v`
unfoldable pub set : String → Json → Fields → Fields
set k v end = field k v end
set k v (field j w rest) = if j == k then field k v rest else field j w (set k v rest)

pub get-set :
    (j k : String) (v : Json) (raw : Fields)
    → get j (set k v raw) ≡ (if k == j then some v else get j raw)
unfolding get set
get-set j k v end = refl
get-set j k v (field i w rest) =
    ground (arith, eq_iff k j, eq_iff i k, eq_iff i j, get-set j k v rest)

-- `k in raw`
abbrev pub has : String → Fields → Bool
has k raw = elim (get k raw) [ none ↦ false | some _ ↦ true ]

-- `required - raw.keys()` is empty
unfoldable pub has_all : List String → Fields → Bool
has_all [] raw = true
has_all (k ∷ ks) raw = has k raw && has_all ks raw

-- `isinstance(value, str) and value`
abbrev pub is_text : Option Json → Bool
is_text (some (str s)) = not (s == "")
is_text _ = false

unfoldable pub all_text : List String → Fields → Bool
all_text [] raw = true
all_text (k ∷ ks) raw = is_text (get k raw) && all_text ks raw

-- `value is None or isinstance(value, str)`, for `value = raw.get(k)`
abbrev pub is_optional_text : Option Json → Bool
is_optional_text none = true
is_optional_text (some null) = true
is_optional_text (some (str s)) = true
is_optional_text _ = false

unfoldable pub all_optional_text : List String → Fields → Bool
all_optional_text [] raw = true
all_optional_text (k ∷ ks) raw = is_optional_text (get k raw) && all_optional_text ks raw

-- `all(isinstance(item, dict) for item in items)`
unfoldable pub all_dicts : Items → Bool
all_dicts nil = true
all_dicts (cons (obj d) rest) = all_dicts rest
all_dicts (cons _ rest) = false

-- The text of `raw[k]`, where `raw` has passed a validator that makes it one.
abbrev pub text_of : Option Json → String
text_of (some (str s)) = s
text_of _ = ""

abbrev pub text_at : String → Fields → String
text_at k raw = text_of (get k raw)

-- `raw.get(k) == s`
abbrev pub is_str : String → Option Json → Bool
is_str s (some (str t)) = t == s
is_str s _ = false

-- `value` or `None`
abbrev pub optional : Option String → Json
optional none = null
optional (some s) = str s

-- `items.append(value)`
abbrev pub push : Items → Json → Items
push nil v = cons v nil
push (cons w rest) v = cons w (push rest v)

pub all_dicts-push :
    (items : Items) (d : Fields) → all_dicts items ≡ true → all_dicts (push items (obj d)) ≡ true
unfolding all_dicts
all_dicts-push nil d h = refl
all_dicts-push (cons (obj c) rest) d h = all_dicts-push rest d h
all_dicts-push (cons _ rest) d h = h

-- A list of dicts as a JSON array.
unfoldable pub of_dicts : List Fields → Items
of_dicts [] = nil
of_dicts (d ∷ ds) = cons (obj d) (of_dicts ds)

pub is_str-text_of : (s : String) (o : Option Json) → is_str s o ≡ true → text_of o ≡ s
is_str-text_of s (some (str t)) h = (eq_iff t s).0 h
is_str-text_of s _ h = cc

-- A dict literal.
abbrev pub dict : List (String × Json) → Fields
dict [] = end
dict ((k, v) ∷ rest) = field k v (dict rest)

-- `raw.update(fields)`
abbrev pub update : Fields → Fields → Fields
update raw end = raw
update raw (field k v rest) = update (set k v raw) rest

-- `bool(raw.get(k))`
abbrev pub truthy : Option Json → Bool
truthy none = false
truthy (some null) = false
truthy (some (bool b)) = b
truthy (some (int (pos zero))) = false
truthy (some (str s)) = not (s == "")
truthy (some (arr nil)) = false
truthy (some (obj end)) = false
truthy (some _) = true

-- `raw.get(k, {})`
abbrev pub dict_at : Option Json → Fields
dict_at (some (obj d)) = d
dict_at _ = end

abbrev pub json_of : Option Json → Json
json_of none = null
json_of (some j) = j
