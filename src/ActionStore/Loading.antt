-- ===== src/ActionStore/Loading.antt =====
-- The three attributes of `ActionStore` that hold records, and `_load_unlocked`, which builds them.
use hermes_enterprise_deploy.Base.{
  String, Option, none, some, List, [], ◌∷◌, ◌++◌, Result, ok, err, ◌>>=◌, if◌then◌else◌, string_eq,
  pair_eq,
}
use hermes_enterprise_deploy.Base.Dict.{Dict, lookup, insert}
use hermes_enterprise_deploy.Json.{Json, obj, arr, Items, nil, cons, Fields, get, text_at}
use hermes_enterprise_deploy.Platform.{Platform}
use hermes_enterprise_deploy.Disk.{File, absent, unreadable, document}
use hermes_enterprise_deploy.ActionStore.Record.{
  StoreError, corrupt_file, invalid_shape, invalid_records_list, duplicate_key, duplicate_pair,
  validate_action_record, is_some,
}

pub record Index : Type 0 where
  pub records : List Fields
  pub by_key : Dict String Fields
  pub by_pair : Dict (String × String) Fields

abbrev pub empty_index : Index
empty_index = record { records = []; by_key = []; by_pair = [] }

abbrev pub key_of : Fields → String
key_of item = text_at "idempotency_key" item

abbrev pub pair_of : Fields → String × String
pair_of item = (text_at "incident_id" item, text_at "action_id" item)

-- The three writes that publish one record.
abbrev pub publish : Fields → Index → Index
publish item ix = record {
  records = ix.records ++ item ∷ [];
  by_key = insert (key_of item) item ix.by_key;
  by_pair = insert (pair_of item) item ix.by_pair;
}

-- One round of the loop, once its record is validated.
unfoldable pub add_item : Fields → Index → Result StoreError Index
add_item item ix =
    if is_some (lookup (key_of item) ix.by_key)
    then err duplicate_key
    else if is_some (lookup (pair_of item) ix.by_pair)
    then err duplicate_pair
    else ok (publish item ix)

module _ (p : Platform) where
  unfoldable pub index_items : Items → Index → Result StoreError Index
  index_items nil ix = ok ix
  index_items (cons raw rest) ix =
      validate_action_record p raw >>= λ item. add_item item ix >>= index_items rest

  abbrev pub load_records : Option Json → Result StoreError Index
  load_records none = err invalid_shape
  load_records (some (arr items)) = index_items items empty_index
  load_records (some _) = err invalid_records_list

  unfoldable pub load_unlocked : File → Result StoreError Index
  load_unlocked absent = ok empty_index
  load_unlocked unreadable = err corrupt_file
  load_unlocked (document (obj raw)) = load_records (get "records" raw)
  load_unlocked (document _) = err invalid_shape
