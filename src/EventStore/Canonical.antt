-- ===== src/EventStore/Canonical.antt =====
-- event_store/store.py: what `_canonical_json` does to the order of a dict's fields: `json.dumps` with
-- `sort_keys=True` writes the fields of every dict in the order of their names, by code points.
use turtle_qts_execution.Base.{
  Bool, true, false, ◌&&◌, ◌||◌, [], ◌∷◌, Text, Json, null, int, str, arr, obj, Items, nil, item,
  Fields, end, field, ltb, ◌==◌, if◌then◌else◌,
}
use turtle_qts_execution.EventStore.Types.{Event}

unfoldable pub text_le : Text → Text → Bool
text_le [] s = true
text_le (c ∷ t) [] = false
text_le (c ∷ t) (d ∷ s) = ltb c d || (c == d && text_le t s)

unfoldable pub insert_field : Text → Json → Fields → Fields
unfolding text_le
insert_field k v end = field k v end
insert_field k v (field k' v' fs) =
    let rest = insert_field k v fs in
    if text_le k k' then field k v (field k' v' fs) else field k' v' rest

-- A value with the fields of every dict in it sorted.
unfoldable mutual
  unfolding insert_field

  pub canonical : Json → Json
  canonical (obj fs) = obj (sort_fields fs)
  canonical (arr xs) = arr (canonical_items xs)
  canonical null = null
  canonical (Json.bool b) = Json.bool b
  canonical (int n) = int n
  canonical (str s) = str s

  pub canonical_items : Items → Items
  canonical_items nil = nil
  canonical_items (item x xs) = item (canonical x) (canonical_items xs)

  pub sort_fields : Fields → Fields
  sort_fields end = end
  sort_fields (field k v fs) = insert_field k (canonical v) (sort_fields fs)

-- An event as a file gives it back: the fields of its payload stand in the order of their names.
abbrev pub stored : Event → Event
stored e = record e { payload = sort_fields e.payload }
