-- ===== src/Json.antt =====
-- The Python values that task_repository.py keeps as JSON texts (src/task_repository.py,
-- `canonical_json` and the `json.loads` of `_task_from_row` and `_item_from_row`).
-- A column holds the value that its text denotes, its keys in the order of the text. Numbers are
-- kept by the text that `repr` and `json.dumps` both give them, which `json.loads` reads back.
-- `opaque` is an object of a class that `json.dumps` refuses with a TypeError.
pub mod Canonical
use ia_dev_lab.Base.{
  String, Bool, Option, none, some, ◌==◌, string_equality, text_ltb, if◌then◌else◌,
}
use mathlib.Core.Option

mutual
  pub data Value : Type 0 where
    null : Value
    boolean : Bool → Value
    number : String → Value
    text : String → Value
    array : Items → Value
    object : Fields → Value
    opaque : String → Value

  pub data Items : Type 0 where
    nil : Items
    cons : Value → Items → Items

  pub data Fields : Type 0 where
    end : Fields
    field : String → Value → Fields → Fields

-- `d.get(key)` on a dict.
unfoldable pub get : String → Fields → Option Value
get k end = none
get k (field j v fs) = if j == k then some v else get k fs

-- One insertion of the stable sort by key that `sort_keys=True` makes.
unfoldable pub insert_field : String → Value → Fields → Fields
insert_field k v end = field k v end
insert_field k v (field j w fs) =
    if text_ltb j k then field j w (insert_field k v fs) else field k v (field j w fs)

unfoldable mutual
  -- `json.loads(canonical_json(value))`, or the TypeError of `json.dumps`.
  pub canonical_json : Value → Option Value
  canonical_json null = some null
  canonical_json (boolean b) = some (boolean b)
  canonical_json (number n) = some (number n)
  canonical_json (text s) = some (text s)
  canonical_json (array xs) = Option.map array (canonical_items xs)
  canonical_json (object fs) = Option.map object (canonical_fields fs)
  canonical_json (opaque c) = none

  pub canonical_items : Items → Option Items
  canonical_items nil = some nil
  canonical_items (cons x xs) = elim (canonical_json x) [
    | none ↦ none
    | some y ↦ Option.map (cons y) (canonical_items xs)
  ]

  pub canonical_fields : Fields → Option Fields
  canonical_fields end = some end
  canonical_fields (field k v fs) = elim (canonical_json v) [
    | none ↦ none
    | some w ↦ Option.map (insert_field k w) (canonical_fields fs)
  ]
