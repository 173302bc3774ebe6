-- ===== src/Json/Canonical.antt =====
-- What the canonical JSON text of a payload keeps: every lookup, and itself.
use ia_dev_lab.Base.{
  String, false, ◌≡◌, refl, some_subst, Bool-cases, Option, none, some, arith, eq_iff, ◌==◌,
  string_equality, if◌then◌else◌, text_ltb, text_ltb_asymm, Option-cases, inl, inr,
}
use ia_dev_lab.Json.{
  Value, null, boolean, number, text, array, object, opaque, Items, nil, cons, Fields, end, field,
  get, insert_field, canonical_json, canonical_items, canonical_fields,
}

pub get-insert_field :
    (q k : String) (v : Value) (fs : Fields)
    → get q (insert_field k v fs) ≡ (if k == q then some v else get q fs)
unfolding get insert_field
get-insert_field q k v end = refl
get-insert_field q k v (field j w fs) =
    ground (arith, eq_iff j k, eq_iff j q, eq_iff k q, get-insert_field q k v fs)

abbrev pub canonical_of : Option Value → Option Value
canonical_of none = none
canonical_of (some v) = canonical_json v

-- Reading a key of a stored dict gives the stored form of what the dict held under the key, and a
-- key that the dict lacks is lacking after the round trip.
pub get-canonical_fields :
    (q : String) (fs stored : Fields)
    → canonical_fields fs ≡ some stored
    → get q stored ≡ canonical_of (get q fs)
unfolding canonical_fields get
get-canonical_fields q end stored h = ground arith
get-canonical_fields q (field k v fs) stored h = elim (Option-cases (canonical_json v)) [
  | inl e ↦ absurd (ground arith)
  | inr (w, e) ↦ elim (Option-cases (canonical_fields fs)) [
    | inl n ↦ absurd (ground arith)
    | inr (rest, n) ↦ ground (arith, get-insert_field q k w rest, get-canonical_fields q fs rest n)
  ]
]

-- The keys stand in order, equal ones allowed, in every dict of the value.
abbrev HeadFrom : String → Fields → Type 0
HeadFrom k end = Unit
HeadFrom k (field j v fs) = text_ltb j k ≡ false

abbrev mutual
  IsCanonical : Value → Type 0
  IsCanonical (array xs) = IsCanonicalItems xs
  IsCanonical (object fs) = IsCanonicalFields fs
  IsCanonical (opaque c) = ⊥
  IsCanonical v = Unit

  IsCanonicalItems : Items → Type 0
  IsCanonicalItems nil = Unit
  IsCanonicalItems (cons x xs) = IsCanonical x × IsCanonicalItems xs

  IsCanonicalFields : Fields → Type 0
  IsCanonicalFields end = Unit
  IsCanonicalFields (field k v fs) = HeadFrom k fs × IsCanonical v × IsCanonicalFields fs

HeadFrom-insert_field :
    (i k : String) (v : Value) (fs : Fields)
    → text_ltb k i ≡ false
    → HeadFrom i fs
    → HeadFrom i (insert_field k v fs)
unfolding insert_field
HeadFrom-insert_field i k v end h a = h
HeadFrom-insert_field i k v (field j w fs) h a = ground arith

insert_field-IsCanonicalFields :
    (k : String) (v : Value) (fs : Fields)
    → IsCanonical v
    → IsCanonicalFields fs
    → IsCanonicalFields (insert_field k v fs)
unfolding insert_field
insert_field-IsCanonicalFields k v end c a = (tt, c, tt)
insert_field-IsCanonicalFields k v (field j w fs) c a = elim (Bool-cases (text_ltb j k)) [
  | inl e ↦ rw e (
    HeadFrom-insert_field j k v fs (text_ltb_asymm j k e) a.0,
    a.1,
    insert_field-IsCanonicalFields k v fs c a.2,
  )
  | inr e ↦ rw e (e, c, a)
]

mutual
  unfolding canonical_json canonical_items canonical_fields

  canonical_json-IsCanonical : (v : Value) {w : Value} → canonical_json v ≡ some w → IsCanonical w
  canonical_json-IsCanonical null {w} h = some_subst IsCanonical h tt
  canonical_json-IsCanonical (boolean b) {w} h = some_subst IsCanonical h tt
  canonical_json-IsCanonical (number b) {w} h = some_subst IsCanonical h tt
  canonical_json-IsCanonical (text b) {w} h = some_subst IsCanonical h tt
  canonical_json-IsCanonical (array xs) {w} h = elim (Option-cases (canonical_items xs)) [
    | inl n ↦ absurd (ground arith)
    | inr (ys, n) ↦
        some_subst IsCanonical {v = array ys} (ground arith) (canonical_items-IsCanonical xs n)
  ]
  canonical_json-IsCanonical (object fs) {w} h = elim (Option-cases (canonical_fields fs)) [
    | inl n ↦ absurd (ground arith)
    | inr (gs, n) ↦
        some_subst IsCanonical {v = object gs} (ground arith) (canonical_fields-IsCanonical fs n)
  ]
  canonical_json-IsCanonical (opaque c) {w} h = cc

  canonical_items-IsCanonical :
      (xs : Items) {ys : Items} → canonical_items xs ≡ some ys → IsCanonicalItems ys
  canonical_items-IsCanonical nil {ys} h = some_subst IsCanonicalItems h tt
  canonical_items-IsCanonical (cons x xs) {ys} h = elim (Option-cases (canonical_json x)) [
    | inl n ↦ absurd (ground arith)
    | inr (y, n) ↦ elim (Option-cases (canonical_items xs)) [
      | inl m ↦ absurd (ground arith)
      | inr (zs, m) ↦
          some_subst IsCanonicalItems {v = cons y zs} (ground arith)
            (canonical_json-IsCanonical x n, canonical_items-IsCanonical xs m)
    ]
  ]

  canonical_fields-IsCanonical :
      (fs : Fields) {gs : Fields} → canonical_fields fs ≡ some gs → IsCanonicalFields gs
  canonical_fields-IsCanonical end {gs} h = some_subst IsCanonicalFields h tt
  canonical_fields-IsCanonical (field k v fs) {gs} h = elim (Option-cases (canonical_json v)) [
    | inl n ↦ absurd (ground arith)
    | inr (w, n) ↦ elim (Option-cases (canonical_fields fs)) [
      | inl m ↦ absurd (ground arith)
      | inr (rest, m) ↦ some_subst IsCanonicalFields {v = insert_field k w rest} (ground arith) (
          insert_field-IsCanonicalFields k w rest (canonical_json-IsCanonical v n)
            (canonical_fields-IsCanonical fs m))
    ]
  ]

insert_field-head :
    (k : String) (v : Value) (fs : Fields) → HeadFrom k fs → insert_field k v fs ≡ field k v fs
unfolding insert_field
insert_field-head k v end h = refl
insert_field-head k v (field j w fs) h = rw h

mutual
  unfolding canonical_json canonical_items canonical_fields

  canonical_json-fixed : (v : Value) → IsCanonical v → canonical_json v ≡ some v
  canonical_json-fixed null c = refl
  canonical_json-fixed (boolean b) c = refl
  canonical_json-fixed (number n) c = refl
  canonical_json-fixed (text s) c = refl
  canonical_json-fixed (array xs) c = rw (canonical_items-fixed xs c)
  canonical_json-fixed (object fs) c = rw (canonical_fields-fixed fs c)
  canonical_json-fixed (opaque n) c = absurd c

  canonical_items-fixed : (xs : Items) → IsCanonicalItems xs → canonical_items xs ≡ some xs
  canonical_items-fixed nil c = refl
  canonical_items-fixed (cons x xs) c =
      ground (arith, canonical_json-fixed x c.0, canonical_items-fixed xs c.1)

  canonical_fields-fixed : (fs : Fields) → IsCanonicalFields fs → canonical_fields fs ≡ some fs
  canonical_fields-fixed end c = refl
  canonical_fields-fixed (field k v fs) c = ground (
    arith,
    canonical_json-fixed v c.1,
    canonical_fields-fixed fs c.2,
    insert_field-head k v fs c.0,
  )

-- A payload that has been stored and read is stored and read again unchanged.
pub canonical_json_idem : (v w : Value) → canonical_json v ≡ some w → canonical_json w ≡ some w
canonical_json_idem v w h = canonical_json-fixed w (canonical_json-IsCanonical v h)
