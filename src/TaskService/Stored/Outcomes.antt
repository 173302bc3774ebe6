-- ===== src/TaskService/Stored/Outcomes.antt =====
-- The results that `_process_claimed_task` stores are those that `get_results` gives back.
use ia_dev_lab.Base.{
  ℕ, suc, ◌≤◌, String, true, false, ◌≡◌, refl, sym, ap, subst, ◌∙◌, inl, inr, Option, none, some,
  List, [], ◌∷◌, arith, eq_iff, Option-cases, Bool-cases, text_ltb, if◌then◌else◌, Result, ok, err,
  ◌==◌, string_equality,
}
use ia_dev_lab.Json.{Value, Fields, end, field, get, insert_field, canonical_json, canonical_fields}
use ia_dev_lab.Json.Canonical.{canonical_of, get-canonical_fields}
use ia_dev_lab.Repository.Accept.{dump}
use ia_dev_lab.Schemas.{contains}
use ia_dev_lab.Extraction.{PropertyResult, put}
use ia_dev_lab.TaskService.Stored.{
  result_value, payload, restore_result, restore_results, restore_outcome, completed_outcome,
}
use ia_dev_lab.TaskService.Stored.Results.{stored_result, lookup, Restores, result-stored}

-- How often a key stands in a dict, or in the results.
count_key : String → Fields → ℕ
count_key q end = 0
count_key q (field k v fs) = if k == q then suc (count_key q fs) else count_key q fs

abbrev pub count_name : String → List (String × PropertyResult) → ℕ
count_name q [] = 0
count_name q ((k, r) ∷ d) = if k == q then suc (count_name q d) else count_name q d

end_stored : (j : Fields) → canonical_fields end ≡ some j → end ≡ j
unfolding canonical_fields
end_stored j h = ground arith

count_key-insert_field :
    (q k : String) (v : Value) (fs : Fields)
    → count_key q (insert_field k v fs) ≡ count_key q (field k v fs)
unfolding count_key insert_field
count_key-insert_field q k v end = refl
count_key-insert_field q k v (field j w fs) = ground (arith, count_key-insert_field q k v fs)

count_key-canonical_fields :
    (q : String) (fs gs : Fields) → canonical_fields fs ≡ some gs → count_key q gs ≡ count_key q fs
unfolding count_key canonical_fields
count_key-canonical_fields q end gs h = ground arith
count_key-canonical_fields q (field k v fs) gs h = elim (Option-cases (canonical_json v)) [
  | inl e ↦ absurd (ground arith)
  | inr (w, e) ↦ elim (Option-cases (canonical_fields fs)) [
    | inl n ↦ absurd (ground arith)
    | inr (rest, n) ↦
        ground (arith, count_key-insert_field q k w rest, count_key-canonical_fields q fs rest n)
  ]
]

count_key-payload :
    (q : String) (names : List String) (d : List (String × PropertyResult))
    → count_key q (payload names d) ≤ count_name q d
unfolding count_key payload
count_key-payload q names [] = omega arith
count_key-payload q names ((k, r) ∷ d) = ground (arith, count_key-payload q names d)

-- Every value of a dict can be read as a result.
AllRestore : Fields → Type 0
AllRestore end = Unit
AllRestore (field k v fs) = Restores v × AllRestore fs

AllRestore-insert_field :
    (k : String) (v : Value) (fs : Fields)
    → Restores v
    → AllRestore fs
    → AllRestore (insert_field k v fs)
unfolding AllRestore insert_field
AllRestore-insert_field k v end r a = (r, tt)
AllRestore-insert_field k v (field j w fs) r a = elim (Bool-cases (text_ltb j k)) [
  | inl e ↦ rw e (a.0, AllRestore-insert_field k v fs r a.1)
  | inr e ↦ rw e (r, a)
]

canonical_field :
    (k : String) (v : Value) (fs j : Fields)
    → canonical_fields (field k v fs) ≡ some j
    → (w : Value) × (rest : Fields) × (canonical_json v ≡ some w)
      × (canonical_fields fs ≡ some rest)
      × (insert_field k w rest ≡ j)
unfolding canonical_fields
canonical_field k v fs j h = elim (Option-cases (canonical_json v)) [
  | inl e ↦ absurd (ground arith)
  | inr (w, e) ↦ elim (Option-cases (canonical_fields fs)) [
    | inl n ↦ absurd (ground arith)
    | inr (rest, n) ↦ (w, rest, e, n, ground arith)
  ]
]

AllRestore-payload :
    (names : List String) (d : List (String × PropertyResult)) (j : Fields)
    → canonical_fields (payload names d) ≡ some j
    → AllRestore j
unfolding AllRestore payload
AllRestore-payload names [] j h = subst AllRestore {x = end} {y = j} (end_stored j h) tt
AllRestore-payload names ((k, r) ∷ d) j h = elim (Bool-cases (contains k names)) [
  | inr e ↦ AllRestore-payload names d j (rw e at h)
  | inl e ↦
      let (w, rest, p, n, same) =
        canonical_field k (result_value r) (payload names d) j (rw e at h) in
      let (s, back, _) = result-stored r w p in
      subst AllRestore same (
        AllRestore-insert_field k w rest (record { back = s; read = back })
          (AllRestore-payload names d rest n))
]

-- `restored[name] = ...`
lookup-put :
    (q k : String) (r : PropertyResult) (d : List (String × PropertyResult))
    → lookup q (put k r d) ≡ (if k == q then some r else lookup q d)
unfolding put
lookup-put q k r [] = refl
lookup-put q k r ((j, s) ∷ d) =
    ground (arith, eq_iff j k, eq_iff j q, eq_iff k q, lookup-put q k r d)

abbrev read_result : Result PropertyResult → Option PropertyResult
read_result (ok r) = some r
read_result (err e) = none

-- What `restore_results` finds under a key, over what was there before.
abbrev found_result : Option Value → Option PropertyResult → Option PropertyResult
found_result none before = before
found_result (some w) before = read_result (restore_result w)

absent_key : (q : String) (fs : Fields) → count_key q fs ≡ 0 → get q fs ≡ none
unfolding count_key get
absent_key q end h = refl
absent_key q (field k v fs) h = ground (arith, absent_key q fs)

restore_all :
    (fs : Fields) (acc : List (String × PropertyResult))
    → AllRestore fs
    → ((q : String) → count_key q fs ≤ 1)
    → (d : List (String × PropertyResult)) × (restore_results fs acc ≡ ok d)
      × ((q : String) → lookup q d ≡ found_result (get q fs) (lookup q acc))
unfolding restore_results get AllRestore count_key
restore_all end acc a u = (acc, refl, λ q. refl)
restore_all (field k v fs) acc a u =
    let r = a.0.back in
    let (d, done, all) = restore_all fs (put k r acc) a.1 (λ q. ground (arith, u q)) in
    (
      d,
      rw a.0.read done,
      λ q. elim (Bool-cases (k == q)) [
        | inl e ↦
            all q
            ∙ ap (λ (o : Option Value). found_result o (lookup q (put k r acc)))
                (absent_key q fs (ground (arith, u q)))
            ∙ lookup-put q k r acc
            ∙ rw e (sym (ap read_result a.0.read))
        | inr e ↦ all q ∙ ap (found_result (get q fs)) (lookup-put q k r acc) ∙ rw e refl
      ],
    )

abbrev value_of : Option PropertyResult → Option Value
value_of none = none
value_of (some r) = some (result_value r)

get-payload :
    (q : String) (names : List String) (d : List (String × PropertyResult))
    → get q (payload names d) ≡ (if contains q names then value_of (lookup q d) else none)
unfolding get payload
get-payload q names [] = elim (Bool-cases (contains q names)) [ inl e ↦ rw e | inr e ↦ rw e ]
get-payload q names ((k, r) ∷ d) = elim (Bool-cases (k == q)) [
  | inl e ↦
      let same : k ≡ q = (eq_iff k q).0 e in
      elim (Bool-cases (contains k names)) [
        | inl c ↦ rw (c, e, subst (λ (t : String). contains t names ≡ true) same c) refl
        | inr c ↦
            let c' : contains q names ≡ false =
              subst (λ (t : String). contains t names ≡ false) same c in
            rw (c, c') (get-payload q names d ∙ rw c' refl)
      ]
  | inr e ↦ elim (Bool-cases (contains k names)) [
    | inl c ↦ rw (c, e) (get-payload q names d)
    | inr c ↦ rw (c, e) (get-payload q names d)
  ]
]

-- A dict that can be stored holds only values that can be stored.
canonical_value :
    (q : String) (fs j : Fields) (v : Value)
    → canonical_fields fs ≡ some j
    → get q fs ≡ some v
    → (w : Value) × (canonical_json v ≡ some w)
unfolding get
canonical_value q end j v h g = absurd (ground arith)
canonical_value q (field k x fs) j v h g =
    let (w, rest, e, n, same) = canonical_field k x fs j h in
    elim (Bool-cases (k == q)) [
      | inl b ↦
          let here : x ≡ v = ground arith in
          (w, subst (λ (y : Value). canonical_json y ≡ some w) here e)
      | inr b ↦ canonical_value q fs rest v n (ground arith)
    ]

abbrev pub stored_lookup : Option PropertyResult → Option PropertyResult
stored_lookup none = none
stored_lookup (some r) = stored_result r

found-canonical :
    (o : Option PropertyResult)
    → ((r : PropertyResult) → o ≡ some r → (w : Value) × (canonical_json (result_value r) ≡ some w))
    → found_result (canonical_of (value_of o)) none ≡ stored_lookup o
found-canonical none h = refl
found-canonical (some r) h =
    let (w, e) = h r refl in
    let (s, back, same) = result-stored r w e in
    ap (λ (c : Option Value). found_result c none) e ∙ ap read_result back ∙ sym same

found_payload :
    (q : String) (names : List String) (d : List (String × PropertyResult)) (j : Fields)
    → canonical_fields (payload names d) ≡ some j
    → found_result (get q j) none ≡ (if contains q names then stored_lookup (lookup q d) else none)
found_payload q names d j e = elim (Bool-cases (contains q names)) [
  | inr c ↦
      let gone : get q (payload names d) ≡ none = get-payload q names d ∙ rw c refl in
      ap (λ (o : Option Value). found_result o none) (stored ∙ ap canonical_of gone) ∙ rw c refl
  | inl c ↦
      let kept : get q (payload names d) ≡ value_of (lookup q d) =
        get-payload q names d ∙ rw c refl in
      ap (λ (o : Option Value). found_result o none) (stored ∙ ap canonical_of kept)
      ∙ found-canonical (lookup q d)
          (λ r f. canonical_value q (payload names d) j (result_value r) e (kept ∙ ap value_of f))
      ∙ rw c refl
]
  where
    stored : get q j ≡ canonical_of (get q (payload names d))
    stored = get-canonical_fields q (payload names d) j e

-- The results of an outcome that were stored for a task are those that come back: `_restore_outcome`
-- succeeds on a stored payload, and gives under each of the task's property names the result that was
-- stored under it, its value in stored form and its two statuses and uncertainty unchanged, and
-- nothing under any other name. The names of the results differ, as the keys of a dict do.
pub restore_outcome-payload :
    (source_id : String) (names : List String) (d : List (String × PropertyResult)) (j : Fields)
    → ((q : String) → count_name q d ≤ 1)
    → dump (payload names d) ≡ ok j
    → (back : List (String × PropertyResult)) × (restore_outcome source_id (some j) none
        ≡ ok (completed_outcome source_id back))
      × ((q : String)
          → lookup q back ≡ (if contains q names then stored_lookup (lookup q d) else none))
unfolding restore_outcome dump
restore_outcome-payload source_id names d j u h =
    let e : canonical_fields (payload names d) ≡ some j = ground arith in
    let (back, done, all) = restore_all j [] (AllRestore-payload names d j e) (λ q. omega (
      arith,
      count_key-canonical_fields q (payload names d) j e,
      count_key-payload q names d,
      u q,
    )) in
    (back, rw done refl, λ q. all q ∙ found_payload q names d j e)
