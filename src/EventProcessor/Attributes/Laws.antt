-- ===== src/EventProcessor/Attributes/Laws.antt =====
-- What the loop over the attributes reads, by key: order matters only among attributes of one key.
use gno_land_block_indexer.Prelude.{
  ◌≡◌, refl, ap, ◌∙◌, Bool, true, false, String, Option, none, some, List, [], ◌∷◌, ℤ, all,
  if◌then◌else◌, str_eq, eq_iff, Bool-cases, inl, inr, Option-cases,
}
use gno_land_block_indexer.Text.{parse_int}
use gno_land_block_indexer.Model.{Attr}
use gno_land_block_indexer.EventProcessor.Attributes.{
  Parsed, read_attr, read_attrs, with_value, then_read,
}

-- The text of the last attribute with the key, or `d` if there is none.
unfoldable pub last_text : String → String → List Attr → String
last_text key d [] = d
last_text key d (a ∷ as') = last_text key (if str_eq a.key key then a.value else d) as'

abbrev number_or : ℤ → Option ℤ → ℤ
number_or d none = d
number_or d (some n) = n

-- The number of the last attribute `value`, or `d` if there is none.
unfoldable pub last_number : ℤ → List Attr → ℤ
last_number d [] = d
last_number d (a ∷ as') =
    last_number (if str_eq a.key "value" then number_or d (parse_int a.value) else d) as'

abbrev is_number : Option ℤ → Bool
is_number none = false
is_number (some n) = true

-- Each attribute `value` is a number that fits 64 bits.
abbrev pub numbers_read : List Attr → Bool
numbers_read = all (λ a. if str_eq a.key "value" then is_number (parse_int a.value) else true)

abbrev pub last_parsed : Parsed → List Attr → Parsed
last_parsed p l = record {
  from_address = last_text "from" p.from_address l;
  to_address = last_text "to" p.to_address l;
  num_value = last_number p.num_value l;
}

abbrev attr_parsed : Parsed → Attr → Option Parsed
attr_parsed p a =
    if str_eq a.key "value"
    then with_value p (parse_int a.value)
    else some (record {
      from_address = if str_eq a.key "from" then a.value else p.from_address;
      to_address = if str_eq a.key "to" then a.value else p.to_address;
      num_value = p.num_value;
    })

read_attr_lem : (p : Parsed) (a : Attr) → read_attr p a ≡ attr_parsed p a
unfolding read_attr
read_attr_lem p a = elim (Bool-cases (str_eq a.key "from")) [
  | inl y ↦ rw ((eq_iff a.key "from").0 y) refl
  | inr n ↦ elim (Bool-cases (str_eq a.key "to")) [
    | inl z ↦ rw ((eq_iff a.key "to").0 z) refl
    | inr m ↦ rw (n, m) refl
  ]
]

read_rest :
    (p : Parsed) (a : Attr) (l : List Attr)
    → ((q : Parsed) → read_attrs q l ≡ (if numbers_read l then some (last_parsed q l) else none))
    → then_read (attr_parsed p a) (λ q. read_attrs q l)
      ≡ (if numbers_read (a ∷ l) then some (last_parsed p (a ∷ l)) else none)
unfolding last_text last_number
read_rest p a l ih = elim (Bool-cases (str_eq a.key "value")) [
  | inl y ↦
      let is_value : a.key ≡ "value" = (eq_iff a.key "value").0 y in
      elim (Option-cases (parse_int a.value)) [
        | inl bad ↦ rw (is_value, bad) refl
        | inr (n, good) ↦ rw (is_value, good) (ih (record p { num_value = n }))
      ]
  | inr n ↦ rw n (ih _)
]

-- The loop returns the last sender, the last receiver and the last value; it returns early exactly
-- if some value is no number.
pub read_attrs_lem :
    (p : Parsed) (l : List Attr)
    → read_attrs p l ≡ (if numbers_read l then some (last_parsed p l) else none)
unfolding read_attrs last_text last_number
read_attrs_lem p [] = refl
read_attrs_lem p (a ∷ l) =
    ap (λ o. then_read o (λ q. read_attrs q l)) (read_attr_lem p a)
    ∙ read_rest p a l (λ q. read_attrs_lem q l)
