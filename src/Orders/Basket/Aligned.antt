-- ===== src/Orders/Basket/Aligned.antt =====
-- No line of a basket slides into another.
use whmcstemplate_bridge.Base.{
  nat_eq, if◌then◌else◌, nat_eq→eq, Bool-cases, ℕ, zero, suc, ◌+◌, ◌≤◌, ◌<◌, String, ◌≡◌, refl, sym,
  ap, ◌∙◌, inl, inr, Bool, true, false, ◌&&◌, Option, none, some, List, [], ◌∷◌, arith, ◌==◌,
  eq_iff,
}
use whmcstemplate_bridge.Json.{Value}
use whmcstemplate_bridge.Orders.Basket.{
  Item, Indexed, set_index, put_indexed, line_entries, put_entries, index_lines,
}

abbrev pub at_index : ℕ → List (ℕ × Value) → Option Value
at_index i [] = none
at_index i ((j, v) ∷ d) = if nat_eq j i then some v else at_index i d

-- what stands in a field of the request at an index
abbrev pub at_field : String → ℕ → Indexed → Option Value
at_field name i [] = none
at_field name i ((k, d) ∷ indexed) = if k == name then at_index i d else at_field name i indexed

-- the last of the entries with a name
abbrev pub last_of : String → List (String × Value) → Option Value → Option Value
last_of name [] before = before
last_of name ((k, v) ∷ entries) before = last_of name entries (if k == name then some v else before)

abbrev pub nth_line : ℕ → List Item → Option Item
nth_line i [] = none
nth_line zero (item ∷ items) = some item
nth_line (suc i) (item ∷ items) = nth_line i items

at_index-set :
    (i j : ℕ) (v : Value) (d : List (ℕ × Value))
    → at_index i (set_index j v d) ≡ (if nat_eq j i then some v else at_index i d)
unfolding set_index
at_index-set i j v [] = refl
at_index-set i j v ((k, u) ∷ d) = elim (Bool-cases (nat_eq k j)) [
  | inl same ↦
      let e = nat_eq→eq k j same in
      rw same (elim (Bool-cases (nat_eq j i)) [
        | inl here ↦ rw e (rw here refl)
        | inr away ↦ rw e (rw away refl)
      ])
  | inr other ↦ rw other (elim (Bool-cases (nat_eq k i)) [
    | inl here ↦ let apart : nat_eq j i ≡ false = ground arith in rw here (rw apart refl)
    | inr away ↦ rw away (at_index-set i j v d)
  ])
]

apart_from : (k g f : String) → (k == g) ≡ false → (k == f) ≡ true → (g == f) ≡ false
apart_from k g f other here = elim (Bool-cases (g == f)) [
  | inl same ↦ absurd (cc (other, (eq_iff k g).1 ((eq_iff k f).0 here ∙ sym ((eq_iff g f).0 same))))
  | inr apart ↦ apart
]

and_true : (b : Bool) → (b && true) ≡ b
and_true true = refl
and_true false = refl

and_false : (b : Bool) → (b && false) ≡ false
and_false true = refl
and_false false = refl

at_field-put :
    (f g : String) (i j : ℕ) (v : Value) (indexed : Indexed)
    → at_field f i (put_indexed g j v indexed)
      ≡ (if g == f && nat_eq j i then some v else at_field f i indexed)
unfolding put_indexed
at_field-put f g i j v [] = elim (Bool-cases (g == f)) [
  | inl same ↦ rw same refl
  | inr other ↦ rw other refl
]
at_field-put f g i j v ((k, d) ∷ indexed) = elim (Bool-cases (k == g)) [
  | inl same ↦
      let e = (eq_iff k g).0 same in
      rw same (elim (Bool-cases (g == f)) [
        | inl here ↦ rw e (rw here (at_index-set i j v d))
        | inr away ↦ rw e (rw away refl)
      ])
  | inr other ↦ rw other (elim (Bool-cases (k == f)) [
    | inl here ↦
        let apart : (g == f) ≡ false = apart_from k g f other here in rw here (rw apart refl)
    | inr away ↦ rw away (at_field-put f g i j v indexed)
  ])
]

at_field-entries :
    (f : String) (i j : ℕ) (entries : List (String × Value)) (indexed : Indexed)
    → at_field f i (put_entries j entries indexed)
      ≡ (if nat_eq j i then last_of f entries (at_field f i indexed) else at_field f i indexed)
unfolding put_entries
at_field-entries f i j [] indexed = elim (Bool-cases (nat_eq j i)) [
  | inl same ↦ rw same refl
  | inr other ↦ rw other refl
]
at_field-entries f i j ((k, v) ∷ entries) indexed =
    at_field-entries f i j entries (put_indexed k j v indexed) ∙ elim (Bool-cases (nat_eq j i)) [
      | inl same ↦
          let e = at_field-put f k i j v indexed in
          rw same (
            ap (last_of f entries) (
              rw same at e
              ∙ ap (λ b. if b then some v else at_field f i indexed) (and_true (k == f))))
      | inr other ↦
          let e = at_field-put f k i j v indexed in
          rw other (
            rw other at e
            ∙ ap (λ b. if b then some v else at_field f i indexed) (and_false (k == f)))
    ]

module _ (base64 : String → String) (f : String) where
  abbrev pub of_line : Option Item → Option Value
  of_line none = none
  of_line (some item) = last_of f (line_entries base64 item) none

  lines-before :
      (i n : ℕ) (items : List Item) (indexed : Indexed)
      → i < n
      → at_field f i (index_lines base64 n items indexed) ≡ at_field f i indexed
  unfolding index_lines
  lines-before i n [] indexed h = refl
  lines-before i n (item ∷ items) indexed h =
      let apart : nat_eq n i ≡ false = ground arith in
      lines-before i (suc n) items (put_entries n (line_entries base64 item) indexed) (omega arith)
      ∙ at_field-entries f i n (line_entries base64 item) indexed
      ∙ rw apart refl

  entries-later :
      (n : ℕ) (item : Item) (indexed : Indexed)
      → ((i : ℕ) → n ≤ i → at_field f i indexed ≡ none)
      → (i : ℕ) → suc n ≤ i
      → at_field f i (put_entries n (line_entries base64 item) indexed) ≡ none
  entries-later n item indexed h i later =
      let apart : nat_eq n i ≡ false = ground arith in
      at_field-entries f i n (line_entries base64 item) indexed ∙ rw apart (h i (omega arith))

  lines-from :
      (k n : ℕ) (items : List Item) (indexed : Indexed)
      → ((i : ℕ) → n ≤ i → at_field f i indexed ≡ none)
      → at_field f (n + k) (index_lines base64 n items indexed) ≡ of_line (nth_line k items)
  unfolding index_lines
  lines-from k n [] indexed h = h (n + k) (omega arith)
  lines-from zero n (item ∷ items) indexed h =
      let next = put_entries n (line_entries base64 item) indexed in
      let e : n + 0 ≡ n = omega arith in
      let here : nat_eq n n ≡ true = ground arith in
      ap (λ k. at_field f k (index_lines base64 (suc n) items next)) e
      ∙ lines-before n (suc n) items next (omega arith)
      ∙ at_field-entries f n n (line_entries base64 item) indexed
      ∙ rw here (ap (last_of f (line_entries base64 item)) (h n (omega arith)))
  lines-from (suc k) n (item ∷ items) indexed h =
      let next = put_entries n (line_entries base64 item) indexed in
      let e : n + suc k ≡ suc n + k = omega arith in
      ap (λ k. at_field f k (index_lines base64 (suc n) items next)) e
      ∙ lines-from k (suc n) items next (entries-later n item indexed h)

  -- A field of the request holds, at an index, what the basket's line with that index says of it, and
  -- nothing where that line does not mention it or there is no such line.
  pub index_lines-aligned :
      (items : List Item) (i : ℕ)
      → at_field f i (index_lines base64 0 items []) ≡ of_line (nth_line i items)
  index_lines-aligned items i =
      let e : 0 + i ≡ i = omega arith in
      ap (λ k. at_field f k (index_lines base64 0 items [])) (sym e)
      ∙ lines-from i 0 items [] (λ j h. refl)
