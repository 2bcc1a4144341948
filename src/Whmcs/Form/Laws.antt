-- ===== src/Whmcs/Form/Laws.antt =====
-- What is read after a write, and after an update.
use whmcstemplate_bridge.Base.{
  if◌then◌else◌, Bool-cases, All, String, ◌≡◌, refl, sym, ap, ◌∙◌, subst, inl, inr, Bool, true,
  false, ◌||◌, Option, none, some, [], ◌∷◌, ◌==◌, eq_iff,
}
use whmcstemplate_bridge.Whmcs.Form.{Form, put, update, lookup}

abbrev pub orelse : Option String → Option String → Option String
orelse (some v) o = some v
orelse none o = o

-- the last entry for a key
unfoldable pub latest : String → Form → Option String
latest key [] = none
latest key ((k, v) ∷ form) = orelse (latest key form) (if k == key then some v else none)

pub lookup-put :
    (key k v : String) (form : Form)
    → lookup key (put k v form) ≡ (if k == key then some v else lookup key form)
unfolding lookup put
lookup-put key k v [] = refl
lookup-put key k v ((j, u) ∷ form) = elim (Bool-cases (j == k)) [
  | inl same ↦ rw same (
      rw ((eq_iff j k).0 same)
        (elim (Bool-cases (k == key)) [ inl e ↦ rw e refl | inr e ↦ rw e refl ]))
  | inr other ↦
      let ih = lookup-put key k v form in
      rw other (
        rw ih (elim (Bool-cases (j == key)) [
          | inl here ↦ elim (Bool-cases (k == key)) [
            | inl there ↦
                absurd (
                  cc (other, (eq_iff j k).1 ((eq_iff j key).0 here ∙ sym ((eq_iff k key).0 there))))
            | inr there ↦ rw here (rw there refl)
          ]
          | inr away ↦ rw away refl
        ]))
]

over_test :
    (o : Option String) (b : Bool) (v : String) (below : Option String)
    → orelse o (if b then some v else below) ≡ orelse (orelse o (if b then some v else none)) below
over_test (some u) b v below = refl
over_test none true v below = refl
over_test none false v below = refl

pub lookup-update :
    (key : String) (form new : Form)
    → lookup key (update form new) ≡ orelse (latest key new) (lookup key form)
unfolding update latest
lookup-update key form [] = refl
lookup-update key form ((k, v) ∷ new) =
    let ih = lookup-update key (put k v form) new in
    let here = lookup-put key k v form in
    rw ih (rw here (over_test (latest key new) (k == key) v (lookup key form)))

module _ (P : String × String → Type 0) where
  pub put-All : (k v : String) (f : Form) → P (k, v) → All P f → All P (put k v f)
  unfolding put
  put-All k v [] p h = (p, tt)
  put-All k v ((j, u) ∷ f) p h = elim (Bool-cases (j == k)) [
    | inl same ↦ rw same (subst (λ x. P (x, v)) (sym ((eq_iff j k).0 same)) p, h.1)
    | inr other ↦ rw other (h.0, put-All k v f p h.1)
  ]

  pub update-All : (f g : Form) → All P f → All P g → All P (update f g)
  unfolding update
  update-All f [] h h' = h
  update-All f ((k, v) ∷ g) h h' = update-All (put k v f) g (put-All k v f h'.0 h) h'.1

abbrev pub has_key : String → Form → Bool
has_key n [] = false
has_key n ((k, v) ∷ f) = k == n || has_key n f

or_swap : (a b c : Bool) → (a || (b || c)) ≡ (b || (a || c))
or_swap true true c = refl
or_swap true false c = refl
or_swap false b c = refl

or_twice : (a c : Bool) → (a || (a || c)) ≡ (a || c)
or_twice true c = refl
or_twice false c = refl

or_shift : (a b c : Bool) → (a || (b || c)) ≡ ((b || a) || c)
or_shift true true c = refl
or_shift true false c = refl
or_shift false true c = refl
or_shift false false c = refl

pub has_key-put : (n k v : String) (f : Form) → has_key n (put k v f) ≡ (k == n || has_key n f)
unfolding put
has_key-put n k v [] = refl
has_key-put n k v ((j, u) ∷ f) = elim (Bool-cases (j == k)) [
  | inl same ↦ rw same (
      subst (λ x. (x == n || has_key n f) ≡ (k == n || (x == n || has_key n f)))
        (sym ((eq_iff j k).0 same)) (sym (or_twice (k == n) (has_key n f))))
  | inr other ↦
      rw other
        (ap (λ b. j == n || b) (has_key-put n k v f) ∙ or_swap (j == n) (k == n) (has_key n f))
]

pub has_key-update :
    (n : String) (f g : Form) → has_key n (update f g) ≡ (has_key n g || has_key n f)
unfolding update
has_key-update n f [] = refl
has_key-update n f ((k, v) ∷ g) =
    has_key-update n (put k v f) g
    ∙ ap (λ b. has_key n g || b) (has_key-put n k v f)
    ∙ or_shift (has_key n g) (k == n) (has_key n f)
