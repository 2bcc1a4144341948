-- ===== src/Core/Cells/Laws.antt =====
-- What is read after a write.
use whmcstemplate_bridge.Base.{
  ltb, Bool-cases, ℕ, ◌≤◌, String, ◌≡◌, refl, sym, subst, inl, inr, true, false, Option, none, some,
  [], ◌∷◌, arith, ◌==◌, eq_iff,
}
use whmcstemplate_bridge.Core.Cells.{
  if_live, one_more, Content, Cell, Store, live, put_cell, remove_cell, bump_cell,
}

module _ {A : Type 0} where
  abbrev pub bumped : Option (Content A) → Option (Content A)
  bumped none = none
  bumped (some c) = some (one_more c)

  pub live-put_cell :
      (now : ℕ) (key : String) (cell : Cell A) (store : Store A)
      → live now key (put_cell key cell store) ≡ if_live now cell
  unfolding live put_cell
  live-put_cell now key cell [] = rw ((eq_iff key key).1 refl) refl
  live-put_cell now key cell ((k, c) ∷ store) = elim (Bool-cases (k == key)) [
    | inl same ↦ rw same (rw same refl)
    | inr other ↦ rw other (rw other (live-put_cell now key cell store))
  ]

  live-expired :
      (now : ℕ) (c : Cell A)
      → if_live now (record c { content = one_more c.content }) ≡ bumped (if_live now c)
  live-expired now c = elim (Bool-cases (ltb now c.expires)) [
    | inl alive ↦ rw alive refl
    | inr old ↦ rw old refl
  ]

  pub live-bump_cell :
      (now : ℕ) (key : String) (store : Store A)
      → live now key (bump_cell key store) ≡ bumped (live now key store)
  unfolding live bump_cell
  live-bump_cell now key [] = refl
  live-bump_cell now key ((k, c) ∷ store) = elim (Bool-cases (k == key)) [
    | inl same ↦ rw same (rw same (live-expired now c))
    | inr other ↦ rw other (rw other (live-bump_cell now key store))
  ]

  pub live-remove_cell :
      (now : ℕ) (key : String) (store : Store A) → live now key (remove_cell key store) ≡ none
  unfolding live remove_cell
  live-remove_cell now key [] = refl
  live-remove_cell now key ((k, c) ∷ store) = elim (Bool-cases (k == key)) [
    | inl same ↦ rw same (live-remove_cell now key store)
    | inr other ↦ rw other (rw other (live-remove_cell now key store))
  ]

  pub live-put_other :
      (now : ℕ) (key k : String) (cell : Cell A) (store : Store A)
      → (k == key) ≡ false
      → live now key (put_cell k cell store) ≡ live now key store
  unfolding live put_cell
  live-put_other now key k cell [] away = rw away refl
  live-put_other now key k cell ((j, c) ∷ store) away = elim (Bool-cases (j == k)) [
    | inl same ↦
        let there : (j == key) ≡ false =
          subst (λ x. (x == key) ≡ false) (sym ((eq_iff j k).0 same)) away in
        rw same (rw there refl)
    | inr other ↦ elim (Bool-cases (j == key)) [
      | inl here ↦ rw other (rw here refl)
      | inr there ↦ rw other (rw there (live-put_other now key k cell store away))
    ]
  ]

  pub live-bump_other :
      (now : ℕ) (key k : String) (store : Store A)
      → (k == key) ≡ false
      → live now key (bump_cell k store) ≡ live now key store
  unfolding live bump_cell
  live-bump_other now key k [] away = refl
  live-bump_other now key k ((j, c) ∷ store) away = elim (Bool-cases (j == k)) [
    | inl same ↦
        let there : (j == key) ≡ false =
          subst (λ x. (x == key) ≡ false) (sym ((eq_iff j k).0 same)) away in
        rw same (rw there refl)
    | inr other ↦ elim (Bool-cases (j == key)) [
      | inl here ↦ rw other (rw here refl)
      | inr there ↦ rw other (rw there (live-bump_other now key k store away))
    ]
  ]

  pub live-remove_other :
      (now : ℕ) (key k : String) (store : Store A)
      → (k == key) ≡ false
      → live now key (remove_cell k store) ≡ live now key store
  unfolding live remove_cell
  live-remove_other now key k [] away = refl
  live-remove_other now key k ((j, c) ∷ store) away = elim (Bool-cases (j == k)) [
    | inl same ↦
        let there : (j == key) ≡ false =
          subst (λ x. (x == key) ≡ false) (sym ((eq_iff j k).0 same)) away in
        rw same (rw there (live-remove_other now key k store away))
    | inr other ↦ elim (Bool-cases (j == key)) [
      | inl here ↦ rw other (rw here refl)
      | inr there ↦ rw other (rw there (live-remove_other now key k store away))
    ]
  ]

  -- What has expired stays so.
  expired-later :
      (now later : ℕ) (c : Cell A) → now ≤ later → if_live now c ≡ none → if_live later c ≡ none
  expired-later now later c h gone = elim (Bool-cases (ltb later c.expires)) [
    | inl alive ↦
        let before : ltb now c.expires ≡ true = ground arith in absurd (cc (rw before at gone))
    | inr old ↦ rw old refl
  ]

  pub live-later :
      (now later : ℕ) (key : String) (store : Store A)
      → now ≤ later
      → live now key store ≡ none
      → live later key store ≡ none
  unfolding live
  live-later now later key [] h gone = refl
  live-later now later key ((k, c) ∷ store) h gone = elim (Bool-cases (k == key)) [
    | inl same ↦ rw same (expired-later now later c h (rw same at gone))
    | inr other ↦ rw other (live-later now later key store h (rw other at gone))
  ]
