-- ===== src/Users/Rows.antt =====
-- Rows read and changed by their address, and the unique id of the client.
use whmcstemplate_bridge.Base.{
  nat_eq, Bool-cases, ℕ, String, ◌≡◌, refl, sym, ap, ◌∙◌, inl, inr, true, false, some, List, [],
  ◌∷◌, arith, ◌==◌, eq_iff,
}
use whmcstemplate_bridge.Users.{User, find_user, change_user, is_taken}

-- No two rows are linked to one client.
pub record AreUnique (users : List User) : Type 0 where
  pub same :
      (e e' : String) (u u' : User) (n : ℕ)
      → find_user e users ≡ some u
      → find_user e' users ≡ some u'
      → u.whmcs_client_id ≡ some n
      → u'.whmcs_client_id ≡ some n
      → e ≡ e'

-- The rows of other addresses are as they were.
abbrev pub KeepsOthers : String → List User → List User → Type 0
KeepsOthers email before after =
    (e : String) → (email == e) ≡ false → find_user e after ≡ find_user e before

pub find-email :
    (e : String) (users : List User) (u : User) → find_user e users ≡ some u → u.email ≡ e
unfolding find_user
find-email e [] u h = absurd (cc h)
find-email e (v ∷ users) u h = elim (Bool-cases (v.email == e)) [
  | inl here ↦
      let same : v ≡ u = cc (rw here at h) in
      ap (λ (x : User). x.email) (sym same) ∙ (eq_iff v.email e).0 here
  | inr there ↦ find-email e users u (rw there at h)
]

pub find-change :
    (email e : String) (change : User → User) (users : List User)
    → ((u : User) → (change u).email ≡ u.email)
    → (email == e) ≡ false
    → find_user e (change_user email change users) ≡ find_user e users
unfolding find_user change_user
find-change email e change [] keep other = refl
find-change email e change (u ∷ users) keep other =
    let rest = find-change email e change users keep other in
    ground (
      arith,
      eq_iff u.email email,
      eq_iff u.email e,
      eq_iff email e,
      eq_iff (change u).email e,
      keep u,
      rest,
    )

pub find-changed :
    (email : String) (change : User → User) (users : List User) (u : User)
    → ((v : User) → (change v).email ≡ v.email)
    → find_user email users ≡ some u
    → find_user email (change_user email change users) ≡ some (change u)
unfolding find_user change_user
find-changed email change [] u keep h = absurd (cc h)
find-changed email change (v ∷ users) u keep h = elim (Bool-cases (v.email == email)) [
  | inl here ↦
      let same : v ≡ u = cc (rw here at h) in
      let mine : ((change v).email == email) ≡ true = ap (λ e. e == email) (keep v) ∙ here in
      rw here (rw mine (ap (λ (x : User). some (change x)) same))
  | inr there ↦ rw there (rw there (find-changed email change users u keep (rw there at h)))
]

pub taken-owner :
    (email : String) (n : ℕ) (users : List User) (e : String) (u : User)
    → is_taken email n users ≡ false
    → find_user e users ≡ some u
    → u.whmcs_client_id ≡ some n
    → e ≡ email
unfolding find_user is_taken
taken-owner email n [] e u free h id = absurd (cc h)
taken-owner email n (v ∷ users) e u free h id = elim (Bool-cases (v.email == e)) [
  | inl here ↦
      let same : v ≡ u = cc (rw here at h) in
      let self : nat_eq n n ≡ true = ground arith in
      let linked : v.whmcs_client_id ≡ some n = ap (λ (x : User). x.whmcs_client_id) same ∙ id in
      elim (Bool-cases (v.email == email)) [
        | inl mine ↦ sym ((eq_iff v.email e).0 here) ∙ (eq_iff v.email email).0 mine
        | inr other ↦ absurd (cc (self, rw other at (rw linked at free)))
      ]
  | inr there ↦ taken-owner email n users e u (ground (arith, free)) (rw there at h) id
]

-- No row of another address is linked to the client.
abbrev pub IsFree : String → ℕ → List User → Type 0
IsFree email n users =
    (e : String) (u : User) → find_user e users ≡ some u → u.whmcs_client_id ≡ some n → e ≡ email

pub still-AreUnique :
    (email : String) (n : ℕ) (user : User) (before after : List User)
    → AreUnique before
    → IsFree email n before
    → KeepsOthers email before after
    → find_user email after ≡ some user
    → user.whmcs_client_id ≡ some n
    → AreUnique after
still-AreUnique email n user before after unique free others listed linked = record {
  same = λ e e' u u' m found found' id id'. elim (Bool-cases (email == e)) [
    | inl mine ↦ elim (Bool-cases (email == e')) [
      | inl mine' ↦ sym ((eq_iff email e).0 mine) ∙ (eq_iff email e').0 mine'
      | inr other' ↦
          sym ((eq_iff email e).0 mine)
          ∙ sym (free e' u' (sym (others e' other') ∙ found') (owned e u m mine found id u' id'))
    ]
    | inr other ↦ elim (Bool-cases (email == e')) [
      | inl mine' ↦
          free e u (sym (others e other) ∙ found) (owned e' u' m mine' found' id' u id)
          ∙ (eq_iff email e').0 mine'
      | inr other' ↦
          unique.same e e' u u' m (sym (others e other) ∙ found) (sym (others e' other') ∙ found')
            id id'
    ]
  ];
}
  where
    -- a client's id that the row of `email` has is n
    owned :
        (e : String) (u : User) (m : ℕ)
        → (email == e) ≡ true
        → find_user e after ≡ some u
        → u.whmcs_client_id ≡ some m
        → (v : User) → v.whmcs_client_id ≡ some m
        → v.whmcs_client_id ≡ some n
    owned e u m mine found id v id' =
        let here : find_user email after ≡ some u =
          ap (λ k. find_user k after) ((eq_iff email e).0 mine) ∙ found in
        let same : u ≡ user = cc (sym here ∙ listed) in
        id' ∙ sym id ∙ ap (λ (x : User). x.whmcs_client_id) same ∙ linked
