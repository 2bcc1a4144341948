-- ===== src/Users/Tables.antt =====
-- Tables in which no two rows share an address or a client.
use whmcstemplate_bridge.Base.{
  Bool-cases, Option-cases, ℕ, String, true, false, ◌≡◌, refl, sym, ap, ◌∙◌, inl, inr, arith, ◌==◌,
  eq_iff, none, some, List, [], ◌∷◌,
}
use whmcstemplate_bridge.Users.{User, find_user, change_user}
use whmcstemplate_bridge.Users.Create.{is_taken_by}
use whmcstemplate_bridge.Users.Rows.{AreUnique, find-change, find-changed, taken-owner}

-- No two rows have one address.
abbrev pub AreApart : List User → Type 0
AreApart [] = Unit
AreApart (user ∷ users) = (find_user user.email users ≡ none) × AreApart users

pub record IsTable (users : List User) : Type 0 where
  pub apart : AreApart users
  pub unique : AreUnique users

-- what changes a row under its address
module _ (email : String) (change : User → User)
    (keep : (u : User) → (change u).email ≡ u.email) where
  change-none :
      (e : String) (users : List User)
      → find_user e users ≡ none
      → find_user e (change_user email change users) ≡ none
  unfolding find_user change_user
  change-none e [] h = refl
  change-none e (u ∷ users) h =
      let rest : find_user e users ≡ none → find_user e (change_user email change users) ≡ none =
        change-none e users in
      ground (arith, keep u, rest)

  pub change-AreApart :
      (users : List User) → AreApart users → AreApart (change_user email change users)
  unfolding change_user
  change-AreApart [] h = tt
  change-AreApart (u ∷ users) h =
      let rest = change-AreApart users h.1 in
      let none' = change-none u.email users h.0 in
      elim (Bool-cases (u.email == email)) [
        | inl mine ↦ rw mine (rw (keep u) (none', rest))
        | inr other ↦ rw other (none', rest)
      ]

-- a change that leaves the clients' ids
module _ (email : String) (change : User → User) (keep : (u : User) → (change u).email ≡ u.email)
    (same_id : (u : User) → (change u).whmcs_client_id ≡ u.whmcs_client_id) where
  change-found :
      (e : String) (users : List User) (v : User)
      → find_user e (change_user email change users) ≡ some v
      → (u : User) × (find_user e users ≡ some u) × (v.whmcs_client_id ≡ u.whmcs_client_id)
  change-found e users v h = elim (Option-cases (find_user e users)) [
    | inl gone ↦ absurd (cc (h, change-none email change keep e users gone))
    | inr (u, found) ↦ elim (Bool-cases (email == e)) [
      | inl mine ↦
          let q = (eq_iff email e).0 mine in
          let here =
            find-changed email change users u keep (ap (λ k. find_user k users) q ∙ found) in
          let there = ap (λ k. find_user k (change_user email change users)) q ∙ h in
          let is : v ≡ change u = cc (here, there) in
          (u, found, ap (λ (x : User). x.whmcs_client_id) is ∙ same_id u)
      | inr other ↦
          let is : v ≡ u = cc (find-change email e change users keep other, found, h) in
          (u, found, ap (λ (x : User). x.whmcs_client_id) is)
    ]
  ]

  pub change-AreUnique :
      (users : List User) → AreUnique users → AreUnique (change_user email change users)
  change-AreUnique users is = record {
    same = λ e e' u u' n found found' id id'.
        let (v, was, same) = change-found e users u found in
        let (v', was', same') = change-found e' users u' found' in
        is.same e e' v v' n was was' (sym same ∙ id) (sym same' ∙ id');
  }

pub insert-AreUnique :
    (user : User) (users : List User)
    → is_taken_by user.email user.whmcs_client_id users ≡ false
    → AreUnique users
    → AreUnique (user ∷ users)
unfolding find_user is_taken_by
insert-AreUnique user users free is = record {
  same = λ e e' u u' n found found' id id'. elim (Bool-cases (user.email == e)) [
    | inl mine ↦ elim (Bool-cases (user.email == e')) [
      | inl mine' ↦ sym ((eq_iff user.email e).0 mine) ∙ (eq_iff user.email e').0 mine'
      | inr other' ↦
          sym ((eq_iff user.email e).0 mine)
          ∙ sym (owner e' u' n (behind e' u' other' found') id' (ahead e u mine found id))
    ]
    | inr other ↦ elim (Bool-cases (user.email == e')) [
      | inl mine' ↦
          owner e u n (behind e u other found) id (ahead e' u' mine' found' id')
          ∙ (eq_iff user.email e').0 mine'
      | inr other' ↦
          is.same e e' u u' n (behind e u other found) (behind e' u' other' found') id id'
    ]
  ];
}
  where
    ahead :
        (e : String) (u : User) {n : ℕ}
        → (user.email == e) ≡ true
        → find_user e (user ∷ users) ≡ some u
        → u.whmcs_client_id ≡ some n
        → user.whmcs_client_id ≡ some n
    ahead e u mine found id =
        let same : user ≡ u = cc (rw mine at found) in
        ap (λ (x : User). x.whmcs_client_id) same ∙ id

    behind :
        (e : String) (u : User)
        → (user.email == e) ≡ false
        → find_user e (user ∷ users) ≡ some u
        → find_user e users ≡ some u
    behind e u other found = rw other at found

    -- no row that is there has the client
    owner :
        (e : String) (u : User) (n : ℕ)
        → find_user e users ≡ some u
        → u.whmcs_client_id ≡ some n
        → user.whmcs_client_id ≡ some n
        → e ≡ user.email
    owner e u n found id is_n = taken-owner user.email n users e u (rw is_n at free) found id
