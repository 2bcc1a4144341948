-- ===== src/Users/Linked.antt =====
-- What `link_to_whmcs` leaves in the table.
use text.Mathlib.TextPositions.{eq_refl}
use whmcstemplate_bridge.Base.{
  nat_eq→eq, Bool-cases, ℤ, pos, negsuc, Exn, Outcome, returned, raised, ◌>>=◌, ℕ, String, ◌≡◌,
  refl, ap, ◌∙◌, ◌⊎◌, inl, inr, true, false, not, ◌&&◌, Option, none, some, List, ◌∷◌, ◌==◌,
}
use whmcstemplate_bridge.Users.{
  User, find_user, change_user, is_client, is_taken, integrity_error, new_user, with_client,
  with_unusable_password, with_id, forget_password, link_to_whmcs,
}
use whmcstemplate_bridge.Users.Rows.{
  AreUnique, KeepsOthers, find-email, find-change, find-changed, taken-owner, IsFree,
  still-AreUnique,
}

-- The row of the address is the client's, every other row is as it was, no two rows share a client, and
-- a row that is not of the staff has no usable password.
pub record IsLinkedTo (email : String) (id : ℤ) (before after : List User) (user : User)
    : Type 0 where
  pub n : ℕ
  pub is_id : id ≡ pos n
  pub has_email : user.email ≡ email
  pub linked : user.whmcs_client_id ≡ some n
  pub listed : find_user email after ≡ some user
  pub others : KeepsOthers email before after
  pub unique : AreUnique after
  pub no_password : (user.has_usable_password && not user.is_staff) ≡ false

-- it raises and leaves the table, or the row is linked
abbrev pub Links : String → ℤ → List User → Outcome User × List User → Type 0
Links email id before run =
    ((e : Exn) × (run ≡ (raised e, before)))
    ⊎ ((user : User) × (run.0 ≡ returned user) × IsLinkedTo email id before run.1 user)

module _ (email : String) (n : ℕ) (before : List User) (unique : AreUnique before) where
  forget-Links :
      (user : User) (users : List User)
      → IsFree email n before
      → user.email ≡ email
      → user.whmcs_client_id ≡ some n
      → find_user email users ≡ some user
      → KeepsOthers email before users
      → Links email (pos n) before (forget_password email user users)
  unfolding forget_password
  forget-Links user users free has_email linked listed others =
      elim (Bool-cases (user.has_usable_password && not user.is_staff)) [
        | inl usable ↦ rw usable (
            let after = change_user email with_unusable_password users in
            let listed' = find-changed email with_unusable_password users user (λ v. refl) listed in
            let others' : KeepsOthers email before after = λ e other.
              find-change email e with_unusable_password users (λ v. refl) other ∙ others e other in
            inr (
              with_unusable_password user,
              refl,
              record {
                n = n;
                is_id = refl;
                has_email = has_email;
                linked = linked;
                listed = listed';
                others = others';
                unique =
                    still-AreUnique email n (with_unusable_password user) before after unique free
                      others' listed' linked;
                no_password = refl;
              },
            ))
        | inr unusable ↦ rw unusable (
            inr (
              user,
              refl,
              record {
                n = n;
                is_id = refl;
                has_email = has_email;
                linked = linked;
                listed = listed;
                others = others;
                unique = still-AreUnique email n user before users unique free others listed linked;
                no_password = unusable;
              },
            ))
      ]

  found-Links :
      (found : Option User)
      → find_user email before ≡ found
      → Links email
          (pos n)
          before
          ((with_id email (pos n) found >>= λ user. forget_password email user) before)
  unfolding with_id find_user
  found-Links none is = elim (Bool-cases (is_taken email n before)) [
    | inl taken ↦ rw taken (inl (integrity_error, refl))
    | inr free ↦ rw free (
        forget-Links (new_user email n) (new_user email n ∷ before)
          (λ e u. taken-owner email n before e u free) refl refl
          (first (new_user email n) before refl)
          (λ e other. passed (new_user email n) before e refl other))
  ]
    where
      first :
          (u : User) (users : List User) → u.email ≡ email → find_user email (u ∷ users) ≡ some u
      first u users same =
          let here : (u.email == email) ≡ true = ap (λ e. e == email) same ∙ eq_refl email in
          rw here refl

      passed :
          (u : User) (users : List User) (e : String)
          → u.email ≡ email
          → (email == e) ≡ false
          → find_user e (u ∷ users) ≡ find_user e users
      passed u users e same other =
          let there : (u.email == e) ≡ false = ap (λ k. k == e) same ∙ other in rw there refl
  found-Links (some user) is = elim (Bool-cases (is_client n user.whmcs_client_id)) [
    | inl mine ↦
        let linked = client user.whmcs_client_id mine in
        rw mine (
          forget-Links user before (λ e u found id. unique.same e email u user n found is id linked)
            (find-email email before user is) linked is (λ e other. refl))
    | inr elsewhere ↦ elim (Bool-cases (is_taken email n before)) [
      | inl taken ↦ rw elsewhere (rw taken (inl (integrity_error, refl)))
      | inr free ↦ rw elsewhere (
          rw free (
            forget-Links (with_client n user) (change_user email (with_client n) before)
              (λ e u. taken-owner email n before e u free) (find-email email before user is) refl
              (find-changed email (with_client n) before user (λ v. refl) is)
              (λ e other. find-change email e (with_client n) before (λ v. refl) other)))
    ]
  ]
    where
      client : (id : Option ℕ) → is_client n id ≡ true → id ≡ some n
      client none h = absurd (cc h)
      client (some m) h = ap some (nat_eq→eq m n h)

-- In a table in which no two rows share a client, `link_to_whmcs` either raises and leaves the table as
-- it was; or it returns the row of the address, which is now linked to the client, every other row is as
-- it was, still no two rows share a client, and a row that is not of the staff has no usable password.
pub link_to_whmcs-IsLinkedTo :
    (email : String) (id : ℤ) (users : List User)
    → AreUnique users
    → Links email id users (link_to_whmcs email id users)
unfolding link_to_whmcs with_id
link_to_whmcs-IsLinkedTo email (pos n) users unique =
    found-Links email n users unique (find_user email users) refl
link_to_whmcs-IsLinkedTo email (negsuc n) users unique =
    inl (integrity_error, refused (find_user email users))
  where
    refused :
        (found : Option User)
        → (with_id email (negsuc n) found >>= λ user. forget_password email user) users
          ≡ (raised integrity_error, users)
    refused none = refl
    refused (some user) = refl
