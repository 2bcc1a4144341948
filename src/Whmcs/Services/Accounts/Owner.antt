-- ===== src/Whmcs/Services/Accounts/Owner.antt =====
-- Whose password `change_password` sets.
use whmcstemplate_bridge.Base.{
  Bool-cases, pos, int_eq, int_eq→eq, validation_error, Exn, whmcs_api, Outcome, returned, raised,
  pure, catch, ◌>>=◌, ℕ, String, ◌≡◌, refl, ◌⊎◌, inl, inr, List, ◌∷◌,
}
use whmcstemplate_bridge.Json.{null, Fields, get_or}
use whmcstemplate_bridge.Whmcs.Normalizers.{to_int}
use whmcstemplate_bridge.Whmcs.Services.{Call, Site, World, upstream, ask}
use whmcstemplate_bridge.Whmcs.Services.Accounts.{
  invalid_login, login_params, login_of, login_failure, store_password, store_verified,
  validate_login, change_password,
}

pub login_failure-raises :
    (e : Exn) (calls : List Call)
    → (e' : Exn) × (login_failure {A = Fields} e calls ≡ (raised e', calls))
unfolding login_failure
login_failure-raises (whmcs_api validation_error m) calls = (invalid_login, refl)
login_failure-raises e calls = (e, refl)

module _ (S : Site) (n : ℕ) (email current new : String) (w : World) where
  abbrev pub login_call : Call
  login_call = record { action = "ValidateLogin"; params = login_params email current }

  -- the world once WHMCS was asked about the login
  abbrev pub asked_login : World
  asked_login = record w { upstream = login_call ∷ w.upstream }

  abbrev Ends : Outcome (Unit {0}) × World → Type 0
  Ends run =
      ((e : Exn) × (run ≡ (raised e, asked_login)))
      ⊎ ((reply : Fields) × (S.answer (login_call ∷ w.upstream) ≡ returned reply)
          × (to_int S.repr (get_or "userid" null reply) (pos 0) ≡ pos n)
          × (run ≡ store_password S n new asked_login))

  verified-Ends :
      (reply : Fields)
      → S.answer (login_call ∷ w.upstream) ≡ returned reply
      → Ends (store_verified S n new (login_of S reply) asked_login)
  unfolding store_verified login_of
  verified-Ends reply is =
      elim (Bool-cases (int_eq (to_int S.repr (get_or "userid" null reply) (pos 0)) (pos n))) [
        | inl same ↦ rw same (inr (reply, is, int_eq→eq _ _ same, refl))
        | inr other ↦ rw other (inl (_, refl))
      ]

  answered-Ends :
      (o : Outcome Fields)
      → S.answer (login_call ∷ w.upstream) ≡ o
      → Ends (
          (upstream (
                catch (λ (calls : List Call). (o, login_call ∷ calls)) login_failure >>= λ reply.
                pure (login_of S reply))
              >>= store_verified S n new)
            w)
  answered-Ends (returned reply) is = verified-Ends reply is
  answered-Ends (raised e) is =
      let (e', raises) = login_failure-raises e asked_login.upstream in rw raises (inl (e', refl))

  -- `change_password` asks WHMCS about the e-mail and the current password. Then either it raises and
  -- has done no more; or WHMCS named the session's own client for them, and the new password is stored.
  pub change_password-owner :
      ((e : Exn) × (change_password S n email current new w ≡ (raised e, asked_login)))
      ⊎ ((reply : Fields) × (S.answer (login_call ∷ w.upstream) ≡ returned reply)
          × (to_int S.repr (get_or "userid" null reply) (pos 0) ≡ pos n)
          × (change_password S n email current new w ≡ store_password S n new asked_login))
  unfolding change_password validate_login ask
  change_password-owner = answered-Ends (S.answer (login_call ∷ w.upstream)) refl
