-- ===== src/Users/Login/Verified.antt =====
-- Whom a login lets in.
use whmcstemplate_bridge.Base.{
  if◌then◌else◌, Bool-cases, ℤ, pos, Exn, Outcome, returned, raised, Exec, pure, raise, catch,
  continue, ◌>>=◌, String, ◌≡◌, refl, sym, ap, subst, ◌⊎◌, inl, inr, true, not, some, List, ◌∷◌,
}
use whmcstemplate_bridge.Json.{null, Fields, get_or}
use whmcstemplate_bridge.Whmcs.Normalizers.{to_int}
use whmcstemplate_bridge.Whmcs.Services.{Call, Site, upstream, ask}
use whmcstemplate_bridge.Whmcs.Services.Accounts.{
  login_params, login_failure, login_of, validate_login,
}
use whmcstemplate_bridge.Whmcs.Services.Accounts.Owner.{login_failure-raises}
use whmcstemplate_bridge.Users.{User, link_to_whmcs}
use whmcstemplate_bridge.Users.Rows.{AreUnique}
use whmcstemplate_bridge.Users.Linked.{IsLinkedTo, Links, link_to_whmcs-IsLinkedTo}
use whmcstemplate_bridge.Users.Login.{
  Office, on_world, Session, issue_tokens, invalid, admit, login,
}

module _ (S : Site) (normalize : String → String) (email password : String) (office : Office) where
  abbrev pub verifying : List Call
  verifying =
      record { action = "ValidateLogin"; params = login_params email password }
      ∷ office.world.upstream

  -- the client that the reply names
  abbrev pub named : Fields → ℤ
  named reply = to_int S.repr (get_or "userid" null reply) (pos 0)

  -- WHMCS has just named the client for the address and the password, and the session is of the one row
  -- that is linked to that client.
  pub record IsVerified (run : Outcome Session × Office) : Type 0 where
    pub reply : Fields
    pub answered : S.answer verifying ≡ returned reply
    pub user : User
    pub linked : IsLinkedTo (normalize email) (named reply) office.users run.1.users user
    pub active : user.is_active ≡ true
    pub session : Session
    pub returns : run.0 ≡ returned session
    pub of_user : (session.email ≡ user.email) × (session.whmcs_client_id ≡ user.whmcs_client_id)

  -- it raises, or the login is verified
  abbrev pub Verifies : Outcome Session × Office → Type 0
  Verifies run = ((e : Exn) × (run.0 ≡ raised e)) ⊎ IsVerified run

  abbrev asked : Office
  asked = record office { world = record office.world { upstream = verifying } }

  admit-Verifies :
      (reply : Fields)
      → AreUnique office.users
      → S.answer verifying ≡ returned reply
      → Verifies (admit S normalize email (login_of S reply) asked)
  unfolding admit login_of
  admit-Verifies reply unique answered =
      linked-Verifies (link_to_whmcs (normalize email) (named reply) office.users).0
        (link_to_whmcs (normalize email) (named reply) office.users).1
        (link_to_whmcs-IsLinkedTo (normalize email) (named reply) office.users unique)
    where
      admitted : User → Exec Office Session
      admitted user =
          if not user.is_active
          then raise invalid
          else pure (issue_tokens user (some (login_of S reply).two_factor_enabled))

      linked-Verifies :
          (o : Outcome User) (users : List User)
          → Links (normalize email) (named reply) office.users (o, users)
          → Verifies (continue admitted o (record asked { users = users }))
      linked-Verifies (raised e) users _ = inl (e, refl)
      linked-Verifies (returned u) users (inl (e, refused)) =
          absurd (cc (ap (λ (r : Outcome User × List User). r.0) refused))
      linked-Verifies (returned u) users (inr (user, is, linked)) =
          let same : user ≡ u = cc (sym is) in
          let linked' =
            subst (IsLinkedTo (normalize email) (named reply) office.users users) same linked in
          elim (Bool-cases u.is_active) [
            | inl active ↦ rw active (
                inr (record {
                  reply = reply;
                  answered = answered;
                  user = u;
                  linked = linked';
                  active = active;
                  session = issue_tokens u (some (login_of S reply).two_factor_enabled);
                  returns = refl;
                  of_user = (refl, refl);
                }))
            | inr disabled ↦ rw disabled (inl (invalid, refl))
          ]

  answered-Verifies :
      (o : Outcome Fields)
      → AreUnique office.users
      → S.answer verifying ≡ o
      → Verifies (
          (on_world (
                upstream (
                  catch (λ (calls : List Call). (o, verifying)) login_failure >>= λ reply.
                  pure (login_of S reply)))
              >>= admit S normalize email)
            office)
  answered-Verifies (returned reply) unique is = admit-Verifies reply unique is
  answered-Verifies (raised e) unique is =
      let (e', raises) = login_failure-raises e verifying in rw raises (inl (e', refl))

  -- In a table in which no two rows share a client: a login either raises; or WHMCS has just named the
  -- client for this very address and password, the row of the address is linked to that client and
  -- active, the session names that row's address and client, every other row is as it was, and still no
  -- two rows share a client.
  pub login-Verifies : AreUnique office.users → Verifies (login S normalize email password office)
  unfolding login validate_login ask
  login-Verifies unique = answered-Verifies (S.answer verifying) unique refl
