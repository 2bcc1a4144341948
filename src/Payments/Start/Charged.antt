-- ===== src/Payments/Start/Charged.antt =====
-- The row that `start` inserts goes to the gateway, or `start` raises.
use text.Mathlib.TextPositions.{eq_refl}
use whmcstemplate_bridge.Base.{
  Option-cases, Outcome, returned, raised, ℤ, Exn, zibal, runtime, Frame, bind-returned,
  frame_rules, ℕ, ◌+◌, String, ◌≡◌, refl, sym, subst, ap, ◌∙◌, inl, inr, some, ◌∷◌, catch, recover,
  pure, ◌>>◌,
}
use whmcstemplate_bridge.Payments.Models.{
  redirected, PaymentAttempt, has_track, has_id, find, modify,
}
use whmcstemplate_bridge.Payments.Models.Lookup.{find-cons, find-modify}
use whmcstemplate_bridge.Payments.World.{Invoice, Billing, World, Env}
use whmcstemplate_bridge.Payments.Zibal.Posts.{only_posts, request_payment-Frame}
use whmcstemplate_bridge.Payments.Table.{rows, write, unless_taken, now, save_fields}
use whmcstemplate_bridge.Payments.Start.{
  User, StartResult, callback_url, create, request_error, open_session, redirect_to, new_attempt,
  enroll, charge,
}

-- the row after it went to the gateway
abbrev pub sent_row : (track_id : String) → (time : ℕ) → PaymentAttempt → PaymentAttempt
sent_row track_id time a = record a {
  track_id = some track_id;
  status = redirected;
  updated_at = time;
}

module _ (E : Env) {B : Billing} where
  callback_url-Frame : Frame only_posts (callback_url E {B = B})
  unfolding callback_url
  callback_url-Frame = search frame_rules

  open_session-Frame :
      (a : PaymentAttempt) (n : ℕ) (amount : ℤ) (mobile : String)
      → Frame only_posts (open_session E {B = B} a n amount mobile)
  unfolding open_session
  open_session-Frame a n amount mobile =
      search (frame_rules, callback_url-Frame, request_payment-Frame)

  -- `except ZibalError` ends in another exception
  request_error-raises :
      (a : PaymentAttempt) (e : Exn) (w : World B) {t : String} {w' : World B}
      → request_error E a e w ≡ (returned t, w')
      → ⊥
  unfolding request_error save_fields now write
  request_error-raises a (zibal message result) w h = cc
  request_error-raises a (runtime c) w h = cc
  request_error-raises a _ w h = cc

  -- a session that was opened
  opened :
      (a : PaymentAttempt) (n : ℕ) (amount : ℤ) (mobile : String) (w : World B) {t : String}
      {w' : World B}
      → catch (open_session E a n amount mobile) (request_error E a) w ≡ (returned t, w')
      → only_posts.May w w'
  opened a n amount mobile w {t} {w'} h =
      go (open_session E a n amount mobile w) ((open_session-Frame a n amount mobile).at w) h
    where
      go :
          (run : Outcome String × World B)
          → only_posts.May w run.1
          → recover (request_error E a) run.0 run.1 ≡ (returned t, w')
          → only_posts.May w w'
      go (returned s, v) posted h' =
          subst (only_posts.May w)
            (let e : v ≡ w' = ap (λ (r : Outcome String × World B). r.1) h' in e) posted
      go (raised e, v) posted h' = absurd (request_error-raises a e v h')

  -- The row went to the gateway, and the answer is about it.
  pub record IsEnrolled (a : PaymentAttempt) (amount : ℤ) (w w' : World B) (r : StartResult)
      : Type 0 where
    pub track_id : String
    pub time : ℕ
    pub billing : w'.billing ≡ w.billing
    pub answer_id : r.payment_id ≡ a.id
    pub answer_amount : r.amount_rial ≡ amount
    pub listed : find (has_id a.id) w'.attempts ≡ some (sent_row track_id time a)

  redirected-IsEnrolled :
      (n : ℕ) (amount : ℤ) (t : String) (a : PaymentAttempt) (w u w' : World B)
      (made r : StartResult)
      → made.payment_id ≡ a.id
      → made.amount_rial ≡ amount
      → u.billing ≡ w.billing
      → find (has_id a.id) u.attempts ≡ some a
      → (redirect_to E t a >> pure made) u ≡ (returned r, w')
      → IsEnrolled a amount w w' r
  unfolding redirect_to unless_taken save_fields now write
  redirected-IsEnrolled n amount t a w u w' made r is_id is_amount billed there h =
      elim (Option-cases (find (has_track t) u.attempts)) [
        | inl free ↦
            let is : (returned made, after) ≡ (returned r, w') = rw free at h in
            let answer : made ≡ r = cc (ap (λ (x : Outcome StartResult × World B). x.0) is) in
            let state : w' ≡ after = sym (ap (λ (x : Outcome StartResult × World B). x.1) is) in
            record {
              track_id = t;
              time = time;
              billing = ap (λ (x : World B). x.billing) state ∙ billed;
              answer_id = ap (λ (x : StartResult). x.payment_id) (sym answer) ∙ is_id;
              answer_amount = ap (λ (x : StartResult). x.amount_rial) (sym answer) ∙ is_amount;
              listed =
                  ap (λ (x : World B). find (has_id a.id) x.attempts) state
                  ∙ find-modify a.id a.id (sent_row t time) u.attempts (λ b same. same)
                  ∙ rw (eq_refl a.id) (rw there refl);
            }
        | inr (b, taken) ↦ absurd (cc (rw taken at h))
      ]
    where
      time : ℕ
      time = u.clock + E.elapsed u.clock

      after : World B
      after = record u { attempts = modify a.id (sent_row t time) u.attempts; clock = time }

  enroll-IsEnrolled :
      (n : ℕ) (amount : ℤ) (mobile : String) (a : PaymentAttempt) (w w' : World B) (r : StartResult)
      → find (has_id a.id) w.attempts ≡ some a
      → enroll E n amount mobile a w ≡ (returned r, w')
      → IsEnrolled a amount w w' r
  unfolding enroll
  enroll-IsEnrolled n amount mobile a w w' r there h =
      let (t, u, session, rest) =
        bind-returned (catch (open_session E a n amount mobile) (request_error E a)) _ w h in
      let posted = opened a n amount mobile w session in
      redirected-IsEnrolled n amount t a w u w' _ r refl refl posted.billing
        (ap (find (has_id a.id)) posted.attempts ∙ there) rest

  -- the row that `charge` inserts goes to the gateway
  pub record IsCharged (user : User) (client n : ℕ) (amount : ℤ) (invoice : Invoice) (ip : String)
      (w w' : World B) (r : StartResult) : Type 0 where
    pub id : String
    pub created : ℕ
    pub updated : ℕ
    pub enrolled :
        IsEnrolled (new_attempt id user client n amount invoice ip created updated) amount w w' r

  pub charge-IsCharged :
      (user : User) (client n : ℕ) (amount : ℤ) (invoice : Invoice) (ip mobile : String)
      (w w' : World B) (r : StartResult)
      → charge E user client n amount invoice ip mobile w ≡ (returned r, w')
      → IsCharged user client n amount invoice ip w w' r
  unfolding charge create rows now write unless_taken
  charge-IsCharged user client n amount invoice ip mobile w w' r h =
      elim (Option-cases (find (has_id id) w.attempts)) [
        | inl free ↦
            let e =
              enroll-IsEnrolled n amount mobile row inserted w' r
                (find-cons (has_id id) row w.attempts ∙ rw (eq_refl id) refl) (rw free at h) in
            record {
              id = id;
              created = created;
              updated = updated;
              enrolled = record {
                track_id = e.track_id;
                time = e.time;
                billing = e.billing;
                answer_id = e.answer_id;
                answer_amount = e.answer_amount;
                listed = e.listed;
              };
            }
        | inr (b, taken) ↦ absurd (cc (rw taken at h))
      ]
    where
      id : String
      id = E.uuid4 w.attempts

      created : ℕ
      created = w.clock + E.elapsed w.clock

      updated : ℕ
      updated = created + E.elapsed created

      row : PaymentAttempt
      row = new_attempt id user client n amount invoice ip created updated

      inserted : World B
      inserted = record w { attempts = row ∷ w.attempts; clock = updated }
