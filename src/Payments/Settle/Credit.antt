-- ===== src/Payments/Settle/Credit.antt =====
-- When `settle` reports a payment to the billing service, and what it reports.
use whmcstemplate_bridge.Base.{
  Bool-cases, Option-cases, or_text, int_eq→eq, Outcome, returned, raised, continue, ◌>>=◌, Frame,
  frame_rules, ℕ, String, ◌≡◌, refl, ap, ◌∙◌, ◌⊎◌, inl, inr, true, false, some, arith,
}
use whmcstemplate_bridge.Payments.Models.{
  PaymentStatus, paid, PaymentAttempt, is_settled, has_track, has_id, find,
}
use whmcstemplate_bridge.Payments.World.{Payment, Billing, World, Env}
use whmcstemplate_bridge.Payments.Zibal.{ZibalVerification}
use whmcstemplate_bridge.Payments.Zibal.Posts.{OnlyPosted, only_posts, gateway-Frame, verify-Frame}
use whmcstemplate_bridge.Payments.Table.{one}
use whmcstemplate_bridge.Payments.Settle.{
  Locked, verified, locked_as, decide, apply_verification, payment_of, mark_recorded, finish, ask,
  settle_open, settle,
}
use whmcstemplate_bridge.Payments.Settle.Judge.{
  judged_row, judged_world, IsLocked, no_row, settled_already, judged, apply_verification-IsLocked,
}

-- The row decides what is credited: its client, its invoice and the amount that it was asked for.
abbrev pub earned_payment : Env → String → PaymentAttempt → ZibalVerification → ℕ → Payment
earned_payment E track_id row v time = record {
  whmcs_client_id = row.whmcs_client_id;
  invoice_id = row.invoice_id;
  transaction_id = or_text v.ref_number track_id;
  gateway = row.gateway;
  amount = row.amount_whmcs;
  paid_at = E.strftime time;
}

-- The gateway was asked about this payment just now, and has taken the amount that the row names.
pub record IsEarned (E : Env) {B : Billing} (track_id : String) (w : World B) (after : B.State)
    : Type 0 where
  pub attempt : PaymentAttempt
  pub row : PaymentAttempt
  pub verification : ZibalVerification
  pub time : ℕ
  pub asked_for : find (has_track track_id) w.attempts ≡ some attempt
  pub reread : find (has_id attempt.id) w.attempts ≡ some row
  pub unsettled : is_settled row ≡ false
  pub answered : (ask E track_id w).0 ≡ returned verification
  pub paid_in_full : (verification.paid ≡ true) × (verification.amount_rial ≡ row.amount_rial)
  pub credited :
      after ≡ (B.record_payment (earned_payment E track_id row verification time) w.billing).1

pub decide-paid :
    (v : ZibalVerification) (a : PaymentAttempt)
    → decide v a ≡ paid
    → (v.paid ≡ true) × (v.amount_rial ≡ a.amount_rial)
unfolding decide
decide-paid v a h = (ground arith, int_eq→eq v.amount_rial a.amount_rial (ground arith))

module _ (E : Env) {B : Billing} where
  billing-mark_recorded :
      (a : PaymentAttempt) (w : World B) → (mark_recorded E a w).1.billing ≡ w.billing
  unfolding mark_recorded
  billing-mark_recorded a w = refl

  billing-after_record :
      (track_id : String) (a : PaymentAttempt) (o : Outcome (Unit {0})) (w : World B)
      → (continue (λ _. mark_recorded E a) o w).1.billing ≡ w.billing
  billing-after_record track_id a (returned u) w = billing-mark_recorded a w
  billing-after_record track_id a (raised e) w = refl

  billing-finish :
      (track_id : String) (a : PaymentAttempt) (time : ℕ) (w : World B)
      → (finish E track_id (verified a time) w).1.billing
        ≡ (B.record_payment (payment_of E track_id a time) w.billing).1
  unfolding finish
  billing-finish track_id a time w =
      billing-after_record track_id a (B.record_payment (payment_of E track_id a time) w.billing).0
        (record w { billing = (B.record_payment (payment_of E track_id a time) w.billing).1 })

  module _ (track_id : String) where
    -- the branches of `decide` other than `paid` report nothing
    finish-locked_as :
        (s : PaymentStatus) (a : PaymentAttempt) (time : ℕ) (w : World B)
        → ((finish E track_id (locked_as s a time) w).1.billing ≡ w.billing)
          ⊎ ((s ≡ paid)
              × ((finish E track_id (locked_as s a time) w).1.billing
                  ≡ (B.record_payment (payment_of E track_id a time) w.billing).1))
    unfolding finish
    finish-locked_as paid a time w = inr (refl, billing-finish track_id a time w)
    finish-locked_as _ a time w = inl refl

    module _ (w w₁ : World B) (posted : OnlyPosted w w₁) {attempt : PaymentAttempt}
        (asked_for : find (has_track track_id) w.attempts ≡ some attempt) (v : ZibalVerification)
        (answered : (ask E track_id w).0 ≡ returned v) where
      earned :
          (row : PaymentAttempt) (time updated : ℕ)
          → find (has_id attempt.id) w₁.attempts ≡ some row
          → is_settled row ≡ false
          → decide v row ≡ paid
          → IsEarned E track_id w
              (B.record_payment
                (payment_of E track_id (judged_row v row time updated) time)
                w₁.billing).1
      unfolding payment_of
      earned row time updated reread unsettled good = record {
        attempt = attempt;
        row = row;
        verification = v;
        time = time;
        asked_for = asked_for;
        reread = rw (← posted.attempts) reread;
        unsettled = unsettled;
        answered = answered;
        paid_in_full = decide-paid v row good;
        credited =
            ap (λ s. (B.record_payment (earned_payment E track_id row v time) s).1) posted.billing;
      }

      locked-credit :
          (r : Outcome Locked × World B)
          → IsLocked E v attempt.id w₁ r
          → ((continue (finish E track_id) r.0 r.1).1.billing ≡ w.billing)
            ⊎ IsEarned E track_id w (continue (finish E track_id) r.0 r.1).1.billing
      locked-credit r (no_row missing e) = rw e (inl posted.billing)
      locked-credit r (settled_already a listed done e) =
          rw e (inl (unfold finish in posted.billing))
      locked-credit r (judged a listed unsettled j) =
          rw j.result
            (elim (finish-locked_as (decide v a) (judged_row v a j.time j.updated) j.time
              (judged_world v a j.time j.updated w₁)) [
                | inl same ↦ inl (same ∙ posted.billing)
                | inr (good, e) ↦ inr (rw e (earned a j.time j.updated listed unsettled good))
              ])

    answered-credit :
        (w : World B) (attempt : PaymentAttempt)
        → find (has_track track_id) w.attempts ≡ some attempt
        → (o : Outcome ZibalVerification) (w₁ : World B) → ask E track_id w ≡ (o, w₁)
        → OnlyPosted w w₁
        → ((continue (λ v. apply_verification E attempt.id v >>= finish E track_id) o w₁).1.billing
            ≡ w.billing)
          ⊎ IsEarned E track_id w
              (continue
                (λ v. apply_verification E attempt.id v >>= finish E track_id)
                o
                w₁).1.billing
    answered-credit w attempt listed (raised e) w₁ asked posted = inl posted.billing
    answered-credit w attempt listed (returned v) w₁ asked posted =
        locked-credit w w₁ posted listed v
          (ap (λ (r : Outcome ZibalVerification × World B). r.0) asked)
          (apply_verification E attempt.id v w₁) (apply_verification-IsLocked E v attempt.id w₁)

    pub ask-Frame : Frame only_posts (ask E {B = B} track_id)
    ask-Frame = search (frame_rules, gateway-Frame, verify-Frame)

    -- `settle` reports no payment, or the one that the gateway has just confirmed in full for a row
    -- that was not recorded yet, with that row's client, invoice and amount.
    pub settle-credit :
        (w : World B)
        → ((settle E track_id w).1.billing ≡ w.billing)
          ⊎ IsEarned E track_id w (settle E track_id w).1.billing
    unfolding settle one settle_open
    settle-credit w = elim (Option-cases (find (has_track track_id) w.attempts)) [
      | inl missing ↦ rw missing (inl refl)
      | inr (a, listed) ↦ elim (Bool-cases (is_settled a)) [
        | inl done ↦ rw listed (rw done (inl refl))
        | inr open_row ↦ rw listed (
            rw open_row (
              answered-credit w a listed (ask E track_id w).0 (ask E track_id w).1 refl
                (ask-Frame.at w)))
      ]
    ]
