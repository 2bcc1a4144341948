-- ===== src/Payments/Reconcile/Runs.antt =====
-- What a run of the reconciliation job comes to.
use whmcstemplate_bridge.Base.{
  Bool-cases, Option-cases, length, Outcome, returned, raised, ℕ, ◌+◌, ◌-◌, ◌*◌, ◌≤◌, ◌≡◌, refl,
  inl, inr, true, List, [], ◌∷◌, arith,
}
use whmcstemplate_bridge.Payments.Models.{PaymentAttempt}
use whmcstemplate_bridge.Payments.World.{Billing, World, Env}
use whmcstemplate_bridge.Payments.Interleaving.Recorded.{StaysRecorded}
use whmcstemplate_bridge.Payments.Interleaving.Sequential.{settle-stays}
use whmcstemplate_bridge.Payments.Views.{filter_rows}
use whmcstemplate_bridge.Payments.Reconcile.{
  Options, Summary, is_pending, tally, nothing_done, settle_row, reconcile_each, handle,
}

tally-le :
    (o : Outcome PaymentAttempt) (s : Summary)
    → (tally o s).recorded + (tally o s).failed ≤ s.recorded + s.failed + 1
tally-le (raised e) s = omega arith
tally-le (returned a) s = ground arith

module _ (E : Env) {B : Billing} where
  settle_row-stays :
      (a : PaymentAttempt) (w : World B) → StaysRecorded w.attempts (settle_row E a w).1.attempts
  unfolding settle_row
  settle_row-stays a w id h = elim (Option-cases a.track_id) [
    | inl blank ↦ rw blank h
    | inr (t, tracked_by) ↦ rw tracked_by (settle-stays E t w id h)
  ]

  -- The loop returns, counts each attempt once at most, and leaves recorded payments recorded.
  record IsTallied (n : ℕ) (s : Summary) (w : World B) (answer : Outcome Summary × World B)
      : Type 0 where
    summary : Summary
    answered : answer.0 ≡ returned summary
    counted : summary.recorded + summary.failed ≤ s.recorded + s.failed + n
    kept : StaysRecorded w.attempts answer.1.attempts

  reconcile_each-IsTallied :
      (attempts : List PaymentAttempt) (s : Summary) (w : World B)
      → IsTallied (length attempts) s w (reconcile_each E attempts s w)
  unfolding reconcile_each
  reconcile_each-IsTallied [] s w = record {
    summary = s;
    answered = refl;
    counted = omega arith;
    kept = λ id h. h;
  }
  reconcile_each-IsTallied (a ∷ attempts) s w =
      let (o, w') = settle_row E a w in
      let rest = reconcile_each-IsTallied attempts (tally o s) w' in
      record {
        summary = rest.summary;
        answered = rest.answered;
        counted = omega (arith, rest.counted, tally-le o s);
        kept = λ id h. rest.kept id (settle_row-stays a w id h);
      }

  abbrev pub since : Options → World B → ℕ
  since options w = w.clock + E.elapsed w.clock - 3600 * options.max_age_hours

  abbrev pub pending_count : Options → World B → ℕ
  pending_count options w = length (filter_rows (is_pending options (since options w)) w.attempts)

  -- A run never raises, whatever the gateway and WHMCS do. It counts each attempt of its query once
  -- at most, leaves recorded payments recorded, and a dry run posts and changes nothing.
  pub handle-runs :
      (options : Options) (w : World B)
      → (s : Summary) × ((handle E options w).0 ≡ returned s)
        × (s.recorded + s.failed ≤ pending_count options w)
        × StaysRecorded w.attempts (handle E options w).1.attempts
        × (options.dry_run ≡ true
            → ((handle E options w).1.attempts ≡ w.attempts)
              × ((handle E options w).1.calls ≡ w.calls)
              × ((handle E options w).1.billing ≡ w.billing))
  unfolding handle
  handle-runs options w = elim (Bool-cases options.dry_run) [
    | inl dry ↦ rw dry (nothing_done, refl, omega arith, λ id h. h, λ _. (refl, refl, refl))
    | inr wet ↦
        let time = w.clock + E.elapsed w.clock in
        let t =
          reconcile_each-IsTallied (filter_rows (is_pending options (since options w)) w.attempts)
            nothing_done (record w { clock = time }) in
        simp wet (t.summary, t.answered, omega (arith, t.counted), t.kept, λ h. cc)
  ]
