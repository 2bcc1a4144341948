-- ===== src/Payments/Settle.antt =====
-- `PaymentService.settle` of apps/payments/services.py.
pub mod Judge
pub mod Credit
pub mod Verdict
use whmcstemplate_bridge.Base.{
  if◌then◌else◌, prefix, or_text, int_eq, resource_not_found, Exn, application, runtime, Exec, pure,
  ◌>>=◌, ◌>>◌, ℕ, String, not, Option, none, some, [],
}
use whmcstemplate_bridge.Payments.Models.{
  PaymentStatus, paid, recorded, failed, mismatch, PaymentAttempt, is_settled, has_track, has_id,
}
use whmcstemplate_bridge.Payments.World.{Payment, Billing, World, Env}
use whmcstemplate_bridge.Payments.Zibal.{ZibalVerification, status_message, gateway, verify}
use whmcstemplate_bridge.Payments.Table.{on_billing, one, now, save, save_fields}

abbrev pub resource_missing : Exn
resource_missing = application resource_not_found "not_found" "Unknown payment." []

-- The in-memory row that the locked block computes from a verification, before it is saved.
abbrev pub with_verification : ZibalVerification → ℕ → PaymentAttempt → PaymentAttempt
with_verification v time a = record a {
  gateway_result = some v.result;
  gateway_message = prefix 255 (status_message v);
  ref_number = v.ref_number;
  card_mask = v.card_number;
  paid_at = some time;
}

-- the status that the locked block decides on
unfoldable pub decide : ZibalVerification → PaymentAttempt → PaymentStatus
decide v a =
    if not v.paid
    then failed
    else if not (int_eq v.amount_rial a.amount_rial)
    then mismatch
    else paid

-- How the locked block ends: it has returned the attempt, or goes on with a paid one.
pub data Locked : Type 0 where
  final : PaymentAttempt → Locked
  verified : PaymentAttempt → (paid_at : ℕ) → Locked

abbrev pub locked_as : PaymentStatus → PaymentAttempt → ℕ → Locked
locked_as paid a time = verified a time
locked_as _ a time = final a

module _ (E : Env) where
  unfoldable pub payment_of : String → PaymentAttempt → ℕ → Payment
  payment_of track_id attempt paid_at = record {
    whmcs_client_id = attempt.whmcs_client_id;
    invoice_id = attempt.invoice_id;
    transaction_id = or_text attempt.ref_number track_id;
    gateway = attempt.gateway;
    amount = attempt.amount_whmcs;
    paid_at = E.strftime paid_at;
  }

module _ (E : Env) {B : Billing} where
  -- `verification.paid_at or timezone.now()`
  time_paid : Option ℕ → Exec (World B) ℕ
  unfolding now
  time_paid none = now E
  time_paid (some t) = pure t

  -- the row is saved with what the verification says
  write_verdict : ZibalVerification → PaymentAttempt → ℕ → Exec (World B) Locked
  unfolding save decide
  write_verdict v attempt time = do
    saved ← save E (record (with_verification v time attempt) { status = decide v attempt })
    pure (locked_as (decide v attempt) saved time)

  -- the `transaction.atomic()` block of `settle`, behind the test on the re-read row
  judge : ZibalVerification → PaymentAttempt → Exec (World B) Locked
  unfolding time_paid write_verdict
  judge v attempt = do time ← time_paid v.paid_at; write_verdict v attempt time

  -- the whole block: the row is locked and read again
  unfoldable pub apply_verification : String → ZibalVerification → Exec (World B) Locked
  unfolding one judge
  apply_verification id v = do
    attempt ← one (runtime "DoesNotExist") (has_id id)
    if is_settled attempt then pure (final attempt) else judge v attempt

  -- the last save of `settle`
  unfoldable pub mark_recorded : PaymentAttempt → Exec (World B) PaymentAttempt
  unfolding now save_fields
  mark_recorded attempt = do
    time ← now E
    save_fields E (λ a. record a { status = recorded; recorded_at = some time }) attempt

  -- what `settle` does once the lock is released
  unfoldable pub finish : String → Locked → Exec (World B) PaymentAttempt
  unfolding on_billing payment_of mark_recorded
  finish track_id (final attempt) = pure attempt
  finish track_id (verified attempt paid_at) = do
    on_billing (B.record_payment (payment_of E track_id attempt paid_at))
    mark_recorded attempt

  -- `self.gateway.verify(track_id)`
  abbrev pub ask : String → Exec (World B) ZibalVerification
  ask track_id = do gateway E; verify E track_id

  -- `settle` of an attempt that is not settled
  settle_open : String → PaymentAttempt → Exec (World B) PaymentAttempt
  unfolding apply_verification finish gateway verify
  settle_open track_id attempt = do
    verification ← ask track_id
    locked ← apply_verification attempt.id verification
    finish track_id locked

  -- Verify a returning payment and, if it is good, record it in WHMCS.
  unfoldable pub settle : String → Exec (World B) PaymentAttempt
  unfolding one settle_open
  settle track_id = do
    attempt ← one resource_missing (has_track track_id)
    if is_settled attempt then pure attempt else settle_open track_id attempt
