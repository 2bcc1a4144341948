-- ===== src/Payments/Table.antt =====
-- The payment service's reads and writes: the table `payments_attempt`, the clock and the billing
-- service (the calls of Django's ORM in apps/payments/services.py).
use whmcstemplate_bridge.Base.{
  Exn, runtime, Outcome, returned, raised, Exec, pure, ◌>>=◌, ◌>>◌, ℕ, ◌+◌, Bool, Option, none,
  some, List,
}
use whmcstemplate_bridge.Payments.Models.{PaymentAttempt, find, modify}
use whmcstemplate_bridge.Payments.World.{Billing, World, Env}

abbrev pub found : Exn → Option PaymentAttempt → Outcome PaymentAttempt
found missing none = raised missing
found missing (some a) = returned a

abbrev pub free : Option PaymentAttempt → Outcome (Unit {0})
free none = returned tt
free (some _) = raised (runtime "IntegrityError")

module _ {B : Billing} where
  unfoldable pub on_billing : {A : Type 0} → Exec B.State A → Exec (World B) A
  on_billing m w = let (o, s) = m w.billing in (o, record w { billing = s })

  unfoldable pub rows : Exec (World B) (List PaymentAttempt)
  rows w = (returned w.attempts, w)

  unfoldable pub write : (List PaymentAttempt → List PaymentAttempt) → Exec (World B) (Unit {0})
  write change w = (returned tt, record w { attempts = change w.attempts })

  -- `.get(…)`: the row, or what is raised where there is none
  unfoldable pub one : Exn → (PaymentAttempt → Bool) → Exec (World B) PaymentAttempt
  one missing test w = (found missing (find test w.attempts), w)

  -- a column's unique constraint
  unfoldable pub unless_taken : (PaymentAttempt → Bool) → Exec (World B) (Unit {0})
  unless_taken test w = (free (find test w.attempts), w)

module _ (E : Env) {B : Billing} where
  -- `timezone.now()`
  unfoldable pub now : Exec (World B) ℕ
  now w = let time = w.clock + E.elapsed w.clock in (returned time, record w { clock = time })

  -- `attempt.save()`: every column of the row with its key
  unfoldable pub save : PaymentAttempt → Exec (World B) PaymentAttempt
  unfolding now write
  save attempt = do
    time ← now
    let saved = record attempt { updated_at = time }
    write (modify attempt.id (λ _. saved))
    pure saved

  -- `attempt.save(update_fields=[…, "updated_at"])`: the named columns alone
  unfoldable pub save_fields :
      (PaymentAttempt → PaymentAttempt) → PaymentAttempt → Exec (World B) PaymentAttempt
  unfolding now write
  save_fields change attempt = do
    time ← now
    let touch = λ (a : PaymentAttempt). record (change a) { updated_at = time }
    write (modify attempt.id touch)
    pure (touch attempt)
