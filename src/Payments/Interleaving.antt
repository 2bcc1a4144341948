-- ===== src/Payments/Interleaving.antt =====
-- Several runs of `settle` at once, cut where the source lets other runs in: around the gateway's
-- verify call, around the locked block, and around the call that tells WHMCS
-- (apps/payments/services.py). `start` runs as one step.
pub mod Recorded
pub mod Credits
pub mod Sequential
use whmcstemplate_bridge.Base.{
  Outcome, returned, raised, Exec, pure, ◌>>=◌, ◌>>◌, ℕ, String, ◌≡◌, false, some, List, [], ◌∷◌,
  ◌++◌,
}
use whmcstemplate_bridge.Payments.Models.{PaymentAttempt, is_settled, has_track, find}
use whmcstemplate_bridge.Payments.World.{Billing, World, Env}
use whmcstemplate_bridge.Payments.Zibal.{ZibalVerification}
use whmcstemplate_bridge.Payments.Table.{on_billing}
use whmcstemplate_bridge.Payments.Start.{User, start}
use whmcstemplate_bridge.Payments.Settle.{
  Locked, final, verified, payment_of, apply_verification, mark_recorded, ask,
}

-- where a run of `settle` stands, and its local variables
pub data Run : Type 0 where
  looked : (track_id : String) → PaymentAttempt → Run
  answered : (track_id : String) → PaymentAttempt → ZibalVerification → Run
  holding : (track_id : String) → PaymentAttempt → (paid_at : ℕ) → Run
  reported : (track_id : String) → PaymentAttempt → Run

pub data Progress : Type 0 where
  goes_on : Run → Progress
  done : PaymentAttempt → Progress

abbrev pub unlocked : String → Locked → Progress
unlocked track_id (final a) = done a
unlocked track_id (verified a time) = goes_on (holding track_id a time)

-- a run that has raised or returned is gone
abbrev pub survivor : Outcome Progress → List Run
survivor (returned (goes_on r)) = r ∷ []
survivor (returned (done a)) = []
survivor (raised e) = []

pub record System (B : Billing) : Type 0 where
  pub world : World B
  pub runs : List Run

module _ (E : Env) {B : Billing} where
  -- one uninterrupted piece of `settle`
  unfoldable pub advance : Run → Exec (World B) Progress
  advance (looked track_id a) = do v ← ask E track_id; pure (goes_on (answered track_id a v))
  advance (answered track_id a v) = do
    locked ← apply_verification E a.id v
    pure (unlocked track_id locked)
  advance (holding track_id a time) = do
    on_billing (B.record_payment (payment_of E track_id a time))
    pure (goes_on (reported track_id a))
  advance (reported track_id a) = do saved ← mark_recorded E a; pure (done saved)

  pub data Step (s s' : System B) : Type 0 where
    -- a callback or the reconciliation job comes in for a payment that is not settled
    enter :
        (track_id : String) (a : PaymentAttempt)
        → find (has_track track_id) s.world.attempts ≡ some a
        → is_settled a ≡ false
        → s' ≡ record s { runs = looked track_id a ∷ s.runs }
        → Step s s'
    -- some run goes on to its next point
    move :
        (before : List Run) (r : Run) (after : List Run)
        → s.runs ≡ before ++ (r ∷ after)
        → s' ≡ record {
          world = (advance r s.world).1;
          runs = before ++ (survivor (advance r s.world).0 ++ after);
        }
        → Step s s'
    -- a customer starts a payment
    begin :
        (user : User) (invoice_id : ℕ) (client_ip mobile : String)
        → s' ≡ record s { world = (start E user invoice_id client_ip mobile s.world).1 }
        → Step s s'

  pub data Reach (s : System B) : System B → Type 0 where
    here : Reach s s
    next : {t u : System B} → Reach s t → Step t u → Reach s u
