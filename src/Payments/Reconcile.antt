-- ===== src/Payments/Reconcile.antt =====
-- apps/payments/management/commands/reconcile_payments.py
pub mod Runs
use whmcstemplate_bridge.Base.{
  leb, if◌then◌else◌, runtime, Outcome, returned, raised, Exec, pure, raise, ◌>>=◌, ◌>>◌, ℕ, ◌+◌,
  ◌-◌, ◌*◌, Bool, true, false, not, ◌&&◌, none, some, List, [], ◌∷◌,
}
use whmcstemplate_bridge.Payments.Models.{
  PaymentStatus, redirected, paid, recorded, failed, PaymentAttempt, is_recorded, has_track,
}
use whmcstemplate_bridge.Payments.World.{Billing, World, Env}
use whmcstemplate_bridge.Payments.Table.{rows, now}
use whmcstemplate_bridge.Payments.Settle.{settle}
use whmcstemplate_bridge.Payments.Views.{filter_rows}

pub record Options : Type 0 where
  pub max_age_hours : ℕ
  pub include_abandoned : Bool
  pub dry_run : Bool

pub record Summary : Type 0 where
  pub recorded : ℕ
  pub failed : ℕ

-- `status in statuses`
abbrev pub to_reconcile : Bool → PaymentStatus → Bool
to_reconcile include_abandoned paid = true
to_reconcile include_abandoned redirected = include_abandoned
to_reconcile include_abandoned _ = false

-- the query's conditions; `exclude(track_id="")` keeps the rows where it is NULL
abbrev pub is_pending : Options → (since : ℕ) → PaymentAttempt → Bool
is_pending options since a =
    to_reconcile options.include_abandoned a.status
    && leb since a.created_at
    && not (has_track "" a)

abbrev pub tally : Outcome PaymentAttempt → Summary → Summary
tally (raised e) s = record s { failed = s.failed + 1 }
tally (returned settled) s =
    if is_recorded settled.status then record s { recorded = s.recorded + 1 } else s

abbrev pub nothing_done : Summary
nothing_done = record { recorded = 0; failed = 0 }

module _ (E : Env) {B : Billing} where
  -- `service.settle(attempt.track_id)`. With NULL the lookup is for rows without a trackId, which is
  -- not modelled: rows that are paid or redirected have one.
  unfoldable pub settle_row : PaymentAttempt → Exec (World B) PaymentAttempt
  settle_row attempt = elim attempt.track_id [
    | none ↦ raise (runtime "MultipleObjectsReturned")
    | some track_id ↦ settle E track_id
  ]

  -- the loop over `pending`: an exception is counted, and the next row follows
  unfoldable pub reconcile_each : List PaymentAttempt → Summary → Exec (World B) Summary
  unfolding settle_row
  reconcile_each [] s w = (returned s, w)
  reconcile_each (a ∷ attempts) s w =
      let (o, w') = settle_row a w in reconcile_each attempts (tally o s) w'

  -- `Command.handle`, without what it prints
  unfoldable pub handle : Options → Exec (World B) Summary
  unfolding now rows filter_rows reconcile_each
  handle options = do
    time ← now E
    table ← rows
    let attempts = filter_rows (is_pending options (time - 3600 * options.max_age_hours)) table
    if options.dry_run then pure nothing_done else reconcile_each attempts nothing_done
