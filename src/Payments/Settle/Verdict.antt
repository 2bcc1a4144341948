-- ===== src/Payments/Settle/Verdict.antt =====
-- The status that a row has after `settle`, by the gateway's verdict and WHMCS' answer.
use mathlib.Core.Option.{some-injective}
use whmcstemplate_bridge.Base.{
  if◌then◌else◌, int_eq, Outcome, returned, raised, continue, ◌>>=◌, ℕ, String, ◌≡◌, refl, sym, ap,
  ◌∙◌, subst, Bool, true, false, not, ◌&&◌, ◌||◌, some, arith,
}
use whmcstemplate_bridge.Payments.Models.{
  PaymentStatus, paid, recorded, failed, mismatch, PaymentAttempt, is_settled, has_track, has_id,
  find,
}
use whmcstemplate_bridge.Payments.Models.Lookup.{find-modify_self, status_of, status_of-modify}
use whmcstemplate_bridge.Payments.World.{Payment, Billing, World, Env}
use whmcstemplate_bridge.Payments.Zibal.{ZibalVerification}
use whmcstemplate_bridge.Payments.Zibal.Posts.{OnlyPosted}
use whmcstemplate_bridge.Payments.Table.{one}
use whmcstemplate_bridge.Payments.Settle.{
  locked_as, decide, apply_verification, payment_of, mark_recorded, finish, ask, settle_open,
  settle,
}
use whmcstemplate_bridge.Payments.Settle.Judge.{
  judged_row, judged_world, IsJudged, IsLocked, no_row, settled_already, judged,
  apply_verification-IsLocked,
}
use whmcstemplate_bridge.Payments.Settle.Credit.{ask-Frame, earned_payment}

abbrev pub is_returned {ℓ} : {A : Type ℓ} → Outcome A → Bool
is_returned (returned _) = true
is_returned (raised _) = false

-- What the status should be: `whmcs_knows` is whether WHMCS could be told.
abbrev pub verdict : (whmcs_knows : Bool) → ZibalVerification → PaymentAttempt → PaymentStatus
verdict whmcs_knows v row =
    if not v.paid
    then failed
    else if not (int_eq v.amount_rial row.amount_rial)
    then mismatch
    else if whmcs_knows
    then recorded
    else paid

-- ... and from the status that the locked block has decided on
abbrev after : Bool → PaymentStatus → PaymentStatus
after whmcs_knows paid = if whmcs_knows then recorded else paid
after whmcs_knows s = s

abbrev is_paid : PaymentStatus → Bool
is_paid paid = true
is_paid _ = false

after-decide :
    (k : Bool) (v : ZibalVerification) (a : PaymentAttempt) → after k (decide v a) ≡ verdict k v a
unfolding decide
after-decide k v a = ground arith

returns-decide :
    (k : Bool) (v : ZibalVerification) (a : PaymentAttempt)
    → (not (is_paid (decide v a)) || k) ≡ (not (v.paid && int_eq v.amount_rial a.amount_rial) || k)
unfolding decide
returns-decide k v a = ground arith

module _ (E : Env) {B : Billing} where
  pub settle-run :
      (track_id : String) (w : World B) {a : PaymentAttempt}
      → find (has_track track_id) w.attempts ≡ some a
      → is_settled a ≡ false
      → settle E track_id w
        ≡ continue
            (λ v. apply_verification E a.id v >>= finish E track_id)
            (ask E track_id w).0
            (ask E track_id w).1
  unfolding settle one settle_open
  settle-run track_id w listed unsettled = rw listed (rw unsettled refl)

  apply-IsJudged :
      (v : ZibalVerification) (w : World B) (a : PaymentAttempt)
      → find (has_id a.id) w.attempts ≡ some a
      → is_settled a ≡ false
      → IsJudged E v a w (apply_verification E a.id v w)
  apply-IsJudged v w a listed unsettled = go (apply_verification-IsLocked E v a.id w)
    where
      go :
          IsLocked E v a.id w (apply_verification E a.id v w)
          → IsJudged E v a w (apply_verification E a.id v w)
      go (no_row missing e) = absurd (cc (missing, listed))
      go (settled_already b found_b done e) =
          let same : b ≡ a = some-injective b a (sym found_b ∙ listed) in
          absurd (cc (ap is_settled same, done, unsettled))
      go (judged b found_b open_row j) =
          let same : b ≡ a = some-injective b a (sym found_b ∙ listed) in
          subst (λ c. IsJudged E v c w (apply_verification E a.id v w)) same j

  status-mark_recorded :
      (a : PaymentAttempt) (w : World B)
      → find (has_id a.id) w.attempts ≡ some a
      → status_of a.id (mark_recorded E a w).1.attempts ≡ some recorded
  unfolding mark_recorded
  status-mark_recorded a w listed = status_of-modify a.id _ w.attempts a (λ b e. e) listed

  -- Whether the payment was reported and WHMCS took it.
  abbrev pub whmcs_takes : Payment → World B → Bool
  whmcs_takes p w = is_returned (B.record_payment p w.billing).0

  module _ (track_id : String) where
    status-after_record :
        (a : PaymentAttempt) (o : Outcome (Unit {0})) (w : World B)
        → find (has_id a.id) w.attempts ≡ some a
        → a.status ≡ paid
        → (status_of a.id (continue (λ _. mark_recorded E a) o w).1.attempts
            ≡ some (after (is_returned o) paid))
          × (is_returned (continue (λ _. mark_recorded E a) o w).0 ≡ is_returned o)
    status-after_record a (returned u) w listed e =
        (status-mark_recorded a w listed, unfold mark_recorded in refl)
    status-after_record a (raised x) w listed e = (rw listed (ap some e), refl)

    status-finish :
        (s : PaymentStatus) (a : PaymentAttempt) (time : ℕ) (w : World B)
        → find (has_id a.id) w.attempts ≡ some a
        → a.status ≡ s
        → (status_of a.id (finish E track_id (locked_as s a time) w).1.attempts
            ≡ some (after (whmcs_takes (payment_of E track_id a time) w) s))
          × (is_returned (finish E track_id (locked_as s a time) w).0
              ≡ (not (is_paid s) || whmcs_takes (payment_of E track_id a time) w))
    unfolding finish
    status-finish paid a time w listed e =
        let r = B.record_payment (payment_of E track_id a time) w.billing in
        status-after_record a r.0 (record w { billing = r.1 }) listed e
    status-finish _ a time w listed e = (rw listed (ap some e), refl)

    -- The gateway has answered for an open attempt: the row ends FAILED if it was not paid, MISMATCH
    -- if the amount differs, RECORDED if WHMCS could be told and PAID if not, and `settle` raises in
    -- the last case alone.
    pub settle-verdict :
        (w w₁ : World B) (v : ZibalVerification) (a : PaymentAttempt)
        → find (has_track track_id) w.attempts ≡ some a
        → find (has_id a.id) w.attempts ≡ some a
        → is_settled a ≡ false
        → ask E track_id w ≡ (returned v, w₁)
        → (time : ℕ) × (status_of a.id (settle E track_id w).1.attempts
            ≡ some (verdict (whmcs_takes (earned_payment E track_id a v time) w) v a))
          × (is_returned (settle E track_id w).0 ≡ (
              not (v.paid && int_eq v.amount_rial a.amount_rial)
              || whmcs_takes (earned_payment E track_id a v time) w))
    settle-verdict w w₁ v a listed by_id unsettled asked =
        let posted : OnlyPosted w w₁ =
          subst (λ r. OnlyPosted w r.1) asked ((ask-Frame E track_id).at w) in
        let j : IsJudged E v a w₁ (apply_verification E a.id v w₁) =
          apply-IsJudged v w₁ a (rw posted.attempts by_id) unsettled in
        let row = judged_row v a j.time j.updated in
        let w₂ = judged_world v a j.time j.updated w₁ in
        let run : settle E track_id w ≡ finish E track_id (locked_as (decide v a) row j.time) w₂ =
          settle-run track_id w listed unsettled
          ∙ ap (λ r. continue (λ v. apply_verification E a.id v >>= finish E track_id) r.0 r.1)
              asked
          ∙ ap (λ r. continue (finish E track_id) r.0 r.1) j.result in
        let takes : whmcs_takes (payment_of E track_id row j.time) w₂
            ≡ whmcs_takes (earned_payment E track_id a v j.time) w =
          unfold payment_of in
          ap (λ s. is_returned (B.record_payment (earned_payment E track_id a v j.time) s).0)
            posted.billing in
        let (status, returns) =
          status-finish (decide v a) row j.time w₂
            (find-modify_self a.id row w₁.attempts a refl (rw posted.attempts by_id)) refl in
        (
          j.time,
          ap (λ r. status_of a.id r.1.attempts) run
              ∙ status
              ∙ ap (λ k. some (after k (decide v a))) takes
              ∙ ap some (after-decide _ v a),
          ap (λ r. is_returned r.0) run
              ∙ returns
              ∙ ap (λ k. not (is_paid (decide v a)) || k) takes
              ∙ returns-decide _ v a,
        )
