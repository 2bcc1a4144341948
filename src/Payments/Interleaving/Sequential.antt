-- ===== src/Payments/Interleaving/Sequential.antt =====
-- Run without interruption, the pieces of `Interleaving` are `settle`.
use mathlib.Core.Path.{fun_ext}
use whmcstemplate_bridge.Base.{
  Bool-cases, Option-cases, runtime, Outcome, returned, raised, Exec, pure, raise, continue, ◌>>=◌,
  Frame, Frame-pure, Frame-raise, Frame-bind, ℕ, zero, suc, String, ◌≡◌, refl, sym, ap, ◌∙◌, subst,
  inl, inr, false, some,
}
use whmcstemplate_bridge.Payments.Models.{recorded, PaymentAttempt, is_settled, has_track, find}
use whmcstemplate_bridge.Payments.Models.Lookup.{status_of}
use whmcstemplate_bridge.Payments.World.{Billing, World, Env}
use whmcstemplate_bridge.Payments.Zibal.{ZibalVerification}
use whmcstemplate_bridge.Payments.Table.{on_billing, one}
use whmcstemplate_bridge.Payments.Settle.{
  Locked, final, verified, payment_of, apply_verification, mark_recorded, finish, ask, settle,
}
use whmcstemplate_bridge.Payments.Settle.Verdict.{settle-run}
use whmcstemplate_bridge.Payments.Interleaving.Recorded.{StaysRecorded, stays, advance-stays}
use whmcstemplate_bridge.Payments.Interleaving.{
  Run, looked, answered, holding, reported, Progress, goes_on, done, unlocked, advance,
}

module _ (E : Env) {B : Billing} where
  abbrev go_on : (Run → Exec (World B) PaymentAttempt) → Progress → Exec (World B) PaymentAttempt
  go_on rest (goes_on r) = rest r
  go_on rest (done a) = pure a

  -- At most `n` pieces.
  pub drive : ℕ → Run → Exec (World B) PaymentAttempt
  drive zero r = raise (runtime "out of pieces")
  drive (suc n) r = advance E r >>= go_on (drive n)

  -- a piece that computes its progress from one action
  bind-go_on :
      {A : Type 0} (m : Exec (World B) A) (p : A → Progress)
      (rest : Run → Exec (World B) PaymentAttempt)
      → (m >>= (λ a. pure (p a)) >>= go_on rest) ≡ (m >>= λ a. go_on rest (p a))
  bind-go_on {A} m p rest = fun_ext (λ w. go (m w).0 (m w).1)
    where
      go :
          (o : Outcome A) (w' : World B)
          → continue
              (go_on rest)
              (continue (λ a. pure (p a)) o w').0
              (continue (λ a. pure (p a)) o w').1
            ≡ continue (λ a. go_on rest (p a)) o w'
      go (returned b) w' = refl
      go (raised e) w' = refl

  bind-pure : {A : Type 0} (m : Exec (World B) A) → (m >>= (λ a. pure a)) ≡ m
  bind-pure {A} m = fun_ext (λ w. go (m w).0 (m w).1)
    where
      go : (o : Outcome A) (w' : World B) → continue (λ a. pure a) o w' ≡ (o, w')
      go (returned b) w' = refl
      go (raised e) w' = refl

  module _ (track_id : String) where
    drive-reported : (a : PaymentAttempt) → drive 1 (reported track_id a) ≡ mark_recorded E a
    unfolding drive advance
    drive-reported a = bind-go_on (mark_recorded E a) done (drive 0) ∙ bind-pure (mark_recorded E a)

    drive-holding :
        (a : PaymentAttempt) (time : ℕ)
        → drive 2 (holding track_id a time) ≡ finish E track_id (verified a time)
    unfolding drive advance finish
    drive-holding a time =
        let m = on_billing (B.record_payment (payment_of E track_id a time)) in
        bind-go_on m (λ _. goes_on (reported track_id a)) (drive 1)
        ∙ ap (λ rest. m >>= λ _. rest) (drive-reported a)

    drive-unlocked : (l : Locked) → go_on (drive 2) (unlocked track_id l) ≡ finish E track_id l
    drive-unlocked (final a) = unfold finish in refl
    drive-unlocked (verified a time) = drive-holding a time

    drive-answered :
        (a : PaymentAttempt) (v : ZibalVerification)
        → drive 3 (answered track_id a v) ≡ (apply_verification E a.id v >>= finish E track_id)
    unfolding drive advance
    drive-answered a v =
        bind-go_on (apply_verification E a.id v) (unlocked track_id) (drive 2)
        ∙ ap (λ rest. apply_verification E a.id v >>= rest) (fun_ext drive-unlocked)

    drive-looked :
        (a : PaymentAttempt)
        → drive 4 (looked track_id a)
          ≡ (ask E track_id >>= λ v. apply_verification E a.id v >>= finish E track_id)
    unfolding drive advance
    drive-looked a =
        bind-go_on (ask E track_id) (λ v. goes_on (answered track_id a v)) (drive 3)
        ∙ ap (λ rest. ask E track_id >>= rest) (fun_ext (drive-answered a))

    -- `settle` of an open attempt is its four pieces, one after the other.
    pub settle-drive :
        (w : World B) (a : PaymentAttempt)
        → find (has_track track_id) w.attempts ≡ some a
        → is_settled a ≡ false
        → settle E track_id w ≡ drive 4 (looked track_id a) w
    settle-drive w a listed unsettled =
        settle-run E track_id w listed unsettled
        ∙ sym (ap (λ (m : Exec (World B) PaymentAttempt). m w) (drive-looked a))

  go_on-stays :
      (rest : Run → Exec (World B) PaymentAttempt)
      → ((r : Run) → Frame (stays E) (rest r))
      → (p : Progress) → Frame (stays E) (go_on rest p)
  go_on-stays rest h (goes_on r) = h r
  go_on-stays rest h (done a) = Frame-pure a

  drive-stays : (n : ℕ) (r : Run) → Frame (stays E) (drive n r)
  unfolding drive
  drive-stays zero r = Frame-raise (runtime "out of pieces")
  drive-stays (suc n) r =
      Frame-bind (advance E r) (go_on (drive n)) (advance-stays E r)
        (go_on-stays (drive n) (drive-stays n))

  -- A call of `settle` leaves every recorded payment recorded.
  pub settle-stays :
      (track_id : String) (w : World B) → StaysRecorded w.attempts (settle E track_id w).1.attempts
  unfolding settle one
  settle-stays track_id w id h = elim (Option-cases (find (has_track track_id) w.attempts)) [
    | inl missing ↦ rw missing h
    | inr (a, listed) ↦ elim (Bool-cases (is_settled a)) [
      | inl finished ↦ rw listed (rw finished h)
      | inr unsettled ↦
          subst
            (λ (r : Outcome PaymentAttempt × World B). status_of id r.1.attempts ≡ some recorded)
            (sym (settle-drive track_id w a listed unsettled))
            ((drive-stays 4 (looked track_id a)).at w id h)
    ]
  ]
