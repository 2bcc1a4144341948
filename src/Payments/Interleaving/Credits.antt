-- ===== src/Payments/Interleaving/Credits.antt =====
-- What stands behind a payment that some run is about to report to WHMCS.
use whmcstemplate_bridge.Base.{
  All, Outcome, returned, raised, pure, continue, ℕ, String, ◌≡◌, refl, sym, ap, subst, ◌∙◌, true,
  List, [], ◌∷◌, ◌++◌,
}
use whmcstemplate_bridge.Payments.Models.{PaymentStatus, paid, PaymentAttempt}
use whmcstemplate_bridge.Payments.World.{Billing, World, Env}
use whmcstemplate_bridge.Payments.Zibal.{ZibalVerification}
use whmcstemplate_bridge.Payments.Table.{on_billing}
use whmcstemplate_bridge.Payments.Settle.{
  decide, Locked, locked_as, payment_of, apply_verification, mark_recorded, ask,
}
use whmcstemplate_bridge.Payments.Settle.Judge.{
  judged_row, IsLocked, no_row, settled_already, judged, apply_verification-IsLocked,
}
use whmcstemplate_bridge.Payments.Settle.Credit.{decide-paid}
use whmcstemplate_bridge.Payments.Interleaving.{
  Run, looked, answered, holding, reported, Progress, goes_on, done, unlocked, survivor, System,
  advance, Step, enter, move, begin, Reach, here, next,
}

module _ {ℓ κ} {A : Type ℓ} (P : A → Type κ) where
  All-append : (xs ys : List A) → All P xs → All P ys → All P (xs ++ ys)
  All-append [] ys hx hy = hy
  All-append (x ∷ xs) ys hx hy = (hx.0, All-append xs ys hx.1 hy)

  All-split : (xs ys : List A) → All P (xs ++ ys) → All P xs × All P ys
  All-split [] ys h = (tt, h)
  All-split (x ∷ xs) ys h = let (a, b) = All-split xs ys h.1 in ((h.0, a), b)

module _ (E : Env) {B : Billing} where
  -- Between the two states of the system, a run has asked the gateway about the payment, and the gateway
  -- has answered so.
  pub record IsConfirmed (s s' : System B) (track_id : String) (v : ZibalVerification)
      : Type 0 where
    pub asking : System B
    pub before : List Run
    pub after : List Run
    pub attempt : PaymentAttempt
    pub reached : Reach E s asking
    pub stood : asking.runs ≡ before ++ (looked track_id attempt ∷ after)
    pub answer : (ask E track_id asking.world).0 ≡ returned v
    pub continued :
        Reach E
          (record {
            world = (ask E track_id asking.world).1;
            runs = before ++ (answered track_id attempt v ∷ after);
          })
          s'

  -- The gateway has confirmed the amount that the attempt was created with.
  pub record IsBacked (s s' : System B) (track_id : String) (a : PaymentAttempt) : Type 0 where
    pub verification : ZibalVerification
    pub confirmed : IsConfirmed s s' track_id verification
    pub paid_for : verification.paid ≡ true
    pub amount : verification.amount_rial ≡ a.amount_rial
    pub reference : a.ref_number ≡ verification.ref_number

  abbrev Holds : System B → System B → Run → Type 0
  Holds s s' (looked track_id a) = Unit
  Holds s s' (answered track_id a v) = IsConfirmed s s' track_id v
  Holds s s' (holding track_id a time) = IsBacked s s' track_id a
  Holds s s' (reported track_id a) = Unit

  -- what was confirmed stays so
  confirmed-later :
      {s t u : System B} (track_id : String) (v : ZibalVerification)
      → Step E t u
      → IsConfirmed s t track_id v
      → IsConfirmed s u track_id v
  confirmed-later track_id v st c = record {
    asking = c.asking;
    before = c.before;
    after = c.after;
    attempt = c.attempt;
    reached = c.reached;
    stood = c.stood;
    answer = c.answer;
    continued = next c.continued st;
  }

  Holds-later : (s : System B) {t u : System B} → Step E t u → (r : Run) → Holds s t r → Holds s u r
  Holds-later s st (looked track_id a) h = h
  Holds-later s st (answered track_id a v) c = confirmed-later track_id v st c
  Holds-later s st (holding track_id a time) h = record {
    verification = h.verification;
    confirmed = confirmed-later track_id h.verification st h.confirmed;
    paid_for = h.paid_for;
    amount = h.amount;
    reference = h.reference;
  }
  Holds-later s st (reported track_id a) h = h

  All-later :
      (s : System B) {t u : System B}
      → Step E t u
      → (runs : List Run) → All (Holds s t) runs
      → All (Holds s u) runs
  All-later s st [] h = tt
  All-later s st (r ∷ runs) h = (Holds-later s st r h.0, All-later s st runs h.1)

  -- the world and the runs after a piece that ended so
  abbrev moved : List Run → List Run → Outcome Progress × World B → System B
  moved before after r = record { world = r.1; runs = before ++ (survivor r.0 ++ after) }

  module _ (s t : System B) (reach : Reach E s t) (before after : List Run) where
    ask-Holds :
        (track_id : String) (a : PaymentAttempt) (u : System B) (o : Outcome ZibalVerification)
        (w' : World B)
        → t.runs ≡ before ++ (looked track_id a ∷ after)
        → ask E track_id t.world ≡ (o, w')
        → u ≡ moved before after (continue (λ v. pure (goes_on (answered track_id a v))) o w')
        → All (Holds s u) (survivor (continue (λ v. pure (goes_on (answered track_id a v))) o w').0)
    ask-Holds track_id a u (returned v) w' stood asked is = (
      record {
        asking = t;
        before = before;
        after = after;
        attempt = a;
        reached = reach;
        stood = stood;
        answer = ap (λ (r : Outcome ZibalVerification × World B). r.0) asked;
        continued = subst (Reach E _) (sym is) (
            subst
              (λ w.
                Reach E (record { world = w; runs = before ++ (answered track_id a v ∷ after) })
                  (record { world = w'; runs = before ++ (answered track_id a v ∷ after) }))
              (sym (ap (λ (r : Outcome ZibalVerification × World B). r.1) asked)) here);
      },
      tt,
    )
    ask-Holds track_id a u (raised e) w' stood asked is = tt

  module _ (s u : System B) where
    unlocked-Holds :
        (track_id : String) (v : ZibalVerification) (row saved : PaymentAttempt) (time : ℕ)
        → IsConfirmed s u track_id v
        → saved.amount_rial ≡ row.amount_rial
        → saved.ref_number ≡ v.ref_number
        → (st : PaymentStatus) → decide v row ≡ st
        → All (Holds s u) (survivor (returned (unlocked track_id (locked_as st saved time))))
    unlocked-Holds track_id v row saved time c amount ref paid e =
        let (good, full) = decide-paid v row e in
        (
          record {
            verification = v;
            confirmed = c;
            paid_for = good;
            amount = full ∙ sym amount;
            reference = ref;
          },
          tt,
        )
    unlocked-Holds track_id v row saved time c amount ref _ e = tt

    locked-Holds :
        (track_id id : String) (v : ZibalVerification) (w : World B) (r : Outcome Locked × World B)
        → IsConfirmed s u track_id v
        → IsLocked E v id w r
        → All (Holds s u) (survivor (continue (λ l. pure (unlocked track_id l)) r.0 r.1).0)
    locked-Holds track_id id v w r c (no_row missing e) = rw e tt
    locked-Holds track_id id v w r c (settled_already a listed finished e) = rw e tt
    locked-Holds track_id id v w r c (judged a listed unsettled j) = rw j.result (
        unlocked-Holds track_id v a (judged_row v a j.time j.updated) j.time c refl refl
          (decide v a) refl)

    then-Holds :
        {A : Type 0} (o : Outcome A) (w : World B) (p : A → Progress)
        → ((a : A) → All (Holds s u) (survivor (returned (p a))))
        → All (Holds s u) (survivor (continue (λ a. pure (p a)) o w).0)
    then-Holds (returned a) w p h = h a
    then-Holds (raised e) w p h = tt

  advance-Holds :
      (s t u : System B)
      → Reach E s t
      → (before : List Run) (r : Run) (after : List Run) → t.runs ≡ before ++ (r ∷ after)
      → u ≡ moved before after (advance E r t.world)
      → Holds s u r
      → All (Holds s u) (survivor (advance E r t.world).0)
  unfolding advance on_billing
  advance-Holds s t u reach before (looked k a) after stood is h =
      ask-Holds s t reach before after k a u (ask E k t.world).0 (ask E k t.world).1 stood refl is
  advance-Holds s t u reach before (answered k a v) after stood is h =
      locked-Holds s u k a.id v t.world (apply_verification E a.id v t.world) h
        (apply_verification-IsLocked E v a.id t.world)
  advance-Holds s t u reach before (holding k a time) after stood is h =
      let r = B.record_payment (payment_of E k a time) t.world.billing in
      then-Holds s u r.0 (record t.world { billing = r.1 }) (λ _. goes_on (reported k a))
        (λ _. (tt, tt))
  advance-Holds s t u reach before (reported k a) after stood is h =
      let r = mark_recorded E a t.world in then-Holds s u r.0 r.1 done (λ _. tt)

  Step-Holds :
      (s t u : System B)
      → Reach E s t
      → Step E t u
      → All (Holds s u) t.runs
      → All (Holds s u) u.runs
  Step-Holds s t u reach (enter k a listed unsettled e) h =
      subst (λ runs. All (Holds s u) runs) (sym (ap (λ (x : System B). x.runs) e)) (tt, h)
  Step-Holds s t u reach (move before r after e e') h =
      let (first, rest) =
        All-split (Holds s u) before (r ∷ after) (subst (λ runs. All (Holds s u) runs) e h) in
      subst (λ runs. All (Holds s u) runs) (sym (ap (λ (x : System B). x.runs) e'))
        (All-append (Holds s u) before _ first (
          All-append (Holds s u) (survivor (advance E r t.world).0) after
            (advance-Holds s t u reach before r after e e' rest.0) rest.1))
  Step-Holds s t u reach (begin user n ip mobile e) h =
      subst (λ runs. All (Holds s u) runs) (sym (ap (λ (x : System B). x.runs) e)) h

  Reach-Holds : (s : System B) {t : System B} → s.runs ≡ [] → Reach E s t → All (Holds s t) t.runs
  Reach-Holds s fresh here = subst (λ runs. All (Holds s s) runs) (sym fresh) tt
  Reach-Holds s fresh (next {t} {u} r st) =
      Step-Holds s t u r st (All-later s st t.runs (Reach-Holds s fresh r))

  -- Where a run is about to report a payment to WHMCS, whatever has interleaved since the system had
  -- no run: on the way there, a run has asked the gateway about that payment, and the gateway answered
  -- that it is paid, with the amount of the attempt and the reference number that is reported.
  pub report-IsBacked :
      {s s' : System B} (before after : List Run) (track_id : String) (a : PaymentAttempt)
      (time : ℕ)
      → s.runs ≡ []
      → Reach E s s'
      → s'.runs ≡ before ++ (holding track_id a time ∷ after)
      → IsBacked s s' track_id a
  report-IsBacked {s} {s'} before after track_id a time fresh r e =
      (All-split (Holds s s') before (holding track_id a time ∷ after)
        (subst (λ runs. All (Holds s s') runs) e (Reach-Holds s fresh r))).1.0
