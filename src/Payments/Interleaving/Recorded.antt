-- ===== src/Payments/Interleaving/Recorded.antt =====
-- A payment that is recorded stays recorded, whatever runs of `settle` and `start` interleave.
use mathlib.Core.Option
use whmcstemplate_bridge.Base.{
  Bool-cases, Outcome, Allowed, Frame, frame_rules, ℕ, String, ◌≡◌, refl, ap, ◌∙◌, inl, inr, Option,
  none, some, List, ◌==◌, eq_iff,
}
use whmcstemplate_bridge.Payments.Models.{
  recorded, PaymentAttempt, is_recorded, has_id, find, modify,
}
use whmcstemplate_bridge.Payments.Models.Lookup.{find-modify, find-passes, status_of}
use whmcstemplate_bridge.Payments.World.{Billing, World, Env}
use whmcstemplate_bridge.Payments.Zibal.{ZibalVerification}
use whmcstemplate_bridge.Payments.Table.{on_billing, rows}
use whmcstemplate_bridge.Payments.Start.{User, start}
use whmcstemplate_bridge.Payments.Start.Rows.{start-KeepsRows}
use whmcstemplate_bridge.Payments.Settle.{Locked, apply_verification, mark_recorded, ask}
use whmcstemplate_bridge.Payments.Settle.Judge.{
  IsLocked, no_row, settled_already, judged, apply_verification-IsLocked,
}
use whmcstemplate_bridge.Payments.Settle.Credit.{ask-Frame}
use whmcstemplate_bridge.Payments.Interleaving.{
  Run, looked, answered, holding, reported, System, advance, Step, enter, move, begin, Reach, here,
  next,
}

abbrev pub StaysRecorded : List PaymentAttempt → List PaymentAttempt → Type 0
StaysRecorded rows rows' =
    (id : String) → status_of id rows ≡ some recorded → status_of id rows' ≡ some recorded

status-mapped :
    (o : Option PaymentAttempt)
    → Option.map (λ (a : PaymentAttempt). a.status) o ≡ some recorded
    → (a : PaymentAttempt) × (o ≡ some a) × (a.status ≡ recorded)
status-mapped none h = cc
status-mapped (some a) h = (a, refl, cc)

stays_of_same : {rows rows' : List PaymentAttempt} → rows' ≡ rows → StaysRecorded rows rows'
stays_of_same e id h = rw e h

-- An UPDATE is harmless if its row was not recorded, or is recorded afterwards.
stays_of_modify :
    (id : String) (change : PaymentAttempt → PaymentAttempt) (rows : List PaymentAttempt)
    → ((a : PaymentAttempt) → a.id ≡ id → (change a).id ≡ id)
    → ((a : PaymentAttempt)
        → find (has_id id) rows ≡ some a
        → a.status ≡ recorded
        → (change a).status ≡ recorded)
    → StaysRecorded rows (modify id change rows)
stays_of_modify id change rows keep good j h =
    let (a, listed, is_recorded) = status-mapped (find (has_id j) rows) h in
    elim (Bool-cases (id == j)) [
      | inl same ↦
          let e : id ≡ j = (eq_iff id j).0 same in
          let listed' : find (has_id id) rows ≡ some a = rw e listed in
          rw find-modify (rw same (rw listed' (ap some (good a listed' is_recorded))))
      | inr other ↦ rw find-modify (rw other h)
    ]

module _ (E : Env) {B : Billing} where
  start-stays :
      (user : User) (n : ℕ) (ip mobile : String) (w : World B)
      → StaysRecorded w.attempts (start E user n ip mobile w).1.attempts
  start-stays user n ip mobile w id h =
      let (a, listed, is_recorded) = status-mapped (find (has_id id) w.attempts) h in
      rw ((start-KeepsRows E user n ip mobile).at w id a listed) (ap some is_recorded)

  locked-stays :
      (v : ZibalVerification) (id : String) (w : World B) (r : Outcome Locked × World B)
      → IsLocked E v id w r
      → StaysRecorded w.attempts r.1.attempts
  locked-stays v id w r (no_row missing e) = stays_of_same (rw e refl)
  locked-stays v id w r (settled_already a listed finished e) = stays_of_same (rw e refl)
  locked-stays v id w r (judged a listed unsettled j) =
      let own : a.id ≡ id = (eq_iff a.id id).0 (find-passes (has_id id) w.attempts a listed) in
      let listed' : find (has_id a.id) w.attempts ≡ some a =
        ap (λ k. find (has_id k) w.attempts) own ∙ listed in
      rw j.result (
        stays_of_modify a.id _ w.attempts (λ b e. refl)
          (λ b found_b finished. absurd (cc (found_b, listed', finished, unsettled))))

  mark-stays :
      (a : PaymentAttempt) (w : World B) → StaysRecorded w.attempts (mark_recorded E a w).1.attempts
  unfolding mark_recorded
  mark-stays a w = stays_of_modify a.id _ w.attempts (λ b e. e) (λ b found_b finished. refl)

  abbrev pub stays : Allowed (World B)
  stays = record {
    May = λ w w'. StaysRecorded w.attempts w'.attempts;
    stay = λ w id h. h;
    then_may = λ u v w p q id h. q id (p id h);
  }

  ask-stays : (track_id : String) → Frame stays (ask E {B = B} track_id)
  ask-stays track_id = record { at = λ w. stays_of_same ((ask-Frame E track_id).at w).attempts }

  apply-stays :
      (id : String) (v : ZibalVerification) → Frame stays (apply_verification E {B = B} id v)
  apply-stays id v = record {
    at = λ w. locked-stays v id w _ (apply_verification-IsLocked E v id w);
  }

  mark-Frame : (a : PaymentAttempt) → Frame stays (mark_recorded E {B = B} a)
  mark-Frame a = record { at = mark-stays a }

  pub advance-stays : (r : Run) → Frame stays (advance E {B = B} r)
  unfolding advance on_billing
  advance-stays (looked t a) = search (frame_rules, ask-stays)
  advance-stays (answered t a v) = search (frame_rules, apply-stays)
  advance-stays (holding t a time) = search frame_rules
  advance-stays (reported t a) = search (frame_rules, mark-Frame)

  Step-stays : {s s' : System B} → Step E s s' → StaysRecorded s.world.attempts s'.world.attempts
  Step-stays {s} {s'} (enter t a listed unsettled e) = rw e (λ id h. h)
  Step-stays {s} {s'} (move before r after e e') = rw e' ((advance-stays r).at s.world)
  Step-stays {s} {s'} (begin user n ip mobile e) = rw e (start-stays user n ip mobile s.world)

  -- Along every interleaving, an attempt whose payment is recorded in WHMCS stays RECORDED: no later
  -- or concurrent callback, however the gateway answers it, and no new payment undoes it.
  pub Reach-stays :
      {s s' : System B} → Reach E s s' → StaysRecorded s.world.attempts s'.world.attempts
  Reach-stays here id h = h
  Reach-stays (next r st) id h = Step-stays st id (Reach-stays r id h)
