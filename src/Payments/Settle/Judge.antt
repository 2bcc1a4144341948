-- ===== src/Payments/Settle/Judge.antt =====
-- The locked block of `settle`, as an equation.
use whmcstemplate_bridge.Base.{
  Bool-cases, Option-cases, runtime, Outcome, returned, raised, ◌>>=◌, ℕ, ◌+◌, String, ◌≡◌, refl,
  inl, inr, true, false, Option, none, some,
}
use whmcstemplate_bridge.Payments.Models.{PaymentAttempt, is_settled, has_id, find, modify}
use whmcstemplate_bridge.Payments.World.{Billing, World, Env}
use whmcstemplate_bridge.Payments.Zibal.{ZibalVerification}
use whmcstemplate_bridge.Payments.Table.{write, one, now, save}
use whmcstemplate_bridge.Payments.Settle.{
  Locked, final, locked_as, with_verification, decide, judge, apply_verification, time_paid,
  write_verdict,
}

-- the row that the block saves
abbrev pub judged_row : ZibalVerification → PaymentAttempt → ℕ → ℕ → PaymentAttempt
judged_row v a time updated = record (with_verification v time a) {
  status = decide v a;
  updated_at = updated;
}

abbrev pub judged_world :
    {B : Billing} → ZibalVerification → PaymentAttempt → ℕ → ℕ → World B → World B
judged_world v a time updated w = record w {
  attempts = modify a.id (λ _. judged_row v a time updated) w.attempts;
  clock = updated;
}

module _ (E : Env) {B : Billing} (v : ZibalVerification) where
  -- The block returned, and saved one row with what the verification says.
  pub record IsJudged (a : PaymentAttempt) (w : World B) (r : Outcome Locked × World B)
      : Type 0 where
    pub time : ℕ
    pub updated : ℕ
    pub result : r ≡ (
      returned (locked_as (decide v a) (judged_row v a time updated) time),
      judged_world v a time updated w,
    )

  from-IsJudged :
      (p : Option ℕ) (a : PaymentAttempt) (w : World B)
      → IsJudged a w ((time_paid E p >>= write_verdict E v a) w)
  unfolding time_paid write_verdict now write save
  from-IsJudged none a w = record {
    time = w.clock + E.elapsed w.clock;
    updated = w.clock + E.elapsed w.clock + E.elapsed (w.clock + E.elapsed w.clock);
    result = refl;
  }
  from-IsJudged (some t) a w = record {
    time = t;
    updated = w.clock + E.elapsed w.clock;
    result = refl;
  }

  judge-IsJudged : (a : PaymentAttempt) (w : World B) → IsJudged a w (judge E v a w)
  unfolding judge
  judge-IsJudged a w = from-IsJudged v.paid_at a w

  -- What the locked block does, on each of its ways out.
  pub data IsLocked (id : String) (w : World B) (r : Outcome Locked × World B) : Type 0 where
    no_row :
        find (has_id id) w.attempts ≡ none
        → r ≡ (raised (runtime "DoesNotExist"), w)
        → IsLocked id w r
    settled_already :
        (a : PaymentAttempt)
        → find (has_id id) w.attempts ≡ some a
        → is_settled a ≡ true
        → r ≡ (returned (final a), w)
        → IsLocked id w r
    judged :
        (a : PaymentAttempt)
        → find (has_id id) w.attempts ≡ some a
        → is_settled a ≡ false
        → IsJudged a w r
        → IsLocked id w r

  pub apply_verification-IsLocked :
      (id : String) (w : World B) → IsLocked id w (apply_verification E id v w)
  unfolding apply_verification one
  apply_verification-IsLocked id w = elim (Option-cases (find (has_id id) w.attempts)) [
    | inl missing ↦ no_row missing (rw missing)
    | inr (a, listed) ↦ elim (Bool-cases (is_settled a)) [
      | inl done ↦ settled_already a listed done (rw listed (rw done))
      | inr open_row ↦ judged a listed open_row (rw listed (rw open_row (judge-IsJudged a w)))
    ]
  ]
