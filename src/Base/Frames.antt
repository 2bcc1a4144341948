-- ===== src/Base/Frames.antt =====
-- What a piece of stateful code may change: a preorder on states that holds from before to after,
-- whether the code returns or raises, with one rule for each way to build code.
use mathlib.Core.Bool.{Bool, true, false}
use whmcstemplate_bridge.Base.Tests.{if◌then◌else◌}
use whmcstemplate_bridge.Base.Errors.{Exn}
use whmcstemplate_bridge.Base.Monad.{
  Outcome, returned, raised, Exec, pure, raise, lift, recover, catch, continue, ◌>>=◌,
}

pub record Allowed (W : Type 0) : Type 1 where
  pub May : W → W → Type 0
  pub stay : (w : W) → May w w
  pub then_may : (u v w : W) → May u v → May v w → May u w

pub record Frame {W A : Type 0} (R : Allowed W) (m : Exec W A) : Type 0 where
  pub at : (w : W) → R.May w (m w).1

module _ {W A : Type 0} {R : Allowed W} where
  pub Frame-pure : (a : A) → Frame R (pure a)
  Frame-pure a = record { at = λ w. R.stay w }

  pub Frame-raise : (e : Exn) → Frame {A = A} R (raise e)
  Frame-raise e = record { at = λ w. R.stay w }

  pub Frame-lift : (o : Outcome A) → Frame R (lift o)
  Frame-lift o = record { at = λ w. R.stay w }

  pub Frame-if : (b : Bool) (m n : Exec W A) → Frame R m → Frame R n → Frame R (if b then m else n)
  Frame-if true m n hm hn = hm
  Frame-if false m n hm hn = hn

  Frame-recover :
      (h : Exn → Exec W A) (o : Outcome A) → ((e : Exn) → Frame R (h e)) → Frame R (recover h o)
  Frame-recover h (returned a) k = Frame-pure a
  Frame-recover h (raised e) k = k e

  pub Frame-catch :
      (m : Exec W A) (h : Exn → Exec W A)
      → Frame R m
      → ((e : Exn) → Frame R (h e))
      → Frame R (catch m h)
  Frame-catch m h km kh = record {
    at = λ w. let (o, w') = m w in R.then_may w w' _ (km.at w) ((Frame-recover h o kh).at w');
  }

module _ {W A B : Type 0} {R : Allowed W} where
  Frame-continue :
      (f : A → Exec W B) (o : Outcome A) → ((a : A) → Frame R (f a)) → Frame R (continue f o)
  Frame-continue f (returned a) k = k a
  Frame-continue f (raised e) k = record { at = λ w. R.stay w }

  pub Frame-bind :
      (m : Exec W A) (f : A → Exec W B) → Frame R m → ((a : A) → Frame R (f a)) → Frame R (m >>= f)
  Frame-bind m f km kf = record {
    at = λ w. let (o, w') = m w in R.then_may w w' _ (km.at w) ((Frame-continue f o kf).at w');
  }

pub ruleset frame_rules = (Frame-pure, Frame-raise, Frame-lift, Frame-if, Frame-catch, Frame-bind)
