-- ===== src/Base/Monad.antt =====
-- Python code that reads and writes shared state and may raise: what was written before a raise
-- stays written, so the state comes back beside the exception too.
use mathlib.Core.Path.{◌≡◌, refl}
use mathlib.Core.Logic.{◌⊎◌, inl, inr}
use whmcstemplate_bridge.Base.Errors.{Exn}

pub data Outcome {ℓ} (A : Type ℓ) : Type ℓ where
  returned : A → Outcome A
  raised : Exn → Outcome A

pub Outcome-cases {ℓ} :
    {A : Type ℓ} (o : Outcome A) → ((a : A) × (o ≡ returned a)) ⊎ ((e : Exn) × (o ≡ raised e))
Outcome-cases (returned a) = inl (a, refl)
Outcome-cases (raised e) = inr (e, refl)

abbrev pub Exec {ℓ} : Type ℓ → Type ℓ → Type ℓ
Exec W A = W → Outcome A × W

module _ {ℓ} {W A : Type ℓ} where
  abbrev pub pure : A → Exec W A
  pure a w = (returned a, w)

  abbrev pub raise : Exn → Exec W A
  raise e w = (raised e, w)

  -- code that neither reads nor writes the state
  abbrev pub lift : Outcome A → Exec W A
  lift o w = (o, w)

  abbrev pub gets : (W → A) → Exec W A
  gets f w = (returned (f w), w)

  -- `try: m except Exception as e: h(e)`
  abbrev pub recover : (Exn → Exec W A) → Outcome A → Exec W A
  recover h (returned a) w = (returned a, w)
  recover h (raised e) w = h e w

  abbrev pub catch : Exec W A → (Exn → Exec W A) → Exec W A
  catch m h w = let (o, w') = m w in recover h o w'

module _ {ℓ} {W A B : Type ℓ} where
  abbrev pub continue : (A → Exec W B) → Outcome A → Exec W B
  continue f (returned a) w = f a w
  continue f (raised e) w = (raised e, w)

  infixl 10 ◌>>=◌ ◌>>◌
  abbrev pub ◌>>=◌ : Exec W A → (A → Exec W B) → Exec W B
  ◌>>=◌ m f w = let (o, w') = m w in continue f o w'

  abbrev pub ◌>>◌ : Exec W A → Exec W B → Exec W B
  m >> n = m >>= λ _. n

module _ {ℓ} {W A B : Type ℓ} where
  -- A block that returned came through its first step.
  pub bind-returned :
      (m : Exec W A) (f : A → Exec W B) (w : W) {b : B} {w'' : W}
      → (m >>= f) w ≡ (returned b, w'')
      → (a : A) × (w' : W) × (m w ≡ (returned a, w')) × (f a w' ≡ (returned b, w''))
  bind-returned m f w {b} {w''} h = go (m w) refl h
    where
      go :
          (r : Outcome A × W)
          → m w ≡ r
          → continue f r.0 r.1 ≡ (returned b, w'')
          → (a : A) × (w' : W) × (m w ≡ (returned a, w')) × (f a w' ≡ (returned b, w''))
      go (returned a, w') e h' = (a, w', e, h')
      go (raised x, w') e h' = cc
