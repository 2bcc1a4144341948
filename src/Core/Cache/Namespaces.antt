-- ===== src/Core/Cache/Namespaces.antt =====
-- Whose key a key of the cache is: `client_namespace` read back.
use Prim.Native.Char.{Char, code}
use Prim.Native.String
use text.Mathlib.TextLemmas.{append_assoc, nil-append, cons-append}
use whmcstemplate_bridge.Base.{
  nat_eq, if◌then◌else◌, Bool-cases, f_string, show, read-show, single-append, ℕ, ◌+◌, ◌-◌, ◌*◌,
  ◌≤◌, String, ◌≡◌, refl, ap, ◌∙◌, inl, inr, Bool, true, false, not, ◌||◌, Option, none, some, [],
  ◌∷◌, arith, ◌==◌, eq_iff,
}
use whmcstemplate_bridge.Core.Cache.{client_namespace}
use whmcstemplate_bridge.Core.Cache.Isolated.{IsKeyOf}

-- what stands behind a prefix
after : (prefix s : String) → Option String
after String.[] s = some s
after (String.◌∷◌ c p) String.[] = none
after (String.◌∷◌ c p) (String.◌∷◌ d s) =
    let rest = after p s in if nat_eq (code c) (code d) then rest else none

-- the number in front of the first colon
number_before : ℕ → String → Option ℕ
number_before n String.[] = none
number_before n (String.◌∷◌ c s) =
    let rest = number_before (n * 10 + (code c - 48)) s in
    if nat_eq (code c) b':' then some n else rest

numbered_owner : Option String → Option ℕ
unfolding number_before
numbered_owner none = none
numbered_owner (some s) = number_before 0 s

-- the customer under whose namespace a key stands
unfoldable pub owner : (key : String) → Option ℕ
unfolding after numbered_owner
owner key = numbered_owner (after "client:" key)

same_code : (n : ℕ) → nat_eq n n ≡ true
same_code n = ground arith

after-append : (p s : String) → after p (String.◌++◌ p s) ≡ some s
unfolding after
after-append String.[] s = ap some (nil-append s)
after-append (String.◌∷◌ c p) s =
    rw (cons-append c p s) (rw (same_code (code c)) (after-append p s))

-- two texts that differ within the shorter one
unfoldable pub clash : (p q : String) → Bool
clash String.[] q = false
clash (String.◌∷◌ c p) String.[] = false
clash (String.◌∷◌ c p) (String.◌∷◌ d q) = not (nat_eq (code c) (code d)) || clash p q

after-clash : (p q s : String) → clash p q ≡ true → after p (String.◌++◌ q s) ≡ none
unfolding after clash
after-clash String.[] q s h = absurd (cc h)
after-clash (String.◌∷◌ c p) String.[] s h = absurd (cc h)
after-clash (String.◌∷◌ c p) (String.◌∷◌ d q) s h =
    rw (cons-append d q s) (elim (Bool-cases (nat_eq (code c) (code d))) [
      | inl same ↦ rw same (after-clash p q s (rw same at h))
      | inr other ↦ rw other refl
    ])

colon-step :
    (m : ℕ) (c : Char) (s : String)
    → 48 ≤ code c
    → code c ≤ 57
    → number_before m (String.◌∷◌ c s) ≡ number_before (m * 10 + (code c - 48)) s
unfolding number_before
colon-step m c s low high = ground arith

-- A key of a customer's namespace is that customer's.
pub owner-client :
    (whmcs_client_id : ℕ) (resource key : String)
    → IsKeyOf (client_namespace whmcs_client_id resource) key
    → owner key ≡ some whmcs_client_id
unfolding owner client_namespace f_string
owner-client n r key k =
    let tail : String = String.◌++◌ ":v" (f_string (show k.version ∷ ":" ∷ k.digest ∷ [])) in
    let after_colon : String = String.◌++◌ (String.◌++◌ r "") tail in
    let e : key ≡ String.◌++◌ "client:" (String.◌++◌ (show n) (String.◌++◌ ":" after_colon)) =
      k.is
      ∙ append_assoc "client:" _ tail
      ∙ ap (String.◌++◌ "client:")
          (append_assoc (show n) _ tail ∙ ap (String.◌++◌ (show n)) (append_assoc ":" _ tail)) in
    ap (λ x. numbered_owner (after "client:" x)) e
    ∙ ap numbered_owner
        (after-append "client:" (String.◌++◌ (show n) (String.◌++◌ ":" after_colon)))
    ∙ read-show number_before colon-step n (String.◌++◌ ":" after_colon)
    ∙ ap (number_before n) (single-append ":" after_colon)

-- A key of a namespace that does not begin as a customer's is nobody's.
pub owner-other :
    (namespace key : String)
    → clash "client:" namespace ≡ true
    → IsKeyOf namespace key
    → owner key ≡ none
unfolding owner f_string
owner-other namespace key h k =
    ap (λ x. numbered_owner (after "client:" x)) k.is
    ∙ ap numbered_owner (after-clash "client:" namespace _ h)

-- Texts that clash at their beginnings are not the same.
pub clash-apart :
    (p q s t : String) → clash p q ≡ true → (String.◌++◌ q t == String.◌++◌ p s) ≡ false
unfolding after
clash-apart p q s t h = elim (Bool-cases (String.◌++◌ q t == String.◌++◌ p s)) [
  | inl same ↦
      let e : after p (String.◌++◌ q t) ≡ after p (String.◌++◌ p s) =
        ap (after p) ((eq_iff (String.◌++◌ q t) (String.◌++◌ p s)).0 same) in
      absurd (cc (e, after-append p s, after-clash p q t h))
  | inr apart ↦ apart
]
