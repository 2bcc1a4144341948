-- ===== src/Api/Serializers/Hostnames.antt =====
-- What a customer's nameservers are once they are validated.
use whmcstemplate_bridge.Base.{
  if◌then◌else◌, Bool-cases, All, one_of, Outcome, returned, raised, String, ◌≡◌, refl, subst, ◌≢◌,
  inl, inr, true, false, List, [], ◌∷◌, ◌==◌, eq_iff,
}
use whmcstemplate_bridge.Api.Serializers.{
  invalid, is_hostname, cleaned, clean_each, repeats, validate_nameservers,
}

-- no two of them are the same
abbrev pub AreDistinct : List String → Type 0
AreDistinct [] = Unit
AreDistinct (host ∷ hosts) = All (λ (other : String). host ≢ other) hosts × AreDistinct hosts

one_of-distinct :
    (s : String) (ts : List String) → one_of s ts ≡ false → All (λ (t : String). s ≢ t) ts
one_of-distinct s [] h = tt
one_of-distinct s (t ∷ ts) h = elim (Bool-cases (s == t)) [
  | inl same ↦ absurd (cc (rw same at h))
  | inr other ↦ ((λ e. absurd (cc (other, (eq_iff s t).1 e))), one_of-distinct s ts (rw other at h))
]

module _ (lower : String → String) where
  repeats-distinct : (hosts : List String) → repeats lower hosts ≡ false → AreDistinct hosts
  unfolding repeats
  repeats-distinct [] h = tt
  repeats-distinct (host ∷ hosts) h = elim (Bool-cases (one_of host hosts)) [
    | inl again ↦ absurd (cc (rw again at h))
    | inr fresh ↦ (one_of-distinct host hosts fresh, repeats-distinct hosts (rw fresh at h))
  ]

  -- each is what the customer's text is once it is cleaned, and a hostname
  abbrev pub AreCleaned : (value hosts : List String) → Type 0
  AreCleaned [] [] = Unit
  AreCleaned (v ∷ value) (host ∷ hosts) =
      (host ≡ cleaned lower v) × (is_hostname host ≡ true) × AreCleaned value hosts
  AreCleaned value hosts = ⊥

  clean_each-AreCleaned :
      (value hosts : List String) → clean_each lower value ≡ returned hosts → AreCleaned value hosts
  unfolding clean_each
  clean_each-AreCleaned [] [] h = tt
  clean_each-AreCleaned [] (host ∷ hosts) h = absurd (cc h)
  clean_each-AreCleaned (v ∷ value) hosts h = elim (Bool-cases (is_hostname (cleaned lower v))) [
    | inl good ↦
        rest (clean_each-AreCleaned value) good (clean_each lower value) refl hosts (rw good at h)
    | inr bad ↦ absurd (cc (rw bad at h))
  ]
    where
      rest :
          ((others : List String)
            → clean_each lower value ≡ returned others
            → AreCleaned value others)
          → is_hostname (cleaned lower v) ≡ true
          → (o : Outcome (List String)) → clean_each lower value ≡ o
          → (found : List String)
          → elim o [ returned others ↦ returned (cleaned lower v ∷ others) | raised e ↦ raised e ]
            ≡ returned found
          → AreCleaned (v ∷ value) found
      rest before good (returned others) is found h' =
          let same : cleaned lower v ∷ others ≡ found = cc h' in
          subst (AreCleaned (v ∷ value)) same (refl, good, before others is)
      rest before good (raised e) is found h' = absurd (cc h')

  -- Nameservers that pass are the customer's own texts, cleaned, in their order; each is a hostname by
  -- the pattern, and no two are the same.
  pub validate_nameservers-AreCleaned :
      (value hosts : List String)
      → validate_nameservers lower value ≡ returned hosts
      → AreCleaned value hosts × AreDistinct hosts
  unfolding validate_nameservers
  validate_nameservers-AreCleaned value hosts h = go (clean_each lower value) refl h
    where
      go :
          (o : Outcome (List String))
          → clean_each lower value ≡ o
          → elim o [
            | returned found ↦ if repeats lower found then raised invalid else returned found
            | raised e ↦ raised e
          ]
            ≡ returned hosts
          → AreCleaned value hosts × AreDistinct hosts
      go (raised e) is h' = absurd (cc h')
      go (returned found) is h' = elim (Bool-cases (repeats lower found)) [
        | inl again ↦ absurd (cc (rw again at h'))
        | inr fresh ↦
            let same : found ≡ hosts = cc (rw fresh at h') in
            subst (λ hs. AreCleaned value hs × AreDistinct hs) same
              (clean_each-AreCleaned value found is, repeats-distinct found fresh)
      ]
