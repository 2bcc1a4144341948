-- ===== src/Core/Http/Hops.antt =====
-- What a client may prepend to X-Forwarded-For.
use Prim.Native.Char.{Char, code}
use Prim.Native.String
use Prim.Native.String.append
use whmcstemplate_bridge.Base.{
  ltb, nat_eq, if◌then◌else◌, Bool-cases, length, length-append, is_text, strip, ℕ, suc, ◌+◌, ◌-◌,
  ◌≤◌, String, ◌≡◌, refl, sym, ap, ◌∙◌, inl, inr, Bool, true, false, not, ◌&&◌, List, [], ◌∷◌, ◌++◌,
  arith,
}
use whmcstemplate_bridge.Core.Http.{
  cons_head, or_remote, trusted_hop, split_commas, stripped, nth, nth_from_right, client_ip,
}

cons_head-append :
    (c : Char) (p : String) (parts ys : List String)
    → cons_head c ((p ∷ parts) ++ ys) ≡ cons_head c (p ∷ parts) ++ ys
unfolding cons_head
cons_head-append c p parts ys = refl

split-head : (s : String) → (p : String) × (parts : List String) × (split_commas s ≡ p ∷ parts)
unfolding split_commas
split-head String.[] = ("", [], refl)
split-head (String.◌∷◌ c s) = elim (Bool-cases (nat_eq (code c) b',')) [
  | inl comma ↦ rw comma ("", split_commas s, refl)
  | inr other ↦
      let (p, parts, e) = split-head s in
      rw other (String.◌∷◌ c p, parts, rw e (unfold cons_head in refl))
]

append-empty : (t : String) → String.◌++◌ "" t ≡ t
append-empty t = λ i. append.nil t i

append-cons :
    (c : Char) (s t : String) → String.◌++◌ (String.◌∷◌ c s) t ≡ String.◌∷◌ c (String.◌++◌ s t)
append-cons c s t = λ i. append.cons c s t i

cons-split :
    (c : Char) (s : String)
    → (nat_eq (code c) b',') ≡ false
    → split_commas (String.◌∷◌ c s) ≡ cons_head c (split_commas s)
unfolding split_commas
cons-split c s other = rw other refl

comma-split :
    (c : Char) (s : String)
    → (nat_eq (code c) b',') ≡ true
    → split_commas (String.◌∷◌ c s) ≡ "" ∷ split_commas s
unfolding split_commas
comma-split c s comma = rw comma refl

abbrev one_comma : String → Bool
one_comma String.[] = false
one_comma (String.◌∷◌ c s) = nat_eq (code c) b',' && not (is_text s)

split-one_comma :
    (comma t : String)
    → one_comma comma ≡ true
    → split_commas (String.◌++◌ comma t) ≡ "" ∷ split_commas t
split-one_comma String.[] t h = cc
split-one_comma (String.◌∷◌ c String.[]) t h =
    ap split_commas (append-cons c "" t ∙ ap (λ r. String.◌∷◌ c r) (append-empty t))
    ∙ comma-split c t (ground arith)
split-one_comma (String.◌∷◌ c (String.◌∷◌ d s)) t h = absurd (ground arith)

split-comma :
    (s t : String)
    → split_commas (String.◌++◌ s (String.◌++◌ "," t)) ≡ split_commas s ++ split_commas t
unfolding split_commas
split-comma String.[] t =
    ap split_commas (append-empty (String.◌++◌ "," t)) ∙ split-one_comma "," t refl
split-comma (String.◌∷◌ c s) t =
    let (p, parts, e) = split-head s in
    let rest = String.◌++◌ s (String.◌++◌ "," t) in
    let ih = split-comma s t in
    ap split_commas (append-cons c s (String.◌++◌ "," t))
    ∙ elim (Bool-cases (nat_eq (code c) b',')) [
      | inl comma ↦
          comma-split c rest comma
          ∙ ap (λ l. "" ∷ l) ih
          ∙ sym (ap (λ l. l ++ split_commas t) (comma-split c s comma))
      | inr other ↦
          cons-split c rest other
          ∙ ap (cons_head c) ih
          ∙ ap (λ l. cons_head c (l ++ split_commas t)) e
          ∙ cons_head-append c p parts (split_commas t)
          ∙ sym (ap (λ l. cons_head c l ++ split_commas t) e)
          ∙ sym (ap (λ l. l ++ split_commas t) (cons-split c s other))
    ]

stripped-append : (xs ys : List String) → stripped (xs ++ ys) ≡ stripped xs ++ stripped ys
unfolding stripped
stripped-append [] ys = refl
stripped-append (x ∷ xs) ys = elim (Bool-cases (is_text (strip x))) [
  | inl kept ↦ rw kept (ap (λ l. strip x ∷ l) (stripped-append xs ys))
  | inr blank ↦ rw blank (stripped-append xs ys)
]

nth-append : (n : ℕ) (xs ys : List String) → nth (length xs + n) (xs ++ ys) ≡ nth n ys
unfolding nth
nth-append n [] ys = let e : 0 + n ≡ n = omega arith in ap (λ k. nth k ys) e
nth-append n (x ∷ xs) ys =
    let e : suc (length xs) + n ≡ suc (length xs + n) = omega arith in
    ap (λ k. nth k (x ∷ (xs ++ ys))) e ∙ nth-append n xs ys

-- The trusted hop stands at the same distance from the right.
trusted_hop-append :
    (n : ℕ) (remote : String) (xs ys : List String)
    → n ≤ length ys
    → trusted_hop n remote (xs ++ ys) ≡ trusted_hop n remote ys
unfolding trusted_hop nth_from_right
trusted_hop-append n remote xs ys h =
    let all : length (xs ++ ys) ≡ length xs + length ys = length-append xs ys in
    let place : length (xs ++ ys) - n ≡ length xs + (length ys - n) = omega (arith, all) in
    let few : ltb (length ys) n ≡ false = ground arith in
    let more : ltb (length (xs ++ ys)) n ≡ false = ground (arith, all) in
    rw (more, few)
      (ap (or_remote remote) (ap (λ k. nth k (xs ++ ys)) place ∙ nth-append (length ys - n) xs ys))

text_before : (s t : String) → is_text t ≡ true → is_text (String.◌++◌ s t) ≡ true
text_before String.[] t h = ap is_text (append-empty t) ∙ h
text_before (String.◌∷◌ c s) t h = ap is_text (append-cons c s t)

client_ip-run :
    (n : ℕ) (remote forwarded : String)
    → is_text forwarded ≡ true
    → client_ip n remote forwarded
      ≡ (if nat_eq n 0 then remote else trusted_hop n remote (stripped (split_commas forwarded)))
unfolding client_ip
client_ip-run n remote forwarded h = elim (Bool-cases (nat_eq n 0)) [
  | inl none_trusted ↦ rw none_trusted refl
  | inr some_trusted ↦ rw some_trusted (rw h refl)
]

-- Where the header that the trusted proxies have written holds a hop for each of them, nothing that a
-- client puts before it changes the address.
pub client_ip-prepended :
    (num_proxies : ℕ) (remote_addr forged forwarded : String)
    → is_text forwarded ≡ true
    → num_proxies ≤ length (stripped (split_commas forwarded))
    → client_ip num_proxies remote_addr (String.◌++◌ forged (String.◌++◌ "," forwarded))
      ≡ client_ip num_proxies remote_addr forwarded
client_ip-prepended n remote forged forwarded present enough =
    let whole = String.◌++◌ forged (String.◌++◌ "," forwarded) in
    let there : is_text whole ≡ true =
      text_before forged (String.◌++◌ "," forwarded) (text_before "," forwarded present) in
    let hops : stripped (split_commas whole)
        ≡ stripped (split_commas forged) ++ stripped (split_commas forwarded) =
      ap stripped (split-comma forged forwarded)
      ∙ stripped-append (split_commas forged) (split_commas forwarded) in
    client_ip-run n remote whole there
    ∙ ap (λ l. if nat_eq n 0 then remote else trusted_hop n remote l) hops
    ∙ ap (λ (hop : String). if nat_eq n 0 then remote else hop)
        (trusted_hop-append n remote (stripped (split_commas forged))
          (stripped (split_commas forwarded)) enough)
    ∙ sym (client_ip-run n remote forwarded present)
