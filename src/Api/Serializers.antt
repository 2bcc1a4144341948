-- ===== src/Api/Serializers.antt =====
-- The checks that the serializers make themselves, behind the framework's fields: apps/hosting/serializers.py,
-- apps/support/serializers.py and apps/accounts/serializers.py. The messages are left out.
pub mod Hostnames
pub mod Orders
use Prim.Native.Char.{Char, code}
use Prim.Native.String
use whmcstemplate_bridge.Base.{
  ltb, leb, nat_eq, if◌then◌else◌, is_text, one_of, rstrip, strip, Exn, runtime, Outcome, returned,
  raised, ℕ, suc, ◌+◌, String, ◌≡◌, refl, Bool, true, false, not, ◌&&◌, ◌||◌, List, [], ◌∷◌, ◌==◌,
}
use whmcstemplate_bridge.Json.{Fields}
use whmcstemplate_bridge.Whmcs.Services.Accounts.{no_fields}

abbrev pub invalid : Exn
invalid = runtime "ValidationError"

unfoldable pub text_length : String → ℕ
text_length String.[] = 0
text_length (String.◌∷◌ c s) = suc (text_length s)

unfoldable pub every_char : (ℕ → Bool) → String → Bool
every_char p String.[] = true
every_char p (String.◌∷◌ c s) = p (code c) && every_char p s

-- `[a-z]` without regard to case: beside the ASCII letters it holds of the dotted capital and the
-- dotless small i, the long s and the sign for Kelvin.
abbrev pub is_letter : ℕ → Bool
is_letter c =
    (leb 97 c && leb c 122)
    || ((leb 65 c && leb c 90)
        || ((nat_eq c 304 || nat_eq c 305) || (nat_eq c 383 || nat_eq c 8490)))

abbrev pub is_host_char : ℕ → Bool
is_host_char c = is_letter c || ((leb 48 c && leb c 57) || nat_eq c b'-')

-- `[a-z0-9-]{1,63}`
unfoldable pub is_label : String → Bool
unfolding text_length every_char
is_label s = every_char is_host_char s && (leb 1 (text_length s) && leb (text_length s) 63)

-- `[a-z]{2,63}`
unfoldable pub is_top_level : String → Bool
unfolding text_length every_char
is_top_level s = every_char is_letter s && (leb 2 (text_length s) && leb (text_length s) 63)

cons_first : Char → List String → List String
cons_first c [] = String.◌∷◌ c "" ∷ []
cons_first c (s ∷ parts) = String.◌∷◌ c s ∷ parts

-- the text between its dots
unfoldable pub split_dots : String → List String
unfolding cons_first
split_dots String.[] = "" ∷ []
split_dots (String.◌∷◌ c s) =
    let rest = split_dots s in if nat_eq (code c) b'.' then "" ∷ rest else cons_first c rest

-- labels, and a top-level domain behind them
unfoldable pub are_labels : List String → Bool
unfolding is_label is_top_level
are_labels [] = false
are_labels (top ∷ []) = false
are_labels (label ∷ top ∷ []) = is_label label && is_top_level top
are_labels (label ∷ next ∷ further ∷ rest) = is_label label && are_labels (next ∷ further ∷ rest)

-- what `$` stands behind: a newline may follow at the very end
without_newline : String → String
without_newline String.[] = ""
without_newline (String.◌∷◌ c s) =
    let rest = without_newline s in
    if nat_eq (code c) 10 && not (is_text s) then "" else String.◌∷◌ c rest

-- `HOSTNAME_RE.match`
unfoldable pub is_hostname : String → Bool
unfolding text_length are_labels split_dots without_newline
is_hostname s =
    let t = without_newline s in
    (leb 1 (text_length t) && leb (text_length t) 253) && are_labels (split_dots t)

module _ (lower : String → String) where
  -- `value.strip().lower().rstrip(".")`
  unfoldable pub cleaned : String → String
  unfolding strip rstrip
  cleaned value = rstrip (λ c. nat_eq c b'.') (lower (strip value))

  unfoldable pub clean_each : List String → Outcome (List String)
  unfolding cleaned is_hostname
  clean_each [] = returned []
  clean_each (host ∷ hosts) =
      let rest = clean_each hosts in
      if not (is_hostname (cleaned host))
      then raised invalid
      else elim rest [ returned others ↦ returned (cleaned host ∷ others) | raised e ↦ raised e ]

  -- `len(set(cleaned)) != len(cleaned)`
  unfoldable pub repeats : List String → Bool
  repeats [] = false
  repeats (host ∷ hosts) = one_of host hosts || repeats hosts

  -- `NameserverSerializer.validate_nameservers`
  unfoldable pub validate_nameservers : List String → Outcome (List String)
  unfolding clean_each repeats
  validate_nameservers value = elim (clean_each value) [
    | returned hosts ↦ if repeats hosts then raised invalid else returned hosts
    | raised e ↦ raised e
  ]

  -- `DomainLookupSerializer.validate_domain`
  unfoldable pub validate_domain : String → Outcome String
  unfolding cleaned is_hostname
  validate_domain value =
      if not (is_hostname (cleaned value)) then raised invalid else returned (cleaned value)

-- `bleach` is `bleach.clean` with every tag stripped.
module _ (bleach : String → String) where
  unfoldable pub sanitize : String → String
  unfolding strip
  sanitize value = strip (bleach value)

  -- `validate_message`: of a new ticket with 5 characters at least, and of a reply with 2
  unfoldable pub validate_message : (least : ℕ) → String → Outcome String
  unfolding sanitize text_length
  validate_message least value =
      if ltb (text_length (sanitize value)) least then raised invalid else returned (sanitize value)

-- `AttachmentFileField` and `AttachmentListField`, by the sizes of the uploads
unfoldable pub sizes_fit : (max_bytes_each max_bytes_total : ℕ) → (total : ℕ) → List ℕ → Bool
sizes_fit each all_bytes total [] = not (ltb all_bytes total)
sizes_fit each all_bytes total (size ∷ sizes) =
    not (ltb each size) && sizes_fit each all_bytes (total + size) sizes

-- `ProfileUpdateSerializer.validate`
unfoldable pub validate_profile : Fields → Outcome Fields
validate_profile attrs = if no_fields attrs then raised invalid else returned attrs

-- `PasswordChangeSerializer.validate`, of the current and the new password
unfoldable pub validate_passwords : String × String → Outcome (String × String)
validate_passwords (current, new) =
    if current == new then raised invalid else returned (current, new)

hostname_tests :
    (is_hostname "ns1.example.com" ≡ true)
    × (is_hostname "example" ≡ false)
    × (is_hostname "a..b.com" ≡ false)
    × (is_hostname "a.b1" ≡ false)
    × (validate_domain (λ s. s) " example.com\n. " ≡ returned "example.com\n")
unfolding is_hostname validate_domain
hostname_tests = (refl, refl, refl, refl, refl)
