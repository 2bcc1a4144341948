-- ===== src/Base/Text.antt =====
-- The operations of Python's `str` that the program uses, over the native texts.
pub mod Digits
use Prim.Native.Nat.{ℕ, zero, suc, ◌+◌, ◌*◌, ◌/◌, ◌%◌, ◌-◌}
use Prim.Native.Char.{Char, code}
use Prim.Native.String
use Prim.Native.String.{String}
use mathlib.Core.Path.{◌≡◌, refl}
use mathlib.Core.Bool.{Bool, true, false, not, ◌&&◌, ◌||◌}
use mathlib.Core.List.{List, [], ◌∷◌}
use mathlib.Core.Option.{Option, none, some}
use text.Mathlib.Text.{◌==◌, starts_with}
use whmcstemplate_bridge.Base.Tests.{ltb, leb, nat_eq, if◌then◌else◌}

-- `s + t`, and an f-string as the list of its parts
unfoldable pub f_string : List String → String
f_string [] = ""
f_string (s ∷ parts) = String.◌++◌ s (f_string parts)

-- `s[:n]`
unfoldable pub prefix : ℕ → String → String
prefix zero s = ""
prefix (suc n) String.[] = ""
prefix (suc n) (String.◌∷◌ c s) = String.◌∷◌ c (prefix n s)

-- `bool(s)`
abbrev pub is_text : String → Bool
is_text String.[] = false
is_text (String.◌∷◌ c s) = true

-- `s or t`
abbrev pub or_text : String → String → String
or_text s t = if is_text s then s else t

-- `s in parts`
abbrev pub one_of : String → List String → Bool
one_of s [] = false
one_of s (t ∷ parts) = s == t || one_of s parts

-- "".join(ch for ch in s if keep(ch))
unfoldable pub keep_chars : (ℕ → Bool) → String → String
keep_chars keep String.[] = ""
keep_chars keep (String.◌∷◌ c s) =
    if keep (code c) then String.◌∷◌ c (keep_chars keep s) else keep_chars keep s

-- the ASCII whitespace that `str.strip` removes
abbrev pub is_space : ℕ → Bool
is_space c = nat_eq c 32 || (leb 9 c && leb c 13) || (leb 28 c && leb c 31)

unfoldable pub lstrip : (ℕ → Bool) → String → String
lstrip drop String.[] = ""
lstrip drop (String.◌∷◌ c s) =
    let rest = lstrip drop s in if drop (code c) then rest else String.◌∷◌ c s

-- a character stays where something after it stays
rstrip_cons : (ℕ → Bool) → Char → String → String
rstrip_cons drop c rest = if drop (code c) && not (is_text rest) then "" else String.◌∷◌ c rest

unfoldable pub rstrip : (ℕ → Bool) → String → String
unfolding rstrip_cons
rstrip drop String.[] = ""
rstrip drop (String.◌∷◌ c s) = rstrip_cons drop c (rstrip drop s)

unfoldable pub strip : String → String
unfolding lstrip rstrip
strip s = lstrip is_space (rstrip is_space s)

-- `"x" in s`, for a text
unfoldable pub contains : String → String → Bool
contains needle String.[] = needle == ""
contains needle (String.◌∷◌ c s) = starts_with (String.◌∷◌ c s) needle || contains needle s

digit : ℕ → String
digit d =
    if nat_eq d 0
    then "0"
    else if nat_eq d 1
    then "1"
    else if nat_eq d 2
    then "2"
    else if nat_eq d 3
    then "3"
    else if nat_eq d 4
    then "4"
    else if nat_eq d 5
    then "5"
    else if nat_eq d 6
    then "6"
    else if nat_eq d 7
    then "7"
    else if nat_eq d 8
    then "8"
    else "9"

-- `rest` holds the digits behind those of `n`; `n + 1` rounds are enough, since each divides by ten
digits : ℕ → ℕ → String → String
unfolding digit
digits zero n rest = rest
digits (suc fuel) n rest =
    let more = digits fuel (n / 10) (String.◌++◌ (digit (n % 10)) rest) in
    if ltb n 10 then String.◌++◌ (digit n) rest else more

-- `str(n)` of a number that is not negative
unfoldable pub show : ℕ → String
unfolding digits
show n = digits (suc n) n ""

-- `d = d * 10 + digit`, over digits alone
scan : ℕ → String → Option ℕ
scan n String.[] = some n
scan n (String.◌∷◌ c s) =
    if leb 48 (code c) && leb (code c) 57 then scan (n * 10 + (code c - 48)) s else none

-- the value of a non-empty run of ASCII digits
unfoldable pub parse_digits : String → Option ℕ
unfolding scan
parse_digits s = if is_text s then scan 0 s else none

show_test : show 1204 ≡ "1204"
unfolding show
show_test = refl

strip_test : strip " a b\n" ≡ "a b"
unfolding strip
strip_test = refl
