-- ===== src/Core/Http.antt =====
-- `client_ip` of apps/core/http.py.
pub mod Hops
use Prim.Native.Char.{Char, code}
use Prim.Native.String
use whmcstemplate_bridge.Base.{
  ltb, nat_eq, if◌then◌else◌, length, is_text, strip, ℕ, zero, suc, ◌-◌, String, ◌≡◌, refl, not,
  ◌||◌, Option, none, some, List, [], ◌∷◌,
}

cons_head : Char → List String → List String
cons_head c [] = String.◌∷◌ c "" ∷ []
cons_head c (s ∷ parts) = String.◌∷◌ c s ∷ parts

-- `s.split(",")`
unfoldable pub split_commas : String → List String
unfolding cons_head
split_commas String.[] = "" ∷ []
split_commas (String.◌∷◌ c s) =
    let rest = split_commas s in if nat_eq (code c) b',' then "" ∷ rest else cons_head c rest

-- `[part.strip() for part in parts if part.strip()]`
unfoldable pub stripped : List String → List String
unfolding strip
stripped [] = []
stripped (s ∷ parts) =
    let rest = stripped parts in if is_text (strip s) then strip s ∷ rest else rest

unfoldable pub nth : ℕ → List String → Option String
nth n [] = none
nth zero (s ∷ parts) = some s
nth (suc n) (s ∷ parts) = nth n parts

-- `hops[-n]`, for `n` from 1 to the number of hops
unfoldable pub nth_from_right : ℕ → List String → Option String
unfolding nth
nth_from_right n hops = nth (length hops - n) hops

or_remote : String → Option String → String
or_remote remote_addr none = remote_addr
or_remote remote_addr (some hop) = hop

trusted_hop : ℕ → String → List String → String
unfolding nth_from_right or_remote
trusted_hop num_proxies remote_addr hops =
    if ltb (length hops) num_proxies
    then remote_addr
    else or_remote remote_addr (nth_from_right num_proxies hops)

-- `num_proxies` is 0 where the setting is missing, and `forwarded` is empty where the header is.
unfoldable pub client_ip : (num_proxies : ℕ) → (remote_addr forwarded : String) → String
unfolding trusted_hop stripped split_commas
client_ip num_proxies remote_addr forwarded =
    if nat_eq num_proxies 0 || not (is_text forwarded)
    then remote_addr
    else trusted_hop num_proxies remote_addr (stripped (split_commas forwarded))

client_ip_tests :
    (client_ip 1 "10.0.0.1" "6.6.6.6, 1.2.3.4" ≡ "1.2.3.4")
    × (client_ip 2 "10.0.0.1" "1.2.3.4" ≡ "10.0.0.1")
    × (client_ip 0 "10.0.0.1" "1.2.3.4" ≡ "10.0.0.1")
unfolding client_ip
client_ip_tests = (refl, refl, refl)
