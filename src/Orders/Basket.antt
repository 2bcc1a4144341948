-- ===== src/Orders/Basket.antt =====
-- `OrderService.create_order` of apps/whmcs/services/orders.py: a validated basket as the parallel
-- arrays of WHMCS' AddOrder.
pub mod Aligned
use Prim.Native.String
use Prim.Native.String.{len}
use whmcstemplate_bridge.Base.{
  nat_eq, if◌then◌else◌, length, f_string, is_text, show, pos, ◌>>=◌, ◌>>◌, ℕ, suc, String, Bool,
  List, [], ◌∷◌, ◌++◌, ◌==◌,
}
use whmcstemplate_bridge.Json.{Value, bool, int, str}

-- a line of type "product", as its serializer leaves it; what is not given is empty
pub record Product : Type 0 where
  pub product_id : ℕ
  pub billing_cycle : String
  pub quantity : ℕ
  pub domain : String
  pub hostname : String
  pub config_options : List (ℕ × String)
  pub addons : List ℕ
  pub custom_fields : List (ℕ × String)

-- a line of type "domain"
pub record DomainLine : Type 0 where
  pub domain : String
  pub action : String
  pub years : ℕ
  pub id_protection : Bool
  pub dns_management : Bool
  pub email_forwarding : Bool
  pub epp_code : String

pub data Item : Type 0 where
  product : Product → Item
  domain_line : DomainLine → Item

-- `indexed`: a dict of dicts, by the field's name and the line's index
abbrev pub Indexed : Type 0
Indexed = List (String × List (ℕ × Value))

unfoldable pub set_index : ℕ → Value → List (ℕ × Value) → List (ℕ × Value)
set_index i v [] = (i, v) ∷ []
set_index i v ((j, u) ∷ d) =
    let rest = set_index i v d in if nat_eq j i then (j, v) ∷ d else (j, u) ∷ rest

-- `indexed.setdefault(field, {})[index] = value`
unfoldable pub put_indexed : String → ℕ → Value → Indexed → Indexed
unfolding set_index
put_indexed name i v [] = (name, (i, v) ∷ []) ∷ []
put_indexed name i v ((k, d) ∷ indexed) =
    let rest = put_indexed name i v indexed in
    if k == name then (k, set_index i v d) ∷ indexed else (k, d) ∷ rest

abbrev pub Entries : Type 0
Entries = List (String × Value)

abbrev pub when_text : String → String → Entries
when_text name s = if is_text s then (name, str s) ∷ [] else []

-- `",".join(str(a) for a in addons)`
join_addons : List ℕ → String
unfolding f_string show
join_addons [] = ""
join_addons (a ∷ []) = show a
join_addons (a ∷ b ∷ addons) = f_string (show a ∷ "," ∷ join_addons (b ∷ addons) ∷ [])

unfoldable pub when_addons : List ℕ → Entries
unfolding join_addons
when_addons [] = []
when_addons (a ∷ addons) = ("addons", str (join_addons (a ∷ addons))) ∷ []

-- the `i:…;s:…:"…";` of a PHP array, with the length of the text in bytes
php_entries : List (ℕ × String) → String
unfolding f_string show
php_entries [] = ""
php_entries ((key, item) ∷ value) =
    f_string
      ("i:" ∷ show key ∷ ";s:" ∷ show (len item) ∷ ":\"" ∷ item ∷ "\";" ∷ php_entries value ∷ [])

unfoldable pub put_entries : ℕ → Entries → Indexed → Indexed
unfolding put_indexed
put_entries i [] indexed = indexed
put_entries i ((name, v) ∷ entries) indexed = put_entries i entries (put_indexed name i v indexed)

module _ (base64 : String → String) where
  unfoldable pub base64_serialize : List (ℕ × String) → String
  unfolding php_entries f_string show
  base64_serialize value =
      base64 (f_string ("a:" ∷ show (length value) ∷ ":{" ∷ php_entries value ∷ "}" ∷ []))

  unfoldable pub when_options : String → List (ℕ × String) → Entries
  unfolding base64_serialize
  when_options name [] = []
  when_options name (o ∷ options) = (name, str (base64_serialize (o ∷ options))) ∷ []

  -- what the loop puts for one line, in its order
  unfoldable pub line_entries : Item → Entries
  unfolding when_options when_addons
  line_entries (product p) =
      ("pid", int (pos p.product_id))
      ∷ ("billingcycle", str p.billing_cycle)
      ∷ ("qty", int (pos p.quantity))
      ∷ (when_text "domain" p.domain
          ++ (when_text "hostname" p.hostname
              ++ (when_options "configoptions" p.config_options
                  ++ (when_addons p.addons ++ when_options "customfields" p.custom_fields))))
  line_entries (domain_line d) =
      ("domain", str d.domain)
      ∷ ("domaintype", str d.action)
      ∷ ("regperiod", int (pos d.years))
      ∷ ("idprotection", bool d.id_protection)
      ∷ ("dnsmanagement", bool d.dns_management)
      ∷ ("emailforwarding", bool d.email_forwarding)
      ∷ (if d.action == "transfer" then when_text "eppcode" d.epp_code else [])

  -- `for index, item in enumerate(items)`
  unfoldable pub index_lines : ℕ → List Item → Indexed → Indexed
  unfolding line_entries put_entries
  index_lines i [] indexed = indexed
  index_lines i (item ∷ items) indexed =
      index_lines (suc i) items (put_entries i (line_entries item) indexed)
