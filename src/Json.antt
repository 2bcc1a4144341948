-- ===== src/Json.antt =====
-- The values of a parsed JSON body, and Python's conversions of them: `str(x)`, `int(x)`, `bool(x)`,
-- `d.get(k)` and `x or y`.
use whmcstemplate_bridge.Base.{
  zero, ◌≡◌, refl, Bool, true, false, not, Option, none, some, String, ◌==◌, ℤ, pos, negsuc,
  show_int, parse_int, is_text, int_eq, Outcome, returned, raised, runtime, if◌then◌else◌,
}

-- `real` is a float by what `int(x)`, `bool(x)` and `str(x)` make of it.
mutual
  pub data Value : Type 0 where
    null : Value
    bool : Bool → Value
    int : ℤ → Value
    real : (whole : ℤ) → (truth : Bool) → (text : String) → Value
    str : String → Value
    list : Items → Value
    dict : Fields → Value

  pub data Items : Type 0 where
    nil : Items
    cons : Value → Items → Items

  pub data Fields : Type 0 where
    end : Fields
    field : String → Value → Fields → Fields

-- `d.get(k)`
unfoldable pub get : String → Fields → Option Value
get k end = none
get k (field j v rest) = if j == k then some v else get k rest

-- `d.get(k, default)`
unfoldable pub get_or : String → Value → Fields → Value
unfolding get
get_or k default d = elim (get k d) [ none ↦ default | some v ↦ v ]

-- `d[name] = value`
unfoldable pub set_field : String → Value → Fields → Fields
set_field name v end = field name v end
set_field name v (field k u d) =
    let rest = set_field name v d in if k == name then field k v d else field k u rest

-- `bool(x)`
unfoldable pub truthy : Value → Bool
truthy null = false
truthy (bool b) = b
truthy (int n) = not (int_eq n (pos zero))
truthy (real _ truth _) = truth
truthy (str s) = is_text s
truthy (list nil) = false
truthy (list (cons _ _)) = true
truthy (dict end) = false
truthy (dict (field _ _ _)) = true

-- `x or y`
abbrev pub or_value : Value → Value → Value
or_value x y = if truthy x then x else y

-- `int(x)`
unfoldable pub int_of : Value → Outcome ℤ
unfolding parse_int
int_of null = raised (runtime "TypeError")
int_of (bool b) = returned (pos (if b then 1 else 0))
int_of (int n) = returned n
int_of (real whole _ _) = returned whole
int_of (str s) = elim (parse_int s) [ none ↦ raised (runtime "ValueError") | some n ↦ returned n ]
int_of (list _) = raised (runtime "TypeError")
int_of (dict _) = raised (runtime "TypeError")

-- `str(x)`; `repr` is what Python prints for a list or a dict
unfoldable pub str_of : (Value → String) → Value → String
unfolding show_int
str_of repr null = "None"
str_of repr (bool b) = if b then "True" else "False"
str_of repr (int n) = show_int n
str_of repr (real _ _ text) = text
str_of repr (str s) = s
str_of repr v = repr v

int_of_tests :
    (int_of (str " 12 ") ≡ returned (pos 12))
    × (int_of (int (negsuc 0)) ≡ returned (negsuc 0))
    × (int_of null ≡ raised (runtime "TypeError"))
unfolding int_of
int_of_tests = (refl, refl, refl)
