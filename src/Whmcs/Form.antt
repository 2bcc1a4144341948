-- ===== src/Whmcs/Form.antt =====
-- A dict of strings, in the order of insertion: the fields of a form.
pub mod Laws
use whmcstemplate_bridge.Base.{if◌then◌else◌, String, Option, none, some, List, [], ◌∷◌, ◌==◌}

abbrev pub Form : Type 0
Form = List (String × String)

-- `form[key] = value`
unfoldable pub put : String → String → Form → Form
put key value [] = (key, value) ∷ []
put key value ((k, v) ∷ form) =
    let rest = put key value form in if k == key then (k, value) ∷ form else (k, v) ∷ rest

-- `form.update(new)`
unfoldable pub update : Form → Form → Form
unfolding put
update form [] = form
update form ((k, v) ∷ new) = update (put k v form) new

-- `form.get(key)`
unfoldable pub lookup : String → Form → Option String
lookup key [] = none
lookup key ((k, v) ∷ form) = let rest = lookup key form in if k == key then some v else rest
