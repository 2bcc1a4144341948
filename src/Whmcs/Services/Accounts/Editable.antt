-- ===== src/Whmcs/Services/Accounts/Editable.antt =====
-- What a customer can change of a profile.
use whmcstemplate_bridge.Base.{
  if◌then◌else◌, Bool-cases, pos, ℕ, String, ◌≡◌, refl, sym, ◌∙◌, ◌⊎◌, inl, inr, Bool, true, false,
  ◌&&◌, ◌||◌, Option, none, some, List, [], ◌∷◌, arith, ◌==◌, eq_iff,
}
use whmcstemplate_bridge.Json.{Value, int, Fields, end, field, get, set_field}
use whmcstemplate_bridge.Whmcs.Services.Accounts.{
  with_change, editable_profile_fields, changed_fields, update_params,
}

get-set_field :
    (k name : String) (v : Value) (d : Fields)
    → get k (set_field name v d) ≡ (if name == k then some v else get k d)
unfolding get set_field
get-set_field k name v end = refl
get-set_field k name v (field j u d) =
    ground (arith, eq_iff j name, eq_iff j k, eq_iff name k, get-set_field k name v d)

-- the pair of names is in the list
abbrev pub is_listed : (ours theirs : String) → List (String × String) → Bool
is_listed ours theirs [] = false
is_listed ours theirs ((o, t) ∷ editable) =
    (o == ours && t == theirs) || is_listed ours theirs editable

later :
    (o t ours theirs : String) (editable : List (String × String))
    → is_listed ours theirs editable ≡ true
    → is_listed ours theirs ((o, t) ∷ editable) ≡ true
later o t ours theirs editable h = ground arith

-- a change of one of the editable fields
pub record IsChange (editable : List (String × String)) (changes : Fields) (k : String) (v : Value)
    : Type 0 where
  pub ours : String
  pub listed : is_listed ours k editable ≡ true
  pub changed : get ours changes ≡ some v

changed_fields-IsChange :
    (editable : List (String × String)) (changes : Fields) (k : String) (v : Value)
    → get k (changed_fields editable changes) ≡ some v
    → IsChange editable changes k v
unfolding changed_fields get
changed_fields-IsChange [] changes k v h = absurd (cc h)
changed_fields-IsChange ((ours, theirs) ∷ editable) changes k v h =
    go (λ h'. shift (changed_fields-IsChange editable changes k v h')) (get ours changes) refl h
  where
    shift : IsChange editable changes k v → IsChange ((ours, theirs) ∷ editable) changes k v
    shift c = record {
      ours = c.ours;
      listed = later ours theirs c.ours k editable c.listed;
      changed = c.changed;
    }

    go :
        (get k (changed_fields editable changes) ≡ some v
          → IsChange ((ours, theirs) ∷ editable) changes k v)
        → (o : Option Value) → get ours changes ≡ o
        → get k (with_change theirs o (changed_fields editable changes)) ≡ some v
        → IsChange ((ours, theirs) ∷ editable) changes k v
    go rest none is h' = rest h'
    go rest (some u) is h' = elim (Bool-cases (theirs == k)) [
      | inl here ↦ record {
        ours = ours;
        listed = ground (arith, eq_iff ours ours, here);
        changed = is ∙ rw here at h';
      }
      | inr there ↦ rest (rw there at h')
    ]

-- The parameters of UpdateClient that `update_profile` sends name the caller's own client, whatever
-- the changes are; and any of them is that, or the change of a field that a customer may edit, under
-- WHMCS' name of the field.
pub update_params-IsChange :
    (n : ℕ) (changes : Fields) (k : String) (v : Value)
    → get k (update_params n changes) ≡ some v
    → (get "clientid" (update_params n changes) ≡ some (int (pos n)))
      × (((k ≡ "clientid") × (v ≡ int (pos n))) ⊎ IsChange editable_profile_fields changes k v)
unfolding update_params
update_params-IsChange n changes k v h =
    let others = changed_fields editable_profile_fields changes in
    let named = get-set_field k "clientid" (int (pos n)) others in
    (
      get-set_field "clientid" "clientid" (int (pos n)) others,
      elim (Bool-cases ("clientid" == k)) [
        | inl same ↦ inl (sym ((eq_iff "clientid" k).0 same), cc (sym h ∙ rw same at named))
        | inr other ↦ inr (
            changed_fields-IsChange editable_profile_fields changes k v
              (sym (rw other at named) ∙ h))
      ],
    )
