-- ===== src/Payments/Models/Lookup.antt =====
-- Looking a row up after an UPDATE or an INSERT.
use mathlib.Core.Option
use text.Mathlib.TextPositions.{eq_refl}
use whmcstemplate_bridge.Base.{
  if◌then◌else◌, Bool-cases, String, ◌≡◌, refl, ◌∙◌, inl, inr, Bool, true, Option, some, List, [],
  ◌∷◌, arith, ◌==◌, eq_iff,
}
use whmcstemplate_bridge.Payments.Models.{PaymentStatus, PaymentAttempt, has_id, find, modify}

-- The updated row is read back changed, and every other row as it was.
pub find-modify :
    (id j : String) (change : PaymentAttempt → PaymentAttempt) (rows : List PaymentAttempt)
    → ((a : PaymentAttempt) → a.id ≡ id → (change a).id ≡ id)
    → find (has_id j) (modify id change rows)
      ≡ (if id == j then Option.map change (find (has_id id) rows) else find (has_id j) rows)
unfolding find modify
find-modify id j change [] keep = ground arith
find-modify id j change (a ∷ rows) keep = ground (
  arith,
  keep a,
  find-modify id j change rows keep,
  eq_iff a.id id,
  eq_iff a.id j,
  eq_iff id j,
  eq_iff (change a).id j,
)

-- A row that is found passes the test.
pub find-passes :
    (test : PaymentAttempt → Bool) (rows : List PaymentAttempt) (a : PaymentAttempt)
    → find test rows ≡ some a
    → test a ≡ true
unfolding find
find-passes test [] a h = cc
find-passes test (b ∷ rows) a h = elim (Bool-cases (test b)) [
  | inl e ↦ ground (arith, e)
  | inr e ↦ find-passes test rows a (ground (arith, e))
]

-- the status of the row with a primary key
abbrev pub status_of : String → List PaymentAttempt → Option PaymentStatus
status_of id rows = Option.map (λ a. a.status) (find (has_id id) rows)

-- The status that an UPDATE writes is read back.
pub status_of-modify :
    (id : String) (change : PaymentAttempt → PaymentAttempt) (rows : List PaymentAttempt)
    (a : PaymentAttempt)
    → ((a : PaymentAttempt) → a.id ≡ id → (change a).id ≡ id)
    → find (has_id id) rows ≡ some a
    → status_of id (modify id change rows) ≡ some (change a).status
status_of-modify id change rows a keep listed = rw find-modify (rw (eq_refl id) (rw listed refl))

-- The row that an UPDATE writes is read back.
pub find-modify_self :
    (id : String) (row : PaymentAttempt) (rows : List PaymentAttempt) (a : PaymentAttempt)
    → row.id ≡ id
    → find (has_id id) rows ≡ some a
    → find (has_id id) (modify id (λ _. row) rows) ≡ some row
find-modify_self id row rows a keep listed =
    find-modify id id (λ _. row) rows (λ _ _. keep) ∙ rw (eq_refl id) (rw listed refl)

-- One row more is looked at first.
pub find-cons :
    (test : PaymentAttempt → Bool) (a : PaymentAttempt) (rows : List PaymentAttempt)
    → find test (a ∷ rows) ≡ (if test a then some a else find test rows)
unfolding find
find-cons test a rows = refl
