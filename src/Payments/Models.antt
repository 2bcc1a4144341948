-- ===== src/Payments/Models.antt =====
-- apps/payments/models.py: the rows of the table `payments_attempt`, and queries over it.
pub mod Lookup
use whmcstemplate_bridge.Base.{
  ℕ, Bool, true, false, Option, none, some, List, [], ◌∷◌, String, ◌==◌, ℤ, if◌then◌else◌,
}

pub data PaymentStatus : Type 0 where
  pending redirected paid recorded failed cancelled mismatch : PaymentStatus

pub record PaymentAttempt : Type 0 where
  pub id : String
  pub user : ℕ
  pub whmcs_client_id : ℕ
  pub invoice_id : ℕ
  pub gateway : String
  pub amount_rial : ℤ
  pub amount_whmcs : String
  pub status : PaymentStatus
  pub track_id : Option String
  pub ref_number : String
  pub card_mask : String
  pub gateway_result : Option ℤ
  pub gateway_message : String
  pub paid_at : Option ℕ
  pub recorded_at : Option ℕ
  pub client_ip : Option String
  pub created_at : ℕ
  pub updated_at : ℕ

abbrev pub is_recorded : PaymentStatus → Bool
is_recorded recorded = true
is_recorded _ = false

-- True once the money is both verified and reflected in WHMCS.
abbrev pub is_settled : PaymentAttempt → Bool
is_settled a = is_recorded a.status

abbrev pub tracked : String → Option String → Bool
tracked track_id none = false
tracked track_id (some t) = t == track_id

abbrev pub has_track : String → PaymentAttempt → Bool
has_track track_id a = tracked track_id a.track_id

abbrev pub has_id : String → PaymentAttempt → Bool
has_id id a = a.id == id

-- the first row that passes a test; the newest row stands first, as `ordering` says
unfoldable pub find : (PaymentAttempt → Bool) → List PaymentAttempt → Option PaymentAttempt
find test [] = none
find test (a ∷ rows) = if test a then some a else find test rows

-- an UPDATE of the row with a primary key
unfoldable pub modify :
    String → (PaymentAttempt → PaymentAttempt) → List PaymentAttempt → List PaymentAttempt
modify id change [] = []
modify id change (a ∷ rows) = (if has_id id a then change a else a) ∷ modify id change rows
