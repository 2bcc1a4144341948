-- ===== src/Payments/Start/Rows.antt =====
-- `start` leaves every row that was there alone.
use whmcstemplate_bridge.Base.{
  Bool-cases, Option-cases, ℤ, Exn, zibal, runtime, Exec, Allowed, Frame, Frame-raise, Frame-bind,
  frame_rules, ℕ, ◌+◌, String, ◌≡◌, refl, ap, ◌∙◌, inl, inr, Bool, false, none, some, ◌∷◌, ◌==◌,
  eq_iff,
}
use whmcstemplate_bridge.Payments.Models.{redirected, PaymentAttempt, has_track, has_id, find}
use whmcstemplate_bridge.Payments.Models.Lookup.{find-cons, find-modify}
use whmcstemplate_bridge.Payments.World.{Invoice, Billing, World, Env}
use whmcstemplate_bridge.Payments.Zibal.Posts.{only_posts, gateway-Frame, request_payment-Frame}
use whmcstemplate_bridge.Payments.Table.{on_billing, rows, write, unless_taken, now, save_fields}
use whmcstemplate_bridge.Payments.Start.{
  User, callback_url, create, request_error, open_session, redirect_to, start, new_attempt, enroll,
  charge, collect, request_failed, gateway_unavailable,
}

module _ {B : Billing} where
  -- Each row of `w` is read in `w'` as it was.
  abbrev pub KeepsRows : World B → World B → Type 0
  KeepsRows w w' =
      (j : String) (a : PaymentAttempt)
      → find (has_id j) w.attempts ≡ some a
      → find (has_id j) w'.attempts ≡ some a

  abbrev pub keeps_rows : Allowed (World B)
  keeps_rows = record {
    May = KeepsRows;
    stay = λ w j a h. h;
    then_may = λ u v w p q j a h. q j a (p j a h);
  }

  -- Only the row with this key may have changed.
  abbrev OnlyRow : String → World B → World B → Type 0
  OnlyRow id w w' =
      (j : String) → (id == j) ≡ false → find (has_id j) w'.attempts ≡ find (has_id j) w.attempts

  abbrev only_row : String → Allowed (World B)
  only_row id = record {
    May = OnlyRow id;
    stay = λ w j e. refl;
    then_may = λ u v w p q j e. q j e ∙ p j e;
  }

  posts-OnlyRow :
      {A : Type 0} (id : String) (m : Exec (World B) A) → Frame only_posts m → Frame (only_row id) m
  posts-OnlyRow id m f = record { at = λ w j e. ap (find (has_id j)) (f.at w).attempts }

  posts-KeepsRows : {A : Type 0} (m : Exec (World B) A) → Frame only_posts m → Frame keeps_rows m
  posts-KeepsRows m f = record { at = λ w j a h. ap (find (has_id j)) (f.at w).attempts ∙ h }

  on_billing-KeepsRows : {A : Type 0} (m : Exec B.State A) → Frame keeps_rows (on_billing {B = B} m)
  unfolding on_billing
  on_billing-KeepsRows m = record { at = λ w j a h. h }

module _ (E : Env) {B : Billing} where
  save_fields-OnlyRow :
      (change : PaymentAttempt → PaymentAttempt) (a : PaymentAttempt)
      → ((b : PaymentAttempt) → (change b).id ≡ b.id)
      → Frame (only_row a.id) (save_fields E {B = B} change a)
  unfolding save_fields now write
  save_fields-OnlyRow change a keep = record {
    at = λ w j e. find-modify a.id j _ w.attempts (λ b h. keep b ∙ h) ∙ rw e;
  }

  unless_taken-OnlyRow :
      (id : String) (test : PaymentAttempt → Bool) → Frame (only_row id) (unless_taken {B = B} test)
  unfolding unless_taken
  unless_taken-OnlyRow id test = record { at = λ w j e. refl }

  callback_url-OnlyRow : (id : String) → Frame (only_row id) (callback_url E {B = B})
  unfolding callback_url
  callback_url-OnlyRow id = search frame_rules

  open_session-OnlyRow :
      (id : String) (a : PaymentAttempt) (n : ℕ) (amount : ℤ) (mobile : String)
      → Frame (only_row id) (open_session E {B = B} a n amount mobile)
  unfolding open_session
  open_session-OnlyRow id a n amount mobile =
      search (frame_rules, callback_url-OnlyRow, posts-OnlyRow, request_payment-Frame)

  request_error-OnlyRow :
      (a : PaymentAttempt) (e : Exn) → Frame (only_row a.id) (request_error E {B = B} a e)
  unfolding request_error
  request_error-OnlyRow a (zibal message result) =
      Frame-bind _ _ (save_fields-OnlyRow (request_failed message result) a (λ b. refl))
        (λ b. Frame-raise gateway_unavailable)
  request_error-OnlyRow a (runtime c) = Frame-raise _
  request_error-OnlyRow a _ = Frame-raise _

  redirect_to-OnlyRow :
      (t : String) (a : PaymentAttempt) → Frame (only_row a.id) (redirect_to E {B = B} t a)
  unfolding redirect_to
  redirect_to-OnlyRow t a = Frame-bind _ _ (unless_taken-OnlyRow a.id (has_track t)) (λ u.
      save_fields-OnlyRow (λ a. record a { status = redirected; track_id = some t }) a (λ b. refl))

  enroll-OnlyRow :
      (n : ℕ) (amount : ℤ) (mobile : String) (a : PaymentAttempt)
      → Frame (only_row a.id) (enroll E {B = B} n amount mobile a)
  unfolding enroll
  enroll-OnlyRow n amount mobile a =
      search (frame_rules, open_session-OnlyRow, request_error-OnlyRow, redirect_to-OnlyRow)

  -- the new row has a key of its own, so the others are found behind it
  enrolled-KeepsRows :
      (n : ℕ) (amount : ℤ) (mobile : String) (row : PaymentAttempt) (w : World B) (time : ℕ)
      → find (has_id row.id) w.attempts ≡ none
      → KeepsRows w
          (enroll E n amount mobile row (record w { attempts = row ∷ w.attempts; clock = time })).1
  enrolled-KeepsRows n amount mobile row w time fresh j a h = elim (Bool-cases (row.id == j)) [
    | inl same ↦
        let e : row.id ≡ j = (eq_iff row.id j).0 same in
        absurd (cc (fresh, h, ap (λ k. find (has_id k) w.attempts) e))
    | inr other ↦
        (enroll-OnlyRow n amount mobile row).at
          (record w { attempts = row ∷ w.attempts; clock = time }) j other
        ∙ find-cons (has_id j) row w.attempts
        ∙ rw other h
  ]

  charge-KeepsRows :
      (user : User) (client n : ℕ) (amount : ℤ) (invoice : Invoice) (ip mobile : String)
      → Frame keeps_rows (charge E {B = B} user client n amount invoice ip mobile)
  unfolding charge create rows now write unless_taken
  charge-KeepsRows user client n amount invoice ip mobile = record {
    at = λ w j a h.
        let id = E.uuid4 w.attempts in
        let created = w.clock + E.elapsed w.clock in
        let updated = created + E.elapsed created in
        let row = new_attempt id user client n amount invoice ip created updated in
        elim (Option-cases (find (has_id id) w.attempts)) [
          | inl fresh ↦ rw fresh (enrolled-KeepsRows n amount mobile row w updated fresh j a h)
          | inr (b, taken) ↦ rw taken h
        ];
  }

  collect-KeepsRows :
      (user : User) (client n : ℕ) (ip mobile : String) (invoice : Invoice)
      → Frame keeps_rows (collect E {B = B} user client n ip mobile invoice)
  unfolding collect
  collect-KeepsRows user client n ip mobile invoice =
      search (frame_rules, posts-KeepsRows, gateway-Frame, charge-KeepsRows) depth 14

  -- Whatever becomes of it, `start` changes no row that was in the table before.
  pub start-KeepsRows :
      (user : User) (invoice_id : ℕ) (client_ip mobile : String)
      → Frame keeps_rows (start E {B = B} user invoice_id client_ip mobile)
  unfolding start
  start-KeepsRows user invoice_id client_ip mobile =
      search (frame_rules, on_billing-KeepsRows, collect-KeepsRows)
