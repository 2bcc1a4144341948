-- ===== src/Payments/Views/Redirects.antt =====
-- What the callback answers, and which rows a customer sees.
use text.Mathlib.Text.{starts_with}
use text.Mathlib.TextPositions.{starts_with-append}
use whmcstemplate_bridge.Base.{
  nat_eq, nat_eq→eq, Bool-cases, Option-cases, length, take, drop, length-take, All, f_string,
  if◌then◌else◌, contains, show, Exn, ap, ◌↔◌, prefix, is_text, rstrip, Outcome, returned, raised,
  pure, catch, continue, ℕ, zero, suc, ◌≤◌, String, ◌≡◌, refl, sym, ◌∙◌, ◌⊎◌, inl, inr, Bool, true,
  false, ◌&&◌, Option, none, some, List, [], ◌∷◌, arith, ◌==◌, eq_iff,
}
use whmcstemplate_bridge.Core.Pagination.{
  PageRequest, limit_start, limit_num, Page, paginated_response,
}
use whmcstemplate_bridge.Payments.Models.{
  PaymentStatus, recorded, PaymentAttempt, is_recorded, has_track, has_id, find,
}
use whmcstemplate_bridge.Payments.Models.Lookup.{find-passes}
use whmcstemplate_bridge.Payments.World.{Billing, World, Env}
use whmcstemplate_bridge.Payments.Table.{rows}
use whmcstemplate_bridge.Payments.Settle.{settle}
use whmcstemplate_bridge.Payments.Urls.{result_url, result_params, outcome_by_status}
use whmcstemplate_bridge.Payments.Views.{
  callback, redirect_after, redirect_pending, Serialized, serialize, serialize_all, owned_by,
  filter_rows, payment_status, payment_list,
}

-- the storefront's page, without the slashes at its end
abbrev pub result_base : Env → String
result_base E = rstrip (λ c. nat_eq c b'/') E.result_url

-- what the storefront is told beside the status: the invoice and the id of the attempt that is known
abbrev pub details : Option PaymentAttempt → List String
details none = []
details (some a) = "&" ∷ "invoice=" ∷ show a.invoice_id ∷ "&" ∷ "payment=" ∷ a.id ∷ []

-- The storefront's page with a status and the attempt, or "/" where no page is configured.
pub data Shows (E : Env) (outcome : String) (attempt : Option PaymentAttempt) (url : String)
    : Type 0 where
  no_page : is_text (result_base E) ≡ false → url ≡ "/" → Shows E outcome attempt url
  page :
      is_text (result_base E) ≡ true
      → url
        ≡ f_string (
            result_base E
            ∷ (if contains "?" (result_base E) then "&" else "?")
            ∷ f_string ("status=" ∷ outcome ∷ details attempt)
            ∷ [])
      → Shows E outcome attempt url

-- The three ways of the callback: without a payment, after `settle` has returned its row, and after
-- `settle` has raised, where the row is read again.
pub data IsRedirect (E : Env) {B : Billing} (track_id : String) (w : World B)
    (r : Outcome String × World B) : Type 0 where
  invalid :
      (url : String)
      → is_text track_id ≡ false
      → Shows E "invalid" none url
      → r ≡ (returned url, w)
      → IsRedirect E track_id w r
  settled :
      (a : PaymentAttempt) (outcome url : String)
      → (settle E track_id w).0 ≡ returned a
      → (outcome ≡ "success") ↔ (a.status ≡ recorded)
      → Shows E outcome (some a) url
      → r ≡ (returned url, (settle E track_id w).1)
      → IsRedirect E track_id w r
  pending :
      (e : Exn) (url : String)
      → (settle E track_id w).0 ≡ raised e
      → Shows E "pending" (find (has_track track_id) (settle E track_id w).1.attempts) url
      → r ≡ (returned url, (settle E track_id w).1)
      → IsRedirect E track_id w r

outcome-success_test : (s : PaymentStatus) → (outcome_by_status s == "success") ≡ is_recorded s
unfolding outcome_by_status
outcome-success_test recorded = refl
outcome-success_test _ = refl

eq_of_is_recorded : (s : PaymentStatus) → is_recorded s ≡ true → s ≡ recorded
eq_of_is_recorded recorded h = refl
eq_of_is_recorded _ h = cc

outcome-success : (s : PaymentStatus) → outcome_by_status s ≡ "success" → s ≡ recorded
outcome-success s h =
    eq_of_is_recorded s
      (sym (outcome-success_test s) ∙ (eq_iff (outcome_by_status s) "success").1 h)

recorded-success : (s : PaymentStatus) → s ≡ recorded → outcome_by_status s ≡ "success"
unfolding outcome_by_status
recorded-success s h = ap outcome_by_status h

result_url-Shows :
    (E : Env) (outcome : String) (attempt : Option PaymentAttempt)
    → Shows E outcome attempt (result_url E attempt outcome)
unfolding result_url result_params
result_url-Shows E outcome attempt = elim (Bool-cases (is_text (result_base E))) [
  | inr blank ↦ no_page blank (rw blank refl)
  | inl base ↦ page base (
      rw base (
        ap
          (λ (q : String).
            f_string (result_base E ∷ (if contains "?" (result_base E) then "&" else "?") ∷ q ∷ []))
          (params attempt)))
]
  where
    params :
        (attempt : Option PaymentAttempt)
        → result_params attempt outcome ≡ f_string ("status=" ∷ outcome ∷ details attempt)
    params none = refl
    params (some a) = refl

module _ (E : Env) {B : Billing} where
  settled-IsRedirect :
      (track_id : String) (w : World B) (o : Outcome PaymentAttempt)
      → (settle E track_id w).0 ≡ o
      → IsRedirect E track_id w (
          catch
            (λ _. continue (λ a. pure (redirect_after E a)) o (settle E track_id w).1)
            (λ _. redirect_pending E track_id)
            w)
  unfolding redirect_after redirect_pending
  settled-IsRedirect track_id w (returned a) is =
      settled a (outcome_by_status a.status) _ is
        (outcome-success a.status, recorded-success a.status)
        (result_url-Shows E (outcome_by_status a.status) (some a)) refl
  settled-IsRedirect track_id w (raised e) is = pending e _ is (result_url-Shows E "pending" _) refl

  -- The callback never raises: it redirects to the storefront, or to "/" where no page is configured.
  -- Without a payment it says "invalid" and changes nothing. Else it does what `settle` does of the
  -- first 64 characters: where that returns a row, it names the row and says "success" exactly if the
  -- row is RECORDED; where it raises, it says "pending" of the row as it then stands.
  pub callback-IsRedirect :
      (track_param : String) (w : World B)
      → IsRedirect E (prefix 64 track_param) w (callback E track_param w)
  unfolding callback
  callback-IsRedirect track_param w = elim (Bool-cases (is_text (prefix 64 track_param))) [
    | inl known ↦
        rw known
          (settled-IsRedirect (prefix 64 track_param) w (settle E (prefix 64 track_param) w).0 refl)
    | inr blank ↦ rw blank (invalid _ blank (result_url-Shows E "invalid" none) refl)
  ]

-- A redirect begins with the configured page of the storefront, or is "/" where none is configured.
pub result_url-base :
    (E : Env) (attempt : Option PaymentAttempt) (outcome : String)
    → ((is_text (result_base E) ≡ false) × (result_url E attempt outcome ≡ "/"))
      ⊎ (starts_with (result_url E attempt outcome) (result_base E) ≡ true)
unfolding result_url f_string
result_url-base E attempt outcome = elim (Bool-cases (is_text (result_base E))) [
  | inl base ↦ inr (rw base (starts_with-append (result_base E) _))
  | inr blank ↦ inl (blank, rw blank refl)
]

filter_rows-All :
    (P : PaymentAttempt → Type 0) (test : PaymentAttempt → Bool) (rows : List PaymentAttempt)
    → ((a : PaymentAttempt) → test a ≡ true → P a)
    → All P (filter_rows test rows)
unfolding filter_rows
filter_rows-All P test [] h = tt
filter_rows-All P test (a ∷ rows) h = elim (Bool-cases (test a)) [
  | inl e ↦ rw e (h a e, filter_rows-All P test rows h)
  | inr e ↦ rw e (filter_rows-All P test rows h)
]

All-drop :
    (P : PaymentAttempt → Type 0) (n : ℕ) (table : List PaymentAttempt)
    → All P table
    → All P (drop n table)
All-drop P zero table h = h
All-drop P (suc n) [] h = tt
All-drop P (suc n) (a ∷ table) h = All-drop P n table h.1

All-take :
    (P : PaymentAttempt → Type 0) (n : ℕ) (table : List PaymentAttempt)
    → All P table
    → All P (take n table)
All-take P zero table h = tt
All-take P (suc n) [] h = tt
All-take P (suc n) (a ∷ table) h = (h.0, All-take P n table h.1)

-- what a page of payments shows
pub record IsOwnPage {B : Billing} (client : ℕ) (r : PageRequest) (w : World B)
    (answer : Outcome (Page Serialized) × World B) : Type 0 where
  pub shown : List PaymentAttempt
  pub page : Page Serialized
  pub answered : answer ≡ (returned page, w)
  pub results : page.results ≡ serialize_all shown
  pub own : All (λ a. a.whmcs_client_id ≡ client) shown
  pub bounded : length shown ≤ r.page_size
  pub total : page.count ≡ length (filter_rows (owned_by client) w.attempts)

module _ {B : Billing} where
  -- A page of payments holds at most `page_size` rows, all of them the customer's own, and counts all
  -- of these; the listing changes nothing.
  pub payment_list-IsOwnPage :
      (client : ℕ) (r : PageRequest) (w : World B) → IsOwnPage client r w (payment_list client r w)
  unfolding payment_list limit_num paginated_response
  payment_list-IsOwnPage client r w =
      let own = filter_rows (owned_by client) w.attempts in
      let window = take r.page_size (drop (limit_start r) own) in
      record {
        shown = window;
        page = paginated_response (serialize_all window) (length own) r;
        answered = refl;
        results = refl;
        own =
            All-take (λ a. a.whmcs_client_id ≡ client) r.page_size (drop (limit_start r) own)
              (All-drop (λ a. a.whmcs_client_id ≡ client) (limit_start r) own
                (filter_rows-All (λ a. a.whmcs_client_id ≡ client) (owned_by client) w.attempts
                  (λ a h. nat_eq→eq a.whmcs_client_id client h)));
        bounded = length-take r.page_size (drop (limit_start r) own);
        total = refl;
      }

  -- What a customer is shown under an id is a row with that id, of their own, as it stands.
  pub payment_status-found :
      (client : ℕ) (id : String) (w : World B) (s : Serialized)
      → (payment_status client id w).0 ≡ returned s
      → (a : PaymentAttempt) × (a.id ≡ id) × (a.whmcs_client_id ≡ client) × (s ≡ serialize a)
  unfolding payment_status
  payment_status-found client id w s h =
      elim (Option-cases (find (λ a. has_id id a && owned_by client a) w.attempts)) [
        | inl missing ↦ absurd (cc (rw missing at h))
        | inr (a, listed) ↦
            let passes = find-passes (λ a. has_id id a && owned_by client a) w.attempts a listed in
            (a, (eq_iff a.id id).0 (ground arith), ground arith, sym (cc (rw listed at h)))
      ]
