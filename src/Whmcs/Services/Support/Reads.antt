-- ===== src/Whmcs/Services/Support/Reads.antt =====
-- apps/whmcs/services/support.py: the departments and the customer's tickets.
use whmcstemplate_bridge.Base.{
  if◌then◌else◌, is_text, or_text, pos, Outcome, returned, raised, Exec, pure, lift, ◌>>=◌, ◌>>◌, ℕ,
  String, List, [], ◌∷◌,
}
use whmcstemplate_bridge.Json.{
  Value, null, int, str, list, dict, Fields, end, field, get_or, set_field,
}
use whmcstemplate_bridge.Core.Cache.{invalidate, client_namespace}
use whmcstemplate_bridge.Core.Pagination.{PageRequest}
use whmcstemplate_bridge.Whmcs.Normalizers.{
  collection, to_int, text, as_int, as_text, Column, column, assert_owned,
}
use whmcstemplate_bridge.Whmcs.Services.{
  Call, Site, World, with_page, pick_each, ask, page_of, cached, cached_for,
}
use whmcstemplate_bridge.Whmcs.Services.Tickets.{ticket_map, ticket_of}

module _ (S : Site) where
  department_map : List Column
  unfolding to_int text
  department_map =
      column "id" "id" (as_int S.repr)
      ∷ column "name" "name" (as_text S.repr)
      ∷ column "awaiting_reply" "awaitingreply" (as_int S.repr)
      ∷ column "open_tickets" "opentickets" (as_int S.repr)
      ∷ []

  unfoldable pub fetch_departments : Exec (List Call) Value
  unfolding ask pick_each department_map collection
  fetch_departments = do
    reply ← ask S "GetSupportDepartments" end
    pure (list (pick_each department_map (collection reply "departments" "department")))

  unfoldable pub list_departments : Exec World Value
  unfolding cached fetch_departments
  list_departments =
      cached S "catalogue:departments" "catalogue" fetch_departments (str "list" ∷ [])

  unfoldable pub tickets_params : (whmcs_client_id : ℕ) → PageRequest → (status : String) → Fields
  unfolding set_field
  tickets_params whmcs_client_id page status =
      let params = with_page page (field "clientid" (int (pos whmcs_client_id)) end) in
      if is_text status then set_field "status" (str status) params else params

  unfoldable pub fetch_tickets :
      (whmcs_client_id : ℕ) → PageRequest → (status : String) → Exec (List Call) Value
  unfolding ask tickets_params page_of ticket_map collection
  fetch_tickets whmcs_client_id page status = do
    reply ← ask S "GetTickets" (tickets_params whmcs_client_id page status)
    pure (page_of S (ticket_map S) reply (collection reply "tickets" "ticket"))

  -- The empty status stands for none.
  unfoldable pub list_tickets :
      (whmcs_client_id : ℕ) → PageRequest → (status : String) → Exec World Value
  unfolding cached_for fetch_tickets
  list_tickets whmcs_client_id page status =
      cached_for S whmcs_client_id "tickets" "tickets" (fetch_tickets whmcs_client_id page status) (
        str "list"
        ∷ int (pos page.page)
        ∷ int (pos page.page_size)
        ∷ str (or_text status "all")
        ∷ [])

  -- the ticket, once it is the caller's
  unfoldable pub owned_ticket : (whmcs_client_id : ℕ) → (reply : Fields) → Outcome Value
  unfolding assert_owned ticket_of get_or
  owned_ticket whmcs_client_id reply =
      elim (assert_owned S.repr (get_or "userid" null reply) whmcs_client_id) [
        | returned _ ↦ returned (dict (ticket_of S reply))
        | raised e ↦ raised e
      ]

  unfoldable pub fetch_ticket : (whmcs_client_id ticket_id : ℕ) → Exec (List Call) Value
  unfolding ask owned_ticket
  fetch_ticket whmcs_client_id ticket_id = do
    reply ←
        ask S "GetTicket"
          (field "ticketid" (int (pos ticket_id)) (field "repliessort" (str "ASC") end))
    lift (owned_ticket whmcs_client_id reply)

  unfoldable pub get_ticket : (whmcs_client_id ticket_id : ℕ) → Exec World Value
  unfolding cached_for fetch_ticket
  get_ticket whmcs_client_id ticket_id =
      cached_for S whmcs_client_id "tickets" "tickets" (fetch_ticket whmcs_client_id ticket_id)
        (str "detail" ∷ int (pos ticket_id) ∷ [])

  -- `get_ticket` with `fresh=True`
  unfoldable pub get_ticket_fresh : (whmcs_client_id ticket_id : ℕ) → Exec World Value
  unfolding invalidate client_namespace get_ticket
  get_ticket_fresh whmcs_client_id ticket_id = do
    invalidate (client_namespace whmcs_client_id "tickets")
    get_ticket whmcs_client_id ticket_id
