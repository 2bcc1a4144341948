-- ===== src/Whmcs/Services/Support/Writes.antt =====
-- apps/whmcs/services/support.py: new tickets, replies and closing.
use whmcstemplate_bridge.Base.{
  pos, Outcome, returned, raised, Exec, pure, lift, ◌>>=◌, ◌>>◌, ℕ, zero, String, true, Option,
  none, some, List, [], ◌∷◌,
}
use whmcstemplate_bridge.Json.{Value, null, bool, int, str, Fields, end, field, get_or, set_field}
use whmcstemplate_bridge.Whmcs.Normalizers.{to_int, text, as_int, as_text}
use whmcstemplate_bridge.Whmcs.Attachments.{File, encode}
use whmcstemplate_bridge.Whmcs.Services.{Site, World, upstream, ask, invalidate_for}
use whmcstemplate_bridge.Whmcs.Services.Support.Reads.{get_ticket, get_ticket_fresh}

-- the arguments of `open_ticket` beside the customer's id
pub record TicketForm : Type 0 where
  pub department_id : ℕ
  pub subject : String
  pub message : String
  pub priority : String
  pub service_id : Option ℕ
  pub client_ip : String
  pub files : List File

with_service : Option ℕ → Fields → Fields
unfolding set_field
with_service none params = params
with_service (some zero) params = params
with_service (some id) params = set_field "serviceid" (int (pos id)) params

module _ (S : Site) where
  -- `if files: params["attachments"] = attachments.encode(files)`
  with_files : List File → Fields → Outcome Fields
  unfolding encode set_field
  with_files [] params = returned params
  with_files (f ∷ files) params = elim (encode S.rules (f ∷ files)) [
    | returned blob ↦ returned (set_field "attachments" (str blob) params)
    | raised e ↦ raised e
  ]

  ticket_params : (whmcs_client_id : ℕ) → TicketForm → Fields
  unfolding with_service
  ticket_params whmcs_client_id form = with_service form.service_id (
      field "clientid" (int (pos whmcs_client_id)) (
        field "deptid" (int (pos form.department_id)) (
          field "subject" (str form.subject) (
            field "message" (str form.message) (
              field "priority" (str form.priority)
                (field "markdown" (bool true) (field "clientip" (str form.client_ip) end)))))))

  unfoldable pub open_ticket : (whmcs_client_id : ℕ) → TicketForm → Exec World Fields
  unfolding ticket_params with_files ask invalidate_for to_int text get_or
  open_ticket whmcs_client_id form = do
    params ← lift (with_files form.files (ticket_params whmcs_client_id form))
    reply ← upstream (ask S "OpenTicket" params)
    invalidate_for whmcs_client_id ("tickets" ∷ [])
    pure (
        field "id" (as_int S.repr (get_or "id" null reply))
          (field "ticket_number" (as_text S.repr (get_or "tid" null reply)) end))

  -- behind the first read of the ticket
  unfoldable pub send_reply :
      (whmcs_client_id ticket_id : ℕ) → (message client_ip : String) → List File → Exec World Value
  unfolding with_files ask get_ticket_fresh
  send_reply whmcs_client_id ticket_id message client_ip files = do
    params ← lift (
        with_files files (
          field "ticketid" (int (pos ticket_id)) (
            field "clientid" (int (pos whmcs_client_id)) (
              field "message" (str message)
                (field "markdown" (bool true) (field "clientip" (str client_ip) end))))))
    upstream (ask S "AddTicketReply" params)
    get_ticket_fresh S whmcs_client_id ticket_id

  unfoldable pub reply_to_ticket :
      (whmcs_client_id ticket_id : ℕ) → (message client_ip : String) → List File → Exec World Value
  unfolding get_ticket send_reply
  reply_to_ticket whmcs_client_id ticket_id message client_ip files = do
    get_ticket S whmcs_client_id ticket_id
    send_reply whmcs_client_id ticket_id message client_ip files

  -- behind the first read of the ticket
  unfoldable pub send_close : (whmcs_client_id ticket_id : ℕ) → Exec World Value
  unfolding ask get_ticket_fresh
  send_close whmcs_client_id ticket_id = do
    upstream (
        ask S "UpdateTicket"
          (field "ticketid" (int (pos ticket_id)) (field "status" (str "Closed") end)))
    get_ticket_fresh S whmcs_client_id ticket_id

  unfoldable pub close_ticket : (whmcs_client_id ticket_id : ℕ) → Exec World Value
  unfolding get_ticket send_close
  close_ticket whmcs_client_id ticket_id = do
    get_ticket S whmcs_client_id ticket_id
    send_close whmcs_client_id ticket_id
