-- ===== src/Api/Support.antt =====
-- apps/support/views.py. `validated` is what a serializer makes of the request, its uploads read.
use whmcstemplate_bridge.Base.{
  f_string, ℤ, Outcome, Exec, pure, lift, ◌>>=◌, ℕ, String, Option, List, [], ◌∷◌,
}
use whmcstemplate_bridge.Whmcs.Services.{Site, World}
use whmcstemplate_bridge.Api.Scope.{Http, Framework, page, for_client}
use whmcstemplate_bridge.Api.Responses.{Response, paginated, as_body, as_dict, or_none, respond}
use whmcstemplate_bridge.Whmcs.Attachments.{File}
use whmcstemplate_bridge.Whmcs.Services.Support
use whmcstemplate_bridge.Whmcs.Services.Support.{TicketForm}

-- `validated_data` of a new ticket
pub record NewTicket : Type 0 where
  pub department_id : ℕ
  pub subject : String
  pub message : String
  pub priority : String
  pub service_id : Option ℕ
  pub attachments : List File

-- a download: never rendered inline
pub record Download : Type 0 where
  pub content : List ℕ
  pub content_type : String
  pub headers : List (String × String)

-- `escape` is Django's `escape_uri_path`.
pub download : (escape : String → String) → String × List ℕ → Download
unfolding f_string
download escape (filename, content) = record {
  content = content;
  content_type = "application/octet-stream";
  headers =
      ("Content-Disposition", f_string ("attachment; filename=\"" ∷ escape filename ∷ "\"" ∷ []))
      ∷ ("X-Content-Type-Options", "nosniff")
      ∷ ("Content-Security-Policy", "default-src 'none'; sandbox")
      ∷ [];
}

module _ (F : Framework) (S : Site) (q : Http) where
  -- `DepartmentListView.get`
  unfoldable pub department_list : Exec World Response
  unfolding for_client respond Support.list_departments
  department_list = for_client F q (λ client. respond 200 as_body (Support.list_departments S))

  -- `TicketListCreateView.get`
  unfoldable pub ticket_list : (validated : Outcome (Option String)) → Exec World Response
  unfolding for_client page respond paginated Support.list_tickets
  ticket_list validated = for_client F q (λ client. do
    status ← lift validated
    respond 200 (paginated (page F q)) (Support.list_tickets S client (page F q) (or_none status)))

  abbrev pub form_of : NewTicket → TicketForm
  form_of ticket = record {
    department_id = ticket.department_id;
    subject = ticket.subject;
    message = ticket.message;
    priority = ticket.priority;
    service_id = ticket.service_id;
    client_ip = q.client_ip;
    files = ticket.attachments;
  }

  -- `TicketListCreateView.post`
  unfoldable pub ticket_create : (validated : Outcome NewTicket) → Exec World Response
  unfolding for_client respond Support.open_ticket
  ticket_create validated = for_client F q (λ client. do
    ticket ← lift validated
    respond 201 as_dict (Support.open_ticket S client (form_of ticket)))

  -- `TicketDetailView.get`
  unfoldable pub ticket_detail : (ticket_id : ℕ) → Exec World Response
  unfolding for_client respond Support.get_ticket
  ticket_detail ticket_id =
      for_client F q (λ client. respond 200 as_body (Support.get_ticket S client ticket_id))

  -- `TicketDetailView.delete`: it is closed
  unfoldable pub ticket_delete : (ticket_id : ℕ) → Exec World Response
  unfolding for_client respond Support.close_ticket
  ticket_delete ticket_id =
      for_client F q (λ client. respond 200 as_body (Support.close_ticket S client ticket_id))

  -- `TicketReplyView.post`
  unfoldable pub ticket_reply :
      (validated : Outcome (String × List File)) → (ticket_id : ℕ) → Exec World Response
  unfolding for_client respond Support.reply_to_ticket
  ticket_reply validated ticket_id = for_client F q (λ client. do
    checked ← lift validated
    respond 201 as_body
        (Support.reply_to_ticket S client ticket_id checked.0 q.client_ip checked.1))

  -- `TicketAttachmentView.get`
  unfoldable pub ticket_attachment :
      (validated : Outcome (String × ℤ × ℤ)) → (ticket_id : ℕ) → Exec World Download
  unfolding for_client download Support.get_attachment
  ticket_attachment validated ticket_id = for_client F q (λ client. do
    (kind, related_id, index) ← lift validated
    file ← Support.get_attachment S client ticket_id kind related_id index
    pure (download F.escape_uri_path file))
