-- ===== src/Api/Endpoints/Requests/Support.antt =====
-- What the endpoints of apps/support/views.py do.
use whmcstemplate_bridge.Whmcs.Attachments.{File}
use whmcstemplate_bridge.Base.{
  ℤ, Outcome, returned, pure, ◌>>=◌, ℕ, String, refl, inl, inr, Option, List,
}
use whmcstemplate_bridge.Whmcs.Services.{Site, World}
use whmcstemplate_bridge.Whmcs.Services.Isolation.Requests
use whmcstemplate_bridge.Whmcs.Services.Isolation.Requests.{Request, sent, perform}
use whmcstemplate_bridge.Whmcs.Services.Support as SupportService
use whmcstemplate_bridge.Api.Scope.{Http, Framework, page}
use whmcstemplate_bridge.Api.Responses.{paginated, as_body, as_dict, or_none}
use whmcstemplate_bridge.Api.Support
use whmcstemplate_bridge.Api.Support.{NewTicket, form_of}
use whmcstemplate_bridge.Api.Endpoints
use whmcstemplate_bridge.Api.Endpoints.{Endpoint, serve}
use whmcstemplate_bridge.Api.Endpoints.Customer.{IsOneRequest}
use whmcstemplate_bridge.Api.Endpoints.Answers.{answered, served, sent-download}

module _ (F : Framework) (S : Site) (q : Http) where
  pub department_list-IsOneRequest :
      (w : World) → IsOneRequest F S q w (serve F S q Endpoints.department_list w)
  unfolding Support.department_list
  department_list-IsOneRequest w =
      answered F S q (returned tt) 200 as_body (λ d n. SupportService.list_departments S)
        (λ d n. Requests.list_departments) (λ d n w'. refl) (λ d n. inr refl) w

  pub ticket_list-IsOneRequest :
      (validated : Outcome (Option String))
      → (w : World) → IsOneRequest F S q w (serve F S q (Endpoints.ticket_list validated) w)
  unfolding Support.ticket_list
  ticket_list-IsOneRequest validated w =
      answered F S q validated 200 (paginated (page F q))
        (λ d n. SupportService.list_tickets S n (page F q) (or_none d))
        (λ d n. Requests.list_tickets n (page F q) (or_none d)) (λ d n w'. refl) (λ d n. inl refl) w

  pub ticket_create-IsOneRequest :
      (validated : Outcome NewTicket)
      → (w : World) → IsOneRequest F S q w (serve F S q (Endpoints.ticket_create validated) w)
  unfolding Support.ticket_create
  ticket_create-IsOneRequest validated w =
      answered F S q validated 201 as_dict (λ d n. SupportService.open_ticket S n (form_of F S q d))
        (λ d n. Requests.open_ticket n (form_of F S q d)) (λ d n w'. refl) (λ d n. inl refl) w

  pub ticket_detail-IsOneRequest :
      (ticket_id : ℕ)
      → (w : World) → IsOneRequest F S q w (serve F S q (Endpoints.ticket_detail ticket_id) w)
  unfolding Support.ticket_detail
  ticket_detail-IsOneRequest ticket_id w =
      answered F S q (returned tt) 200 as_body (λ d n. SupportService.get_ticket S n ticket_id)
        (λ d n. Requests.get_ticket n ticket_id) (λ d n w'. refl) (λ d n. inl refl) w

  pub ticket_delete-IsOneRequest :
      (ticket_id : ℕ)
      → (w : World) → IsOneRequest F S q w (serve F S q (Endpoints.ticket_delete ticket_id) w)
  unfolding Support.ticket_delete
  ticket_delete-IsOneRequest ticket_id w =
      answered F S q (returned tt) 200 as_body (λ d n. SupportService.close_ticket S n ticket_id)
        (λ d n. Requests.close_ticket n ticket_id) (λ d n w'. refl) (λ d n. inl refl) w

  pub ticket_reply-IsOneRequest :
      (validated : Outcome (String × List File)) (ticket_id : ℕ)
      → (w : World)
      → IsOneRequest F S q w (serve F S q (Endpoints.ticket_reply validated ticket_id) w)
  unfolding Support.ticket_reply
  ticket_reply-IsOneRequest validated ticket_id w =
      answered F S q validated 201 as_body
        (λ d n. SupportService.reply_to_ticket S n ticket_id d.0 q.client_ip d.1)
        (λ d n. Requests.reply_to_ticket n ticket_id d.0 q.client_ip d.1) (λ d n w'. refl)
        (λ d n. inl refl) w

  pub ticket_attachment-IsOneRequest :
      (validated : Outcome (String × ℤ × ℤ)) (ticket_id : ℕ)
      → (w : World)
      → IsOneRequest F S q w (serve F S q (Endpoints.ticket_attachment validated ticket_id) w)
  unfolding Support.ticket_attachment
  ticket_attachment-IsOneRequest validated ticket_id w =
      served F S q validated
        (λ d n. SupportService.get_attachment S n ticket_id d.0 d.1 d.2 >>= λ file.
          pure (Support.download F.escape_uri_path file))
        (λ d n. Requests.get_attachment n ticket_id d.0 d.1 d.2)
        (λ d n w'. sent-download F S q (SupportService.get_attachment S n ticket_id d.0 d.1 d.2) w')
        (λ d n. inl refl) w
