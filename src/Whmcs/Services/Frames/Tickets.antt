-- ===== src/Whmcs/Services/Frames/Tickets.antt =====
-- The support service calls actions of the allowlist only.
use whmcstemplate_bridge.Base.{Allowed, ℤ, Frame, frame_rules, ℕ, String, List}
use whmcstemplate_bridge.Json.{Value}
use whmcstemplate_bridge.Whmcs.Attachments.{File}
use whmcstemplate_bridge.Whmcs.Services.{World, Site}
use whmcstemplate_bridge.Whmcs.Services.Support
use whmcstemplate_bridge.Whmcs.Services.Isolation.{ticket}
use whmcstemplate_bridge.Whmcs.Services.Calls.{ask-Permitted}
use whmcstemplate_bridge.Whmcs.Services.Frames.{Keeps, asked, forget}
use whmcstemplate_bridge.Whmcs.Services.Frames.Reads.{read-Frame}

module _ (S : Site) {R : Allowed World} (K : Keeps S R) where
  pub open_ticket-Frame :
      (n : ℕ) (form : Support.TicketForm) → Frame R (Support.open_ticket S n form)
  unfolding Support.open_ticket
  open_ticket-Frame n form = search (frame_rules, ask-Permitted S, asked S K, forget S K)

  pub get_ticket_fresh-Frame : (n id : ℕ) → Frame R (Support.get_ticket_fresh S n id)
  unfolding Support.get_ticket_fresh
  get_ticket_fresh-Frame n id = search (frame_rules, K.invalidates, read-Frame S K (ticket id))

  pub reply_to_ticket-Frame :
      (n id : ℕ) (message ip : String) (files : List File)
      → Frame R (Support.reply_to_ticket S n id message ip files)
  unfolding Support.reply_to_ticket
  reply_to_ticket-Frame n id message ip files =
      search (
        frame_rules,
        ask-Permitted S,
        asked S K,
        read-Frame S K (ticket id),
        get_ticket_fresh-Frame,
      )

  pub close_ticket-Frame : (n id : ℕ) → Frame R (Support.close_ticket S n id)
  unfolding Support.close_ticket
  close_ticket-Frame n id =
      search (
        frame_rules,
        ask-Permitted S,
        asked S K,
        read-Frame S K (ticket id),
        get_ticket_fresh-Frame,
      )

  pub attachment_in-Frame :
      (kind : String) (related index : ℤ) (v : Value)
      → Frame R (Support.attachment_in S kind related index v)
  unfolding Support.attachment_in
  attachment_in-Frame kind related index v =
      search (frame_rules, ask-Permitted S, asked S K) depth 12

  pub get_attachment-Frame :
      (n id : ℕ) (kind : String) (related index : ℤ)
      → Frame R (Support.get_attachment S n id kind related index)
  unfolding Support.get_attachment
  get_attachment-Frame n id kind related index =
      search (frame_rules, read-Frame S K (ticket id), attachment_in-Frame)
