-- ===== src/Whmcs/Services/Support.antt =====
-- apps/whmcs/services/support.py, without its log lines.
mod Reads
mod Download
mod Writes
unfoldable pub use Reads.{
  list_departments, tickets_params, fetch_tickets, list_tickets, owned_ticket, fetch_ticket,
  get_ticket, get_ticket_fresh, fetch_departments,
}
unfoldable pub use Download.{
  fetch_attachment, permitted_in, attachment_if, attachment_in, get_attachment,
}
pub use Download.{attachment_missing, is_among, ids_in, is_permitted}
unfoldable pub use Writes.{open_ticket, send_reply, reply_to_ticket, send_close, close_ticket}
pub use Writes.{TicketForm}
