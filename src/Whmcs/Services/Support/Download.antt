-- ===== src/Whmcs/Services/Support/Download.antt =====
-- apps/whmcs/services/support.py: a stored attachment.
use whmcstemplate_bridge.Base.{
  if◌then◌else◌, one_of, ℤ, pos, int_eq, resource_not_found, Exn, application, runtime, Outcome,
  returned, raised, Exec, pure, raise, lift, ◌>>=◌, ℕ, String, Bool, false, not, ◌&&◌, ◌||◌, List,
  [], ◌∷◌, ◌==◌,
}
use whmcstemplate_bridge.Json.{Value, null, int, str, list, Items, nil, cons, end, field, get_or}
use whmcstemplate_bridge.Whmcs.Normalizers.{to_int, text}
use whmcstemplate_bridge.Whmcs.Attachments.{safe_filename, decode}
use whmcstemplate_bridge.Whmcs.Services.{Site, World, upstream, subscript, ask}
use whmcstemplate_bridge.Whmcs.Services.Support.Reads.{get_ticket}

abbrev pub attachment_missing : Exn
attachment_missing = application resource_not_found "not_found" "Attachment not found." []

-- `number in numbers`
abbrev pub is_among : ℤ → List ℤ → Bool
is_among n [] = false
is_among n (m ∷ numbers) = int_eq n m || is_among n numbers

module _ (S : Site) where
  -- `to_int(reply["id"]) for reply in …`
  reply_ids : Items → Outcome (List ℤ)
  unfolding subscript to_int
  reply_ids nil = returned []
  reply_ids (cons reply replies) =
      let rest = reply_ids replies in
      elim (subscript "id" reply) [
        | returned v ↦ elim rest [
          | returned ids ↦ returned (to_int S.repr v (pos 0) ∷ ids)
          | raised e ↦ raised e
        ]
        | raised e ↦ raised e
      ]

  pub ids_in : Value → Outcome (List ℤ)
  unfolding reply_ids
  ids_in (list replies) = reply_ids replies
  ids_in _ = raised (runtime "TypeError")

  -- `(kind, related_id) in permitted`
  abbrev pub is_permitted : (kind : String) → (related_id : ℤ) → Value → List ℤ → Bool
  is_permitted kind related_id ticket_id ids =
      (kind == "ticket" && int_eq related_id (to_int S.repr ticket_id (pos 0)))
      || (kind == "reply" && is_among related_id ids)

  -- from GetTicketAttachment on
  unfoldable pub fetch_attachment :
      (kind : String) → (related_id index : ℤ) → Exec World (String × List ℕ)
  unfolding ask safe_filename decode text get_or
  fetch_attachment kind related_id index = do
    reply ← upstream (
        ask S "GetTicketAttachment" (
          field "relatedid" (int related_id)
            (field "type" (str kind) (field "index" (int index) end))))
    content ← lift (decode S.b64decode (text S.repr (get_or "data" null reply)))
    pure (safe_filename S.rules.is_printable (text S.repr (get_or "filename" null reply)), content)

  -- whether the pair is permitted, by the ticket
  unfoldable pub permitted_in : (kind : String) → (related_id : ℤ) → (ticket : Value) → Outcome Bool
  unfolding subscript ids_in to_int
  permitted_in kind related_id ticket = elim (subscript "id" ticket) [
    | raised e ↦ raised e
    | returned ticket_id ↦ elim (subscript "replies" ticket) [
      | raised e ↦ raised e
      | returned replies ↦ elim (ids_in replies) [
        | raised e ↦ raised e
        | returned ids ↦ returned (is_permitted kind related_id ticket_id ids)
      ]
    ]
  ]

  unfoldable pub attachment_if :
      (kind : String) → (related_id index : ℤ) → (permitted : Bool) → Exec World (String × List ℕ)
  unfolding fetch_attachment
  attachment_if kind related_id index permitted =
      if permitted then fetch_attachment kind related_id index else raise attachment_missing

  -- behind the read of the ticket
  unfoldable pub attachment_in :
      (kind : String) → (related_id index : ℤ) → (ticket : Value) → Exec World (String × List ℕ)
  unfolding permitted_in attachment_if
  attachment_in kind related_id index ticket = do
    permitted ← lift (permitted_in kind related_id ticket)
    attachment_if kind related_id index permitted

  -- Fetch one stored attachment as its file name and its bytes.
  unfoldable pub get_attachment :
      (whmcs_client_id ticket_id : ℕ)
      → (kind : String) → (related_id index : ℤ) → Exec World (String × List ℕ)
  unfolding get_ticket attachment_in
  get_attachment whmcs_client_id ticket_id kind related_id index =
      if not (one_of kind ("ticket" ∷ "reply" ∷ [])) then raise attachment_missing else do
        ticket ← get_ticket S whmcs_client_id ticket_id
        attachment_in kind related_id index ticket
