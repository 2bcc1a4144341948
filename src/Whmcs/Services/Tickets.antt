-- ===== src/Whmcs/Services/Tickets.antt =====
-- The ticket and its replies as apps/whmcs/services/support.py returns them.
use whmcstemplate_bridge.Base.{if◌then◌else◌, is_text, pos, ℕ, suc, String, List, [], ◌∷◌}
use whmcstemplate_bridge.Json.{
  Value, null, int, str, list, dict, Items, nil, cons, Fields, end, field, get_or, set_field,
  truthy, or_value,
}
use whmcstemplate_bridge.Core.Http.{split_commas, stripped}
use whmcstemplate_bridge.Whmcs.Dates.{dates}
use whmcstemplate_bridge.Whmcs.Normalizers.{
  collection, to_int, text, as_int, as_text, Column, column, pick,
}
use whmcstemplate_bridge.Whmcs.Attachments.{safe_filename}
use whmcstemplate_bridge.Whmcs.Services.{Site}

module _ (S : Site) where
  unfoldable pub ticket_map : List Column
  unfolding to_int text
  ticket_map =
      column "id" "id" (as_int S.repr)
      ∷ column "ticket_number" "tid" (as_text S.repr)
      ∷ column "department" "deptname" (as_text S.repr)
      ∷ column "department_id" "deptid" (as_int S.repr)
      ∷ column "subject" "subject" (as_text S.repr)
      ∷ column "status" "status" (as_text S.repr)
      ∷ column "priority" "priority" (as_text S.repr)
      ∷ column "created_at" "date" (dates S.repr).iso
      ∷ column "updated_at" "lastreply" (dates S.repr).iso
      ∷ column "service" "service" (as_text S.repr)
      ∷ []

  author_type : Value → Value
  unfolding text
  author_type v = str (if is_text (text S.repr v) then "staff" else "client")

  reply_map : List Column
  unfolding to_int text author_type
  reply_map =
      column "id" "replyid" (as_int S.repr)
      ∷ column "author" "name" (as_text S.repr)
      ∷ column "author_type" "admin" author_type
      ∷ column "message" "message" (as_text S.repr)
      ∷ column "created_at" "date" (dates S.repr).iso
      ∷ []

  -- `text(item.get("filename") if isinstance(item, dict) else item)`
  entry_name : Value → String
  unfolding text get_or
  entry_name (dict item) = text S.repr (get_or "filename" null item)
  entry_name item = text S.repr item

  entry_names : Items → List String
  unfolding entry_name
  entry_names nil = []
  entry_names (cons item items) = entry_name item ∷ entry_names items

  entries_of : Value → Items
  entries_of (list items) = items
  entries_of inner = cons inner nil

  comma_names : Value → List String
  unfolding truthy text stripped split_commas
  comma_names v = if truthy v then stripped (split_commas (text S.repr v)) else []

  -- the names, by the shape of `attachments`, or else by `attachment`
  attachment_names : (raw : Fields) → (listed : Value) → List String
  unfolding entry_names entries_of comma_names get_or
  attachment_names raw (list items) = entry_names items
  attachment_names raw (dict listed) =
      entry_names (entries_of (get_or "attachment" (list nil) listed))
  attachment_names raw _ = comma_names (get_or "attachment" null raw)

  numbered : (kind : String) → (related_id : Value) → (index : ℕ) → List String → Items
  unfolding safe_filename to_int
  numbered kind related_id index [] = nil
  numbered kind related_id index (name ∷ names) =
      let rest = numbered kind related_id (suc index) names in
      if is_text name
      then cons
          (dict (
            field "index" (int (pos index)) (
              field "filename" (str (safe_filename S.rules.is_printable name))
                (field "type" (str kind) (field "related_id" (as_int S.repr related_id) end)))))
          rest
      else rest

  -- `_attachment_list`
  unfoldable pub attachment_list : (raw : Fields) → (kind : String) → (related_id : Value) → Value
  unfolding numbered attachment_names get_or
  attachment_list raw kind related_id =
      list (numbered kind related_id 0 (attachment_names raw (get_or "attachments" null raw)))

  reply_of : Fields → Fields
  unfolding pick reply_map set_field attachment_list get_or
  reply_of raw =
      let reply = pick raw reply_map in
      set_field "attachments" (attachment_list raw "reply" (get_or "id" null reply)) reply

  replies_of : List Fields → Items
  unfolding reply_of
  replies_of [] = nil
  replies_of (raw ∷ rows) = cons (dict (reply_of raw)) (replies_of rows)

  -- what `_fetch_ticket` makes of the reply
  unfoldable pub ticket_of : Fields → Fields
  unfolding pick ticket_map set_field attachment_list replies_of collection get_or truthy
  ticket_of reply =
      let id = or_value (get_or "id" null reply) (get_or "ticketid" null reply) in
      let ticket = pick (set_field "id" id reply) ticket_map in
      set_field "replies" (list (replies_of (collection reply "replies" "reply")))
        (set_field "attachments" (attachment_list reply "ticket" (get_or "id" null ticket)) ticket)
