-- ===== src/Whmcs/Services/Tests/Office.antt =====
-- A WHMCS with a few records, for the tests.
use whmcstemplate_bridge.Base.{
  if◌then◌else◌, f_string, show, pos, validation_error, whmcs_transport, whmcs_api, Outcome,
  returned, raised, String, true, none, some, List, [], ◌∷◌, ◌==◌,
}
use whmcstemplate_bridge.Json.{
  Value, null, int, str, list, dict, Items, nil, cons, Fields, end, field, get_or,
}
use whmcstemplate_bridge.Whmcs.Services.{Call, Site, World}

abbrev shown : Value → String
shown (int (pos n)) = show n
shown (str s) = s
shown v = "?"

abbrev joined : List Value → String
joined [] = ""
joined (v ∷ parts) = f_string (shown v ∷ "/" ∷ joined parts ∷ [])

abbrev invoice_7 : Fields
invoice_7 =
    field "invoiceid" (int (pos 7)) (field "userid" (str "42") (field "total" (str "1,250.5") end))

abbrev ticket_5 : Fields
ticket_5 = field "ticketid" (int (pos 5)) (
    field "userid" (int (pos 42)) (
      field "replies"
        (dict (field "reply" (list (cons (dict (field "replyid" (int (pos 9)) end)) nil)) end))
        end))

abbrev one_dict : (collection item : String) → Items → Fields
one_dict collection item items = field collection (dict (field item (list items) end)) end

abbrev two_products : Items
two_products =
    cons (dict (field "pid" (int (pos 1)) (field "gid" (int (pos 1)) end)))
      (cons (dict (field "pid" (int (pos 2)) (field "gid" (int (pos 1)) end))) nil)

-- WHMCS with one invoice, one ticket and one service, of customer 42, whose password is `old`
abbrev pub replies : List Call → Outcome Fields
replies [] = raised (whmcs_transport "timeout")
replies (c ∷ calls) =
    if c.action == "GetInvoice"
    then returned invoice_7
    else if c.action == "GetTicket"
    then returned ticket_5
    else if c.action == "ValidateLogin"
    then (if shown (get_or "password2" null c.params) == "old"
        then returned (field "userid" (int (pos 42)) end)
        else raised (whmcs_api validation_error "Email or Password Invalid"))
    else if c.action == "GetTicketAttachment"
    then returned (field "filename" (str "a.txt") (field "data" (str "aGk=") end))
    else if c.action == "GetClientsProducts"
    then returned (
        one_dict "products" "product"
          (cons (dict (field "id" (int (pos 3)) (field "pid" (int (pos 1)) end))) nil))
    else if c.action == "GetProducts"
    then returned (one_dict "products" "product" two_products)
    else if c.action == "GetPaymentMethods"
    then returned (
        one_dict "paymentmethods" "paymentmethod"
          (cons (dict (field "module" (str "zibal") end)) nil))
    else returned end

abbrev pub office : Site
office = record {
  config = record {
    scheme = "https";
    host = "billing.example";
    port = none;
    base_path = "";
    api_path = "/includes/api.php";
    host_header = "";
    identifier = "id";
    secret = "s3cret";
    access_key = "";
    admin_username = "";
    admin_password = "";
    max_retries = 2;
  };
  rules = record {
    max_files = 5;
    max_bytes_each = 100;
    max_bytes_total = 200;
    configured_extensions = "txt" ∷ [];
    lower = λ s. s;
    is_printable = λ _. true;
    repr = λ _. "?";
    json_dumps = λ _. "";
    base64_text = λ s. s;
    base64_bytes = λ b. "aGk=";
  };
  repr = λ _. "?";
  lower = λ s. s;
  unescape = λ s. s;
  b64decode = λ _. some (104 ∷ 105 ∷ []);
  strftime = λ _. "2026-01-01 00:00:00";
  runtime = record { elapsed = λ _. 0; digest = joined; cache_ttl = λ _. some (pos 60) };
  answer = replies;
}

abbrev pub morning : World
morning = record { store = []; clock = 1000; refreshes = []; upstream = [] }
