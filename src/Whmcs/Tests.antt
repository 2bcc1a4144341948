-- ===== src/Whmcs/Tests.antt =====
-- The WHMCS boundary on concrete data: a network that fails once and then answers.
use whmcstemplate_bridge.Base.{
  leb, f_string, show, pos, returned, ◌≡◌, refl, false, ◌&&◌, none, some, List, [], ◌∷◌,
}
use whmcstemplate_bridge.Json.{
  null, int, str, list, dict, nil, cons, Fields, end, field, get_or, str_of,
}
use whmcstemplate_bridge.Whmcs.Form.{Form, put, lookup}
use whmcstemplate_bridge.Whmcs.Form.Laws.{latest}
use whmcstemplate_bridge.Whmcs.Flatten.{flatten}
use whmcstemplate_bridge.Whmcs.Flatten.Leaves.{Leaf, in_value, later, entry, scalar}
use whmcstemplate_bridge.Whmcs.Config.{WhmcsSettings, credentials}
use whmcstemplate_bridge.Whmcs.Transport.{
  Response, Answer, transport_error, answered, Wire, Net, is_idempotent, parse, body_of, outcome_of,
  request,
}
use whmcstemplate_bridge.Whmcs.Transport.Retries.{after_posts, IsEnded, request-IsEnded}
use whmcstemplate_bridge.Whmcs.Transport.Bodies.{body-own_fields}
use whmcstemplate_bridge.Whmcs.Transport.Replies.{IsRead, parse-IsRead}
use whmcstemplate_bridge.Whmcs.Normalizers.{assert_owned}
use whmcstemplate_bridge.Whmcs.Attachments.{Rules, File, safe_filename, total_bytes, encode}
use whmcstemplate_bridge.Whmcs.Attachments.Accepted.{returns, all_fit, returns-encode}

abbrev settings : WhmcsSettings
settings = record {
  scheme = "https";
  host = "billing.example";
  port = none;
  base_path = "";
  api_path = "/includes/api.php";
  host_header = "";
  identifier = "id";
  secret = "s3cret";
  access_key = "key";
  admin_username = "";
  admin_password = "";
  max_retries = 2;
}

abbrev success : Fields
success = field "result" (str "success") end

abbrev ok : Response
ok = record { status_code = 200; text = "{}"; json = some (dict success) }

abbrev second_answers : List Form → Answer
second_answers [] = transport_error "ConnectError"
second_answers (body ∷ []) = transport_error "ConnectError"
second_answers (body ∷ before ∷ bodies) = answered ok

abbrev wire : Wire
wire = record {
  config = settings;
  md5 = λ s. s;
  lower = λ s. s;
  repr = λ _. "?";
  post = second_answers;
}

abbrev dead : Wire
dead = record wire { post = λ _. transport_error "ConnectError" }

abbrev quiet : Net
quiet = record { requests = []; pauses = [] }

abbrev cart : Fields
cart =
    field "clientid" (int (pos 42))
      (field "pid" (list (cons (int (pos 5)) (cons (int (pos 6)) nil))) (field "note" null end))

flatten_test :
    flatten wire.repr cart "" ≡ (("clientid", "42") ∷ ("pid[0]", "5") ∷ ("pid[1]", "6") ∷ [])
unfolding flatten put str_of
flatten_test = refl

pid-Leaf : Leaf wire.repr "" cart "pid[0]" "5"
unfolding str_of f_string show
pid-Leaf = later (in_value (entry (scalar refl)))

abbrev creds : Form
creds = ("identifier", "id") ∷ ("secret", "s3cret") ∷ ("accesskey", "key") ∷ []

-- a caller's `secret` does not get through
abbrev forged : Fields
forged = field "secret" (str "other") end

abbrev forged_body : Form
forged_body =
    ("secret", "s3cret")
    ∷ ("action", "GetClients")
    ∷ ("responsetype", "json")
    ∷ ("identifier", "id")
    ∷ ("accesskey", "key")
    ∷ []

body-forged : body_of wire "GetClients" forged ≡ returned forged_body
unfolding body_of str_of
body-forged = refl

body-own_fields_example : lookup "secret" forged_body ≡ some "s3cret"
unfolding credentials latest
body-own_fields_example =
    body-own_fields wire "GetClients" forged creds forged_body "secret" "s3cret" refl body-forged
      refl

request-IsEnded_example :
    IsEnded wire "GetClients" forged quiet (request wire "GetClients" forged quiet)
request-IsEnded_example = request-IsEnded wire "GetClients" forged quiet

-- The first attempt fails in transport, and the second is the reply.
request_second :
    request wire "GetClients" forged quiet
    ≡ (returned success, after_posts wire 2 1 0 forged_body quiet)
unfolding request str_of outcome_of get_or is_idempotent
request_second = refl

-- An order is posted once only.
request_once :
    (request dead "AddOrder" forged quiet).1
    ≡ after_posts dead 1 0 0 (put "action" "AddOrder" forged_body) quiet
unfolding request str_of outcome_of is_idempotent put
request_once = refl

parse-IsRead_example : IsRead ok (parse wire ok "GetClients")
parse-IsRead_example = parse-IsRead wire ok "GetClients"

-- The prefix "Domain Whois" has a space that the action's name has not.
whois_test : is_idempotent "DomainWhois" ≡ false
unfolding is_idempotent
whois_test = refl

own-record : assert_owned wire.repr (str " 42 ") 42 ≡ returned tt
unfolding assert_owned
own-record = refl

abbrev rules : Rules
rules = record {
  max_files = 5;
  max_bytes_each = 100;
  max_bytes_total = 150;
  configured_extensions = [];
  lower = λ s. s;
  is_printable = λ c. leb 32 c;
  repr = λ _. "?";
  json_dumps = λ _. "json";
  base64_bytes = λ _. "bytes";
  base64_text = λ s. s;
}

abbrev batch : List File
batch =
    record { name = "../../a.pdf"; content = 1 ∷ 2 ∷ [] }
    ∷ record { name = "x.php"; content = 1 ∷ [] }
    ∷ []

safe_filename_tests :
    (safe_filename rules.is_printable "../../etc/passwd" ≡ "passwd")
    × (safe_filename rules.is_printable "C:\\x\\..a?b.pdf" ≡ "ab.pdf")
    × (safe_filename rules.is_printable "..." ≡ "attachment")
unfolding safe_filename
safe_filename_tests = (refl, refl, refl)

returns-encode_example :
    returns (encode rules batch)
    ≡ (leb 2 5 && (leb (total_bytes rules batch) 150 && all_fit rules batch))
returns-encode_example = returns-encode rules batch
