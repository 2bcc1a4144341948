-- ===== src/Orders/Tests.antt =====
-- The orders on concrete data: a shop whose order service counts its calls.
use whmcstemplate_bridge.Base.{
  if◌then◌else◌, ◌==◌, leb, pos, Exn, whmcs_transport, returned, raised, Exec, ℕ, suc, String, ◌≡◌,
  refl, ◌⊎◌, false, ◌&&◌, none, some, [], ◌∷◌,
}
use whmcstemplate_bridge.Json.{Value, str, dict, end, field}
use whmcstemplate_bridge.Core.Cells.{Cache, live, put_cell}
use whmcstemplate_bridge.Orders.Idempotency.{idempotency_key, post_order}
use whmcstemplate_bridge.Orders.Idempotency.Replays.{
  with_lock, with_result, at_time, IsPosted, post_order-IsPosted,
}
use whmcstemplate_bridge.Orders.Basket.{
  Product, DomainLine, product, domain_line, base64_serialize, index_lines,
}
use whmcstemplate_bridge.Orders.Basket.Aligned.{at_field, of_line, index_lines-aligned}
use whmcstemplate_bridge.Orders.Placement.{
  Services, Setup, Basket, order_params, add_order, create_order,
}
use whmcstemplate_bridge.Whmcs.Normalizers.{Dates}
use whmcstemplate_bridge.Orders.Withdrawal.{withdraw, cancel_order}
use whmcstemplate_bridge.Orders.Withdrawal.Pending.{IsPending, cancel_order-IsPending}
use whmcstemplate_bridge.Orders.Placement.Prices.{NamesPass, order_params-NamesPass}
use whmcstemplate_bridge.Orders.Placement.Guards.{IsOrderable, create_order-IsOrderable}

abbrev buy : Exec (Cache Value ℕ) Value
buy w = (returned (str "order 7"), record w { upstream = suc w.upstream })

abbrev lost : Exec (Cache Value ℕ) Value
lost w = (raised (whmcs_transport "timeout"), record w { upstream = suc w.upstream })

abbrev opened : Cache Value ℕ
opened = record { store = []; clock = 1000; refreshes = []; upstream = 0 }

abbrev basket : String
basket = "idem:order:42:abc"

idempotency_key_tests :
    (idempotency_key (λ c. leb 97 c && leb c 122) 42 " a/b:c " ≡ some "idem:order:42:abc")
    × (idempotency_key (λ c. leb 97 c && leb c 122) 42 " // " ≡ none)
unfolding idempotency_key
idempotency_key_tests = (refl, refl)

post_order-IsPosted_example : IsPosted basket buy opened (post_order (some basket) buy opened)
post_order-IsPosted_example = post_order-IsPosted basket buy opened

abbrev bought : Cache Value ℕ
bought = with_result basket (str "order 7") (record (with_lock basket opened) { upstream = 1 })

first_order :
    post_order (some basket) buy opened
    ≡ (returned (record { status = 201; body = str "order 7" }), bought)
unfolding post_order live put_cell
first_order = refl

-- After 120 seconds an order is placed again, though the outcome of the first is still unknown.
held_no_longer :
    (post_order (some basket) buy (at_time 1200 (post_order (some basket) lost opened).1)).0
    ≡ returned (record { status = 201; body = str "order 7" })
unfolding post_order live put_cell
held_no_longer = refl

abbrev setup : Setup
setup = record {
  config = record {
    scheme = "https";
    host = "billing.example";
    port = none;
    base_path = "";
    api_path = "/includes/api.php";
    host_header = "";
    identifier = "id";
    secret = "s3cret";
    access_key = "";
    admin_username = "";
    admin_password = "";
    max_retries = 2;
  };
  base64 = λ s. s;
  repr = λ _. "?";
}

-- services that count the calls of WHMCS
abbrev counting : Services
counting = record {
  State = ℕ;
  payment_modules = λ n. (returned ("zibal" ∷ []), n);
  call = λ action params n. (
    returned (
        field "orderid" (str "7")
          (field "invoiceid" (str "9") (field "productids" (str "3,4") end))),
    suc n,
  );
  invalidate_for = λ client resources n. (returned tt, n);
}

abbrev hosting : Product
hosting = record {
  product_id = 5;
  billing_cycle = "monthly";
  quantity = 1;
  domain = "";
  hostname = "";
  config_options = (1, "é") ∷ [];
  addons = [];
  custom_fields = [];
}

abbrev transfer : DomainLine
transfer = record {
  domain = "a.example";
  action = "transfer";
  years = 1;
  id_protection = false;
  dns_management = false;
  email_forwarding = false;
  epp_code = "x";
}

abbrev two_lines : Basket
two_lines = record {
  whmcs_client_id = 42;
  items = domain_line transfer ∷ product hosting ∷ [];
  payment_method = "zibal";
  promo_code = "";
  nameservers = "ns1" ∷ "ns2" ∷ [];
  client_ip = "10.0.0.1";
}

base64_serialize_test : base64_serialize setup.base64 ((1, "é") ∷ []) ≡ "a:1:{i:1;s:2:\"é\";}"
unfolding base64_serialize
base64_serialize_test = refl

create_order_test : create_order setup counting two_lines 0 ≡ (
  returned (record {
    order_id = pos 7;
    invoice_id = pos 9;
    service_ids = pos 3 ∷ pos 4 ∷ [];
    domain_ids = [];
    addon_ids = [];
    payment_url = some "https://billing.example/viewinvoice.php?id=9";
  }),
  1,
)
unfolding create_order
create_order_test = refl

index_lines-aligned_example :
    at_field "pid" 1 (index_lines setup.base64 0 two_lines.items [])
    ≡ of_line setup.base64 "pid" (some (product hosting))
index_lines-aligned_example = index_lines-aligned setup.base64 "pid" two_lines.items 1

order_params-NamesPass_example : NamesPass (order_params setup.base64 two_lines)
order_params-NamesPass_example = order_params-NamesPass setup.base64 two_lines

create_order-IsOrderable_example :
    (((e : Exn) × ((create_order setup counting two_lines 0).0 ≡ raised e))
      × (((create_order setup counting two_lines 0).1 ≡ 0)
          ⊎ ((create_order setup counting two_lines 0).1 ≡ 0)))
    ⊎ ((h : IsOrderable setup counting two_lines 0) × (create_order setup counting two_lines 0
          ≡ add_order setup counting two_lines h.state))
create_order-IsOrderable_example = create_order-IsOrderable setup counting two_lines 0

-- WHMCS with one order, whose state is that order's status
abbrev one_order : Services
one_order = record {
  State = String;
  payment_modules = λ s. (returned ("zibal" ∷ []), s);
  call = λ action params s. (
    returned (
        field "orders"
          (dict (
            field "order"
              (dict (field "id" (str "7") (field "userid" (str "42") (field "status" (str s) end))))
              end))
          end),
    if action == "CancelOrder" then "Cancelled" else s,
  );
  invalidate_for = λ client resources s. (returned tt, s);
}

abbrev plain_values : Dates
plain_values = record { iso = λ v. v; iso_date = λ v. v }

-- The customer 42 cancels a pending order, and no other customer and no other order.
cancel_order_tests :
    ((cancel_order setup plain_values one_order 42 7 "Pending").1 ≡ "Cancelled")
    × ((cancel_order setup plain_values one_order 43 7 "Pending").1 ≡ "Pending")
    × ((cancel_order setup plain_values one_order 42 7 "Active").1 ≡ "Active")
unfolding cancel_order
cancel_order_tests = (refl, refl, refl)

cancel_order-IsPending_example :
    ((e : Exn) × (cancel_order setup plain_values one_order 42 7 "Pending" ≡ (raised e, "Pending")))
    ⊎ ((h : IsPending setup plain_values one_order 42 7 "Pending") × (cancel_order setup
            plain_values one_order 42 7 "Pending"
          ≡ withdraw setup plain_values one_order 42 7 h.state))
cancel_order-IsPending_example = cancel_order-IsPending setup plain_values one_order 42 7 "Pending"
