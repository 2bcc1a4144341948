-- ===== src/Lib.antt =====
-- The WHMCS bridge: a REST API between a storefront and a WHMCS installation, with online payments
-- through the Zibal gateway. This library models the parts that decide about money and access.
--
-- The parts and how they interact.
--   Payments (apps/payments/): a customer starts a payment (`PaymentService.start`), the gateway
--   sends the browser back to the callback view, which settles the payment
--   (`PaymentService.settle`): the gateway is asked, the row of `payments_attempt` is judged
--   under its lock, and WHMCS is told. A management command settles what is left over
--   (`reconcile_payments`).
--   Orders (apps/orders/views.py, apps/whmcs/services/orders.py): a basket becomes WHMCS'
--   AddOrder, at most once for an Idempotency-Key as far as the cache remembers.
--   Core (apps/core/): the cache, pagination, the client's address, the responses to exceptions,
--   and the fan-out of several reads.
--   Whmcs (apps/whmcs/): the transport with its retries, the allowlist of actions, the
--   configuration, the normalizers that read WHMCS' JSON, and the services
--   (apps/whmcs/services/), which call WHMCS through the client and keep what they read in the
--   cache, under a namespace of the customer's.
--   Api (apps/*/views.py, apps/*/serializers.py): the endpoints for customers, which take the
--   customer's id of the authenticated user only and call one operation of a service each, and
--   the dashboard.
--   Users (apps/accounts/): the local user table, in which a login that WHMCS confirms links a
--   row to a client.
--
-- The files.
--   Base and its children: Boolean tests, lists, Python's texts and integers, exceptions, the
--   monad `Exec W A = W → Outcome A × W` (state that stays written when an exception is raised),
--   and frame conditions `Frame R m` (all that `m` does to the state is allowed by `R`), which
--   `search` proves from `frame_rules`. Json: the values of a JSON body and Python's conversions
--   of them. Decimals: Python's decimals as far as amounts need them; Places is about two places
--   behind the point.
--   Payments/Models, Payments/Table: the rows and the ORM's reads and writes
--   (apps/payments/models.py).
--   Payments/World: the state (rows, POSTs to the gateway, the billing service, the clock) and
--   `Env`.
--   Payments/Zibal: apps/payments/gateways/zibal.py; Posts and Retries are about its POSTs.
--   Payments/Amount: `to_rial`. Payments/Start: `start`; Rows is about the rows it leaves alone,
--   Charged about the row it inserts, Priced about its amount.
--   Payments/Settle: `settle`; Judge is its locked block, Credit and Verdict what it tells WHMCS
--   and leaves in the row. Payments/Interleaving: several runs of `settle` at once, as a step
--   relation whose steps are the uninterrupted pieces; Recorded, Credits and Sequential are about
--   it.
--   Payments/Urls, Payments/Views: `result_url`, and the views of apps/payments/views.py.
--   Payments/Reconcile: apps/payments/management/commands/reconcile_payments.py. Payments/Live:
--   the payments over the billing service of Whmcs/Services; Credited is about what WHMCS is
--   told, Checkout about what a customer may start to pay.
--   Orders/Idempotency: the POST of `OrderListCreateView` over a parameter for the order service;
--   Orders/Live: the POST over the order service of Whmcs/Services and the one cache. Apart (as
--   Whmcs/Services/Apart for any prefix) says which cells the services leave alone, Once and Posts
--   are about repeated requests.
--   Orders/Basket, Orders/Placement: `OrderService.create_order`, its parallel arrays and its
--   guards. Orders/Withdrawal: its `get_order`, `cancel_order` and the list of orders before the
--   cache; Pending is about the cancellation.
--   Core/Cells, Core/Cache: apps/core/cache.py over a table of cells that expire; Keeps and
--   Isolated are about what may stand under a key, Namespaces about whose key it is, Leaves about
--   the cells under other keys, Upstream about the calls of the producers. Core/Pagination,
--   Core/Http, Core/Exceptions, Core/Aggregate: the files of these names in apps/core.
--   Core/RequestId: apps/core/middleware.py.
--   Whmcs/Form, Whmcs/Flatten, Whmcs/Transport: apps/whmcs/transport.py; Transport/Async is its
--   `AsyncTransport.request`. Whmcs/Config, Whmcs/Actions, Whmcs/Client, Whmcs/Normalizers,
--   Whmcs/Attachments: the files of these names, and `assert_owned` of
--   apps/whmcs/services/base.py. Whmcs/Money, Whmcs/Dates: the amounts and the dates of
--   apps/whmcs/normalizers.py; Formats is `strptime` for its formats, Calendar and Again are about
--   what is read.
--   Whmcs/Services: apps/whmcs/services/base.py over a `Site` (the client and the runtime) and a
--   `World` (the cache and the calls of WHMCS so far); Accounts, Catalogue, Billing, Support with
--   Tickets, Hosting and Domains (both hosting.py) and Orders are the services; their children
--   say who may change a password, which fields a profile update sends, and what a payment posts.
--   Tasks: apps/whmcs/tasks.py. Isolation: the customers' reads through the cache; Requests has all
--   operations as steps of a relation, Places names the cells of the reads, Kept, About, Scope and
--   Own say whose data a read gives. Frames: what a client of the services may rely on that every
--   operation keeps, as laws of the few ways in which they touch the world; its children show it of
--   all operations. Calls says which actions they ask for. Gates: the writes behind a read of their
--   record; Attachments and Upgrades are about stored attachments and the upgrade of a service.
--   Whmcs/Live: the services' client filled in by Whmcs/Client and its transport; Lawful is about
--   the requests that WHMCS receives.
--   Api/Scope: apps/core/permissions.py and apps/core/views_mixins.py. Api/Responses,
--   Api/Hosting, Api/Billing (with the views of apps/accounts and apps/orders), Api/Support: the
--   views' methods. Api/Endpoints: those that call one operation of a service, together; Requests is
--   about what they do. Api/Dashboard: apps/core/dashboard.py. Api/Public: the public views.
--   Api/Health: the readiness probe of apps/core/views.py; Probes is about its calls of WHMCS.
--   Api/Serializers: the checks that the serializers make themselves; Orders are those of a
--   basket, Hostnames is about nameservers.
--   Users, Users/Create: `UserManager` and `User.mark_synced` of apps/accounts/models.py; Rows,
--   Tables and Linked are about the table, Reached has the operations as steps of a relation.
--   Users/Login: the login and registration of apps/accounts/serializers.py and
--   apps/accounts/views.py; Verified is about who gets in.
--   Each Tests file runs the definitions on concrete data.
--
-- What is a parameter: the answers of Zibal and of WHMCS over HTTP, as functions of all requests so
-- far; the billing and order services where Payments and Orders/Idempotency call them
-- (Payments/Live and Orders/Live fill these in); the client in Whmcs/Services (Whmcs/Live fills it
-- in); what the framework's fields make of a request, and what it raises without a permission;
-- Django's settings and reversed URLs; html.unescape, Django's `normalize_email`; uuid4, the clock
-- (it advances by an unknown amount whenever it is read) and its texts, the gateway's ISO dates, md5,
-- sha1, base64, `str.lower`, `str.isalnum` and Python's `repr` of lists and dicts.
--
-- Bounds and fuel: `post_rounds` and `request_rounds` run on the number of attempts left, which the
-- source computes (`retries + 1`, `max_retries + 1`). `drive` runs an interrupted `settle` on fuel,
-- and its four pieces need four. `digits` runs on `n + 1` rounds, since each divides `n` by ten.
--
-- Not modelled: column widths; decimals with exponents, NaN or infinities, and the rounding of
-- products to 28 digits; integers with underscores or digits beyond ASCII; the text whitespace
-- beyond ASCII; logging; connection pools; the eviction of cache cells before their time; `start`
-- is one step where runs interleave; a row without a trackId is not looked up by the
-- reconciliation. A request is one step, so requests interleave with each other and with
-- refreshes, but not within; the threads of `gather` are taken one after the other, in any order.
-- Where WHMCS gives a list or a dict for a date, `to_datetime` raises, but a record that is
-- converted has no date. The empty text stands for a missing status and date, and 0 for a missing
-- group. Passwords and tokens are not modelled beyond what they say. The view of logout, apps/core's
-- throttling, log lines, the queue of the tasks, and the settings are not modelled.
pub mod Base
pub mod Json
pub mod Api
pub mod Core
pub mod Decimals
pub mod Orders
pub mod Payments
pub mod Users
pub mod Whmcs
