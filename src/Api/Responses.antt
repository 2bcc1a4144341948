-- ===== src/Api/Responses.antt =====
-- What the views answer: apps/core/pagination.py's `paginated_response`, and JSON bodies.
use whmcstemplate_bridge.Base.{
  ℤ, pos, negsuc, runtime, Outcome, returned, raised, Exec, pure, lift, ◌>>=◌, ℕ, String, Option,
  none, some, List, [], ◌∷◌,
}
use whmcstemplate_bridge.Json.{
  Value, null, int, str, list, dict, Items, nil, cons, Fields, end, field,
}
use whmcstemplate_bridge.Core.Pagination.{PageRequest, paginated_response}

-- a response: its status and its body, null where it has none
pub record Response : Type 0 where
  pub status : ℕ
  pub body : Value

-- `count` may be negative, as a reply of WHMCS may say anything.
abbrev pub num_pages : ℤ → PageRequest → ℕ
unfolding paginated_response
num_pages (pos total) r = (paginated_response {A = Unit {0}} [] total r).num_pages
num_pages (negsuc _) r = 1

-- `paginated_response`, as JSON
unfoldable pub page_body : (items : Value) → (total : ℤ) → PageRequest → Value
unfolding num_pages
page_body items total r = dict (
    field "count" (int total) (
      field "page" (int (pos r.page)) (
        field "page_size" (int (pos r.page_size))
          (field "num_pages" (int (pos (num_pages total r))) (field "results" items end)))))

-- `items, total = …; return self.paginated(items, total)`
unfoldable pub paginated : PageRequest → Value → Outcome Value
unfolding page_body
paginated r (list (cons items (cons (int total) nil))) = returned (page_body items total r)
paginated r _ = raised (runtime "ValueError")

-- a body that is sent as it is
abbrev pub as_body : Value → Outcome Value
as_body v = returned v

abbrev pub as_dict : Fields → Outcome Value
as_dict d = returned (dict d)

abbrev pub as_list : Items → Outcome Value
as_list items = returned (list items)

-- no body, whatever the operation returned
abbrev pub no_body : Unit {0} → Outcome Value
no_body _ = returned null

-- `status or None`
abbrev pub or_none : Option String → String
or_none none = ""
or_none (some s) = s

unfoldable pub texts : List String → Items
texts [] = nil
texts (s ∷ rest) = cons (str s) (texts rest)

-- an operation, and the response that is made of what it returns
unfoldable pub respond :
    {W A : Type 0} → (status : ℕ) → (A → Outcome Value) → Exec W A → Exec W Response
respond status present operation = do
  result ← operation
  body ← lift (present result)
  pure (record { status = status; body = body })
