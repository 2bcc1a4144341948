-- ===== src/Orders/Idempotency.antt =====
-- `OrderListCreateView.post` of apps/orders/views.py, over a parameter for the order service, which
-- uses the same cache.
pub mod Repeats
pub mod Replays
use whmcstemplate_bridge.Base.{
  nat_eq, if◌then◌else◌, f_string, prefix, is_text, keep_chars, strip, show, pos, application_error,
  Exn, application, whmcs_transport, returned, Exec, pure, raise, catch, ◌>>=◌, ◌>>◌, ℕ, ◌*◌,
  String, Bool, not, ◌||◌, Option, none, some, [], ◌∷◌,
}
use whmcstemplate_bridge.Json.{Value, int, str, list, cons, nil}
use whmcstemplate_bridge.Core.Cells.{
  Content, number, entry, plain, Cache, remove_cell, cache_get, cache_set, cache_add,
}

abbrev pub idempotency_ttl : ℕ
idempotency_ttl = 60 * 60 * 24

abbrev pub idempotency_lock_ttl : ℕ
idempotency_lock_ttl = 120

-- `raw` is the header, and `is_alnum` is `str.isalnum` of one character.
unfoldable pub idempotency_key :
    (is_alnum : ℕ → Bool) → (whmcs_client_id : ℕ) → (raw : String) → Option String
unfolding strip prefix keep_chars f_string show
idempotency_key is_alnum whmcs_client_id raw =
    let token =
      prefix 64 (keep_chars (λ c. is_alnum c || (nat_eq c b'-' || nat_eq c b'_')) (strip raw)) in
    if not (is_text (strip raw)) || not (is_text token)
    then none
    else some (f_string ("idem:order:" ∷ show whmcs_client_id ∷ ":" ∷ token ∷ []))

abbrev pub order_lock : String → String
order_lock key = f_string (key ∷ ":lock" ∷ [])

-- the answer: its status and its body
pub record Answered : Type 0 where
  pub status : ℕ
  pub body : Value

abbrev pub order_in_progress : Exn
order_in_progress =
    application application_error "order_in_progress"
      "An identical order is already being processed." []

abbrev pub order_outcome_unknown : Exn
order_outcome_unknown =
    application application_error "order_outcome_unknown"
      "We could not confirm whether your order went through. Check your orders before trying again."
      []

-- what the cache gives back under a key; a pair is a JSON list
abbrev pub body_of_content : Content Value → Value
body_of_content (number n) = int (pos n)
body_of_content (plain v) = v
body_of_content (entry v t) = list (cons v (cons (int (pos t)) nil))

module _ {Orders : Type 0} where
  delete : String → Exec (Cache Value Orders) (Unit {0})
  unfolding remove_cell
  delete key w = (returned tt, record w { store = remove_cell key w.store })

  release : Option String → Exec (Cache Value Orders) (Unit {0})
  unfolding delete
  release none = pure tt
  release (some key) = delete (order_lock key)

  remember : Option String → Value → Exec (Cache Value Orders) (Unit {0})
  unfolding cache_set
  remember none result = pure tt
  remember (some key) result = cache_set key (plain result) idempotency_ttl

  -- the two `except` clauses
  on_failure : Option String → Exn → Exec (Cache Value Orders) Value
  unfolding release
  on_failure key (whmcs_transport message) = raise order_outcome_unknown
  on_failure key e = do release key; raise e

  -- the order is placed, and its result kept under the key
  unfoldable pub order :
      Option String → Exec (Cache Value Orders) Value → Exec (Cache Value Orders) Answered
  unfolding on_failure remember
  order key create = do
    result ← catch create (on_failure key)
    remember key result
    pure (record { status = 201; body = result })

  -- the key is free: its lock is taken, or the request is refused
  reserve : String → Exec (Cache Value Orders) Value → Exec (Cache Value Orders) Answered
  unfolding cache_add order f_string
  reserve key create = do
    added ← cache_add (order_lock key) (plain (str "in-flight")) idempotency_lock_ttl
    if added then order (some key) create else raise order_in_progress

  replay :
      String
      → Exec (Cache Value Orders) Value
      → Option (Content Value)
      → Exec (Cache Value Orders) Answered
  unfolding reserve
  replay key create (some previous) =
      pure (record { status = 200; body = body_of_content previous })
  replay key create none = reserve key create

  unfoldable pub post_order :
      Option String → Exec (Cache Value Orders) Value → Exec (Cache Value Orders) Answered
  unfolding order cache_get replay
  post_order none create = order none create
  post_order (some key) create = do previous ← cache_get key; replay key create previous
