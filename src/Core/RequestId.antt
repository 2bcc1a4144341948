-- ===== src/Core/RequestId.antt =====
-- `RequestIDMiddleware` of apps/core/middleware.py and `set_request_id` of apps/core/logging.py.
use whmcstemplate_bridge.Base.{
  leb, nat_eq, prefix, or_text, keep_chars, ℕ, String, ◌≡◌, refl, Bool, ◌&&◌, ◌||◌,
}

-- `is_alnum` is `str.isalnum` of one character.
abbrev pub is_safe : (is_alnum : ℕ → Bool) → ℕ → Bool
is_safe is_alnum c = is_alnum c || (nat_eq c b'-' || nat_eq c b'_')

-- The id of a request, by its header, which is empty where it is missing, and 12 hexadecimal digits of a
-- new uuid4.
unfoldable pub request_id : (is_alnum : ℕ → Bool) → (uuid : String) → (header : String) → String
unfolding keep_chars prefix
request_id is_alnum uuid header = or_text (keep_chars (is_safe is_alnum) (prefix 64 header)) uuid

request_id_tests :
    (request_id (λ c. leb 97 c && leb c 122) "0f0f0f0f0f0f" "ab-c\nGET /" ≡ "ab-c")
    × (request_id (λ c. leb 97 c && leb c 122) "0f0f0f0f0f0f" "" ≡ "0f0f0f0f0f0f")
unfolding request_id
request_id_tests = (refl, refl)
