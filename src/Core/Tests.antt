-- ===== src/Core/Tests.antt =====
-- The core app on concrete data.
use whmcstemplate_bridge.Base.{
  ◌+◌, if◌then◌else◌, pos, auth_error, whmcs_api, returned, Exec, ℕ, suc, String, ◌≡◌, refl, true,
  Option, none, some, [], ◌∷◌, ◌==◌,
}
use whmcstemplate_bridge.Core.Pagination.{from_query}
use whmcstemplate_bridge.Core.Exceptions.{Handling, api_exception_handler}
use whmcstemplate_bridge.Core.Exceptions.Leaks.{api_texts, handler-SameClass}
use whmcstemplate_bridge.Core.Cells.{number, entry, Cache, live, put_cell}
use whmcstemplate_bridge.Core.Cache.{lock_key, Runtime, build_key, get_or_set, run_refresh}
use whmcstemplate_bridge.Core.Cache.Served.{IsServed, found_for, get_or_set-IsServed}
use whmcstemplate_bridge.Core.Cache.Refreshes.{run_refresh-unlocks}

from_query_tests :
    (from_query (some "0") (some "5000") 20 ≡ record { page = 1; page_size = 100 })
    × (from_query none (some "x") 20 ≡ record { page = 1; page_size = 20 })
unfolding from_query
from_query_tests = (refl, refl)

abbrev cache_runtime : Runtime String
cache_runtime = record {
  elapsed = λ _. 1;
  digest = λ s. s;
  cache_ttl = λ bucket. if bucket == "invoices" then some (pos 60) else none;
}

-- a producer that counts its calls
abbrev fetch : Exec ℕ (Option String)
fetch n = (returned (some "fetched"), suc n)

abbrev key_of_page : String
key_of_page = "client:42:invoices:v3:p1"

abbrev warm : Cache String ℕ
warm = record {
  store =
      ("ver:client:42:invoices", record { content = number 3; expires = 9000 })
      ∷ ("client:42:invoices:v3:p1", record { content = entry "kept" 2000; expires = 9000 })
      ∷ [];
  clock = 1000;
  refreshes = [];
  upstream = 0;
}

warm-key : build_key cache_runtime "client:42:invoices" "p1" warm ≡ (returned key_of_page, warm)
unfolding build_key live
warm-key = refl

get_or_set-IsServed_example :
    IsServed cache_runtime fetch
      (warm.clock + cache_runtime.elapsed warm.clock)
      true
      (found_for cache_runtime fetch "invoices" key_of_page warm)
      0
      (get_or_set cache_runtime "client:42:invoices" "invoices" fetch "p1" true warm)
get_or_set-IsServed_example =
    get_or_set-IsServed cache_runtime fetch "client:42:invoices" "invoices" "p1" true warm warm
      key_of_page warm-key

get_or_set_tests :
    ((get_or_set cache_runtime "client:42:invoices" "invoices" fetch "p1" true warm).0
      ≡ returned (some "kept"))
    × ((get_or_set cache_runtime "client:42:invoices" "invoices" fetch "p2" true warm).0
        ≡ returned (some "fetched"))
unfolding get_or_set live put_cell
get_or_set_tests = (refl, refl)

run_refresh-unlocks_example :
    ((run_refresh cache_runtime fetch (record { key = key_of_page; ttl = 60 }) warm).0
      ≡ returned tt)
    × (live 1500
          (lock_key key_of_page)
          (run_refresh cache_runtime fetch (record { key = key_of_page; ttl = 60 }) warm).1.store
        ≡ none)
run_refresh-unlocks_example =
    run_refresh-unlocks cache_runtime fetch (record { key = key_of_page; ttl = 60 }) warm 1500

-- a framework that answers nothing
abbrev handling : Handling
handling = record { request_id = "r1"; framework = λ _. none }

handler-SameClass_example :
    api_exception_handler handling (whmcs_api auth_error "Invalid IP 1.2.3.4")
    ≡ api_exception_handler handling (whmcs_api auth_error "Authentication Failed")
handler-SameClass_example =
    handler-SameClass handling
      (api_texts auth_error "Invalid IP 1.2.3.4" "Authentication Failed" (λ e. absurd cc))
