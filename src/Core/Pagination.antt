-- ===== src/Core/Pagination.antt =====
-- apps/core/pagination.py
use native.Mathlib.Nat.{div-add-mod, mod-lt}
use whmcstemplate_bridge.Base.{
  ltb, nat_eq, if◌then◌else◌, nat_eq→ne, tests, parse_int, ℤ, pos, negsuc, ℕ, ◌+◌, ◌-◌, ◌*◌, ◌/◌,
  ◌%◌, ◌≤◌, ◌<◌, String, ◌≡◌, refl, ◌⊎◌, inl, inr, Bool, true, false, Option, none, some, List,
  arith,
}

abbrev pub max_page_size : ℕ
max_page_size = 100

pub record PageRequest : Type 0 where
  pub page : ℕ
  pub page_size : ℕ

unfoldable pub limit_start : PageRequest → ℕ
limit_start r = (r.page - 1) * r.page_size

unfoldable pub limit_num : PageRequest → ℕ
limit_num r = r.page_size

-- `_int` of `from_query`: `max(1, int(…))`, and the default where the text is no integer or absent
at_least_one : ℤ → ℕ
at_least_one (pos n) = if ltb n 1 then 1 else n
at_least_one (negsuc _) = 1

integer_or : ℕ → Option ℤ → ℕ
unfolding at_least_one
integer_or default none = default
integer_or default (some n) = at_least_one n

query_int : Option String → ℕ → ℕ
unfolding integer_or parse_int
query_int none default = at_least_one (pos default)
query_int (some s) default = integer_or default (parse_int s)

-- `page` and `page_size` are the query's parameters of these names
unfoldable pub from_query : (page page_size : Option String) → (default_size : ℕ) → PageRequest
unfolding query_int
from_query page page_size default_size =
    let size = query_int page_size default_size in
    record {
      page = query_int page 1;
      page_size = if ltb max_page_size size then max_page_size else size;
    }

pub record Page {ℓ} (A : Type ℓ) : Type ℓ where
  pub count : ℕ
  pub page : ℕ
  pub page_size : ℕ
  pub num_pages : ℕ
  pub results : List A

-- `-(-total // page_size)`: floor division of the negated total, negated, is the quotient rounded up
abbrev pub ceil_div : ℕ → ℕ → ℕ
ceil_div total size = if nat_eq (total % size) 0 then total / size else total / size + 1

unfoldable pub paginated_response {ℓ} : {A : Type ℓ} → List A → ℕ → PageRequest → Page A
paginated_response items total r = record {
  count = total;
  page = r.page;
  page_size = r.page_size;
  num_pages = if ltb (ceil_div total r.page_size) 1 then 1 else ceil_div total r.page_size;
  results = items;
}

-- `r` asks for a page of 1 to 100 entries.
pub record IsPage (r : PageRequest) : Type 0 where
  pub first : 1 ≤ r.page
  pub some_entry : 1 ≤ r.page_size
  pub bounded : r.page_size ≤ max_page_size

integer_or-pos : (o : Option ℤ) (default : ℕ) → 1 ≤ default → 1 ≤ integer_or default o
unfolding integer_or
integer_or-pos none default h = h
integer_or-pos (some (pos n)) default h = ground arith
integer_or-pos (some (negsuc n)) default h = omega arith

query_int-pos : (s : Option String) (default : ℕ) → 1 ≤ default → 1 ≤ query_int s default
unfolding query_int
query_int-pos none default h = ground arith
query_int-pos (some s) default h = integer_or-pos (parse_int s) default h

-- Whatever the query says, the page is at least 1 and the page size from 1 to 100.
pub from_query-IsPage :
    (page page_size : Option String) (default_size : ℕ)
    → 1 ≤ default_size
    → IsPage (from_query page page_size default_size)
unfolding from_query
from_query-IsPage page page_size default_size h = record {
  first = query_int-pos page 1 (omega arith);
  some_entry = ground (arith, query_int-pos page_size default_size h);
  bounded = ground arith;
}

-- the number of pages by the two tests, with q and r for the quotient and the remainder
abbrev counted : (whole small : Bool) → ℕ → ℕ
counted whole small q = if small then 1 else if whole then q else q + 1

pages_bounds :
    (whole small : Bool) (q r p : ℕ)
    → nat_eq r 0 ≡ whole
    → ltb (if whole then q else q + 1) 1 ≡ small
    → r < p
    → (p * q + r ≤ counted whole small q * p)
      × ((counted whole small q ≡ 1) ⊎ (counted whole small q * p < p * q + r + p))
pages_bounds true true q r p e e' h = (grind tests, inl refl)
pages_bounds true false q r p e e' h = (omega tests, inr (omega tests))
pages_bounds false true q r p e e' h = absurd (omega tests)
pages_bounds false false q r p e e' h = (omega tests, inr (omega (tests, nat_eq→ne r 0 e)))

-- The announced pages hold all entries, and no page is announced that would be empty (but one is
-- where there is no entry).
pub num_pages_exact {ℓ} :
    {A : Type ℓ} (items : List A) (total : ℕ) (r : PageRequest)
    → IsPage r
    → (total ≤ (paginated_response items total r).num_pages * r.page_size)
      × (((paginated_response items total r).num_pages ≡ 1)
          ⊎ ((paginated_response items total r).num_pages * r.page_size < total + r.page_size))
unfolding paginated_response
num_pages_exact items total r h =
    let bounds =
      pages_bounds _ _ (total / r.page_size) (total % r.page_size) r.page_size refl refl
        (mod-lt total h.some_entry) in
    rw (div-add-mod total r.page_size) at bounds
