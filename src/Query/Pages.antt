-- ===== src/Query/Pages.antt =====
-- The pages of a listing: `buildPagination` and `formatPaginatedResponse`.
use native.Mathlib.Nat.{
  div-mul-le_self, lt-div-mul-add, suc-mul, le-div_iff_mul-le, div-eq_of_lt-le, add-mul, one-mul,
}
use projx.Query.{build_pagination, total_pages}
use projx.Base.{
  ℕ, suc, ◌+◌, ◌-◌, ◌*◌, ◌/◌, ◌≤◌, ◌<◌, ◌≡◌, arith, if◌then◌else◌, ◌==◌, nat_eq, list_eq, option_eq,
}

-- The record at the index is among those of the page.
abbrev pub IsOnPage : ℕ → ℕ → ℕ → Type 0
IsOnPage page_size page i =
    let (skip, size) = build_pagination page page_size in (skip ≤ i) × (i < skip + size)

on_page : (page_size i : ℕ) → 0 < page_size → IsOnPage page_size (suc (i / page_size)) i
unfolding build_pagination
on_page page_size i h =
    let e : suc (i / page_size) - 1 ≡ i / page_size = omega arith in
    rw e (div-mul-le_self i page_size, lt-div-mul-add h)

at_least_one : (n pages : ℕ) → n ≤ pages → n ≤ (if pages == 0 then 1 else pages)
at_least_one n pages h = ground arith

quotient :
    (page_size k i : ℕ) → k * page_size ≤ i → i < k * page_size + page_size → i / page_size ≡ k
quotient page_size k i low high =
    div-eq_of_lt-le page_size low (rw (add-mul k 1 page_size, one-mul page_size) high)

within_pages :
    (total page_size i : ℕ)
    → 0 < page_size
    → i < total
    → suc (i / page_size) ≤ total_pages total page_size
unfolding total_pages
within_pages total page_size i h k =
    let start : i / page_size * page_size ≤ i = div-mul-le_self i page_size in
    let full : suc (i / page_size) * page_size ≤ total + (page_size - 1) =
      rw (suc-mul (i / page_size) page_size) (omega arith) in
    at_least_one (suc (i / page_size)) ((total + (page_size - 1)) / page_size)
      ((le-div_iff_mul-le h).1 full)

one_page :
    (page_size page other i : ℕ)
    → 1 ≤ page
    → 1 ≤ other
    → IsOnPage page_size page i
    → IsOnPage page_size other i
    → page ≡ other
unfolding build_pagination
one_page page_size page other i a b (c, d) (e, f) =
    let p = quotient page_size (page - 1) i c d in
    let q = quotient page_size (other - 1) i e f in omega arith

-- Each record of a listing stands on exactly one of its pages: for a page size above 0 and an index
-- below the total there is one page from 1 to the number of pages whose `skip` and `take` reach the
-- record, and no other page does.
pub pages_share :
    (total page_size i : ℕ)
    → 0 < page_size
    → i < total
    → (page : ℕ) × (1 ≤ page)
      × (page ≤ total_pages total page_size)
      × IsOnPage page_size page i
      × ((other : ℕ) → 1 ≤ other → IsOnPage page_size other i → other ≡ page)
pages_share total page_size i h k = (
  suc (i / page_size),
  omega arith,
  within_pages total page_size i h k,
  on_page page_size i h,
  λ other b on.
      one_page page_size other (suc (i / page_size)) i b (omega arith) on (on_page page_size i h),
)
