-- ===== src/MlockPage.antt =====
-- mlock_page.h: MLOCK_PAGE, which locks the pages of a piece of memory. Addresses and sizes have 64
-- bits; the size of a page is a parameter.
mod Tests
use native.Mathlib.Nat.{
  div-mul-le_self, lt-div-mul-add, le-div_iff_mul-le, div-le_self, add-mul, mul-mod_left,
}
use xsecurelock.Prelude.{ℕ, ◌+◌, ◌-◌, ◌*◌, ◌/◌, ◌%◌, ◌^◌, ◌≤◌, ◌<◌, ◌≡◌, ap, ◌∙◌, arith}

-- Wrap-around of an unsigned number of 64 bits.
abbrev wrap : ℕ → ℕ
wrap n = n % 2 ^ 64

-- The arguments of mlock: an address and a size.
pub mlock_page : (page_size ptr size : ℕ) → ℕ × ℕ
mlock_page p ptr size =
    let last = wrap (ptr + size + (2 ^ 64 - 1)) in
    (wrap (ptr / p * p), wrap (wrap (last / p + (2 ^ 64 - ptr / p) + 1) * p))

-- The pages from the first to the last one of the piece, without the wrap-around.
pages : ℕ → ℕ → ℕ → ℕ
pages p ptr size = (ptr + size - 1) / p - ptr / p + 1

module _ (p ptr size : ℕ) (hp : 0 < p) (hs : 0 < size) (h : ptr + size + p ≤ 2 ^ 64) where
  first_le : ptr / p ≤ (ptr + size - 1) / p
  first_le = (le-div_iff_mul-le hp).1 (omega (arith, div-mul-le_self ptr p))

  pages-mul : pages p ptr size * p ≡ (ptr + size - 1) / p * p - ptr / p * p + p
  unfolding pages
  pages-mul =
      let a = ptr / p in
      let b = (ptr + size - 1) / p in
      let e : b - a + a ≡ b = omega (arith, first_le) in
      let whole = add-mul (b - a) a p in
      let one_more = add-mul (b - a) 1 p in omega (arith, whole, one_more, ap (λ k. k * p) e)

  mlock_page-pages : mlock_page p ptr size ≡ (ptr / p * p, pages p ptr size * p)
  unfolding mlock_page pages
  mlock_page-pages =
      let a = ptr / p in
      let b = (ptr + size - 1) / p in
      let low = div-mul-le_self ptr p in
      let low' = div-mul-le_self (ptr + size - 1) p in
      let last : wrap (ptr + size + (2 ^ 64 - 1)) ≡ ptr + size - 1 = omega arith in
      let start : wrap (a * p) ≡ a * p = omega arith in
      let count : wrap (b + (2 ^ 64 - a) + 1) ≡ pages p ptr size =
        omega (arith, first_le, div-le_self (ptr + size - 1) p, div-le_self ptr p) in
      let len : wrap (pages p ptr size * p) ≡ pages p ptr size * p = omega (arith, pages-mul) in
      pair start (
        ap (λ l. wrap (wrap (l / p + (2 ^ 64 - a) + 1) * p)) last
        ∙ ap (λ k. wrap (k * p)) count
        ∙ len)
    where
      pair : {a b c d : ℕ} → a ≡ b → c ≡ d → ◌≡◌ {A = ℕ × ℕ} (a, c) (b, d)
      pair q r = rw (q, r)

  -- For a piece of memory that is not empty and ends a page before the end of the address space,
  -- MLOCK_PAGE locks whole pages, which cover the piece, and no page beyond it.
  pub mlock_page-covers :
      let (start, len) = mlock_page p ptr size in
      (start % p ≡ 0)
      × (len % p ≡ 0)
      × (start ≤ ptr)
      × (ptr + size ≤ start + len)
      × (ptr < start + p)
      × (start + len < ptr + size + p)
  mlock_page-covers =
      let low = div-mul-le_self ptr p in
      let high = lt-div-mul-add {a = ptr} hp in
      let low' = div-mul-le_self (ptr + size - 1) p in
      let high' = lt-div-mul-add {a = ptr + size - 1} hp in
      rw mlock_page-pages (
        mul-mod_left (ptr / p) p,
        mul-mod_left (pages p ptr size) p,
        low,
        omega (arith, pages-mul),
        high,
        omega (arith, pages-mul),
      )
