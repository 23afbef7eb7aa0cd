-- ===== src/PageTop.antt =====
-- Attempt at the top of a page, ZPage::alloc_object of zPage.inline.hpp, and where threads share the page,
-- ZPage::alloc_object_atomic. A thread is where
-- it stands in the function, and a step is one access to the top. The rounding of sizes, align_up of the virtual
-- machine, is a parameter.
pub mod Safety
mod Tests
use zgc_primax.Base.{
  ℕ, ◌+◌, Bool, true, false, ◌&&◌, ◌==◌, ltb, leb, if◌then◌else◌, add64, Option, none, some,
}

pub data Attempt : Type 0 where
  reads : (size : ℕ) → Attempt
  exchanges : (size addr : ℕ) → Attempt
  allocated : (size addr : ℕ) → Attempt
  fails : Attempt

module _ (align_up : ℕ → ℕ) (address_offset_max page_end : ℕ) where
  unfoldable pub alloc_object : ℕ → ℕ → Option ℕ × ℕ
  alloc_object size top =
      let new_top : ℕ = add64 top (align_up size) in
      if leb new_top address_offset_max
      then (if ltb page_end new_top then (none, top) else (some top, new_top))
      else (none, top)

  -- The tests on a top that was read.
  unfoldable pub try_top : ℕ → ℕ → Attempt
  try_top size addr =
      let new_top : ℕ = add64 addr (align_up size) in
      if leb new_top address_offset_max
      then (if ltb page_end new_top then fails else exchanges size addr)
      else fails

  -- A step of a thread, on the top of the page. There is one action.
  unfoldable pub alloc_step : Attempt → Unit {0} → ℕ → Attempt × ℕ
  alloc_step (reads size) u top = (try_top size top, top)
  alloc_step (exchanges size addr) u top = (
    if top == addr then allocated size addr else try_top size top,
    if top == addr then add64 addr (align_up size) else top,
  )
  alloc_step (allocated size addr) u top = (allocated size addr, top)
  alloc_step fails u top = (fails, top)
