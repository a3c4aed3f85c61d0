-- ===== src/Tests/Sizes.antt =====
-- The checked arithmetic at concrete sizes.
use recast.Prelude.{ℕ, ◌+◌, ◌*◌, ◌≤◌, ◌<◌, ◌≡◌, ◌⊎◌, true, false, ok, arith}
use recast.Checked.{size_max, checked_multiply, page_count, ranges_overlap}
use recast.Checked.Bounds.{
  Fits, InRange, checked_multiply-Fits, page_count_bounds, ranges_overlap-cases,
}

checked_multiply-Fits_example :
    Fits size_max (checked_multiply 5_000_000_000 4_000_000_000) (5_000_000_000 * 4_000_000_000)
checked_multiply-Fits_example = checked_multiply-Fits 5_000_000_000 4_000_000_000

page_count_bounds_example : (100 ≤ page_count 100 7 * 7) × (page_count 100 7 * 7 < 100 + 7)
page_count_bounds_example = page_count_bounds 100 7 (omega arith)

ranges_overlap-cases_example :
    ((ranges_overlap 1000 96 1090 20 ≡ ok true)
      × ((at : ℕ) × InRange 1000 96 at × InRange 1090 20 at))
    ⊎ ((ranges_overlap 1000 96 1090 20 ≡ ok false)
        × ((at : ℕ) → InRange 1000 96 at → InRange 1090 20 at → ⊥))
ranges_overlap-cases_example = ranges_overlap-cases 1000 96 1090 20 (omega arith) (omega arith)
