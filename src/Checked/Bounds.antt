-- ===== src/Checked/Bounds.antt =====
-- What the checked operations return, and when they throw.
use native.Mathlib.Nat.{mul-mod_left}
use recast.Prelude.{
  ℕ, zero, suc, ◌+◌, ◌-◌, ◌*◌, ◌/◌, ◌%◌, ◌≤◌, ◌<◌, ◌≡◌, ◌⊎◌, inl, inr, Bool, true, false, Result,
  ok, err, overflow_error, arith, ltb, ◌==◌, ◌&&◌, ◌||◌, if◌then◌else◌, max, Bool-cases,
}
use recast.Checked.{
  size_max, off_max, checked_add, checked_multiply, round_up, page_count, page_offset,
  ranges_overlap,
}

-- A result of `f` that is `value` exactly when `value` fits, and overflow_error otherwise.
abbrev pub Fits : ℕ → Result ℕ → ℕ → Type 0
Fits limit r value =
    ((value ≤ limit) × (r ≡ ok value)) ⊎ ((limit < value) × (r ≡ err overflow_error))

pub checked_add-Fits :
    (lhs rhs : ℕ) → lhs ≤ size_max → Fits size_max (checked_add lhs rhs) (lhs + rhs)
unfolding checked_add
checked_add-Fits lhs rhs h = ground arith

div-lt_iff : (n d q : ℕ) → 0 < d → n / d < q → n < d * q
div-lt_iff n d q p h = grind arith

div-le_iff : (n d q : ℕ) → 0 < d → q ≤ n / d → d * q ≤ n
div-le_iff n d q p h = grind arith

-- The product is returned when it is at most 2^64 - 1, and overflow_error is thrown exactly when it
-- is larger.
pub checked_multiply-Fits : (lhs rhs : ℕ) → Fits size_max (checked_multiply lhs rhs) (lhs * rhs)
unfolding checked_multiply
checked_multiply-Fits zero rhs = ground arith
checked_multiply-Fits (suc l) rhs =
    ground (arith, div-lt_iff size_max (suc l) rhs, div-le_iff size_max (suc l) rhs)

pub page_offset-Fits :
    (page page_size : ℕ)
    → 0 < page_size
    → Fits off_max (page_offset page page_size) (page * page_size)
unfolding page_offset
page_offset-Fits page page_size h =
    ground (arith, div-lt_iff off_max page_size page, div-le_iff off_max page_size page)

div_bounds : (n d : ℕ) → 0 < d → (n / d * d ≤ n) × (n < n / d * d + d)
div_bounds n d h = grind arith

page_count-suc : (r per_page : ℕ) → page_count (suc r) per_page ≡ suc (r / per_page)
unfolding page_count
page_count-suc r per_page = let e : suc r - 1 ≡ r = omega arith in rw e (ground arith)

-- For pages of at least one record, the page count is the least number of pages that holds the rows.
pub page_count_bounds :
    (rows per_page : ℕ)
    → 0 < per_page
    → (rows ≤ page_count rows per_page * per_page)
      × (page_count rows per_page * per_page < rows + per_page)
unfolding page_count
page_count_bounds zero per_page h = grind arith
page_count_bounds (suc r) per_page h =
    let e : page_count (suc r) per_page ≡ suc (r / per_page) = page_count-suc r per_page in
    rw e (grind (arith, div_bounds r per_page h))

mul-mod : (q d : ℕ) → (q * d) % d ≡ 0
mul-mod q d = mul-mod_left q d

pub round_up_bounds :
    (value multiple r : ℕ)
    → round_up value multiple ≡ ok r
    → (value ≤ r) × (r < value + multiple) × (r % multiple ≡ 0)
unfolding round_up
round_up_bounds value multiple r h = ground (
  arith,
  div_bounds (value + multiple - 1) multiple,
  mul-mod ((value + multiple - 1) / multiple) multiple,
)

abbrev ranges_overlap_test : ℕ → ℕ → ℕ → ℕ → Bool
ranges_overlap_test first first_bytes second second_bytes =
    if first_bytes == 0 || second_bytes == 0
    then false
    else ltb first (second + second_bytes) && ltb second (first + first_bytes)

abbrev pub InRange : ℕ → ℕ → ℕ → Type 0
InRange first bytes at = (first ≤ at) × (at < first + bytes)

-- For two ranges that end at or before 2^64 - 1, the test returns true and some byte lies in both, or
-- it returns false and none does.
pub ranges_overlap-cases :
    (first first_bytes second second_bytes : ℕ)
    → first + first_bytes ≤ size_max
    → second + second_bytes ≤ size_max
    → ((ranges_overlap first first_bytes second second_bytes ≡ ok true)
        × ((at : ℕ) × InRange first first_bytes at × InRange second second_bytes at))
      ⊎ ((ranges_overlap first first_bytes second second_bytes ≡ ok false)
          × ((at : ℕ) → InRange first first_bytes at → InRange second second_bytes at → ⊥))
unfolding ranges_overlap
ranges_overlap-cases first first_bytes second second_bytes f s =
    elim (Bool-cases (ranges_overlap_test first first_bytes second second_bytes)) [
      | inl e ↦ inl (ground arith, (max first second, ground arith, ground arith))
      | inr e ↦ inr (ground arith, λ at p q. ground arith)
    ]

round_up_returns :
    (value multiple : ℕ)
    → 0 < multiple
    → value + multiple ≤ size_max
    → round_up value multiple ≡ ok ((value + multiple - 1) / multiple * multiple)
unfolding round_up
round_up_returns value multiple pos fits = ground arith

pub round_up-ok :
    (value multiple : ℕ)
    → 0 < multiple
    → value + multiple ≤ size_max
    → (r : ℕ) × (round_up value multiple ≡ ok r)
      × (value ≤ r)
      × (r < value + multiple)
      × (r % multiple ≡ 0)
round_up-ok value multiple pos fits =
    let r = (value + multiple - 1) / multiple * multiple in
    let e : round_up value multiple ≡ ok r = round_up_returns value multiple pos fits in
    let (lo, hi, m) = round_up_bounds value multiple r e in (r, e, lo, hi, m)
