-- ===== src/Deletion/Balance.antt =====
-- As many slots move as leave holes.
use recast.Prelude.{
  ℕ, zero, suc, ◌+◌, ◌-◌, ◌≤◌, ◌<◌, ◌≡◌, refl, List, [], ◌∷◌, ◌&&◌, ltb, leb, if◌then◌else◌, length,
  All, arith,
}
use recast.Grouping.Counting.{count}
use recast.Deletion.{holes_below, sources_above}
use recast.Deletion.Sorting.{Increasing, count-Increasing}

-- The elements in [lo, lo + n).
between : ℕ → ℕ → List ℕ → ℕ
between lo n [] = 0
between lo n (x ∷ xs) = (if leb lo x && ltb x (lo + n) then 1 else 0) + between lo n xs

between-suc : (lo n : ℕ) (xs : List ℕ) → between lo (suc n) xs ≡ between lo n xs + count (lo + n) xs
unfolding between count
between-suc lo n [] = refl
between-suc lo n (x ∷ xs) = ground (arith, between-suc lo n xs)

between-zero : (lo : ℕ) (xs : List ℕ) → between lo 0 xs ≡ 0
unfolding between
between-zero lo [] = refl
between-zero lo (x ∷ xs) = ground (arith, between-zero lo xs)

length-sources_above :
    (lo n : ℕ) (deleted : List ℕ)
    → Increasing deleted
    → length (sources_above lo deleted n) + between lo n deleted ≡ n
unfolding sources_above
length-sources_above lo zero deleted up = omega (arith, between-zero lo deleted)
length-sources_above lo (suc n) deleted up = ground (
  arith,
  length-sources_above lo n deleted up,
  between-suc lo n deleted,
  count-Increasing (lo + n) deleted up,
)

length-holes_below :
    (lo n : ℕ) (deleted : List ℕ)
    → All (λ x. x < lo + n) deleted
    → length (holes_below lo deleted) + between lo n deleted ≡ length deleted
unfolding holes_below between
length-holes_below lo n [] h = refl
length-holes_below lo n (x ∷ xs) h = ground (arith, length-holes_below lo n xs h.1)

-- The numbers of holes and of sources agree.
pub holes-sources :
    (old_size new_size : ℕ) (deleted : List ℕ)
    → new_size + length deleted ≡ old_size
    → Increasing deleted
    → All (λ x. x < old_size) deleted
    → length (holes_below new_size deleted)
      ≡ length (sources_above new_size deleted (old_size - new_size))
holes-sources old_size new_size deleted size up inside =
    let n = old_size - new_size in
    let e : old_size ≡ new_size + n = omega arith in
    omega (
      arith,
      length-sources_above new_size n deleted up,
      length-holes_below new_size n deleted (rw e at inside),
    )

length-holes_below_zero : (deleted : List ℕ) → length (holes_below 0 deleted) ≡ 0
unfolding holes_below
length-holes_below_zero [] = refl
length-holes_below_zero (x ∷ xs) = ground (arith, length-holes_below_zero xs)

-- Distinct slots below a bound are at most that many.
pub length-le_of_inside :
    (n : ℕ) (deleted : List ℕ) → Increasing deleted → All (λ x. x < n) deleted → length deleted ≤ n
length-le_of_inside n deleted up inside =
    let e : n ≡ 0 + n = omega arith in
    omega (
      arith,
      length-sources_above 0 n deleted up,
      length-holes_below 0 n deleted (rw e at inside),
      length-holes_below_zero deleted,
    )
