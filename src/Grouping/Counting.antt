-- ===== src/Grouping/Counting.antt =====
-- How many rows of a batch go to a list, and what the first two loops compute from that.
use recast.Prelude.{
  ℕ, zero, suc, ◌+◌, ◌≤◌, ◌<◌, ◌≡◌, refl, List, [], ◌∷◌, ◌++◌, ok, err, invalid_argument, ltb, ◌==◌,
  if◌then◌else◌, store, try_iterate, length, All, arith, get_or,
}
use recast.Checked.{size_max}
use recast.Checked.Bounds.{checked_add-Fits}
use recast.Grouping.{count_lists, add_prefix}

unfoldable pub count : ℕ → List ℕ → ℕ
count l [] = 0
count l (a ∷ rows) = (if a == l then 1 else 0) + count l rows

-- The rows of all the lists below `l`.
unfoldable pub count_below : ℕ → List ℕ → ℕ
count_below l [] = 0
count_below l (a ∷ rows) = (if ltb a l then 1 else 0) + count_below l rows

unfoldable pub take : ℕ → List ℕ → List ℕ
take zero rows = []
take (suc n) [] = []
take (suc n) (a ∷ rows) = a ∷ take n rows

-- The lists below `l` that receive a row, in increasing order.
unfoldable pub touched_below : ℕ → List ℕ → List ℕ
touched_below zero rows = []
touched_below (suc l) rows =
    if count l rows == 0 then touched_below l rows else touched_below l rows ++ l ∷ []

pub count_below-suc :
    (l : ℕ) (rows : List ℕ) → count_below (suc l) rows ≡ count_below l rows + count l rows
unfolding count count_below
count_below-suc l [] = refl
count_below-suc l (a ∷ rows) = ground (arith, count_below-suc l rows)

pub count_below-zero : (rows : List ℕ) → count_below 0 rows ≡ 0
unfolding count_below
count_below-zero [] = refl
count_below-zero (a ∷ rows) = ground (arith, count_below-zero rows)

pub count_below-le : (l : ℕ) (rows : List ℕ) → count_below l rows ≤ length rows
unfolding count_below
count_below-le l [] = omega arith
count_below-le l (a ∷ rows) = ground (arith, count_below-le l rows)

pub count_below-All :
    (l : ℕ) (rows : List ℕ) → All (λ a. a < l) rows → count_below l rows ≡ length rows
unfolding count_below
count_below-All l [] h = refl
count_below-All l (a ∷ rows) h = ground (arith, count_below-All l rows h.1)

pub count_below_mono : (k l : ℕ) (rows : List ℕ) → k ≤ l → count_below k rows ≤ count_below l rows
unfolding count_below
count_below_mono k l [] h = omega arith
count_below_mono k l (a ∷ rows) h = ground (arith, count_below_mono k l rows h)

-- The first loop counts, and refuses a list number out of range.
pub count_lists-ok :
    (nlist : ℕ) (rows : List ℕ) (offsets : ℕ → ℕ)
    → All (λ a. a < nlist) rows
    → (counted : ℕ → ℕ) × (count_lists nlist rows offsets ≡ ok counted)
      × (counted 0 ≡ offsets 0)
      × ((l : ℕ) → counted (suc l) ≡ offsets (suc l) + count l rows)
unfolding count_lists count
count_lists-ok nlist [] offsets h = (offsets, refl, refl, λ l. omega arith)
count_lists-ok nlist (a ∷ rows) offsets h =
    let (counted, e, z, s) =
      count_lists-ok nlist rows (store offsets (a + 1) (offsets (a + 1) + 1)) h.1 in
    (counted, ground arith, ground arith, λ l. ground (arith, s l))

pub count_lists-err :
    (nlist : ℕ) (rows : List ℕ) (offsets : ℕ → ℕ) (j : ℕ)
    → j < length rows
    → nlist ≤ get_or rows j 0
    → count_lists nlist rows offsets ≡ err invalid_argument
unfolding count_lists
count_lists-err nlist [] offsets j h g = absurd (omega arith)
count_lists-err nlist (a ∷ rows) offsets zero h g = ground arith
count_lists-err nlist (a ∷ rows) offsets (suc j) h g =
    ground (arith, count_lists-err nlist rows (store offsets (a + 1) (offsets (a + 1) + 1)) j)

add_prefix-step :
    (k : ℕ) (rows : List ℕ) (offsets : ℕ → ℕ)
    → length rows ≤ size_max
    → offsets k ≡ count_below k rows
    → offsets (suc k) ≡ count k rows
    → add_prefix k (offsets, touched_below k rows)
      ≡ ok (
        store offsets (k + 1) (count_below (suc k) rows),
        if count k rows == 0 then touched_below k rows else touched_below k rows ++ k ∷ [],
      )
unfolding add_prefix
add_prefix-step k rows offsets small here next =
    let n : k + 1 ≡ suc k = omega arith in
    let total = count_below-suc k rows in
    let le = count_below-le (suc k) rows in
    rw (n, here, next, total) (ground (arith, checked_add-Fits (count_below k rows) (count k rows)))

-- The second loop: the offsets are the numbers of rows below each list.
pub prefix-ok :
    (k : ℕ) (rows : List ℕ) (counted : ℕ → ℕ)
    → length rows ≤ size_max
    → counted 0 ≡ 0
    → ((l : ℕ) → counted (suc l) ≡ count l rows)
    → (offsets : ℕ → ℕ) × (try_iterate k add_prefix (counted, [])
        ≡ ok (offsets, touched_below k rows))
      × ((l : ℕ) → l ≤ k → offsets l ≡ count_below l rows)
      × ((l : ℕ) → k ≤ l → offsets (suc l) ≡ count l rows)
unfolding try_iterate touched_below
prefix-ok zero rows counted small z s =
    (counted, refl, λ l h. ground (arith, count_below-zero rows), λ l h. s l)
prefix-ok (suc k) rows counted small z s =
    let (offsets, e, done, left) = prefix-ok k rows counted small z s in
    let sum : offsets k + offsets (suc k) ≡ count_below (suc k) rows =
      omega (arith, done k, left k, count_below-suc k rows) in
    (
      store offsets (k + 1) (count_below (suc k) rows),
      rw e (add_prefix-step k rows offsets small (done k (omega arith)) (left k (omega arith))),
      λ l h. ground (arith, done l),
      λ l h. ground (arith, left l),
    )
