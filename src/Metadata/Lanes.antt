-- ===== src/Metadata/Lanes.antt =====
-- The layout of the packed bytes, row by row.
use recast.Prelude.{
  ℕ, zero, suc, ◌+◌, ◌-◌, ◌*◌, ◌/◌, ◌%◌, ◌≡◌, fun_ext, true, false, ◌&&◌, ltb, leb, ◌==◌,
  if◌then◌else◌, iterate, arith, ◌⊎◌, ◌≢◌,
}
use recast.Metadata.{Metadata, sentinel, write_row, metadata_at_lane, is_empty_row}

-- What the scanner reads at a row: the lane of its block.
unfoldable pub row_at : (ℕ → ℕ) → ℕ → Metadata
unfolding metadata_at_lane
row_at cells row = metadata_at_lane (λ i. cells (row / 32 * 96 + i)) (row % 32)

-- A store at one row is read back there, and leaves every other row.
pub row_at-write_row :
    (cells : ℕ → ℕ) (i j : ℕ) (m : Metadata)
    → row_at (write_row cells i m) j ≡ (if i == j then m else row_at cells j)
unfolding row_at write_row
row_at-write_row cells i j m = ground arith

-- The rows tell all the bytes.
pub rows_ext : (c d : ℕ → ℕ) → ((row : ℕ) → row_at c row ≡ row_at d row) → c ≡ d
unfolding row_at
rows_ext c d h = fun_ext λ b. ground (arith, h (b / 96 * 32 + b % 32))

-- The rows that a run of stores leaves.
pub row_at-iterate :
    (cells : ℕ → ℕ) (begin n : ℕ) (m : ℕ → Metadata) (j : ℕ)
    → row_at (iterate n (λ i cells. write_row cells (begin + i) (m i)) cells) j
      ≡ (if leb begin j && ltb j (begin + n) then m (j - begin) else row_at cells j)
unfolding iterate
row_at-iterate cells begin zero m j = ground arith
row_at-iterate cells begin (suc n) m j =
    rw
      (
        row_at-write_row (iterate n (λ i cells. write_row cells (begin + i) (m i)) cells)
            (begin + n) j (m n),
        row_at-iterate cells begin n m j,
      )
      (ground arith)

pub row_at-iterate_zero :
    (cells : ℕ → ℕ) (n : ℕ) (m : ℕ → Metadata) (j : ℕ)
    → row_at (iterate n (λ i cells. write_row cells i (m i)) cells) j
      ≡ (if ltb j n then m j else row_at cells j)
unfolding iterate
row_at-iterate_zero cells zero m j = ground arith
row_at-iterate_zero cells (suc n) m j =
    rw
      (
        row_at-write_row (iterate n (λ i cells. write_row cells i (m i)) cells) n j (m n),
        row_at-iterate_zero cells n m j,
      )
      (ground arith)

-- The emptiness test of the updates is that of the padding value.
pub is_empty_row-cases :
    (cells : ℕ → ℕ) (row : ℕ)
    → ((is_empty_row cells row ≡ true) × (row_at cells row ≡ sentinel))
      ⊎ ((is_empty_row cells row ≡ false) × (row_at cells row ≢ sentinel))
unfolding is_empty_row row_at
is_empty_row-cases cells row = ground arith
