-- ===== src/Metadata/Append.antt =====
-- Appending to a packed list (`write_metadata_range_bbs32`).
use recast.Prelude.{
  ℕ, ◌+◌, ◌-◌, ◌*◌, ◌/◌, ◌%◌, ◌≤◌, ◌<◌, ◌≡◌, ◌≢◌, refl, sym, ◌∙◌, ap, ◌⊎◌, inl, inr, false, ◌&&◌,
  ok, err, logic_error, ◌>>=◌, ltb, leb, if◌then◌else◌, Pointer, iterate, arith,
}
use recast.Checked.{size_max, checked_multiply, ranges_overlap}
use recast.Checked.Bounds.{checked_multiply-Fits, ranges_overlap-cases, InRange}
use recast.Metadata.{
  Metadata, sentinel, write_row, pack_metadata_bbs32, validate_empty_packed_metadata_range_bbs32,
  write_metadata_range_bbs32,
}
use recast.Metadata.Lanes.{row_at, row_at-iterate, rows_ext}
use recast.Metadata.Pack.{packed_rows, pack_metadata-rows, validate_rows}

-- The caller's part: a destination that holds the padded rows, apart from the source.
pub record CanAppend (metadata : Pointer Metadata) (begin end : ℕ) (packed : Pointer ℕ)
    (packed_bytes : ℕ) : Type 0 where
  pub order : begin < end
  pub narrow : end + 31 ≤ size_max
  pub source : metadata.address ≢ 0
  pub target : packed.address ≢ 0
  pub room : (end + 32 - 1) / 32 * 32 * 3 ≤ packed_bytes
  pub source_fits : metadata.address + (end - begin) * 3 ≤ size_max
  pub target_fits : packed.address + packed_bytes ≤ size_max
  pub apart :
      (at : ℕ)
      → InRange metadata.address ((end - begin) * 3) at
      → InRange packed.address packed_bytes at
      → ⊥

-- All rows of the range hold the padding value.
abbrev pub EmptyRows : (ℕ → ℕ) → ℕ → ℕ → Type 0
EmptyRows cells begin end = (row : ℕ) → begin ≤ row → row < end → row_at cells row ≡ sentinel

abbrev pub UsedRow : (ℕ → ℕ) → ℕ → ℕ → Type 0
UsedRow cells begin end = (row : ℕ) × (begin ≤ row) × (row < end) × (row_at cells row ≢ sentinel)

multiply_ok : (l r : ℕ) → l * r ≤ size_max → checked_multiply l r ≡ ok (l * r)
multiply_ok l r h = ground (arith, checked_multiply-Fits l r)

-- The rows after the append.
pub appended_rows : Pointer Metadata → ℕ → ℕ → Pointer ℕ → ℕ → Metadata
appended_rows metadata begin end packed row =
    if leb begin row && ltb row end then metadata.cells (row - begin) else row_at packed.cells row

module _ (metadata : Pointer Metadata) (begin end : ℕ) (packed : Pointer ℕ) (packed_bytes : ℕ)
    (can : CanAppend metadata begin end packed packed_bytes) where
  validate-cases :
      ((validate_empty_packed_metadata_range_bbs32 begin end packed packed_bytes ≡ ok tt)
        × EmptyRows packed.cells begin end)
      ⊎ ((validate_empty_packed_metadata_range_bbs32 begin end packed packed_bytes
            ≡ err logic_error)
          × UsedRow packed.cells begin end)
  unfolding validate_empty_packed_metadata_range_bbs32
  validate-cases =
      let size = multiply_ok ((end + 32 - 1) / 32 * 32) 3 (omega arith) in
      elim (validate_rows packed.cells begin (end - begin)) [
        | inl (e, all) ↦ inl (ground arith, λ row p q. all row p (omega arith))
        | inr (e, (row, p, q, r)) ↦ inr (ground arith, (row, p, omega arith, r))
      ]

  apart_ok :
      ranges_overlap metadata.address ((end - begin) * 3) packed.address packed_bytes ≡ ok false
  apart_ok =
      elim (ranges_overlap-cases metadata.address ((end - begin) * 3) packed.address packed_bytes
        can.source_fits can.target_fits) [
          | inl (e, (at, p, q)) ↦ absurd (can.apart at p q)
          | inr (e, _) ↦ e
        ]

  -- With buffers that the caller owns (`CanAppend`), an append of the rows from `begin` to `end` ends
  -- in one of two ways. If every row of the range holds the padding value, the rows of the range
  -- become the given records and every other row keeps its bytes; otherwise the call throws
  -- logic_error.
  pub write_metadata_range-cases :
      ((packed' : Pointer ℕ) × (write_metadata_range_bbs32 metadata
            (end - begin)
            begin
            end
            packed
            packed_bytes
          ≡ ok packed')
        × (packed'.address ≡ packed.address)
        × ((row : ℕ) → row_at packed'.cells row ≡ appended_rows metadata begin end packed row)
        × EmptyRows packed.cells begin end)
      ⊎ ((write_metadata_range_bbs32 metadata (end - begin) begin end packed packed_bytes
            ≡ err logic_error)
          × UsedRow packed.cells begin end)
  unfolding write_metadata_range_bbs32 appended_rows
  write_metadata_range-cases =
      let size = multiply_ok (end - begin) 3 (omega arith) in
      let room = apart_ok in
      elim validate-cases [
        | inr (e, used) ↦ inr (ground arith, used)
        | inl (e, all) ↦ inl (
          record packed {
            cells =
                iterate (end - begin) (λ i cells. write_row cells (begin + i) (metadata.cells i))
                  packed.cells;
          },
          ground arith,
          refl,
          λ row.
              rw (row_at-iterate packed.cells begin (end - begin) metadata.cells row)
                (ground arith),
          all,
        )
      ]

pub Pointer_ext {ℓ} :
    {A : Type ℓ} {p q : Pointer A} → p.address ≡ q.address → p.cells ≡ q.cells → p ≡ q
Pointer_ext a c i = record { address = a i; cells = c i }

CanAppend-moved :
    (metadata : Pointer Metadata) (begin end : ℕ) (p q : Pointer ℕ) (bytes : ℕ)
    → q.address ≡ p.address
    → CanAppend metadata begin end p bytes
    → CanAppend metadata begin end q bytes
CanAppend-moved metadata begin end p q bytes e can = record {
  order = can.order;
  narrow = can.narrow;
  source = can.source;
  target = rw e can.target;
  room = can.room;
  source_fits = can.source_fits;
  target_fits = rw e can.target_fits;
  apart = λ at s t. can.apart at s (omega arith);
}

-- Packing the first `n` records and then appending the records from `n` to `m` leaves the same
-- buffer, byte for byte, as packing `m` records at once, when the padded size is a multiple of 32
-- that holds `m` rows, the first buffer is not null, and the second holds the records from `n` on
-- and may be appended (`CanAppend`).
pub pack-append :
    (metadata rest : Pointer Metadata) (n m padded_size : ℕ) (output : Pointer ℕ)
    → m ≤ padded_size
    → padded_size % 32 ≡ 0
    → metadata.address ≢ 0
    → ((i : ℕ) → rest.cells i ≡ metadata.cells (n + i))
    → CanAppend rest n m output (padded_size * 3)
    → (pack_metadata_bbs32 metadata n padded_size output >>= λ packed.
        write_metadata_range_bbs32 rest (m - n) n m packed (padded_size * 3))
      ≡ pack_metadata_bbs32 metadata m padded_size output
unfolding appended_rows packed_rows
pack-append metadata rest n m padded_size output fits multiple there same can =
    let (p, packs, here, rows) =
      pack_metadata-rows metadata n padded_size output (omega arith) multiple (omega arith) there
        can.target in
    let (q, packs', here', rows') =
      pack_metadata-rows metadata m padded_size output fits multiple (omega arith) there
        can.target in
    elim (write_metadata_range-cases rest n m p (padded_size * 3)
      (CanAppend-moved rest n m output p (padded_size * 3) here can)) [
        | inl (p', writes, stays, after, _) ↦
            rw (packs, packs', writes)
              (ap ok (
                Pointer_ext (stays ∙ here ∙ sym here') (
                  rows_ext p'.cells q.cells
                    λ row. rw (after row, rows' row) (ground (arith, rows row, same (row - n))))))
        | inr (_, (row, lo, hi, used)) ↦ absurd (used (rw (rows row) (ground arith)))
      ]
