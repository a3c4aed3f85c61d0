-- ===== src/Metadata/Pack.antt =====
-- Packing a whole list, and appending to a packed list.
use recast.Prelude.{
  ℕ, zero, suc, ◌+◌, ◌*◌, ◌%◌, ◌≤◌, ◌<◌, ◌≡◌, ◌≢◌, refl, ◌⊎◌, inl, inr, not, ok, err, logic_error,
  throw_if, ltb, ◌==◌, if◌then◌else◌, Pointer, fill, iterate, try_iterate, arith, Bool-cases,
}
use recast.Checked.{size_max}
use recast.Metadata.{
  Metadata, sentinel, write_row, metadata_at_lane, is_empty_row, packed_metadata_size_bbs32,
  pack_metadata_bbs32,
}
use recast.Metadata.Lanes.{row_at, row_at-iterate_zero, is_empty_row-cases}

row_at-fill :
    (cells : ℕ → ℕ) (padded row : ℕ)
    → padded % 32 ≡ 0
    → row_at (fill cells 0 (padded * 3) 255) row
      ≡ (if ltb row padded then sentinel else row_at cells row)
unfolding row_at metadata_at_lane
row_at-fill cells padded row h = ground arith

-- The bytes of a packed list: the metadata of its rows, then the padding value up to its padded
-- size. Rows beyond are not written.
unfoldable pub packed_rows : Pointer Metadata → ℕ → ℕ → Pointer ℕ → ℕ → Metadata
packed_rows metadata size padded_size output row =
    if ltb row size
    then metadata.cells row
    else if ltb row padded_size
    then sentinel
    else row_at output.cells row

-- With buffers that are not null and a padded size that is a multiple of 32, at least the number of
-- records, and whose bytes fit size_t, the packing succeeds at the same address. The rows then read
-- as the records, then as the padding value up to the padded size, and are unchanged beyond.
pub pack_metadata-rows :
    (metadata : Pointer Metadata) (size padded_size : ℕ) (output : Pointer ℕ)
    → size ≤ padded_size
    → padded_size % 32 ≡ 0
    → padded_size * 3 ≤ size_max
    → metadata.address ≢ 0
    → output.address ≢ 0
    → (packed : Pointer ℕ) × (pack_metadata_bbs32 metadata size padded_size output ≡ ok packed)
      × (packed.address ≡ output.address)
      × ((row : ℕ) → row_at packed.cells row ≡ packed_rows metadata size padded_size output row)
unfolding pack_metadata_bbs32 packed_metadata_size_bbs32 packed_rows
pack_metadata-rows metadata size padded_size output fits multiple room there here =
    elim (Bool-cases (padded_size == 0)) [
      | inl e ↦ (output, ground arith, refl, λ row. ground arith)
      | inr e ↦ (
        record output {
          cells =
              iterate size (λ i cells. write_row cells i (metadata.cells i))
                (fill output.cells 0 (padded_size * 3) 255);
        },
        ground arith,
        refl,
        λ row.
            rw
              (
                row_at-iterate_zero (fill output.cells 0 (padded_size * 3) 255) size metadata.cells
                    row,
                row_at-fill output.cells padded_size row multiple,
              )
              refl,
      )
    ]

-- The check of the destination: it passes exactly on empty rows.
pub validate_rows :
    (cells : ℕ → ℕ) (begin n : ℕ)
    → ((try_iterate n (λ k _. throw_if (not (is_empty_row cells (begin + k))) logic_error) tt
          ≡ ok tt)
        × ((row : ℕ) → begin ≤ row → row < begin + n → row_at cells row ≡ sentinel))
      ⊎ ((try_iterate n (λ k _. throw_if (not (is_empty_row cells (begin + k))) logic_error) tt
            ≡ err logic_error)
          × ((row : ℕ) × (begin ≤ row) × (row < begin + n) × (row_at cells row ≢ sentinel)))
unfolding try_iterate
validate_rows cells begin zero = inl (refl, λ row p q. absurd (omega arith))
validate_rows cells begin (suc n) = elim (validate_rows cells begin n) [
  | inr (e, (row, p, q, r)) ↦ inr (rw e refl, (row, p, omega arith, r))
  | inl (e, all) ↦ elim (is_empty_row-cases cells (begin + n)) [
    | inl (t, s) ↦ inl (rw (e, t) refl, λ row p q. ground (arith, all row))
    | inr (t, s) ↦ inr (rw (e, t) refl, (begin + n, omega arith, omega arith, s))
  ]
]
