-- ===== src/Codes.antt =====
-- The packed PQ4 codes of adapters/pq4_update_packing.cpp. Faiss's layout of the 4-bit codes is a
-- parameter: `PackedLayout` holds the functions of Faiss 1.8.0 that the source calls.
pub mod Append
pub mod Blocks
use recast.Prelude.{
  ℕ, ◌+◌, ◌-◌, ◌*◌, ◌/◌, ◌%◌, ◌^◌, Bool, not, ◌&&◌, ◌||◌, Result, ok, invalid_argument, logic_error,
  throw_if, ◌>>=◌, ◌>>◌, overflow_error, ltb, ◌==◌, if◌then◌else◌, Pointer, is_null, try_iterate,
}
use recast.Checked.{size_max, checked_multiply, flat_code_size, ranges_overlap}

-- `kUpdateBlockSize`
abbrev pub update_block_size : ℕ
update_block_size = 32

-- The functions on packed codes take the number of subquantizers and the block size after the
-- buffers they read. The packing ones end with the destination's bytes and return them.
pub record PackedLayout : Type 0 where
  pub pq4_get_packed_element : (ℕ → ℕ) → ℕ → ℕ → ℕ → ℕ → ℕ
  pub pq4_pack_codes_range : (ℕ → ℕ) → ℕ → ℕ → ℕ → ℕ → ℕ → (ℕ → ℕ) → ℕ → ℕ
  pub pack_all : ℕ → ℕ → (ℕ → ℕ) → (ℕ → ℕ) → ℕ → ℕ
  pub unpack_all : ℕ → ℕ → (ℕ → ℕ) → (ℕ → ℕ) → ℕ → ℕ

unfoldable pub packed_code_block_bytes : ℕ → Result ℕ
packed_code_block_bytes subquantizers = do
  code_size ← flat_code_size subquantizers
  checked_multiply update_block_size code_size

module _ (faiss : PackedLayout) where
  unfoldable pub validate_empty_packed_code_range_bbs32 :
      ℕ → ℕ → ℕ → Pointer ℕ → ℕ → Result (Unit {0})
  validate_empty_packed_code_range_bbs32 subquantizers begin end packed_codes packed_code_bytes = do
    code_size ← flat_code_size subquantizers
    throw_if (ltb end begin || ltb begin end && is_null packed_codes) invalid_argument
    if begin == end then ok tt else do
      throw_if (ltb (size_max - (update_block_size - 1)) end) overflow_error
      required ←
          checked_multiply ((end + update_block_size - 1) / update_block_size * update_block_size)
            code_size
      throw_if (ltb packed_code_bytes required) invalid_argument
      try_iterate (end - begin)
          (λ i _.
            try_iterate subquantizers
              (λ m _.
                throw_if
                  (not (
                    faiss.pq4_get_packed_element packed_codes.cells update_block_size subquantizers
                      (begin + i) m
                    == 0))
                  logic_error)
              tt)
          tt

  unfoldable pub append_flat_codes_bbs32 :
      Pointer ℕ → ℕ → ℕ → ℕ → ℕ → Pointer ℕ → ℕ → Result (Pointer ℕ)
  append_flat_codes_bbs32 flat_codes flat_code_bytes subquantizers begin end packed_codes
        packed_code_bytes =
      do
        code_size ← flat_code_size subquantizers
        throw_if (ltb end begin || ltb begin end && (is_null flat_codes || is_null packed_codes))
            invalid_argument
        expected ← checked_multiply (end - begin) code_size
        throw_if (not (flat_code_bytes == expected)) invalid_argument
        if end - begin == 0 then ok packed_codes else do
          overlap ←
              ranges_overlap flat_codes.address flat_code_bytes packed_codes.address
                packed_code_bytes
          throw_if overlap invalid_argument
          validate_empty_packed_code_range_bbs32 subquantizers begin end packed_codes
              packed_code_bytes
          ok (record packed_codes {
            cells =
                faiss.pq4_pack_codes_range flat_codes.cells subquantizers begin end
                  update_block_size subquantizers packed_codes.cells;
          })

  unfoldable pub unpack_flat_block_bbs32 : Pointer ℕ → ℕ → ℕ → Pointer ℕ → ℕ → Result (Pointer ℕ)
  unpack_flat_block_bbs32 packed_block packed_block_bytes subquantizers flat_codes flat_code_bytes =
      do
        expected ← packed_code_block_bytes subquantizers
        throw_if
            (is_null packed_block
              || is_null flat_codes
              || not (packed_block_bytes == expected)
              || not (flat_code_bytes == expected))
            invalid_argument
        overlap ←
            ranges_overlap packed_block.address packed_block_bytes flat_codes.address
              flat_code_bytes
        throw_if overlap invalid_argument
        ok (record flat_codes {
          cells =
              faiss.unpack_all subquantizers update_block_size packed_block.cells flat_codes.cells;
        })

  unfoldable pub rewrite_flat_block_bbs32 : Pointer ℕ → ℕ → ℕ → Pointer ℕ → ℕ → Result (Pointer ℕ)
  rewrite_flat_block_bbs32 flat_codes flat_code_bytes subquantizers packed_block
        packed_block_bytes =
      do
        expected ← packed_code_block_bytes subquantizers
        throw_if
            (is_null flat_codes
              || is_null packed_block
              || not (flat_code_bytes == expected)
              || not (packed_block_bytes == expected))
            invalid_argument
        overlap ←
            ranges_overlap flat_codes.address flat_code_bytes packed_block.address
              packed_block_bytes
        throw_if overlap invalid_argument
        ok (record packed_block {
          cells =
              faiss.pack_all subquantizers update_block_size flat_codes.cells packed_block.cells;
        })
