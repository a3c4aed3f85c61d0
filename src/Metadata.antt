-- ===== src/Metadata.antt =====
-- The metadata bytes beside the codes: `Metadata` of include/recastlib/types.h, their packing in
-- src/fastscan.cpp (`packed_metadata_size_bbs32`, `pack_metadata_bbs32`, `metadata_at_lane`) and
-- the updates of adapters/pq4_update_packing.cpp.
pub mod Lanes
pub mod Pack
pub mod Append
pub mod Blocks
use recast.Prelude.{
  ℕ, ◌+◌, ◌-◌, ◌*◌, ◌/◌, ◌%◌, Bool, not, ◌&&◌, ◌||◌, Result, ok, overflow_error, invalid_argument,
  logic_error, throw_if, ◌>>=◌, ◌>>◌, ltb, ◌==◌, if◌then◌else◌, Pointer, is_null, store, fill,
  iterate, try_iterate,
}
use recast.Checked.{size_max, checked_multiply, ranges_overlap}

pub record Metadata : Type 0 where
  pub norm : ℕ
  pub scale : ℕ
  pub error : ℕ

-- The value of every padding lane.
abbrev pub sentinel : Metadata
sentinel = record { norm = 255; scale = 255; error = 255 }

unfoldable pub packed_metadata_size_bbs32 : ℕ → Result ℕ
packed_metadata_size_bbs32 padded_size = do
  throw_if (not (padded_size % 32 == 0)) invalid_argument
  throw_if (ltb (size_max / 3) padded_size) overflow_error
  ok (padded_size * 3)

-- The three stores of one row.
unfoldable pub write_row : (ℕ → ℕ) → ℕ → Metadata → ℕ → ℕ
write_row cells row m =
    let block_base = row / 32 * 96 in
    let lane = row % 32 in
    store (store (store cells (block_base + lane) m.norm) (block_base + 32 + lane) m.scale)
      (block_base + 64 + lane) m.error

unfoldable pub pack_metadata_bbs32 : Pointer Metadata → ℕ → ℕ → Pointer ℕ → Result (Pointer ℕ)
pack_metadata_bbs32 metadata size padded_size output = do
  throw_if
      (ltb padded_size size
        || not (padded_size % 32 == 0)
        || ltb 0 size && is_null metadata
        || ltb 0 padded_size && is_null output)
      invalid_argument
  if padded_size == 0 then ok output else do
    bytes ← packed_metadata_size_bbs32 padded_size
    ok (record output {
      cells =
          iterate size (λ i cells. write_row cells i (metadata.cells i))
            (fill output.cells 0 bytes 255);
    })

unfoldable pub metadata_at_lane : (ℕ → ℕ) → ℕ → Metadata
metadata_at_lane block lane = record {
  norm = block lane;
  scale = block (32 + lane);
  error = block (64 + lane);
}

-- The test of one destination lane.
unfoldable pub is_empty_row : (ℕ → ℕ) → ℕ → Bool
is_empty_row cells row =
    let block_base = row / 32 * 96 in
    let lane = row % 32 in
    not (
      not (cells (block_base + lane) == 255)
      || not (cells (block_base + 32 + lane) == 255)
      || not (cells (block_base + 64 + lane) == 255))

unfoldable pub validate_empty_packed_metadata_range_bbs32 :
    ℕ → ℕ → Pointer ℕ → ℕ → Result (Unit {0})
validate_empty_packed_metadata_range_bbs32 begin end packed packed_bytes = do
  throw_if (ltb end begin || ltb begin end && is_null packed) invalid_argument
  if begin == end then ok tt else do
    throw_if (ltb (size_max - 31) end) overflow_error
    required ← checked_multiply ((end + 32 - 1) / 32 * 32) 3
    throw_if (ltb packed_bytes required) invalid_argument
    try_iterate (end - begin)
        (λ k _. throw_if (not (is_empty_row packed.cells (begin + k))) logic_error) tt

unfoldable pub write_metadata_range_bbs32 :
    Pointer Metadata → ℕ → ℕ → ℕ → Pointer ℕ → ℕ → Result (Pointer ℕ)
write_metadata_range_bbs32 metadata metadata_count begin end packed packed_bytes = do
  throw_if
      (ltb end begin
        || not (metadata_count == end - begin)
        || ltb begin end && (is_null metadata || is_null packed))
      invalid_argument
  if metadata_count == 0 then ok packed else do
    source_bytes ← checked_multiply metadata_count 3
    overlap ← ranges_overlap metadata.address source_bytes packed.address packed_bytes
    throw_if overlap invalid_argument
    validate_empty_packed_metadata_range_bbs32 begin end packed packed_bytes
    ok (record packed {
      cells =
          iterate metadata_count (λ i cells. write_row cells (begin + i) (metadata.cells i))
            packed.cells;
    })

unfoldable pub unpack_metadata_block_bbs32 :
    Pointer ℕ → ℕ → Pointer Metadata → ℕ → Result (Pointer Metadata)
unpack_metadata_block_bbs32 packed_block packed_block_bytes metadata metadata_count = do
  throw_if
      (is_null packed_block
        || is_null metadata
        || not (packed_block_bytes == 96)
        || not (metadata_count == 32))
      invalid_argument
  overlap ←
      ranges_overlap packed_block.address packed_block_bytes metadata.address (metadata_count * 3)
  throw_if overlap invalid_argument
  ok (record metadata {
    cells =
        iterate 32
          (λ lane cells. store cells lane (record {
            norm = packed_block.cells lane;
            scale = packed_block.cells (32 + lane);
            error = packed_block.cells (64 + lane);
          }))
          metadata.cells;
  })

unfoldable pub rewrite_metadata_block_bbs32 :
    Pointer Metadata → ℕ → Pointer ℕ → ℕ → Result (Pointer ℕ)
rewrite_metadata_block_bbs32 metadata metadata_count packed_block packed_block_bytes = do
  throw_if
      (is_null metadata
        || is_null packed_block
        || not (metadata_count == 32)
        || not (packed_block_bytes == 96))
      invalid_argument
  overlap ←
      ranges_overlap metadata.address (metadata_count * 3) packed_block.address packed_block_bytes
  throw_if overlap invalid_argument
  pack_metadata_bbs32 metadata 32 32 packed_block
