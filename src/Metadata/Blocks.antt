-- ===== src/Metadata/Blocks.antt =====
-- One 32-row block out to ordinary records and back.
use recast.Prelude.{
  ℕ, zero, suc, ◌+◌, ◌≤◌, ◌<◌, ◌≡◌, ◌≢◌, refl, ap, inl, inr, fun_ext, false, ok, ◌>>=◌, ltb,
  if◌then◌else◌, Pointer, store, iterate, arith,
}
use recast.Checked.{size_max, ranges_overlap}
use recast.Checked.Bounds.{ranges_overlap-cases, InRange}
use recast.Metadata.{
  Metadata, metadata_at_lane, unpack_metadata_block_bbs32, rewrite_metadata_block_bbs32,
}
use recast.Metadata.Lanes.{row_at, rows_ext}
use recast.Metadata.Pack.{packed_rows, pack_metadata-rows}
use recast.Metadata.Append.{Pointer_ext}

-- Two buffers of 96 bytes, 32 records and one block, with no byte in common.
pub record CanTransfer (block : Pointer ℕ) (metadata : Pointer Metadata) : Type 0 where
  pub block_there : block.address ≢ 0
  pub metadata_there : metadata.address ≢ 0
  pub block_fits : block.address + 96 ≤ size_max
  pub metadata_fits : metadata.address + 96 ≤ size_max
  pub apart : (at : ℕ) → InRange block.address 96 at → InRange metadata.address 96 at → ⊥

iterate-store {ℓ} :
    {A : Type ℓ} (n : ℕ) (f cells : ℕ → A) (j : ℕ)
    → iterate n (λ i cells. store cells i (f i)) cells j ≡ (if ltb j n then f j else cells j)
unfolding iterate
iterate-store zero f cells j = ground arith
iterate-store (suc n) f cells j = ground (arith, iterate-store n f cells j)

row_at_lane :
    (cells : ℕ → ℕ) (lane : ℕ) → lane < 32 → row_at cells lane ≡ metadata_at_lane cells lane
unfolding row_at metadata_at_lane
row_at_lane cells lane h = ground arith

module _ (block : Pointer ℕ) (metadata : Pointer Metadata) (can : CanTransfer block metadata) where
  apart_ok : ranges_overlap block.address 96 metadata.address 96 ≡ ok false
  apart_ok =
      elim (ranges_overlap-cases block.address 96 metadata.address 96 can.block_fits
        can.metadata_fits) [ inl (e, (at, p, q)) ↦ absurd (can.apart at p q) | inr (e, _) ↦ e ]

  apart_back : ranges_overlap metadata.address 96 block.address 96 ≡ ok false
  apart_back =
      elim (ranges_overlap-cases metadata.address 96 block.address 96 can.metadata_fits
        can.block_fits) [ inl (e, (at, p, q)) ↦ absurd (can.apart at q p) | inr (e, _) ↦ e ]

  pub unpack_metadata_block-rows :
      (m : Pointer Metadata) × (unpack_metadata_block_bbs32 block 96 metadata 32 ≡ ok m)
      × (m.address ≡ metadata.address)
      × ((lane : ℕ)
          → m.cells lane
            ≡ (if ltb lane 32 then metadata_at_lane block.cells lane else metadata.cells lane))
  unfolding unpack_metadata_block_bbs32 metadata_at_lane
  unpack_metadata_block-rows =
      let no = apart_ok in
      (
        record metadata {
          cells =
              iterate 32 (λ lane cells. store cells lane (metadata_at_lane block.cells lane))
                metadata.cells;
        },
        ground arith,
        refl,
        λ lane. iterate-store 32 (metadata_at_lane block.cells) metadata.cells lane,
      )

  pub rewrite_metadata_block-rows :
      (b : Pointer ℕ) × (rewrite_metadata_block_bbs32 metadata 32 block 96 ≡ ok b)
      × (b.address ≡ block.address)
      × ((row : ℕ)
          → row_at b.cells row
            ≡ (if ltb row 32 then metadata.cells row else row_at block.cells row))
  unfolding rewrite_metadata_block_bbs32 packed_rows
  rewrite_metadata_block-rows =
      let no = apart_back in
      let (b, packs, here, rows) =
        pack_metadata-rows metadata 32 32 block (omega arith) (omega arith) (omega arith)
          can.metadata_there can.block_there in
      (b, ground arith, here, λ row. rw (rows row) (ground arith))

CanTransfer-moved :
    (b b' : Pointer ℕ) (m m' : Pointer Metadata)
    → b'.address ≡ b.address
    → m'.address ≡ m.address
    → CanTransfer b m
    → CanTransfer b' m'
CanTransfer-moved b b' m m' e f can = record {
  block_there = rw e can.block_there;
  metadata_there = rw f can.metadata_there;
  block_fits = rw e can.block_fits;
  metadata_fits = rw f can.metadata_fits;
  apart = λ at s t. can.apart at (omega arith) (omega arith);
}

-- For a block and a record buffer that are not null and share no byte, unpacking the block and
-- rewriting it with the records leaves the block as it was.
pub rewrite-unpack :
    (block : Pointer ℕ) (metadata : Pointer Metadata)
    → CanTransfer block metadata
    → (unpack_metadata_block_bbs32 block 96 metadata 32 >>= λ m.
        rewrite_metadata_block_bbs32 m 32 block 96)
      ≡ ok block
rewrite-unpack block metadata can =
    let (m, unpacks, here, lanes) = unpack_metadata_block-rows block metadata can in
    let (b, rewrites, there, rows) =
      rewrite_metadata_block-rows block m
        (CanTransfer-moved block block metadata m refl here can) in
    rw (unpacks, rewrites)
      (ap ok (
        Pointer_ext there (
          rows_ext b.cells block.cells
            λ row. rw (rows row) (ground (arith, lanes row, row_at_lane block.cells row)))))

-- For a block and a record buffer that are not null and share no byte, rewriting the block from the
-- records and unpacking it into the same buffer leaves the records as they were.
pub unpack-rewrite :
    (block : Pointer ℕ) (metadata : Pointer Metadata)
    → CanTransfer block metadata
    → (rewrite_metadata_block_bbs32 metadata 32 block 96 >>= λ b.
        unpack_metadata_block_bbs32 b 96 metadata 32)
      ≡ ok metadata
unpack-rewrite block metadata can =
    let (b, rewrites, there, rows) = rewrite_metadata_block-rows block metadata can in
    let (m, unpacks, here, lanes) =
      unpack_metadata_block-rows b metadata
        (CanTransfer-moved block b metadata metadata there refl can) in
    rw (rewrites, unpacks)
      (ap ok (
        Pointer_ext here
          (fun_ext λ lane. rw (lanes lane) (ground (arith, rows lane, row_at_lane b.cells lane)))))
