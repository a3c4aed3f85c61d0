-- ===== src/Tests/Packing.antt =====
-- The packing of metadata at small lists.
use recast.Prelude.{ℕ, ◌+◌, ◌-◌, ◌*◌, ◌≡◌, ◌⊎◌, refl, ok, err, logic_error, ◌>>=◌, Pointer, arith}
use recast.Metadata.{
  Metadata, pack_metadata_bbs32, write_metadata_range_bbs32, unpack_metadata_block_bbs32,
  rewrite_metadata_block_bbs32,
}
use recast.Metadata.Lanes.{row_at}
use recast.Metadata.Pack.{packed_rows, pack_metadata-rows}
use recast.Metadata.Append.{
  CanAppend, EmptyRows, UsedRow, appended_rows, write_metadata_range-cases, pack-append,
}
use recast.Metadata.Blocks.{CanTransfer, rewrite-unpack, unpack-rewrite}

abbrev row : ℕ → Metadata
row i = record { norm = i; scale = i + 1; error = i + 2 }

abbrev records : Pointer Metadata
records = record { address = 1000; cells = row }

abbrev rest : Pointer Metadata
rest = record { address = 3000; cells = λ i. row (5 + i) }

abbrev target : Pointer ℕ
target = record { address = 2000; cells = λ i. 255 }

pack_metadata-rows_example :
    (packed : Pointer ℕ) × (pack_metadata_bbs32 records 5 32 target ≡ ok packed)
    × (packed.address ≡ 2000)
    × ((row : ℕ) → row_at packed.cells row ≡ packed_rows records 5 32 target row)
pack_metadata-rows_example =
    pack_metadata-rows records 5 32 target (omega arith) refl (omega arith) (omega arith)
      (omega arith)

rest-CanAppend : CanAppend rest 5 7 target 96
rest-CanAppend = record {
  order = omega arith;
  narrow = omega arith;
  source = omega arith;
  target = omega arith;
  room = omega arith;
  source_fits = omega arith;
  target_fits = omega arith;
  apart = λ at p q. omega arith;
}

write_metadata_range-cases_example :
    ((packed : Pointer ℕ) × (write_metadata_range_bbs32 rest (7 - 5) 5 7 target 96 ≡ ok packed)
      × (packed.address ≡ 2000)
      × ((row : ℕ) → row_at packed.cells row ≡ appended_rows rest 5 7 target row)
      × EmptyRows target.cells 5 7)
    ⊎ ((write_metadata_range_bbs32 rest (7 - 5) 5 7 target 96 ≡ err logic_error)
        × UsedRow target.cells 5 7)
write_metadata_range-cases_example = write_metadata_range-cases rest 5 7 target 96 rest-CanAppend

pack-append_example :
    (pack_metadata_bbs32 records 5 32 target >>= λ packed.
    write_metadata_range_bbs32 rest (7 - 5) 5 7 packed (32 * 3))
    ≡ pack_metadata_bbs32 records 7 32 target
pack-append_example =
    pack-append records rest 5 7 32 target (omega arith) refl (omega arith) (λ i. refl)
      rest-CanAppend

records-CanTransfer : CanTransfer target records
records-CanTransfer = record {
  block_there = omega arith;
  metadata_there = omega arith;
  block_fits = omega arith;
  metadata_fits = omega arith;
  apart = λ at p q. omega arith;
}

rewrite-unpack_example :
    (unpack_metadata_block_bbs32 target 96 records 32 >>= λ m.
    rewrite_metadata_block_bbs32 m 32 target 96)
    ≡ ok target
rewrite-unpack_example = rewrite-unpack target records records-CanTransfer

unpack-rewrite_example :
    (rewrite_metadata_block_bbs32 records 32 target 96 >>= λ b.
    unpack_metadata_block_bbs32 b 96 records 32)
    ≡ ok records
unpack-rewrite_example = unpack-rewrite target records records-CanTransfer
