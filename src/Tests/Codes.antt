-- ===== src/Tests/Codes.antt =====
-- Appending two rows of two subquantizers, and one block out and in, with a concrete layout.
use recast.Prelude.{
  ℕ, zero, suc, Bool, true, Bool-cases, ltb→lt, inl, inr, try_iterate, ◌+◌, ◌-◌, ◌*◌, ◌/◌, ◌%◌, ◌^◌,
  ◌<◌, ◌≡◌, refl, ok, ltb, leb, ◌==◌, ◌&&◌, if◌then◌else◌, Pointer, arith, bit_or,
}
use recast.Checked.{flat_code_size, checked_multiply, ranges_overlap}
use recast.Codes.{
  PackedLayout, validate_empty_packed_code_range_bbs32, append_flat_codes_bbs32,
  packed_code_block_bytes, unpack_flat_block_bbs32, rewrite_flat_block_bbs32,
}
use recast.Codes.Append.{OrsIntoRange, Ends, Appended, Fault, append_flat_codes-cases}
use recast.Codes.Blocks.{
  ExchangeFault, Unpacked, Rewritten, UnpacksBlock, PacksBlock, exchange-cases,
}

-- A layout for two subquantizers: one byte per row, with its two codes in the two halves.
abbrev nibble : ℕ → ℕ → ℕ
nibble byte m = byte / 16 ^ (m % 2) % 16

abbrev rowwise : PackedLayout
rowwise = record {
  pq4_get_packed_element = λ cells block_size subquantizers row m. nibble (cells row) m;
  pq4_pack_codes_range = λ flat subquantizers begin end block_size count cells row.
      if leb begin row && ltb row end
      then bit_or (nibble (cells row) 0) (nibble (flat (row - begin)) 0)
        + 16 * bit_or (nibble (cells row) 1) (nibble (flat (row - begin)) 1)
      else cells row;
  pack_all = λ subquantizers block_size flat cells row. if ltb row 32 then flat row else cells row;
  unpack_all =
      λ subquantizers block_size cells flat row. if ltb row 32 then cells row else flat row;
}

rowwise-UnpacksBlock : UnpacksBlock rowwise 2
rowwise-UnpacksBlock packed flat row m lo q = ground arith

rowwise-PacksBlock : PacksBlock rowwise 2
rowwise-PacksBlock flat packed row m lo q = ground arith

-- Two codes ORed are a code.
abbrev every : ℕ → (ℕ → Bool) → Bool
every zero test = true
every (suc n) test = every n test && test n

every-at : (n : ℕ) (test : ℕ → Bool) (i : ℕ) → every n test ≡ true → i < n → test i ≡ true
every-at zero test i h p = absurd (omega arith)
every-at (suc n) test i h p =
    let rest : every n test ≡ true = ground arith in
    let here : test n ≡ true = ground arith in
    elim (Bool-cases (ltb i n)) [
      | inl l ↦ every-at n test i rest (ground arith)
      | inr g ↦ let e : i ≡ n = ground arith in rw e here
    ]

all_codes : every 16 (λ a. every 16 (λ b. ltb (bit_or a b) 16)) ≡ true
all_codes = refl

bit_or_below : (a b : ℕ) → a < 16 → b < 16 → bit_or a b < 16
bit_or_below a b p q = ltb→lt (bit_or a b) 16 (
    every-at 16 (λ b. ltb (bit_or a b) 16) b
      (every-at 16 (λ a. every 16 (λ b. ltb (bit_or a b) 16)) a all_codes p) q)

rowwise-OrsIntoRange : OrsIntoRange rowwise 2
rowwise-OrsIntoRange flat cells begin end row m q =
    let at : (row - begin) * (2 / 2) + m / 2 ≡ row - begin = omega arith in
    let old = cells row in
    let new = flat (row - begin) in
    let low = bit_or_below (nibble old 0) (nibble new 0) (omega arith) (omega arith) in
    let high = bit_or_below (nibble old 1) (nibble new 1) (omega arith) (omega arith) in
    rw at (elim (Bool-cases (leb begin row && ltb row end)) [
      | inr t ↦ rw t refl
      | inl t ↦ rw t (elim (Bool-cases (m == 0)) [
        | inl z ↦ let e : m ≡ 0 = ground arith in rw e (omega arith)
        | inr z ↦ let e : m ≡ 1 = ground arith in rw e (omega arith)
      ])
    ])

abbrev codes : Pointer ℕ
codes = record { address = 4096; cells = λ i. 33 + i }

abbrev packed : Pointer ℕ
packed = record { address = 8192; cells = λ i. 0 }

append_flat_codes-cases_example :
    Ends
      (append_flat_codes_bbs32 rowwise codes 2 2 3 5 packed 32)
      (Appended rowwise 2 codes 2 3 5 packed 32)
      (Fault rowwise 2 codes 2 3 5 packed 32)
append_flat_codes-cases_example =
    append_flat_codes-cases rowwise 2 codes 2 3 5 packed 32 rowwise-OrsIntoRange (omega arith)

appends :
    append_flat_codes_bbs32 rowwise codes 2 2 3 5 packed 32
    ≡ ok
        (record packed { cells = rowwise.pq4_pack_codes_range codes.cells 2 3 5 32 2 packed.cells })
unfolding append_flat_codes_bbs32 validate_empty_packed_code_range_bbs32 flat_code_size
    checked_multiply ranges_overlap try_iterate
appends = refl

exchange-cases_example :
    Ends
      (unpack_flat_block_bbs32 rowwise packed 32 2 codes 32)
      (Unpacked rowwise 2 packed 32 codes 32)
      (ExchangeFault 2 packed 32 codes 32)
    × Ends
        (rewrite_flat_block_bbs32 rowwise codes 32 2 packed 32)
        (Rewritten rowwise 2 packed 32 codes 32)
        (ExchangeFault 2 codes 32 packed 32)
exchange-cases_example =
    exchange-cases rowwise 2 packed 32 codes 32 rowwise-UnpacksBlock rowwise-PacksBlock

rewrites :
    rewrite_flat_block_bbs32 rowwise codes 32 2 packed 32
    ≡ ok (record packed { cells = rowwise.pack_all 2 32 codes.cells packed.cells })
unfolding rewrite_flat_block_bbs32 packed_code_block_bytes flat_code_size checked_multiply
    ranges_overlap
rewrites = refl
