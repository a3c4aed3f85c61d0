-- ===== src/Codes/Blocks.antt =====
-- One 32-row block of packed codes out to flat codes and back (`unpack_flat_block_bbs32`,
-- `rewrite_flat_block_bbs32`), and every way they can fail.
use recast.Prelude.{
  Bool, ℕ, ◌+◌, ◌-◌, ◌*◌, ◌/◌, ◌%◌, ◌≤◌, ◌<◌, ◌≡◌, ◌≢◌, refl, inl, inr, false, true, not, ◌||◌, ok,
  ◌>>=◌, ◌>>◌, ◌==◌, ◌⊎◌, Pointer, is_null, arith, Error, Result, invalid_argument, overflow_error,
  throw_if, Bool-cases, ltb,
}
use recast.Checked.{size_max, flat_code_size, ranges_overlap}
use recast.Checked.Bounds.{checked_multiply-Fits, ranges_overlap-cases, InRange}
use recast.Codes.{
  PackedLayout, packed_code_block_bytes, unpack_flat_block_bbs32, rewrite_flat_block_bbs32,
}
use recast.Codes.Append.{flat_nibble, lane_at, Ends, Ends-then, Ends-throw_if}

abbrev pub block_bytes : ℕ → ℕ
block_bytes subquantizers = 32 * (subquantizers / 2)

module _ (subquantizers : ℕ) (source : Pointer ℕ) (source_bytes : ℕ) (target : Pointer ℕ)
    (target_bytes : ℕ) where
  -- A source and a target of the size that a block has, with no byte in common.
  pub record CanExchange : Type 0 where
    pub positive : subquantizers ≢ 0
    pub even : subquantizers % 2 ≡ 0
    pub source_there : source.address ≢ 0
    pub target_there : target.address ≢ 0
    pub source_length : source_bytes ≡ block_bytes subquantizers
    pub target_length : target_bytes ≡ block_bytes subquantizers
    pub source_fits : source.address + source_bytes ≤ size_max
    pub target_fits : target.address + target_bytes ≤ size_max
    pub apart :
        (at : ℕ)
        → InRange source.address source_bytes at
        → InRange target.address target_bytes at
        → ⊥

  -- Why an exchange throws, with the class of what it throws.
  pub data ExchangeFault : Error → Type 0 where
    uneven : (subquantizers ≡ 0) ⊎ (subquantizers % 2 ≢ 0) → ExchangeFault invalid_argument
    too_large : size_max < block_bytes subquantizers → ExchangeFault overflow_error
    missing : (source.address ≡ 0) ⊎ (target.address ≡ 0) → ExchangeFault invalid_argument
    wrong_length :
        (source_bytes ≢ block_bytes subquantizers) ⊎ (target_bytes ≢ block_bytes subquantizers)
        → ExchangeFault invalid_argument
    wraps :
        (size_max < source.address + source_bytes) ⊎ (size_max < target.address + target_bytes)
        → ExchangeFault overflow_error
    shared :
        (at : ℕ)
        → InRange source.address source_bytes at
        → InRange target.address target_bytes at
        → ExchangeFault invalid_argument

  abbrev Sized : ℕ → Type 0
  Sized v =
      (v ≡ block_bytes subquantizers)
      × (v ≤ size_max)
      × (subquantizers ≢ 0)
      × (subquantizers % 2 ≡ 0)

  size_ends : Ends (packed_code_block_bytes subquantizers) Sized ExchangeFault
  unfolding packed_code_block_bytes flat_code_size
  size_ends = elim (Bool-cases (subquantizers == 0 || not (subquantizers % 2 == 0))) [
    | inl t ↦ inr (invalid_argument, rw t refl, uneven (ground arith))
    | inr t ↦ rw t (elim (checked_multiply-Fits 32 (subquantizers / 2)) [
      | inl (fits, e) ↦ inl (block_bytes subquantizers, e, (refl, fits, ground arith, ground arith))
      | inr (large, e) ↦ inr (overflow_error, e, too_large large)
    ])
  ]

  abbrev Separate : Bool → Type 0
  Separate overlap =
      ((overlap ≡ true)
        × (at : ℕ) × InRange source.address source_bytes at
        × InRange target.address target_bytes at)
      ⊎ ((overlap ≡ false)
          × (source.address + source_bytes ≤ size_max)
          × (target.address + target_bytes ≤ size_max)
          × ((at : ℕ)
              → InRange source.address source_bytes at
              → InRange target.address target_bytes at
              → ⊥))

  overlap_ends :
      source_bytes ≢ 0
      → target_bytes ≢ 0
      → source_bytes ≤ size_max
      → target_bytes ≤ size_max
      → Ends
          (ranges_overlap source.address source_bytes target.address target_bytes)
          Separate
          ExchangeFault
  unfolding ranges_overlap
  overlap_ends some some' narrow narrow' =
      elim (Bool-cases (source_bytes == 0 || target_bytes == 0)) [
        | inl e ↦ absurd (ground arith)
        | inr e ↦
            elim (Bool-cases (
              ltb (size_max - source_bytes) source.address
              || ltb (size_max - target_bytes) target.address)) [
                | inl w ↦ inr (overflow_error, rw (e, w) refl, wraps (ground arith))
                | inr w ↦
                    elim (ranges_overlap-cases source.address source_bytes target.address
                      target_bytes (ground arith) (ground arith)) [
                        | inl (t, (at, p, q)) ↦ inl (true, t, inl (refl, at, p, q))
                        | inr (t, none) ↦ inl (
                          false,
                          t,
                          inr (refl, ground arith, ground arith, λ at p q. none at p q),
                        )
                      ]
              ]
      ]

  missing_or_length :
      (expected : ℕ)
      → expected ≡ block_bytes subquantizers
      → (is_null source
          || is_null target
          || not (source_bytes == expected)
          || not (target_bytes == expected))
        ≡ true
      → ExchangeFault invalid_argument
  missing_or_length expected e t = elim (Bool-cases (is_null source || is_null target)) [
    | inl u ↦ missing (ground arith)
    | inr u ↦ wrong_length (ground arith)
  ]

  -- The steps of both functions, with the bytes they leave.
  abbrev exchange : (ℕ → ℕ) → Result (Pointer ℕ)
  exchange cells = do
    expected ← packed_code_block_bytes subquantizers
    throw_if
        (is_null source
          || is_null target
          || not (source_bytes == expected)
          || not (target_bytes == expected))
        invalid_argument
    overlap ← ranges_overlap source.address source_bytes target.address target_bytes
    throw_if overlap invalid_argument
    ok (record target { cells = cells })

  exchange_ends :
      (cells : ℕ → ℕ) (Q : Pointer ℕ → Type 0)
      → (CanExchange → Q (record target { cells = cells }))
      → Ends (exchange cells) Q ExchangeFault
  exchange_ends cells Q done =
      Ends-then Sized Q ExchangeFault size_ends λ expected (e, fits, positive, even).
        Ends-throw_if
          (is_null source
            || is_null target
            || not (source_bytes == expected)
            || not (target_bytes == expected))
          invalid_argument Q ExchangeFault (missing_or_length expected e)
          λ t.
            let a : source_bytes ≡ block_bytes subquantizers = ground arith in
            let b : target_bytes ≡ block_bytes subquantizers = ground arith in
            Ends-then Separate Q ExchangeFault
              (overlap_ends (omega arith) (omega arith) (omega arith) (omega arith))
              λ overlap separate. elim separate [
                | inl (o, at, p, q) ↦ rw o (inr (invalid_argument, refl, shared at p q))
                | inr (o, f, g, apart) ↦ rw o (
                    inl (
                      _,
                      refl,
                      done (record {
                        positive = positive;
                        even = even;
                        source_there = ground arith;
                        target_there = ground arith;
                        source_length = a;
                        target_length = b;
                        source_fits = f;
                        target_fits = g;
                        apart = apart;
                      }),
                    ))
              ]

module _ (faiss : PackedLayout) (subquantizers : ℕ) where
  -- What Faiss's code packer does with a block: each writes the codes of 32 rows, in its own layout.
  abbrev pub UnpacksBlock : Type 0
  UnpacksBlock =
      (packed flat : ℕ → ℕ) (row m : ℕ)
      → row < 32
      → m < subquantizers
      → flat_nibble (faiss.unpack_all subquantizers 32 packed flat) subquantizers row m
        ≡ lane_at faiss subquantizers packed row m

  abbrev pub PacksBlock : Type 0
  PacksBlock =
      (flat packed : ℕ → ℕ) (row m : ℕ)
      → row < 32
      → m < subquantizers
      → lane_at faiss subquantizers (faiss.pack_all subquantizers 32 flat packed) row m
        ≡ flat_nibble flat subquantizers row m

  module _ (block : Pointer ℕ) (packed_bytes : ℕ) (flat : Pointer ℕ) (flat_bytes : ℕ) where
    -- The flat codes after an unpacking that was allowed.
    abbrev pub Unpacked : Pointer ℕ → Type 0
    Unpacked after =
        CanExchange subquantizers block packed_bytes flat flat_bytes
        × (after.address ≡ flat.address)
        × ((row m : ℕ)
            → row < 32
            → m < subquantizers
            → flat_nibble after.cells subquantizers row m
              ≡ lane_at faiss subquantizers block.cells row m)

    -- The block after a rewrite that was allowed.
    abbrev pub Rewritten : Pointer ℕ → Type 0
    Rewritten after =
        CanExchange subquantizers flat flat_bytes block packed_bytes
        × (after.address ≡ block.address)
        × ((row m : ℕ)
            → row < 32
            → m < subquantizers
            → lane_at faiss subquantizers after.cells row m
              ≡ flat_nibble flat.cells subquantizers row m)

    -- With Faiss's code packer as `UnpacksBlock` and `PacksBlock` say, unpacking a block into flat
    -- codes and rewriting it from them each end in one of two ways, whatever the arguments are. It
    -- returns the buffer it writes, at its address, with the codes of the 32 rows of the other buffer,
    -- and then it was allowed: the number of subquantizers is positive and even, both buffers are
    -- there, have the size of a block and do not wrap around, and they share no byte
    -- (`CanExchange`). Or it throws, for a reason that `ExchangeFault` lists with the class of the
    -- exception.
    pub exchange-cases :
        UnpacksBlock
        → PacksBlock
        → Ends
            (unpack_flat_block_bbs32 faiss block packed_bytes subquantizers flat flat_bytes)
            Unpacked
            (ExchangeFault subquantizers block packed_bytes flat flat_bytes)
          × Ends
              (rewrite_flat_block_bbs32 faiss flat flat_bytes subquantizers block packed_bytes)
              Rewritten
              (ExchangeFault subquantizers flat flat_bytes block packed_bytes)
    unfolding unpack_flat_block_bbs32 rewrite_flat_block_bbs32
    exchange-cases unpacks packs = (
      exchange_ends subquantizers block packed_bytes flat flat_bytes
          (faiss.unpack_all subquantizers 32 block.cells flat.cells) Unpacked
          λ can. (can, refl, λ row m lo q. unpacks block.cells flat.cells row m lo q),
      exchange_ends subquantizers flat flat_bytes block packed_bytes
          (faiss.pack_all subquantizers 32 flat.cells block.cells) Rewritten
          λ can. (can, refl, λ row m lo q. packs flat.cells block.cells row m lo q),
    )
