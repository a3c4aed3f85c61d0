-- ===== src/Codes/Append.antt =====
-- Appending codes to a packed list (`append_flat_codes_bbs32`), and every way it can fail.
use Prim.Native.Nat.{bit_or-bitwise}
use recast.Prelude.{
  ℕ, zero, suc, ◌+◌, ◌-◌, ◌*◌, ◌/◌, ◌%◌, ◌^◌, ◌≤◌, ◌<◌, ◌≡◌, ◌≢◌, refl, false, ◌>>=◌, ◌>>◌, subst,
  sym, ◌⊎◌, inl, inr, Bool, true, not, Error, ok, err, ◌&&◌, ◌||◌, Result, invalid_argument,
  overflow_error, logic_error, throw_if, ltb, leb, ◌==◌, if◌then◌else◌, Pointer, try_iterate,
  is_null, arith, Bool-cases, bit_or,
}
use recast.Checked.{size_max, checked_multiply, ranges_overlap, flat_code_size}
use recast.Checked.Bounds.{checked_multiply-Fits, ranges_overlap-cases, InRange}
use recast.Codes.{PackedLayout, validate_empty_packed_code_range_bbs32, append_flat_codes_bbs32}

-- The 4-bit code of one subquantizer in a row of the flat codes.
abbrev pub flat_nibble : (ℕ → ℕ) → ℕ → ℕ → ℕ → ℕ
flat_nibble flat subquantizers row m = flat (row * (subquantizers / 2) + m / 2) / 16 ^ (m % 2) % 16

module _ (faiss : PackedLayout) (subquantizers : ℕ) where
  -- The code in a lane of a packed list of 32-row blocks.
  abbrev pub lane_at : (ℕ → ℕ) → ℕ → ℕ → ℕ
  lane_at cells row m = faiss.pq4_get_packed_element cells 32 subquantizers row m

  -- What Faiss's range packing does: it ORs the flat codes into the lanes of the rows from `begin`
  -- to `end`, and changes no other lane.
  abbrev pub OrsIntoRange : Type 0
  OrsIntoRange =
      (flat cells : ℕ → ℕ) (begin end row m : ℕ)
      → m < subquantizers
      → lane_at (faiss.pq4_pack_codes_range flat subquantizers begin end 32 subquantizers cells) row
          m
        ≡ (if leb begin row && ltb row end
            then bit_or (lane_at cells row m) (flat_nibble flat subquantizers (row - begin) m)
            else lane_at cells row m)

  -- A row of the range with a code that is not zero.
  abbrev pub UsedLane : (ℕ → ℕ) → ℕ → ℕ → Type 0
  UsedLane cells begin end =
      (row m : ℕ) × (begin ≤ row) × (row < end) × (m < subquantizers) × (lane_at cells row m ≢ 0)

  abbrev pub EmptyLanes : (ℕ → ℕ) → ℕ → ℕ → Type 0
  EmptyLanes cells begin end =
      (row m : ℕ) → begin ≤ row → row < end → m < subquantizers → lane_at cells row m ≡ 0

bit_or_zero : (b : ℕ) → bit_or 0 b ≡ b
bit_or_zero b i = bit_or-bitwise 0 b i

-- A result that is a value with `P`, or an error with `F`.
abbrev pub Ends {ℓ} : {A : Type ℓ} → Result A → (A → Type ℓ) → (Error → Type ℓ) → Type ℓ
Ends {A = A} r P F = ((v : A) × (r ≡ ok v) × P v) ⊎ ((thrown : Error) × (r ≡ err thrown) × F thrown)

pub Ends-then :
    {A : Type 0} {B : Type 0} {r : Result A} {rest : A → Result B} (P : A → Type 0) (Q : B → Type 0)
    (F : Error → Type 0)
    → Ends r P F
    → ((v : A) → P v → Ends (rest v) Q F)
    → Ends (r >>= rest) Q F
Ends-then P Q F first h = elim first [
  | inl (v, e, p) ↦ rw e (h v p)
  | inr (thrown, e, f) ↦ inr (thrown, rw e refl, f)
]

Ends-before :
    {B : Type 0} {r : Result (Unit {0})} {rest : Result B} (P : Unit {0} → Type 0) (Q : B → Type 0)
    (F : Error → Type 0)
    → Ends r P F
    → ((v : Unit {0}) → P v → Ends rest Q F)
    → Ends (r >> rest) Q F
Ends-before P Q F first h = elim first [
  | inl (v, e, p) ↦ rw e (h v p)
  | inr (thrown, e, f) ↦ inr (thrown, rw e refl, f)
]

pub Ends-throw_if :
    {B : Type 0} {rest : Result B} (test : Bool) (thrown : Error) (Q : B → Type 0)
    (F : Error → Type 0)
    → (test ≡ true → F thrown)
    → (test ≡ false → Ends rest Q F)
    → Ends (throw_if test thrown >> rest) Q F
Ends-throw_if true thrown Q F f h = inr (thrown, refl, f refl)
Ends-throw_if false thrown Q F f h = h refl

-- A loop of checks passes when every one does, and else throws at one that fails.
try_iterate-checks :
    (n : ℕ) (body : ℕ → Result (Unit {0})) (e : Error) (P Q : ℕ → Type 0)
    → ((i : ℕ) → i < n → ((body i ≡ ok tt) × P i) ⊎ ((body i ≡ err e) × Q i))
    → ((try_iterate n (λ i _. body i) tt ≡ ok tt) × ((i : ℕ) → i < n → P i))
      ⊎ ((try_iterate n (λ i _. body i) tt ≡ err e) × (i : ℕ) × (i < n) × Q i)
unfolding try_iterate
try_iterate-checks zero body e P Q h = inl (refl, λ i p. absurd (omega arith))
try_iterate-checks (suc n) body e P Q h =
    elim (try_iterate-checks n body e P Q λ i p. h i (omega arith)) [
      | inr (t, i, p, q) ↦ inr (rw t refl, i, omega arith, q)
      | inl (t, all) ↦ elim (h n (omega arith)) [
        | inr (b, q) ↦ inr (rw (t, b) refl, n, omega arith, q)
        | inl (b, p) ↦ inl (
          rw (t, b) refl,
          λ i r. elim (Bool-cases (ltb i n)) [
            | inl l ↦ all i (ground arith)
            | inr g ↦ let s : i ≡ n = ground arith in rw s p
          ],
        )
      ]
    ]

module _ (faiss : PackedLayout) (subquantizers : ℕ) where
  abbrev lane_test : (ℕ → ℕ) → ℕ → ℕ → ℕ → Result (Unit {0})
  lane_test cells begin i m =
      throw_if (not (lane_at faiss subquantizers cells (begin + i) m == 0)) logic_error

  lane_check :
      (cells : ℕ → ℕ) (begin i m : ℕ)
      → ((lane_test cells begin i m ≡ ok tt)
          × (lane_at faiss subquantizers cells (begin + i) m ≡ 0))
        ⊎ ((lane_test cells begin i m ≡ err logic_error)
            × (lane_at faiss subquantizers cells (begin + i) m ≢ 0))
  lane_check cells begin i m = ground arith

  row_checks :
      (cells : ℕ → ℕ) (begin i : ℕ)
      → ((try_iterate subquantizers (λ m _. lane_test cells begin i m) tt ≡ ok tt)
          × ((m : ℕ) → m < subquantizers → lane_at faiss subquantizers cells (begin + i) m ≡ 0))
        ⊎ ((try_iterate subquantizers (λ m _. lane_test cells begin i m) tt ≡ err logic_error)
            × ((m : ℕ) × (m < subquantizers)
                × (lane_at faiss subquantizers cells (begin + i) m ≢ 0)))
  row_checks cells begin i =
      elim (try_iterate-checks subquantizers (lane_test cells begin i) logic_error
        (λ m. lane_at faiss subquantizers cells (begin + i) m ≡ 0)
        (λ m. lane_at faiss subquantizers cells (begin + i) m ≢ 0)
        λ m p. lane_check cells begin i m) [ inl p ↦ inl p | inr (t, m, p, q) ↦ inr (t, (m, p, q)) ]

  lane_checks :
      (cells : ℕ → ℕ) (begin end : ℕ)
      → ((try_iterate
              (end - begin)
              (λ i _. try_iterate subquantizers (λ m _. lane_test cells begin i m) tt)
              tt
            ≡ ok tt)
          × EmptyLanes faiss subquantizers cells begin end)
        ⊎ ((try_iterate
                (end - begin)
                (λ i _. try_iterate subquantizers (λ m _. lane_test cells begin i m) tt)
                tt
              ≡ err logic_error)
            × UsedLane faiss subquantizers cells begin end)
  lane_checks cells begin end =
      elim (try_iterate-checks (end - begin)
        (λ i. try_iterate subquantizers (λ m _. lane_test cells begin i m) tt) logic_error
        (λ i. (m : ℕ) → m < subquantizers → lane_at faiss subquantizers cells (begin + i) m ≡ 0)
        (λ i. (m : ℕ) × (m < subquantizers) × (lane_at faiss subquantizers cells (begin + i) m ≢ 0))
        λ i p. row_checks cells begin i) [
          | inl (t, all) ↦ inl (
            t,
            λ row m lo hi q.
                let e : begin + (row - begin) ≡ row = omega arith in
                subst (λ r. lane_at faiss subquantizers cells r m ≡ 0) e
                  (all (row - begin) (omega arith) m q),
          )
          | inr (t, i, p, (m, q, r)) ↦ inr (t, (begin + i, m, omega arith, omega arith, q, r))
        ]

  -- Why an append throws, with the class of what it throws.
  pub data AppendFault (flat : Pointer ℕ) (flat_bytes begin end : ℕ) (packed : Pointer ℕ)
      (packed_bytes : ℕ) : Error → Type 0 where
    uneven :
        (subquantizers ≡ 0) ⊎ (subquantizers % 2 ≢ 0)
        → AppendFault flat flat_bytes begin end packed packed_bytes invalid_argument
    backwards :
        end < begin → AppendFault flat flat_bytes begin end packed packed_bytes invalid_argument
    missing :
        begin < end
        → (flat.address ≡ 0) ⊎ (packed.address ≡ 0)
        → AppendFault flat flat_bytes begin end packed packed_bytes invalid_argument
    flat_too_large :
        size_max < (end - begin) * (subquantizers / 2)
        → AppendFault flat flat_bytes begin end packed packed_bytes overflow_error
    wrong_length :
        flat_bytes ≢ (end - begin) * (subquantizers / 2)
        → AppendFault flat flat_bytes begin end packed packed_bytes invalid_argument
    wraps :
        (size_max < flat.address + flat_bytes) ⊎ (size_max < packed.address + packed_bytes)
        → AppendFault flat flat_bytes begin end packed packed_bytes overflow_error
    shared :
        (at : ℕ)
        → InRange flat.address flat_bytes at
        → InRange packed.address packed_bytes at
        → AppendFault flat flat_bytes begin end packed packed_bytes invalid_argument
    rows_too_large :
        size_max < end + 31
        → AppendFault flat flat_bytes begin end packed packed_bytes overflow_error
    packed_too_large :
        size_max < (end + 31) / 32 * 32 * (subquantizers / 2)
        → AppendFault flat flat_bytes begin end packed packed_bytes overflow_error
    too_small :
        packed_bytes < (end + 31) / 32 * 32 * (subquantizers / 2)
        → AppendFault flat flat_bytes begin end packed packed_bytes invalid_argument
    used :
        UsedLane faiss subquantizers packed.cells begin end
        → AppendFault flat flat_bytes begin end packed packed_bytes logic_error

  module _ (flat : Pointer ℕ) (flat_bytes begin end : ℕ) (packed : Pointer ℕ)
      (packed_bytes : ℕ) where
    abbrev pub Fault : Error → Type 0
    Fault = AppendFault flat flat_bytes begin end packed packed_bytes

    multiply_ends :
        (l r value : ℕ)
        → l * r ≡ value
        → (size_max < value → Fault overflow_error)
        → Ends (checked_multiply l r) (λ v. (v ≡ value) × (v ≤ size_max)) Fault
    multiply_ends l r value e f = elim (checked_multiply-Fits l r) [
      | inl (fits, t) ↦ inl (l * r, t, (e, fits))
      | inr (large, t) ↦ inr (overflow_error, t, f (rw (sym e) large))
    ]

    code_size_ends : Ends (flat_code_size subquantizers) (λ v. v ≡ subquantizers / 2) Fault
    unfolding flat_code_size
    code_size_ends = elim (Bool-cases (subquantizers == 0 || not (subquantizers % 2 == 0))) [
      | inl t ↦ inr (invalid_argument, rw t refl, uneven (ground arith))
      | inr t ↦ inl (subquantizers / 2, rw t refl, refl)
    ]

    lanes_end :
        Ends
          (try_iterate
            (end - begin)
            (λ i _. try_iterate subquantizers (λ m _. lane_test packed.cells begin i m) tt)
            tt)
          (λ _. EmptyLanes faiss subquantizers packed.cells begin end)
          Fault
    lanes_end = elim (lane_checks packed.cells begin end) [
      | inl (t, all) ↦ inl (tt, t, all)
      | inr (t, u) ↦ inr (logic_error, t, used u)
    ]

    validate_ends :
        begin < end
        → packed.address ≢ 0
        → Ends
            (validate_empty_packed_code_range_bbs32 faiss subquantizers begin end packed
              packed_bytes)
            (λ _. EmptyLanes faiss subquantizers packed.cells begin end)
            Fault
    unfolding validate_empty_packed_code_range_bbs32
    validate_ends order there =
        let Q : Unit {0} → Type 0 = λ _. EmptyLanes faiss subquantizers packed.cells begin end in
        let distinct : (begin == end) ≡ false = ground arith in
        Ends-then (λ v. v ≡ subquantizers / 2) Q Fault code_size_ends
          λ size e.
            Ends-throw_if (ltb end begin || ltb begin end && is_null packed) invalid_argument Q
              Fault (λ t. absurd (ground arith))
              λ _. rw distinct (
                Ends-throw_if (ltb (size_max - 31) end) overflow_error Q Fault
                  (λ t. rows_too_large (ground arith))
                  λ _.
                    Ends-then
                      (λ v. (v ≡ (end + 31) / 32 * 32 * (subquantizers / 2)) × (v ≤ size_max)) Q
                      Fault
                      (multiply_ends ((end + 32 - 1) / 32 * 32) size
                        ((end + 31) / 32 * 32 * (subquantizers / 2))
                        (let last : end + 32 - 1 ≡ end + 31 = omega arith in rw (e, last) refl)
                        packed_too_large)
                      λ required (r, _).
                        Ends-throw_if (ltb packed_bytes required) invalid_argument Q Fault
                          (λ t. too_small (ground arith)) λ _. lanes_end)

    ranges_ends :
        flat_bytes ≤ size_max
        → packed_bytes ≤ size_max
        → Ends
            (ranges_overlap flat.address flat_bytes packed.address packed_bytes)
            (λ v.
              (v ≡ false)
              ⊎ ((at : ℕ) × InRange flat.address flat_bytes at
                  × InRange packed.address packed_bytes at))
            Fault
    unfolding ranges_overlap
    ranges_ends narrow_flat narrow_packed =
        elim (Bool-cases (flat_bytes == 0 || packed_bytes == 0)) [
          | inl e ↦ inl (false, rw e refl, inl refl)
          | inr e ↦
              elim (Bool-cases (
                ltb (size_max - flat_bytes) flat.address
                || ltb (size_max - packed_bytes) packed.address)) [
                  | inl w ↦ inr (overflow_error, rw (e, w) refl, wraps (ground arith))
                  | inr w ↦
                      elim (ranges_overlap-cases flat.address flat_bytes packed.address packed_bytes
                        (ground arith) (ground arith)) [
                          | inl (t, shared_at) ↦ inl (true, t, inr shared_at)
                          | inr (t, _) ↦ inl (false, t, inl refl)
                        ]
                ]
        ]

    -- The bytes after an append: the flat codes in the lanes of the range, and every other lane as
    -- before.
    abbrev pub Appended : Pointer ℕ → Type 0
    Appended after =
        (after.address ≡ packed.address)
        × EmptyLanes faiss subquantizers packed.cells begin end
        × ((row m : ℕ)
            → m < subquantizers
            → lane_at faiss subquantizers after.cells row m ≡ (
                if leb begin row && ltb row end
                then flat_nibble flat.cells subquantizers (row - begin) m
                else lane_at faiss subquantizers packed.cells row m))

    order-Fault :
        (ltb end begin || ltb begin end && (is_null flat || is_null packed)) ≡ true
        → Fault invalid_argument
    order-Fault t = elim (Bool-cases (ltb end begin)) [
      | inl back ↦ backwards (ground arith)
      | inr forth ↦ missing (ground arith) (ground arith)
    ]

    -- The steps from the overlap test on.
    abbrev write : Result (Pointer ℕ)
    write = do
      overlap ← ranges_overlap flat.address flat_bytes packed.address packed_bytes
      throw_if overlap invalid_argument
      validate_empty_packed_code_range_bbs32 faiss subquantizers begin end packed packed_bytes
      ok (record packed {
        cells =
            faiss.pq4_pack_codes_range flat.cells subquantizers begin end 32 subquantizers
              packed.cells;
      })

    packed_lanes :
        OrsIntoRange faiss subquantizers
        → EmptyLanes faiss subquantizers packed.cells begin end
        → (row m : ℕ) → m < subquantizers
        → lane_at faiss subquantizers
            (faiss.pq4_pack_codes_range flat.cells subquantizers begin end 32 subquantizers
              packed.cells)
            row
            m
          ≡ (if leb begin row && ltb row end
              then flat_nibble flat.cells subquantizers (row - begin) m
              else lane_at faiss subquantizers packed.cells row m)
    packed_lanes ors empty row m q = elim (Bool-cases (leb begin row && ltb row end)) [
      | inl t ↦
          rw
            (
              ors flat.cells packed.cells begin end row m q,
              t,
              empty row m (ground arith) (ground arith) q,
            )
            (bit_or_zero (flat_nibble flat.cells subquantizers (row - begin) m))
      | inr t ↦ rw (ors flat.cells packed.cells begin end row m q, t) refl
    ]

    write_ends :
        OrsIntoRange faiss subquantizers
        → begin < end
        → packed.address ≢ 0
        → flat_bytes ≤ size_max
        → packed_bytes ≤ size_max
        → Ends write Appended Fault
    write_ends ors order there narrow_flat narrow =
        Ends-then
          (λ v.
            (v ≡ false)
            ⊎ ((at : ℕ) × InRange flat.address flat_bytes at
                × InRange packed.address packed_bytes at))
          Appended Fault (ranges_ends narrow_flat narrow)
          λ overlap o.
            Ends-throw_if overlap invalid_argument Appended Fault
              (λ t. elim o [ inl n ↦ absurd (ground arith) | inr (at, p, q) ↦ shared at p q ])
              λ _.
                Ends-before (λ _. EmptyLanes faiss subquantizers packed.cells begin end) Appended
                  Fault (validate_ends order there)
                  λ _ empty. inl (
                    record packed {
                      cells =
                          faiss.pq4_pack_codes_range flat.cells subquantizers begin end 32
                            subquantizers packed.cells;
                    },
                    refl,
                    (refl, empty, packed_lanes ors empty),
                  )

    -- With Faiss's range packing as `OrsIntoRange` says and a buffer size that fits 64 bits, an append
    -- ends in one of two ways. It returns the buffer, at its address, in which the lanes of the rows
    -- from `begin` to `end` hold the flat codes and every other lane is as before, and then all lanes
    -- of the range were zero. Or it throws, for a reason that `AppendFault` lists with the class of the
    -- exception.
    pub append_flat_codes-cases :
        OrsIntoRange faiss subquantizers
        → packed_bytes ≤ size_max
        → Ends
            (append_flat_codes_bbs32 faiss flat flat_bytes subquantizers begin end packed
              packed_bytes)
            Appended
            Fault
    unfolding append_flat_codes_bbs32
    append_flat_codes-cases ors narrow =
        let bad_order = ltb end begin || ltb begin end && (is_null flat || is_null packed) in
        Ends-then (λ v. v ≡ subquantizers / 2) Appended Fault code_size_ends
          λ size e. Ends-throw_if bad_order invalid_argument Appended Fault order-Fault λ ordered.
            Ends-then (λ v. (v ≡ (end - begin) * (subquantizers / 2)) × (v ≤ size_max)) Appended
              Fault
              (multiply_ends (end - begin) size ((end - begin) * (subquantizers / 2)) (rw e refl)
                flat_too_large)
              λ expected (x, fits).
                Ends-throw_if (not (flat_bytes == expected)) invalid_argument Appended Fault
                  (λ u. wrong_length (ground arith))
                  λ same. elim (Bool-cases (end - begin == 0)) [
                    | inl z ↦ rw z (
                        inl (
                          packed,
                          refl,
                          (refl, λ row m lo hi q. absurd (ground arith), λ row m q. ground arith),
                        ))
                    | inr z ↦
                        rw z (write_ends ors (ground arith) (ground arith) (ground arith) narrow)
                  ]
