-- ===== src/Deletion/Plan.antt =====
-- What the plan of one list's deletion promises.
use recast.Prelude.{
  ℕ, ◌+◌, ◌-◌, ◌%◌, ◌^◌, ◌≤◌, ◌<◌, ◌≡◌, ◌∙◌, sym, refl, ◌⊎◌, inl, inr, true, false, not, List, [],
  ◌∷◌, map, ◌&&◌, ok, err, invalid_argument, ltb, leb, if◌then◌else◌, length, length-map, All,
  arith, Bool-cases, le→ltb, eq→==,
}
use recast.Grouping.Counting.{count}
use recast.Checked.{uint32_max}
use recast.Checked.Bounds.{round_up-ok}
use recast.Deletion.{
  RecordMove, PreparedDeletion, sort_rows, has_shared_slot, contains, holes_below, sources_above,
  pair_moves, plan_deletion, move_records,
}
use recast.Deletion.Sorting.{
  offsets_of, Increasing, has_shared_slot-cases, length-sort_rows, contains-sort_rows,
}
use recast.Deletion.Balance.{holes-sources, length-le_of_inside}
use recast.Deletion.Survivors.{
  contains-holes_below, contains-sources_above, holes_below-Distinct, sources_above-Distinct,
  partner, partner-contains, partner_injective, partner_onto, move_records-pair,
}

-- The slot that a row of the shortened list came from.
abbrev pub origin : List RecordMove → ℕ → ℕ
origin moves = move_records moves (λ o. o) (λ o. o)

-- `plan` shortens a list of `old_size` rows by the slots `deleted`: each row kept came from one
-- slot that is not deleted, and each such slot is kept.
pub record IsSwapPlan (old_size : ℕ) (deleted : List ℕ) (plan : PreparedDeletion) : Type 0 where
  pub old : plan.old_size ≡ old_size
  pub size : plan.new_size + length deleted ≡ old_size
  pub padded :
      (plan.new_padded_size % 32 ≡ 0)
      × (((plan.new_size ≤ plan.new_padded_size) × (plan.new_padded_size < plan.new_size + 32))
          ⊎ ((4294967264 < plan.new_size) × (plan.new_padded_size ≡ 0)))
  pub named : (x : ℕ) → contains x plan.deleted_offsets ≡ contains x deleted
  pub legal :
      All
        (λ (m : RecordMove).
          (m.destination < plan.new_size) × (plan.new_size ≤ m.source) × (m.source < old_size))
        plan.record_moves
  pub kept :
      (i : ℕ)
      → i < plan.new_size
      → (origin plan.record_moves i < old_size)
        × (contains (origin plan.record_moves i) deleted ≡ false)
  pub once :
      (i j : ℕ)
      → i < plan.new_size
      → j < plan.new_size
      → origin plan.record_moves i ≡ origin plan.record_moves j
      → i ≡ j
  pub every :
      (o : ℕ)
      → o < old_size
      → contains o deleted ≡ false
      → (i : ℕ) × (i < plan.new_size) × (origin plan.record_moves i ≡ o)

All-of-contains :
    (xs : List ℕ) (n : ℕ) → ((x : ℕ) → contains x xs ≡ true → x < n) → All (λ x. x < n) xs
unfolding contains
All-of-contains [] n h = tt
All-of-contains (x ∷ xs) n h =
    (h x (ground arith), All-of-contains xs n (λ y c. h y (ground arith)))

contains-of-All : (xs : List ℕ) (n x : ℕ) → All (λ x. x < n) xs → contains x xs ≡ true → x < n
unfolding contains
contains-of-All [] n x h c = cc
contains-of-All (y ∷ ys) n x h c = ground (arith, contains-of-All ys n x h.1)

legal_pairs :
    (lo n : ℕ) (holes sources : List ℕ)
    → ((x : ℕ) → contains x holes ≡ true → x < lo)
    → ((x : ℕ) → contains x sources ≡ true → (lo ≤ x) × (x < n))
    → All
        (λ (m : RecordMove). (m.destination < lo) × (lo ≤ m.source) × (m.source < n))
        (pair_moves holes sources)
unfolding pair_moves contains
legal_pairs lo n [] sources h s = tt
legal_pairs lo n (x ∷ holes) [] h s = tt
legal_pairs lo n (x ∷ holes) (y ∷ sources) h s =
    let (ge, lt) = s y (ground arith) in
    (
      (h x (ground arith), ge, lt),
      legal_pairs lo n holes sources (λ z c. h z (ground arith)) (λ z c. s z (ground arith)),
    )

module _ (old_size new_size : ℕ) (deleted : List ℕ) (size : new_size + length deleted ≡ old_size)
    (up : Increasing deleted) (inside : All (λ x. x < old_size) deleted) where
  abbrev holes : List ℕ
  holes = holes_below new_size deleted

  abbrev sources : List ℕ
  sources = sources_above new_size deleted (old_size - new_size)

  balance : length holes ≡ length sources
  balance = holes-sources old_size new_size deleted size up inside

  hole_iff : (x : ℕ) → contains x holes ≡ (ltb x new_size && contains x deleted)
  hole_iff x = contains-holes_below x new_size deleted

  source_iff :
      (x : ℕ)
      → contains x sources
        ≡ (leb new_size x && ltb x (new_size + (old_size - new_size)) && not (contains x deleted))
  source_iff x = contains-sources_above x new_size (old_size - new_size) deleted

  origin_lem :
      (i : ℕ)
      → origin (pair_moves holes sources) i
        ≡ (if contains i holes then partner i holes sources else i)
  origin_lem i =
      move_records-pair holes sources (λ o. o) (λ o. o) i balance
        (holes_below-Distinct new_size deleted up)

  legal_moves :
      All
        (λ (m : RecordMove).
          (m.destination < new_size) × (new_size ≤ m.source) × (m.source < old_size))
        (pair_moves holes sources)
  legal_moves =
      legal_pairs new_size old_size holes sources (λ x c. ground (arith, hole_iff x))
        (λ x c. ground (arith, source_iff x))

  kept_slot :
      (i : ℕ)
      → i < new_size
      → (origin (pair_moves holes sources) i < old_size)
        × (contains (origin (pair_moves holes sources) i) deleted ≡ false)
  kept_slot i h = rw (origin_lem i) (
      ground (
        arith,
        hole_iff i,
        source_iff (partner i holes sources),
        partner-contains i holes sources balance,
      ))

  once_slot :
      (i j : ℕ)
      → i < new_size
      → j < new_size
      → origin (pair_moves holes sources) i ≡ origin (pair_moves holes sources) j
      → i ≡ j
  once_slot i j h k e = ground (
    arith,
    origin_lem i,
    origin_lem j,
    source_iff (partner i holes sources),
    source_iff (partner j holes sources),
    partner-contains i holes sources balance,
    partner-contains j holes sources balance,
    partner_injective i j holes sources balance
        (sources_above-Distinct new_size deleted (old_size - new_size)),
  )

  every_slot :
      (o : ℕ)
      → o < old_size
      → contains o deleted ≡ false
      → (i : ℕ) × (i < new_size) × (origin (pair_moves holes sources) i ≡ o)
  every_slot o h c = elim (Bool-cases (ltb o new_size)) [
    | inl low ↦ (o, ground arith, rw (origin_lem o) (ground (arith, hole_iff o)))
    | inr high ↦
        let (i, hit, e) =
          partner_onto o holes sources balance (holes_below-Distinct new_size deleted up)
            (ground (arith, source_iff o)) in
        (i, ground (arith, hole_iff i), rw (origin_lem i) (ground arith))
  ]

All-offsets-sort :
    (n : ℕ) (rows : List (ℕ × ℕ))
    → All (λ x. x < n) (offsets_of rows)
    → All (λ x. x < n) (offsets_of (sort_rows rows))
All-offsets-sort n rows h =
    All-of-contains (offsets_of (sort_rows rows)) n
      λ x c. contains-of-All (offsets_of rows) n x h (sym (contains-sort_rows x rows) ∙ c)

length-offsets-sort : (rows : List (ℕ × ℕ)) → length (offsets_of (sort_rows rows)) ≡ length rows
length-offsets-sort rows = length-map (sort_rows rows) (λ (r : ℕ × ℕ). r.0) ∙ length-sort_rows rows

wrapped_padding :
    (n r : ℕ)
    → n ≤ r
    → r < n + 32
    → r % 32 ≡ 0
    → n ≤ uint32_max
    → (r % 2 ^ 32 % 32 ≡ 0)
      × (((n ≤ r % 2 ^ 32) × (r % 2 ^ 32 < n + 32)) ⊎ ((4294967264 < n) × (r % 2 ^ 32 ≡ 0)))
wrapped_padding n r above near multiple small = elim (Bool-cases (ltb r 4294967296)) [
  | inl fits ↦
      let lt : r < 4294967296 = ground arith in
      let e : r % 2 ^ 32 ≡ r = omega arith in rw e (multiple, inl (above, near))
  | inr wraps ↦
      let ge : 4294967296 ≤ r = ground arith in
      let e : r ≡ 4294967296 = omega arith in rw e (refl, inr (omega arith, refl))
]

plan_deletion-shared :
    (list_no old_size : ℕ) (rows : List (ℕ × ℕ))
    → old_size ≤ uint32_max
    → has_shared_slot (sort_rows rows) ≡ true
    → plan_deletion list_no old_size rows ≡ err invalid_argument
unfolding plan_deletion
plan_deletion-shared list_no old_size rows small e =
    let (padded, rounds, _, _, _) =
      round_up-ok (old_size - length rows) 32 (omega arith) (omega arith) in
    elim (Bool-cases (ltb old_size (length rows))) [
      | inl more ↦ rw more refl
      | inr fits ↦ rw (fits, rounds, e) refl
    ]

plan_deletion-IsSwapPlan :
    (list_no old_size : ℕ) (rows : List (ℕ × ℕ))
    → old_size ≤ uint32_max
    → All (λ x. x < old_size) (offsets_of rows)
    → has_shared_slot (sort_rows rows) ≡ false
    → Increasing (offsets_of (sort_rows rows))
    → (plan : PreparedDeletion) × (plan_deletion list_no old_size rows ≡ ok plan)
      × IsSwapPlan old_size (offsets_of rows) plan
unfolding plan_deletion
plan_deletion-IsSwapPlan list_no old_size rows small inside e up =
    let deleted = offsets_of (sort_rows rows) in
    let within = All-offsets-sort old_size rows inside in
    let count = length-offsets-sort rows in
    let most = length-le_of_inside old_size deleted up within in
    let new_size = old_size - length rows in
    let size : new_size + length deleted ≡ old_size = omega arith in
    let (padded, rounds, above, near, multiple) =
      round_up-ok new_size 32 (omega arith) (omega arith) in
    let same = contains-sort_rows in
    (
      record {
        list_no = list_no;
        old_size = old_size;
        new_size = new_size;
        new_padded_size = padded % 2 ^ 32;
        deleted_ids = map (λ (r : ℕ × ℕ). r.1) rows;
        deleted_offsets = deleted;
        expected_deleted_ids = map (λ (r : ℕ × ℕ). r.1) (sort_rows rows);
        holes = holes_below new_size deleted;
        sources = sources_above new_size deleted (old_size - new_size);
        record_moves =
            pair_moves (holes_below new_size deleted)
              (sources_above new_size deleted (old_size - new_size));
      },
      rw
          (
            le→ltb old_size (length rows) (omega arith),
            rounds,
            e,
            eq→== _ _ (balance old_size new_size deleted size up within),
          )
          refl,
      record {
        old = refl;
        size = omega (arith, length-map rows (λ (r : ℕ × ℕ). r.0));
        padded = wrapped_padding new_size padded above near multiple (omega arith);
        named = λ x. same x rows;
        legal = legal_moves old_size new_size deleted size up within;
        kept = λ i h.
            let (lt, live) = kept_slot old_size new_size deleted size up within i h in
            (lt, sym (same _ rows) ∙ live);
        once = once_slot old_size new_size deleted size up within;
        every = λ o h c. every_slot old_size new_size deleted size up within o h (same o rows ∙ c);
      },
    )

-- For a list of at most 2^32 - 1 rows and a share of the batch whose offsets all lie in the list:
-- either two of its rows name one slot, and the plan is refused with invalid_argument, or no two do,
-- and the plan is made. The plan's new size is the old one less the rows deleted, its moves go from
-- the tail to the retained part, and after them the retained slots hold the rows that are not
-- deleted, each of them exactly once. The padded size is the new size rounded up to a multiple of 32,
-- or 0 for a new size above 2^32 - 32, whose rounding does not fit 32 bits. The final test, that there
-- are as many holes as sources, never throws.
pub plan_deletion-cases :
    (list_no old_size : ℕ) (rows : List (ℕ × ℕ))
    → old_size ≤ uint32_max
    → All (λ x. x < old_size) (offsets_of rows)
    → (((x : ℕ) × (2 ≤ count x (offsets_of rows)))
        × (plan_deletion list_no old_size rows ≡ err invalid_argument))
      ⊎ (((x : ℕ) → count x (offsets_of rows) ≤ 1)
          × ((plan : PreparedDeletion) × (plan_deletion list_no old_size rows ≡ ok plan)
              × IsSwapPlan old_size (offsets_of rows) plan))
plan_deletion-cases list_no old_size rows small inside = elim (has_shared_slot-cases rows) [
  | inl (e, twice) ↦ inl (twice, plan_deletion-shared list_no old_size rows small e)
  | inr (e, up, once) ↦ inr (once, plan_deletion-IsSwapPlan list_no old_size rows small inside e up)
]
