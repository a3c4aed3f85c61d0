-- ===== src/Selection/Scanned.antt =====
-- The collector over a scan of several blocks (`add_scalar_block`): its reservoir and its heap.
use recast.Prelude.{
  ℕ, zero, suc, ◌+◌, ◌<◌, ◌≡◌, ◌≢◌, refl, sym, ap, subst, ◌∙◌, inl, inr, not, ◌*◌, List, [], ◌∷◌,
  ◌++◌, append_assoc, append-nil, Result, ok, ◌>>=◌, if◌then◌else◌, length, length-append, All,
  All-unappend, Bool-cases, arith, iterate, try_iterate, Pointer, numbers,
}
use recast.Selection.{DistanceEstimate}
use recast.Selection.Collector.{
  FusedIntervalAccumulator, update_upper, admit, append_scalar, lane_id, add_scalar_block,
}
use recast.Selection.Sorting.{Apart, Distinct}
use recast.Selection.Keys.{IsNumber, IsRow, rank}
use recast.Selection.Reservoir.{
  IsReservoir, IsSame, same, appended, shrink_if_full-ok, appended-IsReservoir,
  rejected-IsReservoir,
}
use recast.Selection.Uppers.{IsHeap, update_upper-IsHeap}

-- One block of a list, as the scan hands it over.
pub record Block : Type 0 where
  pub ids : Pointer ℕ
  pub implicit_id_base : ℕ
  pub estimates : ℕ → ℕ
  pub uncertainties : ℕ → ℕ
  pub uppers : ℕ → ℕ
  pub count : ℕ

abbrev pub lane_row : Block → ℕ → DistanceEstimate
lane_row b lane = record {
  id = lane_id b.ids b.implicit_id_base lane;
  estimated_distance = b.estimates lane;
  uncertainty = b.uncertainties lane;
}

-- The first rows of a block, and their upper endpoints.
abbrev pub block_rows : Block → ℕ → List DistanceEstimate
block_rows b zero = []
block_rows b (suc n) = block_rows b n ++ (lane_row b n ∷ [])

abbrev pub block_uppers : Block → ℕ → List ℕ
block_uppers b zero = []
block_uppers b (suc n) = block_uppers b n ++ (b.uppers n ∷ [])

abbrev pub scanned_rows : List Block → List DistanceEstimate
scanned_rows [] = []
scanned_rows (b ∷ blocks) = block_rows b b.count ++ scanned_rows blocks

abbrev pub scanned_uppers : List Block → List ℕ
scanned_uppers [] = []
scanned_uppers (b ∷ blocks) = block_uppers b b.count ++ scanned_uppers blocks

-- The blocks in turn.
abbrev pub add_blocks : List Block → FusedIntervalAccumulator → Result FusedIntervalAccumulator
add_blocks [] acc = ok acc
add_blocks (b ∷ blocks) acc =
    add_scalar_block b.ids b.implicit_id_base b.estimates b.uncertainties b.uppers b.count acc
    >>= add_blocks blocks

-- The collector after some rows and endpoints.
pub record IsCollected (topk z_score limit : ℕ) (seen : List DistanceEstimate) (uppers : List ℕ)
    (acc : FusedIntervalAccumulator) : Type 1 where
  pub topk_is : acc.topk ≡ topk
  pub z_is : acc.z_score ≡ z_score
  pub seen_is : acc.seen ≡ length seen
  pub reservoir : IsReservoir limit seen acc
  pub room : 0 < limit → acc.reservoir_size < 2 * limit
  pub heap : IsHeap topk uppers acc.smallest_uppers

Distinct-left : (xs ys : List DistanceEstimate) → Distinct rank (xs ++ ys) → Distinct rank xs
Distinct-left [] ys d = tt
Distinct-left (x ∷ xs) ys (apart, d) =
    ((All-unappend (λ y. rank x ≢ rank y) xs ys apart).0, Distinct-left xs ys d)

Distinct-last :
    (xs : List DistanceEstimate) (x : DistanceEstimate)
    → Distinct rank (xs ++ (x ∷ []))
    → Apart rank x xs
Distinct-last [] x d = tt
Distinct-last (y ∷ xs) x (apart, d) = (
  (λ e. (All-unappend (λ z. rank y ≢ rank z) xs (x ∷ []) apart).1.0 (sym e)),
  Distinct-last xs x d,
)

-- One lane of a block, after the upper endpoints.
abbrev lane_step : Block → ℕ → FusedIntervalAccumulator → Result FusedIntervalAccumulator
lane_step b lane acc =
    if not (admit acc (b.estimates lane) (lane_id b.ids b.implicit_id_base lane))
    then ok acc
    else append_scalar (lane_row b lane) acc

lane_ok :
    (limit : ℕ) (seen : List DistanceEstimate) (acc : FusedIntervalAccumulator) (b : Block)
    (lane : ℕ)
    → IsReservoir limit seen acc
    → (0 < limit → acc.reservoir_size < 2 * limit)
    → All IsRow (seen ++ (lane_row b lane ∷ []))
    → Distinct rank (seen ++ (lane_row b lane ∷ []))
    → (after : FusedIntervalAccumulator) × (lane_step b lane acc ≡ ok after)
      × IsReservoir limit (seen ++ (lane_row b lane ∷ [])) after
      × (0 < limit → after.reservoir_size < 2 * limit)
      × IsSame acc after
unfolding append_scalar
lane_ok limit seen acc b lane is room all d =
    let (all_seen, row_is) = All-unappend IsRow seen (lane_row b lane ∷ []) all in
    let apart = Distinct-last seen (lane_row b lane) d in
    elim (Bool-cases (admit acc (b.estimates lane) (lane_id b.ids b.implicit_id_base lane))) [
      | inl t ↦
          let (after, e, reservoir, size, kept) =
            shrink_if_full-ok limit (seen ++ (lane_row b lane ∷ []))
              (appended limit seen acc is all_seen (lane_row b lane) row_is.0 apart)
              (appended-IsReservoir limit seen acc is all_seen (lane_row b lane) row_is.0 apart) all
              (λ pos. let r = room pos in omega arith) in
          (
            after,
            rw t e,
            reservoir,
            size,
            record {
              topk = kept.topk;
              z_score = kept.z_score;
              seen = kept.seen;
              uppers = kept.uppers;
            },
          )
      | inr t ↦ (
        acc,
        rw t refl,
        rejected-IsReservoir limit seen acc is all_seen (lane_row b lane) row_is.0 apart t,
        room,
        same acc,
      )
    ]

lanes_ok :
    (limit : ℕ) (seen : List DistanceEstimate) (acc : FusedIntervalAccumulator) (b : Block) (n : ℕ)
    → IsReservoir limit seen acc
    → (0 < limit → acc.reservoir_size < 2 * limit)
    → All IsRow (seen ++ block_rows b n)
    → Distinct rank (seen ++ block_rows b n)
    → (after : FusedIntervalAccumulator) × (try_iterate n (lane_step b) acc ≡ ok after)
      × IsReservoir limit (seen ++ block_rows b n) after
      × (0 < limit → after.reservoir_size < 2 * limit)
      × IsSame acc after
unfolding try_iterate
lanes_ok limit seen acc b zero is room all d = (
  acc,
  refl,
  subst (λ (xs : List DistanceEstimate). IsReservoir limit xs acc) (sym (append-nil seen)) is,
  room,
  same acc,
)
lanes_ok limit seen acc b (suc n) is room all d =
    let last = lane_row b n ∷ [] in
    let e = sym (append_assoc seen (block_rows b n) last) in
    let all' = subst (λ (xs : List DistanceEstimate). All IsRow xs) e all in
    let d' = subst (λ (xs : List DistanceEstimate). Distinct rank xs) e d in
    let (mid, first, reservoir, size, kept) =
      lanes_ok limit seen acc b n is room (All-unappend IsRow (seen ++ block_rows b n) last all').0
        (Distinct-left (seen ++ block_rows b n) last d') in
    let (after, second, reservoir', size', kept') =
      lane_ok limit (seen ++ block_rows b n) mid b n reservoir size all' d' in
    (
      after,
      rw first second,
      subst (λ (xs : List DistanceEstimate). IsReservoir limit xs after) (sym e) reservoir',
      size',
      record {
        topk = kept'.topk ∙ kept.topk;
        z_score = kept'.z_score ∙ kept.z_score;
        seen = kept'.seen ∙ kept.seen;
        uppers = kept'.uppers ∙ kept.uppers;
      },
    )

uppers_ok :
    (topk : ℕ) (uppers heap : List ℕ) (b : Block) (n : ℕ)
    → 0 < topk
    → IsHeap topk uppers heap
    → All IsNumber (block_uppers b n)
    → IsHeap topk
        (uppers ++ block_uppers b n)
        (iterate n (λ lane heap. update_upper topk heap (b.uppers lane)) heap)
unfolding iterate
uppers_ok topk uppers heap b zero pos is all =
    subst (λ (us : List ℕ). IsHeap topk us heap) (sym (append-nil uppers)) is
uppers_ok topk uppers heap b (suc n) pos is all =
    let last = b.uppers n ∷ [] in
    let (front, back) = All-unappend IsNumber (block_uppers b n) last all in
    let before : List ℕ = iterate n (λ lane heap. update_upper topk heap (b.uppers lane)) heap in
    subst (λ (us : List ℕ). IsHeap topk us (update_upper topk before (b.uppers n)))
      (append_assoc uppers (block_uppers b n) last)
      (update_upper-IsHeap topk (uppers ++ block_uppers b n) before (b.uppers n) pos
        (uppers_ok topk uppers heap b n pos is front) back.0)

pub length-block_rows : (b : Block) (n : ℕ) → length (block_rows b n) ≡ n
length-block_rows b zero = refl
length-block_rows b (suc n) =
    omega (arith, length-append (block_rows b n) (lane_row b n ∷ []), length-block_rows b n)

pub length-block_uppers : (b : Block) (n : ℕ) → length (block_uppers b n) ≡ n
length-block_uppers b zero = refl
length-block_uppers b (suc n) =
    omega (arith, length-append (block_uppers b n) (b.uppers n ∷ []), length-block_uppers b n)

-- One block.
block_ok :
    (topk z limit : ℕ) (seen : List DistanceEstimate) (uppers : List ℕ)
    (acc : FusedIntervalAccumulator) (b : Block)
    → 0 < topk
    → IsCollected topk z limit seen uppers acc
    → All IsRow (seen ++ block_rows b b.count)
    → Distinct rank (seen ++ block_rows b b.count)
    → All IsNumber (block_uppers b b.count)
    → (after : FusedIntervalAccumulator) × (add_scalar_block b.ids b.implicit_id_base b.estimates
          b.uncertainties b.uppers b.count acc
        ≡ ok after)
      × IsCollected topk z limit
          (seen ++ block_rows b b.count)
          (uppers ++ block_uppers b b.count)
          after
unfolding add_scalar_block
block_ok topk z limit seen uppers acc b pos is all d numbers =
    let start : FusedIntervalAccumulator = record acc {
      seen = acc.seen + b.count;
      smallest_uppers =
          iterate b.count (λ lane heap. update_upper acc.topk heap (b.uppers lane))
            acc.smallest_uppers;
    } in
    let r = is.reservoir in
    let (after, e, reservoir, size, kept) =
      lanes_ok limit seen start b b.count
        (record {
          limited = r.limited;
          capacity = r.capacity;
          best = r.best;
          all_kept = r.all_kept;
          from = r.from;
          distinct = r.distinct;
          admission = r.admission;
        })
        is.room all d in
    (
      after,
      e,
      record {
        topk_is = kept.topk ∙ is.topk_is;
        z_is = kept.z_score ∙ is.z_is;
        seen_is = omega (
          arith,
          kept.seen,
          is.seen_is,
          length-append seen (block_rows b b.count),
          length-block_rows b b.count,
        );
        reservoir = reservoir;
        room = size;
        heap =
            subst (λ (h : List ℕ). IsHeap topk (uppers ++ block_uppers b b.count) h)
              (sym (
                kept.uppers
                ∙ ap
                    (λ (k : ℕ).
                      iterate b.count (λ lane heap. update_upper k heap (b.uppers lane))
                        acc.smallest_uppers)
                    is.topk_is))
              (uppers_ok topk uppers acc.smallest_uppers b b.count pos is.heap numbers);
      },
    )

pub blocks_ok :
    (topk z limit : ℕ) (seen : List DistanceEstimate) (uppers : List ℕ)
    (acc : FusedIntervalAccumulator) (blocks : List Block)
    → 0 < topk
    → IsCollected topk z limit seen uppers acc
    → All IsRow (seen ++ scanned_rows blocks)
    → Distinct rank (seen ++ scanned_rows blocks)
    → All IsNumber (scanned_uppers blocks)
    → (after : FusedIntervalAccumulator) × (add_blocks blocks acc ≡ ok after)
      × IsCollected topk z limit
          (seen ++ scanned_rows blocks)
          (uppers ++ scanned_uppers blocks)
          after
blocks_ok topk z limit seen uppers acc [] pos is all d numbers =
    (acc, refl, rw (append-nil seen, append-nil uppers) is)
blocks_ok topk z limit seen uppers acc (b ∷ blocks) pos is all d numbers =
    let here = block_rows b b.count in
    let e = sym (append_assoc seen here (scanned_rows blocks)) in
    let f = sym (append_assoc uppers (block_uppers b b.count) (scanned_uppers blocks)) in
    let all' = subst (λ (xs : List DistanceEstimate). All IsRow xs) e all in
    let d' = subst (λ (xs : List DistanceEstimate). Distinct rank xs) e d in
    let (front, back) =
      All-unappend IsNumber (block_uppers b b.count) (scanned_uppers blocks) numbers in
    let (mid, first, collected) =
      block_ok topk z limit seen uppers acc b pos is
        (All-unappend IsRow (seen ++ here) (scanned_rows blocks) all').0
        (Distinct-left (seen ++ here) (scanned_rows blocks) d') front in
    let (after, second, collected') =
      blocks_ok topk z limit (seen ++ here) (uppers ++ block_uppers b b.count) mid blocks pos
        collected all' d' back in
    (
      after,
      rw first second,
      subst
          (λ (us : List ℕ).
            IsCollected topk z limit (seen ++ (here ++ scanned_rows blocks)) us after)
          (sym f)
          (subst
            (λ (xs : List DistanceEstimate).
              IsCollected topk z limit xs
                (uppers ++ block_uppers b b.count ++ scanned_uppers blocks) after)
            (sym e) collected'),
    )
