-- ===== src/Refine/TopK/Heap.antt =====
-- One insertion into the heap.
use recast.Prelude.{
  ℕ, suc, ◌+◌, ◌*◌, ◌≤◌, ◌<◌, ◌≡◌, refl, ◌⊎◌, inl, inr, Bool, true, not, ◌||◌, List, [], ◌∷◌, ok,
  err, runtime_error, arith, ltb, ltb→lt, ltb→le, Bool-cases, if◌then◌else◌, length, All, All-mono,
  Chain, tally,
}
use recast.Checked.{uint32_max}
use recast.Floats.{magnitude, is_finite, less, IsDistance, less-IsDistance, equal-IsDistance}
use recast.Refine.TopK.{Neighbor, exact_pair_worse_first, push, pop, insert_exact}

-- Both 32 bits wide, and the distance finite and not below zero.
abbrev pub IsNeighbor : Neighbor → Type 0
IsNeighbor n = (n.id ≤ uint32_max) × IsDistance n.distance

-- The distance, then the ID, as one number.
abbrev pub key : Neighbor → ℕ
key n = magnitude n.distance * 4294967296 + n.id

pub exact_pair_worse_first-key :
    (n m : Neighbor)
    → IsNeighbor n
    → IsNeighbor m
    → exact_pair_worse_first n m ≡ ltb (key n) (key m)
unfolding exact_pair_worse_first
exact_pair_worse_first-key n m (a, d) (b, e) =
    rw (equal-IsDistance n.distance m.distance d e)
      (rw (less-IsDistance n.distance m.distance d e) (ground arith))

-- The farthest first.
abbrev pub IsHeap : List Neighbor → Type 0
IsHeap heap = All IsNeighbor heap × Chain (λ (n m : Neighbor). key m ≤ key n) heap

tally-push :
    (test : Neighbor → Bool) (n : Neighbor) (heap : List Neighbor)
    → tally test (push n heap) ≡ tally test (n ∷ heap)
unfolding push
tally-push test n [] = refl
tally-push test n (m ∷ heap) = elim (Bool-cases (exact_pair_worse_first n m)) [
  | inl e ↦ rw e (omega (arith, tally-push test n heap))
  | inr e ↦ rw e refl
]

length-push : (n : Neighbor) (heap : List Neighbor) → length (push n heap) ≡ suc (length heap)
unfolding push
length-push n [] = refl
length-push n (m ∷ heap) = ground (arith, length-push n heap)

push-All :
    (P : Neighbor → Type 0) (n : Neighbor) (heap : List Neighbor)
    → P n
    → All P heap
    → All P (push n heap)
unfolding push
push-All P n [] p all = (p, tt)
push-All P n (m ∷ heap) p (q, all) = elim (Bool-cases (exact_pair_worse_first n m)) [
  | inl e ↦ rw e (q, push-All P n heap p all)
  | inr e ↦ rw e (p, (q, all))
]

-- The farthest of a heap is below its top.
pub top_bounds :
    (n : Neighbor) (heap : List Neighbor)
    → Chain (λ (n m : Neighbor). key m ≤ key n) (n ∷ heap)
    → All (λ (m : Neighbor). key m ≤ key n) heap
top_bounds n [] c = tt
top_bounds n (m ∷ heap) (le, c) =
    (le, All-mono heap (λ k h. omega (arith, h, le)) (top_bounds m heap c))

tail_Chain :
    (n : Neighbor) (heap : List Neighbor)
    → Chain (λ (n m : Neighbor). key m ≤ key n) (n ∷ heap)
    → Chain (λ (n m : Neighbor). key m ≤ key n) heap
tail_Chain n [] c = tt
tail_Chain n (m ∷ heap) c = c.1

cons_Chain :
    (n : Neighbor) (heap : List Neighbor)
    → All (λ (m : Neighbor). key m ≤ key n) heap
    → Chain (λ (n m : Neighbor). key m ≤ key n) heap
    → Chain (λ (n m : Neighbor). key m ≤ key n) (n ∷ heap)
cons_Chain n [] all c = tt
cons_Chain n (m ∷ heap) all c = (all.0, c)

push-IsHeap :
    (n : Neighbor) (heap : List Neighbor) → IsNeighbor n → IsHeap heap → IsHeap (push n heap)
unfolding push
push-IsHeap n [] p heap_is = ((p, tt), tt)
push-IsHeap n (m ∷ heap) p ((q, all), c) =
    rw (exact_pair_worse_first-key n m p q) (elim (Bool-cases (ltb (key n) (key m))) [
      | inl e ↦ rw e (
          let rest = push-IsHeap n heap p (all, tail_Chain m heap c) in
          (
            (q, rest.0),
            cons_Chain m (push n heap)
                (push-All (λ k. key k ≤ key m) n heap (omega (arith, ltb→lt _ _ e))
                  (top_bounds m heap c))
                rest.1,
          ))
      | inr e ↦ rw e ((p, (q, all)), (ltb→le _ _ e, c))
    ])

-- A heap of the nearest of some neighbors, and the others.
pub record IsSelected (topk : ℕ) (seen heap rest : List Neighbor) : Type 0 where
  pub heap_is : IsHeap heap
  pub same : (test : Neighbor → Bool) → tally test seen ≡ tally test heap + tally test rest
  pub size : length heap ≤ topk
  pub full : (rest ≡ []) ⊎ (length heap ≡ topk)
  pub bound : All (λ (r : Neighbor). All (λ (n : Neighbor). key n ≤ key r) heap) rest

-- One neighbor more than fit: the farthest goes.
drop_top :
    (topk : ℕ) (n : Neighbor) (seen heap rest : List Neighbor)
    → IsNeighbor n
    → IsSelected topk seen heap rest
    → topk < length (push n heap)
    → (rest' : List Neighbor) × IsSelected topk (n ∷ seen) (pop (push n heap)) rest'
unfolding push
drop_top topk n seen [] rest p s = λ lt. (
  n ∷ rest,
  record {
    heap_is = (tt, tt);
    same = λ test. omega (arith, s.same test);
    size = omega arith;
    full = inr (omega arith);
    bound = (tt, s.bound);
  },
)
drop_top topk n seen (m ∷ heap) rest p s =
    let ((q, all), c) = s.heap_is in
    let below = top_bounds m heap c in
    rw (exact_pair_worse_first-key n m p q) (elim (Bool-cases (ltb (key n) (key m))) [
      | inl e ↦ rw e (λ lt. (
        m ∷ rest,
        record {
          heap_is = push-IsHeap n heap p (all, tail_Chain m heap c);
          same = λ test. omega (arith, tally-push test n heap, s.same test);
          size = omega (arith, length-push n heap, s.size);
          full = inr (omega (arith, length-push n heap, s.size));
          bound = (
            push-All (λ k. key k ≤ key m) n heap (omega (arith, ltb→lt _ _ e)) below,
            All-mono rest
                (λ r h. push-All (λ k. key k ≤ key r) n heap (omega (arith, ltb→lt _ _ e, h.0)) h.1)
                s.bound,
          );
        },
      ))
      | inr e ↦ rw e (λ lt. (
        n ∷ rest,
        record {
          heap_is = s.heap_is;
          same = λ test. omega (arith, s.same test);
          size = s.size;
          full = inr (omega (arith, s.size));
          bound = (
            (ltb→le _ _ e, All-mono heap (λ k h. omega (arith, h, ltb→le _ _ e)) below),
            s.bound,
          );
        },
      ))
    ])

-- One neighbor more.
insert_step :
    (topk : ℕ) (n : Neighbor) (seen heap rest : List Neighbor)
    → IsNeighbor n
    → IsSelected topk seen heap rest
    → (rest' : List Neighbor) × IsSelected topk
        (n ∷ seen)
        (if ltb topk (length (push n heap)) then pop (push n heap) else push n heap)
        rest'
insert_step topk n seen heap rest p s = elim (Bool-cases (ltb topk (length (push n heap)))) [
  | inl e ↦ rw e (drop_top topk n seen heap rest p s (ltb→lt _ _ e))
  | inr e ↦
      let le : length heap < topk = omega (arith, length-push n heap, ltb→le _ _ e) in
      let none_left : rest ≡ [] = elim s.full [
        | inl f ↦ f
        | inr f ↦ let no_such : ⊥ = omega arith in elim no_such [ ]
      ] in
      rw e (
        rest,
        record {
          heap_is = push-IsHeap n heap p s.heap_is;
          same = λ test. omega (arith, tally-push test n heap, s.same test);
          size = ltb→le _ _ e;
          full = inl none_left;
          bound = rw none_left tt;
        },
      )
]

-- An insertion keeps the nearest, or throws because the distance is none.
pub insert_exact-cases :
    (topk id distance : ℕ) (seen heap rest : List Neighbor)
    → id ≤ uint32_max
    → IsSelected topk seen heap rest
    → ((heap' rest' : List Neighbor) × (insert_exact heap topk id distance ≡ ok heap')
        × IsDistance distance
        × IsSelected topk (record { id = id; distance = distance } ∷ seen) heap' rest')
      ⊎ ((insert_exact heap topk id distance ≡ err runtime_error)
          × ((not (is_finite distance) || less distance 0) ≡ true))
unfolding insert_exact
insert_exact-cases topk id distance seen heap rest h s =
    elim (Bool-cases (not (is_finite distance) || less distance 0)) [
      | inl e ↦ rw e (inr (refl, refl))
      | inr e ↦
          let d : IsDistance distance = ground arith in
          rw e (
            let (rest', s') =
              insert_step topk (record { id = id; distance = distance }) seen heap rest (h, d) s in
            inl (_, rest', refl, d, s'))
    ]
