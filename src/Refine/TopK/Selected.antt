-- ===== src/Refine/TopK/Selected.antt =====
-- The finished result: the nearest of all that were inserted, in order.
use recast.Prelude.{
  ℕ, ◌+◌, ◌≤◌, ◌≡◌, refl, ap, inl, inr, Bool, true, List, [], ◌∷◌, arith, length, min, All,
  All-mono, All-append, Chain, Chain-snoc, tally, tally-append,
}
use recast.Refine.TopK.{Neighbor, finish_topk}
use recast.Refine.TopK.Heap.{key, IsSelected}

-- The nearest `topk` of some neighbors, by distance and then by ID.
pub record IsTopK (topk : ℕ) (seen output : List Neighbor) : Type 0 where
  pub size : length output ≡ min topk (length seen)
  pub sorted : Chain (λ (n m : Neighbor). key n ≤ key m) output
  pub rest : List Neighbor
  pub same : (test : Neighbor → Bool) → tally test seen ≡ tally test output + tally test rest
  pub bound : All (λ (r : Neighbor). All (λ (n : Neighbor). key n ≤ key r) output) rest

pub tally-true : (xs : List Neighbor) → tally (λ x. true) xs ≡ length xs
tally-true [] = refl
tally-true (x ∷ xs) = omega (arith, tally-true xs)

tally-finish_topk :
    (test : Neighbor → Bool) (heap : List Neighbor)
    → tally test (finish_topk heap) ≡ tally test heap
unfolding finish_topk
tally-finish_topk test [] = refl
tally-finish_topk test (n ∷ heap) =
    omega (arith, tally-append test (finish_topk heap) (n ∷ []), tally-finish_topk test heap)

finish_topk-All :
    (P : Neighbor → Type 0) (heap : List Neighbor) → All P heap → All P (finish_topk heap)
unfolding finish_topk
finish_topk-All P [] all = tt
finish_topk-All P (n ∷ heap) (p, all) =
    All-append P (finish_topk heap) (n ∷ []) (finish_topk-All P heap all) (p, tt)

finish_topk-Chain :
    (heap : List Neighbor)
    → Chain (λ (n m : Neighbor). key m ≤ key n) heap
    → Chain (λ (n m : Neighbor). key n ≤ key m) (finish_topk heap)
unfolding finish_topk
finish_topk-Chain [] c = tt
finish_topk-Chain (n ∷ []) c = tt
finish_topk-Chain (n ∷ m ∷ heap) c =
    Chain-snoc (λ (n m : Neighbor). key n ≤ key m) (finish_topk heap) m n
      (finish_topk-Chain (m ∷ heap) c.1) c.0

pub finish_topk-IsTopK :
    (topk : ℕ) (seen heap rest : List Neighbor)
    → IsSelected topk seen heap rest
    → IsTopK topk seen (finish_topk heap)
finish_topk-IsTopK topk seen heap rest s =
    let len : length (finish_topk heap) ≡ length heap =
      omega (
        arith,
        tally-true heap,
        tally-true (finish_topk heap),
        tally-finish_topk (λ x. true) heap,
      ) in
    let total : length seen ≡ length heap + length rest =
      omega (arith, tally-true seen, tally-true heap, tally-true rest, s.same (λ x. true)) in
    record {
      size = elim s.full [
        | inl e ↦ let none_left = ap length e in omega (arith, s.size)
        | inr e ↦ omega arith
      ];
      sorted = finish_topk-Chain heap s.heap_is.1;
      rest = rest;
      same = λ test. omega (arith, s.same test, tally-finish_topk test heap);
      bound = All-mono rest (λ r all. finish_topk-All (λ n. key n ≤ key r) heap all) s.bound;
    }

-- The same neighbors in another order have the same nearest ones.
pub IsTopK-same :
    (topk : ℕ) (seen seen' output : List Neighbor)
    → ((test : Neighbor → Bool) → tally test seen ≡ tally test seen')
    → IsTopK topk seen output
    → IsTopK topk seen' output
IsTopK-same topk seen seen' output same top = record {
  size = omega (arith, top.size, tally-true seen, tally-true seen', same (λ x. true));
  sorted = top.sorted;
  rest = top.rest;
  same = λ test. omega (arith, same test, top.same test);
  bound = top.bound;
}
