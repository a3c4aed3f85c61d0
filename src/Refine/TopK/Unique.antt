-- ===== src/Refine/TopK/Unique.antt =====
-- The result does not hang on the order of the insertions.
use recast.Prelude.{
  ℕ, ◌+◌, ◌≤◌, ◌≡◌, refl, sym, ap, ◌∙◌, inl, inr, Bool, true, false, List, [], ◌∷◌, map, arith, leb,
  leb→le, length, All, All-mono, Chain, tally, Bool-cases,
}
use recast.Refine.TopK.{Neighbor}
use recast.Refine.TopK.Heap.{key}
use recast.Refine.TopK.Selected.{IsTopK, tally-true}

tally_none :
    (test : Neighbor → Bool) (xs : List Neighbor) → All (λ x. test x ≡ false) xs → tally test xs ≡ 0
tally_none test [] all = refl
tally_none test (x ∷ xs) (e, all) = rw e (omega (arith, tally_none test xs all))

head_bounds :
    (n : Neighbor) (xs : List Neighbor)
    → Chain (λ (n m : Neighbor). key n ≤ key m) (n ∷ xs)
    → All (λ (m : Neighbor). key n ≤ key m) xs
head_bounds n [] c = tt
head_bounds n (m ∷ xs) (le, c) =
    (le, All-mono xs (λ k h. omega (arith, h, le)) (head_bounds m xs c))

-- The first of the nearest is not farther than any of the others.
head_le :
    (n : Neighbor) (xs rest : List Neighbor) (m : Neighbor) (ys : List Neighbor) (more : ℕ)
    → Chain (λ (n m : Neighbor). key n ≤ key m) (n ∷ xs)
    → All (λ (r : Neighbor). All (λ (k : Neighbor). key k ≤ key r) (n ∷ xs)) rest
    → tally (λ (k : Neighbor). leb (key k) (key m)) (n ∷ xs)
        + tally (λ (k : Neighbor). leb (key k) (key m)) rest
      ≡ tally (λ (k : Neighbor). leb (key k) (key m)) (m ∷ ys) + more
    → key n ≤ key m
head_le n xs rest m ys more c bound same = elim (Bool-cases (leb (key n) (key m))) [
  | inl e ↦ leb→le _ _ e
  | inr e ↦
      let below = λ (k : Neighbor). leb (key k) (key m) in
      let beyond : (k : Neighbor) → key n ≤ key k → below k ≡ false = λ k h. ground arith in
      let self : below m ≡ true = ground arith in
      let some : 1 ≤ tally below (m ∷ ys) = rw self (omega arith) in
      omega (
        arith,
        tally_none below (n ∷ xs) (e, All-mono xs beyond (head_bounds n xs c)),
        tally_none below rest (All-mono rest (λ k h. beyond k h.0) bound),
        same,
        some,
      )
]

tail_sorted :
    (n : Neighbor) (xs : List Neighbor)
    → Chain (λ (n m : Neighbor). key n ≤ key m) (n ∷ xs)
    → Chain (λ (n m : Neighbor). key n ≤ key m) xs
tail_sorted n [] c = tt
tail_sorted n (m ∷ xs) c = c.1

abbrev in_test : (ℕ → Bool) → ℕ → ℕ
in_test test k = elim (test k) [ true ↦ 1 | false ↦ 0 ]

unique_keys :
    (xs ys rest rest' : List Neighbor)
    → length xs ≡ length ys
    → Chain (λ (n m : Neighbor). key n ≤ key m) xs
    → Chain (λ (n m : Neighbor). key n ≤ key m) ys
    → All (λ (r : Neighbor). All (λ (k : Neighbor). key k ≤ key r) xs) rest
    → All (λ (r : Neighbor). All (λ (k : Neighbor). key k ≤ key r) ys) rest'
    → ((test : ℕ → Bool)
        → tally (λ (k : Neighbor). test (key k)) xs + tally (λ (k : Neighbor). test (key k)) rest
          ≡ tally (λ (k : Neighbor). test (key k)) ys
            + tally (λ (k : Neighbor). test (key k)) rest')
    → map key xs ≡ map key ys
unique_keys [] [] rest rest' len c d b b' same = refl
unique_keys [] (m ∷ ys) rest rest' len c d b b' same =
    let no_such : ⊥ = omega (arith, len) in elim no_such [ ]
unique_keys (n ∷ xs) [] rest rest' len c d b b' same =
    let no_such : ⊥ = omega (arith, len) in elim no_such [ ]
unique_keys (n ∷ xs) (m ∷ ys) rest rest' len c d b b' same =
    let le =
      head_le n xs rest m ys (tally (λ (k : Neighbor). leb (key k) (key m)) rest') c b
        (same (λ k. leb k (key m))) in
    let ge =
      head_le m ys rest' n xs (tally (λ (k : Neighbor). leb (key k) (key n)) rest) d b'
        (sym (same (λ k. leb k (key n)))) in
    let first : key n ≡ key m = omega arith in
    let others =
      unique_keys xs ys rest rest' (omega (arith, len)) (tail_sorted n xs c) (tail_sorted m ys d)
        (All-mono rest (λ r h. h.1) b) (All-mono rest' (λ r h. h.1) b')
        (λ test. let e = ap (λ (k : ℕ). in_test test k) first in omega (arith, same test, e)) in
    ap (λ (k : ℕ). k ∷ map key xs) first ∙ ap (λ (ks : List ℕ). key m ∷ ks) others

-- Two results for the same neighbors, in whatever order they came, have the same distances and IDs;
-- only the sign of a zero may differ.
pub IsTopK-unique :
    (topk : ℕ) (seen seen' output output' : List Neighbor)
    → ((test : Neighbor → Bool) → tally test seen ≡ tally test seen')
    → IsTopK topk seen output
    → IsTopK topk seen' output'
    → map key output ≡ map key output'
IsTopK-unique topk seen seen' output output' same top top' =
    unique_keys output output' top.rest top'.rest
      (omega (arith, top.size, top'.size, tally-true seen, tally-true seen', same (λ x. true)))
      top.sorted top'.sorted top.bound top'.bound
      (λ test. omega (
        arith,
        same (λ k. test (key k)),
        top.same (λ k. test (key k)),
        top'.same (λ k. test (key k)),
      ))
