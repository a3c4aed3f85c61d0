-- ===== src/Selection/Planes.antt =====
-- The three arrays as a list of rows, and what the compacting loops leave.
use recast.Prelude.{
  ℕ, zero, suc, ◌+◌, ◌≤◌, ◌≡◌, refl, sym, ap, subst, ◌∙◌, inl, inr, Bool, true, false, List, [],
  ◌∷◌, ◌++◌, map, if◌then◌else◌, ◌==◌, numbers, length, length-map, iterate, tally, tally-map, All,
  Bool-cases, arith, append-nil,
}
use recast.Selection.{DistanceEstimate}
use recast.Selection.Collector.{Planes, row_of, store_row, compact}
use recast.Selection.Sorting.{filter, length-filter, chosen, other}
use recast.Selection.Counting.{numbers-snoc, length-numbers, All-numbers, filter-append, map-append}

abbrev pub rows : Planes → ℕ → List DistanceEstimate
rows planes n = map (row_of planes) (numbers 0 n)

pub length-rows : (planes : Planes) (n : ℕ) → length (rows planes n) ≡ n
length-rows planes n = length-map (numbers 0 n) (row_of planes) ∙ length-numbers 0 n

map_cong {ℓ κ} :
    {A : Type ℓ} {B : Type κ} (f g : A → B) (xs : List A)
    → All (λ x. f x ≡ g x) xs
    → map f xs ≡ map g xs
map_cong f g [] all = refl
map_cong f g (x ∷ xs) (e, all) =
    ap (λ (b : _). b ∷ map f xs) e ∙ ap (λ (ys : List _). g x ∷ ys) (map_cong f g xs all)

rows-suc : (planes : Planes) (n : ℕ) → rows planes (suc n) ≡ rows planes n ++ (row_of planes n ∷ [])
rows-suc planes n =
    let z : 0 + n ≡ n = omega arith in
    ap (λ (xs : List ℕ). map (row_of planes) xs) (numbers-snoc 0 n)
    ∙ map-append (row_of planes) (numbers 0 n) ((0 + n) ∷ [])
    ∙ ap (λ (k : ℕ). rows planes n ++ (row_of planes k ∷ [])) z

row_of-store_row :
    (planes : Planes) (i j : ℕ) (row : DistanceEstimate)
    → row_of (store_row planes i row) j ≡ (if i == j then row else row_of planes j)
row_of-store_row planes i j row = elim (Bool-cases (i == j)) [
  | inl e ↦ rw e refl
  | inr e ↦ rw e refl
]

row_of_other :
    (planes : Planes) (i j : ℕ) (row : DistanceEstimate)
    → (i == j) ≡ false
    → row_of (store_row planes i row) j ≡ row_of planes j
row_of_other planes i j row e = rw e refl

row_of_same :
    (planes : Planes) (i : ℕ) (row : DistanceEstimate) → row_of (store_row planes i row) i ≡ row
row_of_same planes i row = let e : (i == i) ≡ true = ground arith in rw e refl

-- A store after the last row.
pub rows-store_row :
    (planes : Planes) (n : ℕ) (row : DistanceEstimate)
    → rows (store_row planes n row) (n + 1) ≡ rows planes n ++ (row ∷ [])
rows-store_row planes n row =
    let e : n + 1 ≡ suc n = omega arith in
    ap (λ (k : ℕ). rows (store_row planes n row) k) e
    ∙ rows-suc (store_row planes n row) n
    ∙ ap (λ (r : DistanceEstimate). rows (store_row planes n row) n ++ (r ∷ []))
        (row_of_same planes n row)
    ∙ ap (λ (rs : List DistanceEstimate). rs ++ (row ∷ []))
        (map_cong (row_of (store_row planes n row)) (row_of planes) (numbers 0 n) (
          All-numbers (λ i. row_of (store_row planes n row) i ≡ row_of planes i) 0 n
            λ i p q. row_of_other planes n i row (ground arith)))

-- The rows kept are those that pass the test, in their order.
pub record IsCompacted (keep : DistanceEstimate → Bool) (size : ℕ) (planes : Planes)
    (result : ℕ × Planes) : Type 0 where
  pub kept : rows result.1 result.0 ≡ filter keep (rows planes size)
  pub inside : result.0 ≤ size
  pub beyond : (i : ℕ) → size ≤ i → row_of result.1 i ≡ row_of planes i

filter-rows-suc :
    (keep : DistanceEstimate → Bool) (planes : Planes) (n : ℕ)
    → filter keep (rows planes (suc n))
      ≡ filter keep (rows planes n) ++ (if keep (row_of planes n) then row_of planes n ∷ [] else [])
filter-rows-suc keep planes n =
    ap (λ (rs : List DistanceEstimate). filter keep rs) (rows-suc planes n)
    ∙ filter-append keep (rows planes n) (row_of planes n ∷ [])

compact_step :
    (keep : DistanceEstimate → Bool) (n : ℕ) (planes : Planes) (s : ℕ × Planes)
    → IsCompacted keep n planes s
    → IsCompacted keep
        (suc n)
        planes
        (if keep (row_of s.1 n) then (s.0 + 1, store_row s.1 s.0 (row_of s.1 n)) else s)
compact_step keep n planes s is =
    let same : row_of s.1 n ≡ row_of planes n = is.beyond n (omega arith) in
    let next = filter-rows-suc keep planes n in
    let last = row_of planes n ∷ [] in
    let inside = is.inside in
    elim (Bool-cases (keep (row_of s.1 n))) [
      | inl t ↦
          let u = subst (λ (r : DistanceEstimate). keep r ≡ true) same t in
          rw t (record {
            kept =
                rows-store_row s.1 s.0 (row_of s.1 n)
                ∙ ap (λ (rs : List DistanceEstimate). rs ++ (row_of s.1 n ∷ [])) is.kept
                ∙ ap (λ (r : DistanceEstimate). filter keep (rows planes n) ++ (r ∷ [])) same
                ∙ sym (
                    next
                    ∙ ap (λ (rs : List DistanceEstimate). filter keep (rows planes n) ++ rs)
                        (chosen u last []));
            inside = omega arith;
            beyond = λ i h.
                row_of_other s.1 s.0 i (row_of s.1 n) (ground arith) ∙ is.beyond i (omega arith);
          })
      | inr t ↦
          let u = subst (λ (r : DistanceEstimate). keep r ≡ false) same t in
          rw t (record {
            kept =
                is.kept
                ∙ sym (
                    next
                    ∙ ap (λ (rs : List DistanceEstimate). filter keep (rows planes n) ++ rs)
                        (other u last [])
                    ∙ append-nil (filter keep (rows planes n)));
            inside = omega arith;
            beyond = λ i h. is.beyond i (omega arith);
          })
    ]

pub compact-IsCompacted :
    (keep : DistanceEstimate → Bool) (size : ℕ) (planes : Planes)
    → IsCompacted keep size planes (compact keep size planes)
unfolding compact iterate
compact-IsCompacted keep zero planes = record {
  kept = refl;
  inside = omega arith;
  beyond = λ i h. refl;
}
compact-IsCompacted keep (suc n) planes =
    compact_step keep n planes (compact keep n planes) (compact-IsCompacted keep n planes)

-- As many as pass it.
pub compact_count :
    (keep : DistanceEstimate → Bool) (size : ℕ) (planes : Planes)
    → (compact keep size planes).0 ≡ tally (λ i. keep (row_of planes i)) (numbers 0 size)
compact_count keep size planes =
    let s = compact keep size planes in
    let is = compact-IsCompacted keep size planes in
    sym (length-rows s.1 s.0)
    ∙ ap (λ (rs : List DistanceEstimate). length rs) is.kept
    ∙ length-filter keep (rows planes size)
    ∙ tally-map keep (row_of planes) (numbers 0 size)
