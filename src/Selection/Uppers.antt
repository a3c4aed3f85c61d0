-- ===== src/Selection/Uppers.antt =====
-- The heap of the smallest upper endpoints (`update_upper`): its top is the K-th smallest.
use recast.Prelude.{
  ℕ, suc, ◌+◌, ◌≤◌, ◌<◌, ◌≡◌, refl, ap, ◌⊎◌, inl, inr, Bool, true, false, List, [], ◌∷◌, ◌++◌,
  if◌then◌else◌, ltb, leb, ◌==◌, length, get_or, tally, tally-append, All, All-mono, Bool-cases,
  arith,
}
use recast.Floats.{less, equal}
use recast.Selection.Collector.{ordered_float_key, push_upper, update_upper}
use recast.Selection.Sorting.{tally_none}
use recast.Selection.Keys.{IsNumber, less-ordered_float_key, equal-ordered_float_key}
use recast.Selection.Counting.{tally-cong, tally_split}

-- No later element is larger.
abbrev Falling : List ℕ → Type 0
Falling [] = Unit
Falling (u ∷ uppers) = All (λ v. ordered_float_key v ≤ ordered_float_key u) uppers × Falling uppers

tally-push_upper :
    (test : ℕ → Bool) (u : ℕ) (uppers : List ℕ)
    → tally test (push_upper u uppers) ≡ tally test (u ∷ uppers)
unfolding push_upper
tally-push_upper test u [] = refl
tally-push_upper test u (v ∷ uppers) = elim (Bool-cases (less u v)) [
  | inl t ↦ rw t (omega (arith, tally-push_upper test u uppers))
  | inr t ↦ rw t refl
]

length-push_upper : (u : ℕ) (uppers : List ℕ) → length (push_upper u uppers) ≡ suc (length uppers)
unfolding push_upper
length-push_upper u [] = refl
length-push_upper u (v ∷ uppers) = elim (Bool-cases (less u v)) [
  | inl t ↦ rw t (ap suc (length-push_upper u uppers))
  | inr t ↦ rw t refl
]

push_upper-All :
    (P : ℕ → Type 0) (u : ℕ) (uppers : List ℕ) → P u → All P uppers → All P (push_upper u uppers)
unfolding push_upper
push_upper-All P u [] p all = (p, tt)
push_upper-All P u (v ∷ uppers) p all = elim (Bool-cases (less u v)) [
  | inl t ↦ rw t (all.0, push_upper-All P u uppers p all.1)
  | inr t ↦ rw t (p, all)
]

push_upper-Falling :
    (u : ℕ) (uppers : List ℕ)
    → IsNumber u
    → All IsNumber uppers
    → Falling uppers
    → Falling (push_upper u uppers)
unfolding push_upper
push_upper-Falling u [] p all f = (tt, tt)
push_upper-Falling u (v ∷ uppers) p (q, all) (le, f) =
    let e = less-ordered_float_key u v p q in
    elim (Bool-cases (less u v)) [
      | inl t ↦
          let lt : ordered_float_key u ≤ ordered_float_key v = ground arith in
          rw t (
            push_upper-All (λ w. ordered_float_key w ≤ ordered_float_key v) u uppers lt le,
            push_upper-Falling u uppers p all f,
          )
      | inr t ↦
          let ge : ordered_float_key v ≤ ordered_float_key u = ground arith in
          rw t ((ge, All-mono uppers (λ w h. omega (arith, h, ge)) le), (le, f))
    ]

-- The heap after the endpoints `seen`: the smallest of them, and the others are not smaller.
pub record IsHeap (topk : ℕ) (seen heap : List ℕ) : Type 0 where
  numbers : All IsNumber heap
  falling : Falling heap
  dropped : List ℕ
  same : (test : ℕ → Bool) → tally test seen ≡ tally test heap + tally test dropped
  beyond : All (λ d. All (λ u. ordered_float_key u ≤ ordered_float_key d) heap) dropped
  full : ((length heap ≤ topk) × (dropped ≡ [])) ⊎ (length heap ≡ topk)

pub empty-IsHeap : (topk : ℕ) → IsHeap topk [] []
empty-IsHeap topk = record {
  numbers = tt;
  falling = tt;
  dropped = [];
  same = λ test. refl;
  beyond = tt;
  full = inl (omega arith, refl);
}

All-swap :
    (xs ds : List ℕ) (u : ℕ)
    → All (λ d. All (λ v. ordered_float_key v ≤ ordered_float_key d) xs) ds
    → All (λ d. ordered_float_key u ≤ ordered_float_key d) ds
    → All (λ d. All (λ v. ordered_float_key v ≤ ordered_float_key d) (push_upper u xs)) ds
All-swap xs [] u a b = tt
All-swap xs (d ∷ ds) u (p, a) (q, b) =
    (push_upper-All (λ v. ordered_float_key v ≤ ordered_float_key d) u xs q p, All-swap xs ds u a b)

update_grown :
    (topk : ℕ) (seen heap : List ℕ) (u : ℕ)
    → length heap < topk
    → IsHeap topk seen heap
    → IsNumber u
    → IsHeap topk (seen ++ (u ∷ [])) (push_upper u heap)
update_grown topk seen heap u room is p =
    let none_dropped : is.dropped ≡ [] = elim is.full [
      | inl (_, e) ↦ e
      | inr e ↦ absurd (omega arith)
    ] in
    record {
      numbers = push_upper-All IsNumber u heap p is.numbers;
      falling = push_upper-Falling u heap p is.numbers is.falling;
      dropped = [];
      same = λ test. omega (
        arith,
        tally-append test seen (u ∷ []),
        is.same test,
        tally-push_upper test u heap,
        ap (λ (ds : List ℕ). tally test ds) none_dropped,
      );
      beyond = tt;
      full = inl (omega (arith, length-push_upper u heap, room), refl);
    }

update_full :
    (topk : ℕ) (seen : List ℕ) (top : ℕ) (rest : List ℕ) (u : ℕ)
    → length (top ∷ rest) ≡ topk
    → IsHeap topk seen (top ∷ rest)
    → IsNumber u
    → IsHeap topk (seen ++ (u ∷ [])) (if less u top then push_upper u rest else top ∷ rest)
update_full topk seen top rest u len is p =
    let (le, f) = is.falling in
    let (q, all) = is.numbers in
    let e = less-ordered_float_key u top p q in
    elim (Bool-cases (less u top)) [
      | inl t ↦
          let lt : ordered_float_key u ≤ ordered_float_key top = ground arith in
          rw t (record {
            numbers = push_upper-All IsNumber u rest p all;
            falling = push_upper-Falling u rest p all f;
            dropped = top ∷ is.dropped;
            same = λ test. omega (
              arith,
              tally-append test seen (u ∷ []),
              is.same test,
              tally-push_upper test u rest,
            );
            beyond = (
              push_upper-All (λ v. ordered_float_key v ≤ ordered_float_key top) u rest lt le,
              All-swap rest is.dropped u (All-mono is.dropped (λ d h. h.1) is.beyond)
                  (All-mono is.dropped (λ d h. omega (arith, h.0, lt)) is.beyond),
            );
            full = inr (omega (arith, length-push_upper u rest, len));
          })
      | inr t ↦
          let ge : ordered_float_key top ≤ ordered_float_key u = ground arith in
          rw t (record {
            numbers = is.numbers;
            falling = is.falling;
            dropped = u ∷ is.dropped;
            same = λ test. omega (arith, tally-append test seen (u ∷ []), is.same test);
            beyond = ((ge, All-mono rest (λ v h. omega (arith, h, ge)) le), is.beyond);
            full = inr len;
          })
    ]

pub update_upper-IsHeap :
    (topk : ℕ) (seen heap : List ℕ) (u : ℕ)
    → 0 < topk
    → IsHeap topk seen heap
    → IsNumber u
    → IsHeap topk (seen ++ (u ∷ [])) (update_upper topk heap u)
unfolding update_upper
update_upper-IsHeap topk seen [] u pos is p =
    let t : ltb 0 topk ≡ true = ground arith in rw t (update_grown topk seen [] u pos is p)
update_upper-IsHeap topk seen (top ∷ rest) u pos is p =
    elim (Bool-cases (ltb (length (top ∷ rest)) topk)) [
      | inl t ↦ rw t (update_grown topk seen (top ∷ rest) u (ground arith) is p)
      | inr t ↦
          let len : length (top ∷ rest) ≡ topk = elim is.full [
            | inl (le, _) ↦ ground arith
            | inr e ↦ e
          ] in
          rw t (update_full topk seen top rest u len is p)
    ]

-- A threshold with less than `k` endpoints below it, and at least `k` not above it.
abbrev pub IsKth : ℕ → ℕ → List ℕ → Type 0
IsKth k bound uppers =
    (tally (λ u. less u bound) uppers < k)
    × (k ≤ tally (λ u. less u bound) uppers + tally (λ u. equal u bound) uppers)

tally_every : (xs : List ℕ) → tally (λ x. true) xs ≡ length xs
tally_every [] = refl
tally_every (x ∷ xs) = omega (arith, tally_every xs)

tally_at_most : (test : ℕ → Bool) (xs : List ℕ) → tally test xs ≤ length xs
tally_at_most test [] = omega arith
tally_at_most test (x ∷ xs) = elim (Bool-cases (test x)) [
  | inl t ↦ rw t (omega (arith, tally_at_most test xs))
  | inr t ↦ rw t (omega (arith, tally_at_most test xs))
]

tally_all :
    (test : ℕ → Bool) (xs : List ℕ) → All (λ x. test x ≡ true) xs → tally test xs ≡ length xs
tally_all test [] all = refl
tally_all test (x ∷ xs) (e, all) = rw e (omega (arith, tally_all test xs all))

pub top-IsKth :
    (topk : ℕ) (seen heap : List ℕ)
    → 0 < topk
    → topk ≤ length seen
    → All IsNumber seen
    → IsHeap topk seen heap
    → IsNumber (get_or heap 0 0) × IsKth topk (get_or heap 0 0) seen
top-IsKth topk seen [] pos many all is = absurd (elim is.full [
  | inl (_, e) ↦ omega (
    arith,
    tally_every seen,
    is.same (λ x. true),
    ap (λ (ds : List ℕ). tally (λ x. true) ds) e,
    many,
    pos,
  )
  | inr e ↦ omega (arith, e, pos)
])
top-IsKth topk seen (top ∷ rest) pos many all is =
    let number = is.numbers.0 in
    let k = ordered_float_key top in
    let below : ℕ → Bool = λ u. ltb (ordered_float_key u) k in
    let upto : ℕ → Bool = λ u. leb (ordered_float_key u) k in
    let len : suc (length rest) ≡ topk = elim is.full [
      | inl (le, e) ↦ omega (
        arith,
        tally_every seen,
        tally_every (top ∷ rest),
        is.same (λ x. true),
        ap (λ (ds : List ℕ). tally (λ x. true) ds) e,
        many,
        le,
      )
      | inr e ↦ e
    ] in
    let self : below top ≡ false = ground arith in
    let head : tally below (top ∷ rest) ≤ length rest =
      rw self (omega (arith, tally_at_most below rest)) in
    let others : tally below is.dropped ≡ 0 =
      tally_none below is.dropped
        (All-mono is.dropped (λ d h. let g = h.0 in ground arith) is.beyond) in
    let whole : tally upto (top ∷ rest) ≡ suc (length rest) =
      tally_all upto (top ∷ rest)
        (ground arith, All-mono rest (λ u h. ground arith) is.falling.0) in
    let lesses =
      tally-cong (λ u. less u top) below seen
        (All-mono seen (λ u p. less-ordered_float_key u top p number) all) in
    let equals =
      tally-cong (λ u. equal u top) (λ u. ordered_float_key u == k) seen
        (All-mono seen (λ u p. equal-ordered_float_key u top p number) all) in
    (
      number,
      (
        omega (arith, lesses, is.same below, head, others, len),
        omega
            (arith, lesses, equals, tally_split ordered_float_key k seen, is.same upto, whole, len),
      ),
    )
