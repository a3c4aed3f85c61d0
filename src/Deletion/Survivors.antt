-- ===== src/Deletion/Survivors.antt =====
-- What the moves leave: each row that is not deleted, once.
use recast.Prelude.{
  ℕ, zero, suc, ◌+◌, ◌<◌, ◌≡◌, refl, inl, inr, true, false, not, List, [], ◌∷◌, ◌&&◌, ltb, leb,
  ◌==◌, if◌then◌else◌, length, All, store, arith, Bool-cases,
}
use recast.Deletion.{contains, holes_below, sources_above, pair_moves, move_records}
use recast.Deletion.Sorting.{Increasing}

pub contains-holes_below :
    (x lo : ℕ) (deleted : List ℕ)
    → contains x (holes_below lo deleted) ≡ (ltb x lo && contains x deleted)
unfolding contains holes_below
contains-holes_below x lo [] = ground arith
contains-holes_below x lo (y ∷ ys) = ground (arith, contains-holes_below x lo ys)

pub contains-sources_above :
    (x lo n : ℕ) (deleted : List ℕ)
    → contains x (sources_above lo deleted n)
      ≡ (leb lo x && ltb x (lo + n) && not (contains x deleted))
unfolding contains sources_above
contains-sources_above x lo zero deleted = ground arith
contains-sources_above x lo (suc n) deleted = ground (arith, contains-sources_above x lo n deleted)

-- No slot twice.
abbrev pub Distinct : List ℕ → Type 0
Distinct [] = Unit {0}
Distinct (x ∷ xs) = (contains x xs ≡ false) × Distinct xs

above-contains : (x : ℕ) (xs : List ℕ) → All (λ y. x < y) xs → contains x xs ≡ false
unfolding contains
above-contains x [] h = refl
above-contains x (y ∷ ys) h = ground (arith, above-contains x ys h.1)

pub holes_below-Distinct :
    (lo : ℕ) (deleted : List ℕ) → Increasing deleted → Distinct (holes_below lo deleted)
unfolding holes_below
holes_below-Distinct lo [] up = tt
holes_below-Distinct lo (x ∷ xs) up =
    ground (
      arith,
      holes_below-Distinct lo xs up.1,
      contains-holes_below x lo xs,
      above-contains x xs up.0,
    )

pub sources_above-Distinct :
    (lo : ℕ) (deleted : List ℕ) (n : ℕ) → Distinct (sources_above lo deleted n)
unfolding sources_above
sources_above-Distinct lo deleted zero = tt
sources_above-Distinct lo deleted (suc n) =
    ground
      (arith, sources_above-Distinct lo deleted n, contains-sources_above (lo + n) lo n deleted)

-- The source that fills a hole.
pub partner : ℕ → List ℕ → List ℕ → ℕ
partner i (h ∷ holes) (s ∷ sources) = if i == h then s else partner i holes sources
partner i _ _ = 0

pub partner-contains :
    (i : ℕ) (holes sources : List ℕ)
    → length holes ≡ length sources
    → contains i holes ≡ true
    → contains (partner i holes sources) sources ≡ true
unfolding contains partner
partner-contains i [] sources e h = cc
partner-contains i (x ∷ holes) [] e h = absurd (omega arith)
partner-contains i (x ∷ holes) (s ∷ sources) e h = ground (arith, partner-contains i holes sources)

pub partner_injective :
    (i j : ℕ) (holes sources : List ℕ)
    → length holes ≡ length sources
    → Distinct sources
    → contains i holes ≡ true
    → contains j holes ≡ true
    → partner i holes sources ≡ partner j holes sources
    → i ≡ j
unfolding contains partner
partner_injective i j [] sources e d h k p = cc
partner_injective i j (x ∷ holes) [] e d h k p = absurd (omega arith)
partner_injective i j (x ∷ holes) (s ∷ sources) e d h k p = ground (
  arith,
  partner_injective i j holes sources,
  partner-contains i holes sources,
  partner-contains j holes sources,
  d.0,
)

pub partner_onto :
    (o : ℕ) (holes sources : List ℕ)
    → length holes ≡ length sources
    → Distinct holes
    → contains o sources ≡ true
    → (i : ℕ) × (contains i holes ≡ true) × (partner i holes sources ≡ o)
unfolding contains partner
partner_onto o [] [] e d h = cc
partner_onto o [] (s ∷ sources) e d h = absurd (omega arith)
partner_onto o (x ∷ holes) [] e d h = absurd (omega arith)
partner_onto o (x ∷ holes) (s ∷ sources) e d h = elim (Bool-cases (o == s)) [
  | inl same ↦ (x, ground arith, ground arith)
  | inr other ↦
      let (i, c, p) = partner_onto o holes sources (omega arith) d.1 (ground arith) in
      (i, ground arith, ground (arith, d.0))
]

pub move_records-pair {ℓ} :
    {A : Type ℓ} (holes sources : List ℕ) (snapshot slots : ℕ → A) (i : ℕ)
    → length holes ≡ length sources
    → Distinct holes
    → move_records (pair_moves holes sources) snapshot slots i
      ≡ (if contains i holes then snapshot (partner i holes sources) else slots i)
unfolding move_records pair_moves contains partner
move_records-pair [] [] snapshot slots i e d = refl
move_records-pair [] (s ∷ sources) snapshot slots i e d = absurd (omega arith)
move_records-pair (h ∷ holes) [] snapshot slots i e d = absurd (omega arith)
move_records-pair (h ∷ holes) (s ∷ sources) snapshot slots i e d =
    rw (move_records-pair holes sources snapshot (store slots h (snapshot s)) i (omega arith) d.1)
      (ground (arith, d.0))
