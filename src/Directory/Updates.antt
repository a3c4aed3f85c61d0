-- ===== src/Directory/Updates.antt =====
-- The updates of a write, sorted.
use recast.Prelude.{
  ℕ, ◌+◌, ◌<◌, ◌≤◌, ◌≡◌, ◌≢◌, refl, sym, ◌⊎◌, inl, inr, true, false, List, [], ◌∷◌, All, All-mono,
  All-zip, Any, tally, ltb, ◌==◌, arith, Bool-cases,
}
use recast.Directory.{DiskLocation, insert_update, sort_updates, has_duplicate}

-- How many updates are of this ID.
abbrev pub updates_of : ℕ → List (ℕ × DiskLocation) → ℕ
updates_of id updates = tally (λ (u : ℕ × DiskLocation). u.0 == id) updates

module _ (P : ℕ × DiskLocation → Type 0) where
  insert_update-All :
      (u : ℕ × DiskLocation) (updates : List (ℕ × DiskLocation))
      → P u
      → All P updates
      → All P (insert_update u updates)
  unfolding insert_update
  insert_update-All u [] p all = (p, tt)
  insert_update-All u (v ∷ updates) p (q, all) = elim (Bool-cases (ltb v.0 u.0)) [
    | inl e ↦ rw e (q, insert_update-All u updates p all)
    | inr e ↦ rw e (p, (q, all))
  ]

  pub sort_updates-All :
      (updates : List (ℕ × DiskLocation)) → All P updates → All P (sort_updates updates)
  unfolding sort_updates
  sort_updates-All [] all = tt
  sort_updates-All (u ∷ updates) (p, all) =
      insert_update-All u (sort_updates updates) p (sort_updates-All updates all)

  insert_update-Any :
      (u : ℕ × DiskLocation) (updates : List (ℕ × DiskLocation))
      → P u ⊎ Any P updates
      → Any P (insert_update u updates)
  unfolding insert_update
  insert_update-Any u [] any = any
  insert_update-Any u (v ∷ updates) any = elim (Bool-cases (ltb v.0 u.0)) [
    | inr e ↦ rw e any
    | inl e ↦ rw e (elim any [
      | inl p ↦ inr (insert_update-Any u updates (inl p))
      | inr (inl q) ↦ inl q
      | inr (inr a) ↦ inr (insert_update-Any u updates (inr a))
    ])
  ]

  pub sort_updates-Any :
      (updates : List (ℕ × DiskLocation)) → Any P updates → Any P (sort_updates updates)
  unfolding sort_updates
  sort_updates-Any [] any = any
  sort_updates-Any (u ∷ updates) (inl p) = insert_update-Any u (sort_updates updates) (inl p)
  sort_updates-Any (u ∷ updates) (inr a) =
      insert_update-Any u (sort_updates updates) (inr (sort_updates-Any updates a))

updates_of-insert_update :
    (id : ℕ) (u : ℕ × DiskLocation) (updates : List (ℕ × DiskLocation))
    → updates_of id (insert_update u updates) ≡ updates_of id (u ∷ updates)
unfolding insert_update
updates_of-insert_update id u [] = refl
updates_of-insert_update id u (v ∷ updates) = elim (Bool-cases (ltb v.0 u.0)) [
  | inr e ↦ rw e refl
  | inl e ↦ rw e (omega (arith, updates_of-insert_update id u updates))
]

updates_of-sort_updates :
    (id : ℕ) (updates : List (ℕ × DiskLocation))
    → updates_of id (sort_updates updates) ≡ updates_of id updates
unfolding sort_updates
updates_of-sort_updates id [] = refl
updates_of-sort_updates id (u ∷ updates) = omega (
  arith,
  updates_of-insert_update id u (sort_updates updates),
  updates_of-sort_updates id updates,
)

-- No update is of a smaller ID than one before it.
abbrev Ordered : List (ℕ × DiskLocation) → Type 0
Ordered [] = Unit {0}
Ordered (u ∷ updates) = All (λ v. u.0 ≤ v.0) updates × Ordered updates

insert_update-Ordered :
    (u : ℕ × DiskLocation) (updates : List (ℕ × DiskLocation))
    → Ordered updates
    → Ordered (insert_update u updates)
unfolding insert_update
insert_update-Ordered u [] order = (tt, tt)
insert_update-Ordered u (v ∷ updates) (least, order) = elim (Bool-cases (ltb v.0 u.0)) [
  | inl e ↦ rw e (
    insert_update-All (λ x. v.0 ≤ x.0) u updates (ground arith) least,
    insert_update-Ordered u updates order,
  )
  | inr e ↦
      let le : u.0 ≤ v.0 = ground arith in
      rw e ((le, All-mono updates (λ x h. omega arith) least), (least, order))
]

sort_updates-Ordered : (updates : List (ℕ × DiskLocation)) → Ordered (sort_updates updates)
unfolding sort_updates
sort_updates-Ordered [] = tt
sort_updates-Ordered (u ∷ updates) =
    insert_update-Ordered u (sort_updates updates) (sort_updates-Ordered updates)

-- The updates of one ID.
updates_of_least :
    (id : ℕ) (updates : List (ℕ × DiskLocation))
    → All (λ v. id < v.0) updates
    → updates_of id updates ≡ 0
updates_of_least id [] above = refl
updates_of_least id (v ∷ updates) (lt, above) =
    let e : (v.0 == id) ≡ false = ground arith in
    rw e (omega (arith, updates_of_least id updates above))

neighbors :
    (updates : List (ℕ × DiskLocation))
    → Ordered updates
    → ((has_duplicate updates ≡ true) × (id : ℕ) × (2 ≤ updates_of id updates))
      ⊎ ((has_duplicate updates ≡ false) × ((id : ℕ) → updates_of id updates ≤ 1))
unfolding has_duplicate
neighbors [] order = inr (refl, λ id. omega arith)
neighbors (u ∷ []) order = inr (refl, λ id. ground arith)
neighbors (u ∷ v ∷ updates) ((le, least), order) = elim (Bool-cases (u.0 == v.0)) [
  | inl e ↦
      let a : (u.0 == u.0) ≡ true = ground arith in
      let b : (v.0 == u.0) ≡ true = ground arith in inl (rw e refl, u.0, rw (a, b) (omega arith))
  | inr e ↦ elim (neighbors (v ∷ updates) order) [
    | inl (f, id, two) ↦ inl (rw (e, f) refl, id, omega arith)
    | inr (f, once) ↦ inr (
      rw (e, f) refl,
      λ id. elim (Bool-cases (u.0 == id)) [
        | inr g ↦ let o = once id in rw g (omega (arith, o))
        | inl g ↦
            let lt : u.0 < v.0 = ground arith in
            let none : updates_of id (v ∷ updates) ≡ 0 =
              updates_of_least id (v ∷ updates)
                (ground arith, All-mono updates (λ x h. ground arith) order.0) in
            rw g (omega arith)
      ],
    )
  ]
]

-- The test after the sort tells whether two updates are of one ID.
pub has_duplicate-cases :
    (updates : List (ℕ × DiskLocation))
    → ((has_duplicate (sort_updates updates) ≡ true) × (id : ℕ) × (2 ≤ updates_of id updates))
      ⊎ ((has_duplicate (sort_updates updates) ≡ false) × ((id : ℕ) → updates_of id updates ≤ 1))
has_duplicate-cases updates =
    elim (neighbors (sort_updates updates) (sort_updates-Ordered updates)) [
      | inl (e, id, two) ↦ inl (e, id, omega (arith, updates_of-sort_updates id updates))
      | inr (e, once) ↦ inr (e, λ id. omega (arith, once id, updates_of-sort_updates id updates))
    ]

none_of :
    (id : ℕ) (updates : List (ℕ × DiskLocation))
    → updates_of id updates ≡ 0
    → All (λ u. u.0 ≢ id) updates
none_of id [] zero = tt
none_of id (u ∷ updates) zero = elim (Bool-cases (u.0 == id)) [
  | inl e ↦ absurd (let z : 1 + updates_of id updates ≡ 0 = rw e at zero in omega arith)
  | inr e ↦
      let z : 0 + updates_of id updates ≡ 0 = rw e at zero in
      (ground arith, none_of id updates (omega arith))
]

-- Updates of one ID are one update, if each ID has one at most.
pub updates_agree :
    (updates : List (ℕ × DiskLocation))
    → ((id : ℕ) → updates_of id updates ≤ 1)
    → All (λ u. All (λ v. v.0 ≡ u.0 → v.1 ≡ u.1) updates) updates
updates_agree [] once = tt
updates_agree (u ∷ updates) once =
    let t : (u.0 == u.0) ≡ true = ground arith in
    let one : 1 + updates_of u.0 updates ≤ 1 = rw t at (once u.0) in
    let others = none_of u.0 updates (omega arith) in
    let less : (id : ℕ) → updates_of id updates ≤ 1 = λ id. let o = once id in omega (arith, o) in
    (
      (λ e. refl, All-mono updates (λ v ne e. absurd (ne e)) others),
      All-mono updates (λ v (ne, agree). (λ e. absurd (ne (sym e)), agree))
          (All-zip (λ v. v.0 ≢ u.0) (λ v. All (λ x. x.0 ≡ v.0 → x.1 ≡ v.1) updates) updates others
            (updates_agree updates less)),
    )
