-- ===== src/Directory/Writing.antt =====
-- The pages that `write_batch` of the directory writes, and what they leave in the file.
use native.Mathlib.Decide.{ℕ_discrete}
use recast.Prelude.{
  ℕ, ◌+◌, ◌*◌, ◌/◌, ◌%◌, ◌≤◌, ◌<◌, ◌≡◌, ◌≢◌, refl, sym, ap, ◌∙◌, inl, inr, List, ltb, Any-All, All,
  All-mono, Any, arith, Bool-cases,
}
use recast.Checked.{uint32_max}
use recast.Storage.{File}
use recast.Storage.Writing.{Written}
use recast.Records.Layout.{page_apart}
use recast.Directory.{DiskLocation, ExternalLocationDirectory, entries_per_page, store_entries}
use recast.Directory.Reading.{IsDirectory, entry_place}
use recast.Directory.Stores.{Agrees, HasLane, store_entries-HasLane}

-- Entry `id` lies in the file and has these bytes.
abbrev pub Settled : File → ℕ → (ℕ → ℕ) → Type 0
Settled file id want =
    (id * 8 + 8 ≤ file.size) × ((i : ℕ) → i < 8 → file.bytes (id * 8 + i) ≡ want i)

module _ (F : Type 0) (directory : ExternalLocationDirectory) (valid : IsDirectory directory)
    (updates : List (ℕ × DiskLocation)) (before : File) where
  -- The file consists of pages.
  abbrev pub IsWhole : File → Type 0
  IsWhole file = (pages : ℕ) × (file.size ≡ pages * directory.page_size)

  -- The updates of the entry give these bytes.
  abbrev pub Agreed : ℕ → (ℕ → ℕ) → Type 0
  Agreed id want = All (Agrees id want) updates

  abbrev pub IsUpdate : ℕ × DiskLocation → Type 0
  IsUpdate u =
      (u.0 ≤ uint32_max)
      × ((id : ℕ) (want : ℕ → ℕ) → Agreed id want → Agrees id want u)
      × Any (λ v. v.0 ≡ u.0) updates

  abbrev pub page_of : ℕ × DiskLocation → ℕ
  page_of u = u.0 / entries_per_page directory

  -- An entry that had the bytes of all its updates, or has none, has them still.
  abbrev pub Kept : File → Type 0
  Kept file =
      (id : ℕ) (want : ℕ → ℕ) → Agreed id want → Settled before id want → Settled file id want

  module _ (page : ℕ) (run : List (ℕ × DiskLocation))
      (all_of : All (λ u. IsUpdate u × (page_of u ≡ page)) run) (now : File) (bytes : ℕ → ℕ)
      (read : page * directory.page_size < now.size
        → (i : ℕ) → i < directory.page_size
        → bytes i ≡ now.bytes (page * directory.page_size + i)) where
    abbrev start : ℕ
    start = page * directory.page_size

    abbrev written : ℕ → ℕ
    written = store_entries directory run bytes

    -- The place of an entry of this page.
    own_place :
        (id : ℕ)
        → id / entries_per_page directory ≡ page
        → (start + id % entries_per_page directory * 8 ≡ id * 8)
          × (id % entries_per_page directory * 8 + 8 ≤ directory.page_size)
    own_place id e =
        let (place, lane) =
          entry_place id directory.page_size (entries_per_page directory) valid.whole refl
            valid.wide in
        (
          ap (λ (n : ℕ). n * directory.page_size + id % entries_per_page directory * 8) (sym e)
              ∙ place,
          lane,
        )

    run_in_line :
        (id : ℕ) (want : ℕ → ℕ)
        → Agreed id want
        → All (λ u. Agrees id want u × (page_of u ≡ page)) run
    run_in_line id want agreed =
        All-mono run (λ u ((low, f, known), e). (f id want agreed, e)) all_of

    -- The page, or a part of it, leaves what an entry of the page should have.
    own_Settled :
        (id : ℕ) (want : ℕ → ℕ) (k : ℕ) (file' : File)
        → id / entries_per_page directory ≡ page
        → Agreed id want
        → Settled now id want
        → Written now start k written file'
        → Settled file' id want
    own_Settled id want k file' e agreed (room, had) w =
        let (place, lane) = own_place id e in
        let l = id % entries_per_page directory in
        let has : HasLane bytes l want = λ i h.
          let at : start + (l * 8 + i) ≡ id * 8 + i = omega arith in
          read (omega arith) (l * 8 + i) (omega arith) ∙ (ap now.bytes at ∙ had i h) in
        let stored =
          store_entries-HasLane directory page id want e run bytes (run_in_line id want agreed)
            (inl has) in
        (
          ground (arith, w.size),
          λ i h. elim (Bool-cases (ltb (l * 8 + i) k)) [
            | inl t ↦
                let at : start + (l * 8 + i) ≡ id * 8 + i = omega arith in
                ap file'.bytes (sym at) ∙ (w.inside (l * 8 + i) (ground arith) ∙ stored i h)
            | inr t ↦ w.outside (id * 8 + i) (omega arith) (inr (ground arith)) ∙ had i h
          ],
        )

    other_Settled :
        (id : ℕ) (want : ℕ → ℕ) (k : ℕ) (file' : File)
        → id / entries_per_page directory ≢ page
        → k ≤ directory.page_size
        → Settled now id want
        → Written now start k written file'
        → Settled file' id want
    other_Settled id want k file' ne le (room, had) w =
        let (place, lane) =
          entry_place id directory.page_size (entries_per_page directory) valid.whole refl
            valid.wide in
        (
          ground (arith, w.size),
          λ i h.
              w.outside (id * 8 + i) (omega arith)
                (elim (page_apart (id / entries_per_page directory) page directory.page_size
                  (id % entries_per_page directory * 8 + i) ne (omega arith)) [
                    | inl lt ↦ inl (omega arith)
                    | inr ge ↦ inr (omega arith)
                  ])
              ∙ had i h,
        )

    pub part_Settled :
        (id : ℕ) (want : ℕ → ℕ) (k : ℕ) (file' : File)
        → k ≤ directory.page_size
        → Agreed id want
        → Settled now id want
        → Written now start k written file'
        → Settled file' id want
    part_Settled id want k file' le agreed had w =
        elim (ℕ_discrete (id / entries_per_page directory) page) [
          | yes e ↦ own_Settled id want k file' e agreed had w
          | no ne ↦ other_Settled id want k file' ne le had w
        ]

    -- The whole page gives an updated entry its bytes.
    pub new_Settled :
        (id : ℕ) (want : ℕ → ℕ) (file' : File)
        → Agreed id want
        → Any (λ u. u.0 ≡ id) run
        → Written now start directory.page_size written file'
        → Settled file' id want
    new_Settled id want file' agreed any w =
        let (u, same, (_, on)) =
          Any-All (λ u. u.0 ≡ id) (λ u. IsUpdate u × (page_of u ≡ page)) run any all_of in
        let e : id / entries_per_page directory ≡ page =
          ap (λ (n : ℕ). n / entries_per_page directory) (sym same) ∙ on in
        let (place, lane) = own_place id e in
        let l = id % entries_per_page directory in
        let stored =
          store_entries-HasLane directory page id want e run bytes (run_in_line id want agreed)
            (inr any) in
        (
          ground (arith, w.size, valid.wide),
          λ i h.
              let at : start + (l * 8 + i) ≡ id * 8 + i = omega arith in
              ap file'.bytes (sym at) ∙ (w.inside (l * 8 + i) (omega arith) ∙ stored i h),
        )
