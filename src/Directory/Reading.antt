-- ===== src/Directory/Reading.antt =====
-- The pages that `read_batch` of the directory reads, and the entries it takes out of them.
use native.Mathlib.Nat.{mod-lt, div-add-mod'}
use recast.Prelude.{
  ℕ, ◌+◌, ◌*◌, ◌/◌, ◌%◌, ◌≤◌, ◌<◌, ◌≡◌, refl, sym, ap, subst, ◌∙◌, ◌⊎◌, inl, inr, true, List, [],
  ◌∷◌, ok, out_of_range, invalid_argument, not, ◌||◌, ltb, ◌==◌, store, Any-All, All, Any, arith,
  Bool-cases,
}
use recast.Checked.{page_offset, uint32_max, is_power_of_two}
use recast.Checked.Bounds.{page_offset-Fits}
use recast.Storage.{File, World, pread_exact, call}
use recast.Storage.Triples.{Ends, Ends_mono, bind_rule, OnFile, Holds, check_rule, call_keeps}
use recast.Storage.Reading.{Filled}
use recast.Storage.Transfers.{pread_rule}
use recast.Records.{aligned_buffer}
use recast.Records.Page.{load_u32-cong}
use recast.Directory.{
  DiskLocation, ExternalLocationDirectory, entries_per_page, entry_at, Request, take_entries,
  read_runs,
}
use recast.Directory.Runs.{IsRequest, IsRun}

-- What the constructor checks of a page size.
pub record IsDirectory (directory : ExternalLocationDirectory) : Type 0 where
  pub power : is_power_of_two directory.page_size ≡ true
  pub wide : 8 ≤ directory.page_size
  pub whole : directory.page_size % 8 ≡ 0

-- The lane of an ID in its page is its place in the file.
pub entry_place :
    (id ps e : ℕ)
    → ps % 8 ≡ 0
    → ps / 8 ≡ e
    → 8 ≤ ps
    → (id / e * ps + id % e * 8 ≡ id * 8) × (id % e * 8 + 8 ≤ ps)
entry_place id ps e whole entries wide =
    let sized : ps ≡ e * 8 = omega arith in
    let pages : id / e * ps ≡ id / e * e * 8 = rw sized (grind arith) in
    let some_e : 0 < e = omega arith in
    let lane = mod-lt id some_e in (omega (arith, div-add-mod' id e, pages), omega (arith, lane))

-- The bytes of the page that holds entry `id` of a file.
abbrev pub page_end : ExternalLocationDirectory → ℕ → ℕ
page_end directory id = id / entries_per_page directory * directory.page_size + directory.page_size

module _ (F : Type 0) (directory : ExternalLocationDirectory) (valid : IsDirectory directory)
    (at : ℕ → ℕ) (count : ℕ) (small : (j : ℕ) → j < count → at j ≤ uint32_max) (before : File) where
  abbrev Same : File → Type 0
  Same file = file ≡ before

  -- The page buffer holds page `page`.
  abbrev IsPage : ℕ → (ℕ → ℕ) → Type 0
  IsPage page bytes =
      (i : ℕ) → i < directory.page_size → bytes i ≡ before.bytes (page * directory.page_size + i)

  -- Place `j` of the result has the entry of its ID.
  abbrev pub IsAnswer : (ℕ → DiskLocation) → ℕ → Type 0
  IsAnswer result j = (result j ≡ entry_at before.bytes (at j)) × (at j * 8 + 8 ≤ before.size)

  entry_at-page :
      (bytes : ℕ → ℕ) (id : ℕ)
      → IsPage (id / entries_per_page directory) bytes
      → entry_at bytes (id % entries_per_page directory) ≡ entry_at before.bytes id
  unfolding entry_at
  entry_at-page bytes id page =
      let e = entries_per_page directory in
      let (place, room) =
        entry_place id directory.page_size (entries_per_page directory) valid.whole refl
          valid.wide in
      let byte = λ (i : ℕ) (h : i < 8).
        (page (id % e * 8 + i) (omega arith)
          ∙ ap before.bytes (
              let f : id / e * directory.page_size + (id % e * 8 + i) ≡ id * 8 + i = omega arith in
              f)) in
      let a =
        load_u32-cong (λ i. bytes (id % e * 8 + i)) (λ i. before.bytes (id * 8 + i))
          λ i h. byte i (omega arith) in
      let b =
        load_u32-cong (λ i. bytes (id % e * 8 + 4 + i)) (λ i. before.bytes (id * 8 + 4 + i))
          λ i h.
            let f : id % e * 8 + (4 + i) ≡ id % e * 8 + 4 + i = omega arith in
            let g : id * 8 + (4 + i) ≡ id * 8 + 4 + i = omega arith in
            rw g at (rw f at (byte (4 + i) (omega arith))) in
      rw (entry_at, a, b) refl

  -- The entry of the request's ID goes to the request's place.
  stored-IsAnswer :
      (j page : ℕ) (bytes : ℕ → ℕ) (r : Request) (result : ℕ → DiskLocation)
      → IsRequest directory at count r
      → r.page ≡ page
      → IsPage page bytes
      → page * directory.page_size + directory.page_size ≤ before.size
      → r.input_index ≡ j
      → IsAnswer (store result r.input_index (entry_at bytes (r.id % entries_per_page directory))) j
  stored-IsAnswer j page bytes r result request same is room here =
      let e = entries_per_page directory in
      let id : r.id ≡ at j = request.id ∙ ap at here in
      let page_e : page ≡ at j / e = sym same ∙ (request.page ∙ ap (λ (n : ℕ). n / e) id) in
      let (place, lane) = entry_place (at j) directory.page_size e valid.whole refl valid.wide in
      let room' : at j / e * directory.page_size + directory.page_size ≤ before.size =
        rw (sym page_e) room in
      let stored : store result r.input_index (entry_at bytes (r.id % e)) j
          ≡ entry_at bytes (r.id % e) =
        let t : (j == r.input_index) ≡ true = ground arith in ground arith in
      (
        stored
            ∙ (ap (λ (n : ℕ). entry_at bytes (n % e)) id
                ∙ entry_at-page bytes (at j) (subst (λ (n : ℕ). IsPage n bytes) page_e is)),
        omega arith,
      )

  -- A run of requests whose page is in the buffer.
  take_entries-IsAnswer :
      (j page : ℕ) (bytes : ℕ → ℕ) (requests : List Request) (result : ℕ → DiskLocation)
      → All (λ r. IsRequest directory at count r × (r.page ≡ page)) requests
      → IsPage page bytes
      → page * directory.page_size + directory.page_size ≤ before.size
      → IsAnswer result j ⊎ Any (λ r. r.input_index ≡ j) requests
      → IsAnswer (take_entries directory bytes requests result) j
  unfolding take_entries
  take_entries-IsAnswer j page bytes [] result all is room (inl a) = a
  take_entries-IsAnswer j page bytes [] result all is room (inr any) = elim any [ ]
  take_entries-IsAnswer j page bytes (r ∷ requests) result ((request, same), all) is room filling =
      take_entries-IsAnswer j page bytes requests _ all is room
        (elim (Bool-cases (r.input_index == j)) [
          | inl e ↦ inl (stored-IsAnswer j page bytes r result request same is room (ground arith))
          | inr e ↦
              let kept : store result r.input_index
                    (entry_at bytes (r.id % entries_per_page directory)) j
                  ≡ result j =
                ground arith in
              elim filling [
                | inl (a, b) ↦ inl (kept ∙ a, b)
                | inr (inl f) ↦ absurd (ground arith)
                | inr (inr any) ↦ inr any
              ]
        ])

  abbrev pub Runs : List (ℕ × List Request) → Type 0
  Runs runs = All (IsRun (λ (r : Request). r.page) (IsRequest directory at count)) runs

  abbrev pub FilledIn :
      List (ℕ × List Request) → (ℕ → DiskLocation) → (ℕ → DiskLocation) → World → Type 0
  FilledIn runs result result' w' =
      OnFile F Same w'
      × ((j : ℕ)
          → IsAnswer result j ⊎ Any (λ run. Any (λ (r : Request). r.input_index ≡ j) run.1) runs
          → IsAnswer result' j)

  module _ (beyond : (j : ℕ) → j < count → before.size < page_end directory (at j) → F) where
    -- The page of a run, in the file or past its end.
    run_place :
        (page : ℕ) (run : List Request)
        → IsRun (λ (r : Request). r.page) (IsRequest directory at count) (page, run)
        → (page_offset page directory.page_size ≡ ok (page * directory.page_size))
          × (before.size < page * directory.page_size + directory.page_size → F)
    run_place page run (some_of, all_of) =
        let Q : Request → Type 0 = λ r. IsRequest directory at count r × (r.page ≡ page) in
        let (r, (request, same), _) = Any-All Q Q run some_of all_of in
        let e = entries_per_page directory in
        let page_e : page ≡ at r.input_index / e =
          sym same ∙ (request.page ∙ ap (λ (n : ℕ). n / e) request.id) in
        let (place, lane) =
          entry_place (at r.input_index) directory.page_size e valid.whole refl valid.wide in
        let low = small r.input_index request.known in
        let offset_e : page * directory.page_size ≡ at r.input_index / e * directory.page_size =
          ap (λ (n : ℕ). n * directory.page_size) page_e in
        (
          elim (page_offset-Fits page directory.page_size (omega (arith, valid.wide))) [
            | inl (le, f) ↦ f
            | inr (big, f) ↦ absurd (omega arith)
          ],
          λ lt. beyond r.input_index request.known (omega arith),
        )

    pub read_runs_rule :
        (runs : List (ℕ × List Request)) (bytes : ℕ → ℕ) (result : ℕ → DiskLocation) (w : World)
        → Runs runs
        → OnFile F Same w
        → Ends
            (read_runs directory before.size runs bytes result w)
            (FilledIn runs result)
            (Holds F Same)
    unfolding read_runs
    read_runs_rule [] bytes result w is here =
        inl (result, refl, (here, λ j f. elim f [ inl a ↦ a | inr any ↦ elim any [ ] ]))
    read_runs_rule ((page, run) ∷ runs) bytes result w (is_run, is) here =
        let (offset, short) = run_place page run is_run in
        let start = page * directory.page_size in
        rw (offset, read_runs)
          (check_rule F Same Same (ltb before.size (start + directory.page_size)) out_of_range w _
            (FilledIn ((page, run) ∷ runs) result) here (λ f s. s) (λ t. short (ground arith))
            λ t.
              bind_rule (pread_exact bytes directory.page_size start w) _
                (λ bytes'.
                  OnFile F (λ file. Same file × Filled file directory.page_size start bytes bytes'))
                (FilledIn ((page, run) ∷ runs) result) (Holds F Same)
                (pread_rule F Same bytes directory.page_size start w
                  (λ file same. rw same (ground arith)) here)
                λ bytes' w' ((file, at_file, (same, f)), quiet).
                  let this : IsPage page bytes' = λ i h. rw (sym same) (f.inside i h) in
                  let taken = take_entries directory bytes' run result in
                  Ends_mono _ (FilledIn runs taken) (FilledIn ((page, run) ∷ runs) result)
                    (Holds F Same) (Holds F Same)
                    (read_runs_rule runs bytes' taken w' is ((file, at_file, same), quiet))
                    (λ result' w'' (here', g). (
                      here',
                      λ j filling. g j (elim filling [
                        | inl a ↦ inl (
                            take_entries-IsAnswer j page bytes' run result is_run.1 this
                              (ground arith) (inl a))
                        | inr (inl any) ↦ inl (
                            take_entries-IsAnswer j page bytes' run result is_run.1 this
                              (ground arith) (inr any))
                        | inr (inr any) ↦ inr any
                      ]),
                    ))
                    (λ w'' h. h))

module _ (F : Type 0) (directory : ExternalLocationDirectory) (valid : IsDirectory directory) where
  pub buffer_rule :
      (P : File → Type 0) (w : World)
      → OnFile F P w
      → Ends
          (aligned_buffer directory.page_size directory.page_size w)
          (λ _. OnFile F P)
          (Holds F P)
  unfolding aligned_buffer
  buffer_rule P w here =
      let power = valid.power in
      let wide = valid.wide in
      check_rule F P P
        (not (is_power_of_two directory.page_size)
          || ltb directory.page_size 8
          || directory.page_size == 0)
        invalid_argument w _ (λ _. OnFile F P) here (λ file p. p) (λ e. absurd (ground arith))
        λ e.
          bind_rule (call w) _ (λ _. OnFile F P) (λ _. OnFile F P) (Holds F P)
            (call_keeps F P w here) λ a w' here'. inl (_, refl, here')
