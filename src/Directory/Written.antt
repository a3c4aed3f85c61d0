-- ===== src/Directory/Written.antt =====
-- `write_batch` of the directory from the sort to the last call.
use native.Mathlib.Nat.{div-add-mod', mul-mod_left}
use recast.Prelude.{
  err, ℕ, ◌+◌, ◌*◌, ◌-◌, ◌/◌, ◌%◌, ◌≤◌, ◌<◌, ◌≡◌, ◌≢◌, refl, sym, ap, ◌∙◌, ◌⊎◌, inl, inr, true,
  false, not, List, [], ◌∷◌, none, Result, invalid_argument, runtime_error, ltb, ◌==◌, All,
  All-mono, All-zip, Any, arith,
}
use recast.Checked.{uint32_max}
use recast.Storage.{
  File, World, IsFault, M, continue, ◌>>=◌, ◌>>◌, open_file, fstat, ftruncate, resize_file,
  sync_file,
}
use recast.Storage.Triples.{
  Ends, Ends_mono, bind_rule, OnFile, contents, Holds, fstat_rule, open_existing_rule, check_rule,
  ftruncate_rule, sync_rule,
}
use recast.Records.{aligned_buffer, u32_byte}
use recast.Records.Page.{load_u32-cong, load_u32-u32_byte}
use recast.Directory.{
  DiskLocation, ExternalLocationDirectory, entries_per_page, entry_at, sort_updates, has_duplicate,
  page_runs, write_runs, write_batch,
}
use recast.Directory.Runs.{page_runs-IsRun, page_runs-Any}
use recast.Directory.Reading.{IsDirectory, page_end, buffer_rule}
use recast.Directory.Stores.{location_byte, Agrees}
use recast.Directory.Updates.{
  updates_of, sort_updates-All, sort_updates-Any, has_duplicate-cases, updates_agree,
}
use recast.Directory.Writing.{Settled, IsWhole, IsUpdate, page_of, Kept}
use recast.Directory.Pages.{Runs, Done, write_runs_rule, Grown-updates}

-- An update of 32-bit numbers.
abbrev pub IsNarrow : ℕ × DiskLocation → Type 0
IsNarrow u = (u.0 ≤ uint32_max) × (u.1.list_no ≤ uint32_max) × (u.1.offset ≤ uint32_max)

-- The entries of the file that no update is of are as before.
abbrev pub Untouched : List (ℕ × DiskLocation) → File → File → Type 0
Untouched updates before file =
    (id : ℕ)
    → All (λ u. u.0 ≢ id) updates
    → id * 8 + 8 ≤ before.size
    → (id * 8 + 8 ≤ file.size)
      × ((i : ℕ) → i < 8 → file.bytes (id * 8 + i) ≡ before.bytes (id * 8 + i))

-- The file after a write: every update is in it, and nothing else has changed.
pub record IsWritten (directory : ExternalLocationDirectory) (updates : List (ℕ × DiskLocation))
    (before file : File) : Type 0 where
  pub once : (id : ℕ) → updates_of id updates ≤ 1
  pub stored : All (λ u. (entry_at file.bytes u.0 ≡ u.1) × (u.0 * 8 + 8 ≤ file.size)) updates
  pub untouched : Untouched updates before file
  pub longer : before.size ≤ file.size
  pub whole : (updates ≡ []) ⊎ (file.size % directory.page_size ≡ 0)
  pub size : (file.size ≡ before.size) ⊎ Any (λ u. page_end directory u.0 ≡ file.size) updates

-- Why a write may throw.
pub data WriteTrouble (directory : ExternalLocationDirectory) (updates : List (ℕ × DiskLocation))
    (w : World) : Type 0 where
  duplicate : (id : ℕ) → 2 ≤ updates_of id updates → WriteTrouble directory updates w
  missing_file : w.file ≡ none → WriteTrouble directory updates w
  torn : (contents w.file).size % directory.page_size ≢ 0 → WriteTrouble directory updates w
  fault : Any IsFault w.outcomes → WriteTrouble directory updates w

-- The bytes of a location make its entry.
entry_at-location :
    (bytes : ℕ → ℕ) (id : ℕ) (location : DiskLocation)
    → location.list_no ≤ uint32_max
    → location.offset ≤ uint32_max
    → ((i : ℕ) → i < 8 → bytes (id * 8 + i) ≡ location_byte location i)
    → entry_at bytes id ≡ location
unfolding entry_at
entry_at-location bytes id location low low' has =
    let a =
      load_u32-cong (λ i. bytes (id * 8 + i)) (u32_byte location.list_no)
        (λ i h. has i (omega arith) ∙ ground arith)
      ∙ load_u32-u32_byte location.list_no (omega arith) in
    let b =
      load_u32-cong (λ i. bytes (id * 8 + 4 + i)) (u32_byte location.offset)
        (λ i h.
          let f : id * 8 + (4 + i) ≡ id * 8 + 4 + i = omega arith in
          let g : 4 + i - 4 ≡ i = omega arith in rw f at (has (4 + i) (omega arith)) ∙ ground arith)
      ∙ load_u32-u32_byte location.offset (omega arith) in
    rw (entry_at, a, b) refl

-- What holds of every update of the list holds of each of some of its updates.
selves :
    (updates some_of : List (ℕ × DiskLocation))
    → ((id : ℕ) (want : ℕ → ℕ) → All (Agrees id want) updates → All (Agrees id want) some_of)
    → All (λ u. (id : ℕ) (want : ℕ → ℕ) → All (Agrees id want) updates → Agrees id want u) some_of
selves updates [] f = tt
selves updates (u ∷ some_of) f =
    ((λ id want all. (f id want all).0), selves updates some_of (λ id want all. (f id want all).1))

members :
    (updates some_of : List (ℕ × DiskLocation))
    → ((id : ℕ) → Any (λ v. v.0 ≡ id) some_of → Any (λ v. v.0 ≡ id) updates)
    → All (λ u. Any (λ v. v.0 ≡ u.0) updates) some_of
members updates [] f = tt
members updates (u ∷ some_of) f =
    (f u.0 (inl refl), members updates some_of (λ id any. f id (inr any)))

module _ (directory : ExternalLocationDirectory) (valid : IsDirectory directory)
    (first : ℕ × DiskLocation) (more : List (ℕ × DiskLocation)) (w : World)
    (narrow : All IsNarrow (first ∷ more)) where
  abbrev updates : List (ℕ × DiskLocation)
  updates = first ∷ more

  abbrev Reason : Type 0
  Reason = WriteTrouble directory updates w

  abbrev before : File
  before = contents w.file

  abbrev Same : File → Type 0
  Same file = file ≡ before

  abbrev runs : List (ℕ × List (ℕ × DiskLocation))
  runs =
      page_runs (λ (u : ℕ × DiskLocation). u.0 / entries_per_page directory) (sort_updates updates)

  abbrev pub Bad : World → Type 0
  Bad = Holds Reason (Untouched updates before)

  abbrev pub Good : Unit {0} → World → Type 0
  Good _ = OnFile Reason (IsWritten directory updates before)

  all_IsUpdate : All (IsUpdate Reason directory valid updates before) updates
  all_IsUpdate =
      All-mono updates (λ u (low, (agrees, known)). (low, agrees, known))
        (All-zip (λ u. u.0 ≤ uint32_max) _ updates (All-mono updates (λ u n. n.0) narrow)
          (All-zip _ _ updates (selves updates updates (λ id want all. all))
            (members updates updates (λ id any. any))))

  runs_are : Runs Reason directory valid updates before runs
  runs_are =
      page_runs-IsRun (page_of Reason directory valid updates before)
        (IsUpdate Reason directory valid updates before) (sort_updates updates)
        (sort_updates-All (IsUpdate Reason directory valid updates before) updates all_IsUpdate)

  Kept-Untouched :
      (file : File)
      → Kept Reason directory valid updates before file
      → Untouched updates before file
  Kept-Untouched file kept id others room =
      kept id (λ i. before.bytes (id * 8 + i)) (All-mono updates (λ u ne e. absurd (ne e)) others)
        (room, λ i h. refl)

  -- A call that leaves the file, and what follows it.
  unchanged_rule :
      {A B : Type 0} (r : Result A × World) (f : A → M B) (Q : A → World → Type 0)
      (R : B → World → Type 0)
      → Ends r Q (Holds Reason Same)
      → ((a : A) (w' : World) → Q a w' → Ends (f a w') R Bad)
      → Ends (continue f r) R Bad
  unchanged_rule r f Q R ends next =
      bind_rule r f Q R Bad
        (Ends_mono r Q Q (Holds Reason Same) Bad ends (λ a w' q. q)
          (λ w' (same, reason). (rw same (λ id others room. (room, λ i h. refl)), reason)))
        next

  -- The size that the file is given at the end is its size.
  resize_Settled :
      (file : File) (size id : ℕ) (want : ℕ → ℕ)
      → file.size ≡ size
      → Settled file id want
      → Settled (resize_file file size) id want
  unfolding resize_file
  resize_Settled file size id want e (room, had) = (
    omega arith,
    λ i h. let t : ltb (id * 8 + i) file.size ≡ true = ground arith in rw t (had i h),
  )

  Done-IsWritten :
      ((id : ℕ) → updates_of id updates ≤ 1)
      → (file : File) (size : ℕ) → Done Reason directory valid updates before runs before size file
      → IsWritten directory updates before (resize_file file size)
  unfolding resize_file
  Done-IsWritten once file size done = record {
    once = once;
    stored =
        All-mono updates
          (λ u ((known, agree), n).
            let s = resize_Settled file size u.0 (location_byte u.1) done.sized (
              done.has u.0 (location_byte u.1)
                (All-mono updates
                  (λ v f e i h. ap (λ (l : DiskLocation). location_byte l i) (sym (f e))) agree)
                (inr (
                  page_runs-Any (page_of Reason directory valid updates before) (λ v. v.0 ≡ u.0)
                    (sort_updates updates) (sort_updates-Any (λ v. v.0 ≡ u.0) updates known)))) in
            (entry_at-location (resize_file file size).bytes u.0 u.1 n.1 n.2 s.1, s.0))
          (All-zip _ IsNarrow updates
            (All-zip (λ u. Any (λ v. v.0 ≡ u.0) updates)
              (λ u. All (λ v. v.0 ≡ u.0 → v.1 ≡ u.1) updates) updates
              (members updates updates (λ id any. any)) (updates_agree updates once))
            narrow);
    untouched = λ id others room.
        resize_Settled file size id (λ i. before.bytes (id * 8 + i)) done.sized
          (Kept-Untouched file done.kept id others room);
    longer = done.grown.0;
    whole =
        let (pages, e) = done.whole in
        inr (
          ap (λ (n : ℕ). n % directory.page_size) (sym done.sized ∙ e)
          ∙ mul-mod_left pages directory.page_size);
    size =
        Grown-updates Reason directory valid updates before runs before.size size runs_are
          done.grown;
  }

  -- From the pages on.
  pages_rule :
      ((id : ℕ) → updates_of id updates ≤ 1)
      → (bytes : ℕ → ℕ) (w' : World) → before.size % directory.page_size ≡ 0
      → OnFile Reason Same w'
      → Ends
          ((write_runs directory runs bytes before.size >>= λ current_bytes.
              ftruncate current_bytes >> sync_file directory.sync_writes)
            w')
          Good
          Bad
  pages_rule once bytes w' whole here =
      let pages : IsWhole Reason directory valid updates before before = (
        before.size / directory.page_size,
        omega (arith, div-add-mod' before.size directory.page_size),
      ) in
      bind_rule (write_runs directory runs bytes before.size w') _
        (λ size. OnFile Reason (Done Reason directory valid updates before runs before size)) Good
        Bad
        (Ends_mono (write_runs directory runs bytes before.size w')
          (λ size. OnFile Reason (Done Reason directory valid updates before runs before size))
          (λ size. OnFile Reason (Done Reason directory valid updates before runs before size))
          (Holds Reason (Kept Reason directory valid updates before)) Bad
          (write_runs_rule Reason directory valid updates before runs bytes before w' runs_are pages
            (λ id want agreed s. s) here)
          (λ size w1 h. h) (λ w1 (kept, reason). (Kept-Untouched (contents w1.file) kept, reason)))
        λ size w1 here1.
          let D = Done Reason directory valid updates before runs before size in
          bind_rule (ftruncate size w1) _ Good Good Bad
            (Ends_mono _
              (λ _.
                OnFile Reason (λ file'. (file : File) × D file × (file' ≡ resize_file file size)))
              Good (Holds Reason D) Bad (ftruncate_rule Reason D w1 size here1)
              (λ _ w2 ((file', at_file, (file, done, e)), quiet).
                ((file', at_file, rw e (Done-IsWritten once file size done)), quiet))
              (λ w2 (done, reason). (Kept-Untouched (contents w2.file) done.kept, reason)))
            λ _ w2 here2.
              Ends_mono _ Good Good (Holds Reason (IsWritten directory updates before)) Bad
                (sync_rule Reason (IsWritten directory updates before) w2 directory.sync_writes
                  here2)
                (λ _ w3 h. h) (λ w3 (done, reason). (done.untouched, reason))

  -- Without duplicates.
  batch_rule :
      has_duplicate (sort_updates updates) ≡ false
      → ((id : ℕ) → updates_of id updates ≤ 1)
      → Ends (write_batch directory updates w) Good Bad
  unfolding write_batch
  batch_rule distinct once =
      rw (distinct, write_batch)
        (unchanged_rule (open_file false w) _ (λ _. OnFile Reason Same) Good
          (open_existing_rule Reason Same w refl missing_file fault)
          λ a w1 here1.
            unchanged_rule (fstat w1) _
              (λ size. OnFile Reason (λ file. Same file × (size ≡ file.size))) Good
              (fstat_rule Reason Same w1 here1)
              λ size w2 ((file, at_file, (same, e)), quiet).
                let whole : size ≡ before.size = e ∙ ap (λ (f : File). f.size) same in
                check_rule Reason Same (Untouched updates before)
                  (not (size % directory.page_size == 0)) runtime_error w2 _ Good
                  ((file, at_file, same), quiet)
                  (λ f s. rw s (λ id others room. (room, λ i h. refl)))
                  (λ test. torn (ground arith))
                  λ test.
                    unchanged_rule (aligned_buffer directory.page_size directory.page_size w2) _
                      (λ _. OnFile Reason Same) Good
                      (buffer_rule Reason directory valid Same w2 ((file, at_file, same), quiet))
                      λ page w3 here3. rw whole (pages_rule once page w3 (ground arith) here3))

  refused :
      has_duplicate (sort_updates updates) ≡ true
      → write_batch directory updates w ≡ (err invalid_argument, w)
  unfolding write_batch
  refused twice = rw (twice, write_batch) refl

  pub stored_rule : Ends (write_batch directory updates w) Good Bad
  stored_rule = elim (has_duplicate-cases updates) [
    | inl (e, id, two) ↦
        rw (refused e)
          (inr (invalid_argument, refl, (λ id others room. (room, λ i h. refl), duplicate id two)))
    | inr (e, once) ↦ batch_rule e once
  ]

-- A write of nothing.
pub IsWritten-empty :
    (directory : ExternalLocationDirectory) (file : File) → IsWritten directory [] file file
IsWritten-empty directory file = record {
  once = λ id. omega arith;
  stored = tt;
  untouched = λ id others room. (room, λ i h. refl);
  longer = omega arith;
  whole = inl refl;
  size = inl refl;
}

-- For a directory with the page size that its constructor asks for and updates of 32-bit numbers,
-- and however the calls end, a write of a batch ends in one of two ways. It returns, and the file
-- holds each update's location in the eight bytes at byte `id * 8`, every entry of the old file that
-- no update is of is as before, the file is whole pages (when there are updates) and has its old size or ends with the page of an update, and
-- no two updates were of one ID. Or it throws, only for one of the reasons of `WriteTrouble` (two
-- updates of one ID, a missing file, a file that is not whole pages, or a fault in a call), and then
-- too every entry of the old file that no update is of is as before.
pub write_batch-cases :
    (directory : ExternalLocationDirectory) (updates : List (ℕ × DiskLocation)) (w : World)
    → IsDirectory directory
    → All IsNarrow updates
    → Ends
        (write_batch directory updates w)
        (λ _ w'. IsWritten directory updates (contents w.file) (contents w'.file))
        (λ w'.
          Untouched updates (contents w.file) (contents w'.file) × WriteTrouble directory updates w)
unfolding write_batch
write_batch-cases directory [] w valid narrow =
    inl (tt, refl, IsWritten-empty directory (contents w.file))
write_batch-cases directory (first ∷ more) w valid narrow =
    Ends_mono _ (Good directory valid first more w narrow)
      (λ _ w'. IsWritten directory (first ∷ more) (contents w.file) (contents w'.file))
      (Bad directory valid first more w narrow) (Bad directory valid first more w narrow)
      (stored_rule directory valid first more w narrow)
      (λ _ w' ((file, at_file, done), quiet). rw at_file done) (λ w' h. h)
