-- ===== src/Directory/Batch.antt =====
-- `read_batch` of the directory, from the open to the last entry.
use recast.Prelude.{
  ℕ, ◌+◌, ◌*◌, ◌%◌, ◌≤◌, ◌<◌, ◌≡◌, ◌≢◌, refl, ap, ◌∙◌, inl, inr, false, not, List, [], ◌∷◌, none,
  runtime_error, ◌==◌, length, get_or, All, All-get_or, Any, arith,
}
use recast.Checked.{uint32_max}
use recast.Storage.{File, World, IsFault, open_file, fstat}
use recast.Storage.Triples.{
  Ends, Ends_mono, bind_rule, OnFile, contents, Holds, fstat_rule, open_existing_rule, check_rule,
}
use recast.Records.{aligned_buffer}
use recast.Directory.{
  DiskLocation, ExternalLocationDirectory, entry_at, tombstone, Request, make_requests,
  sort_requests, page_runs, read_runs, read_batch,
}
use recast.Directory.Runs.{
  IsRequest, make_requests-IsRequest, make_requests-Any, sort_requests-All, sort_requests-Any,
  page_runs-IsRun, page_runs-Any,
}
use recast.Directory.Reading.{IsDirectory, page_end, FilledIn, read_runs_rule, buffer_rule}

-- Why a read of entries may throw.
pub data ReadTrouble (directory : ExternalLocationDirectory) (ids : List ℕ) (w : World)
    : Type 0 where
  missing_file : w.file ≡ none → ReadTrouble directory ids w
  torn : (contents w.file).size % directory.page_size ≢ 0 → ReadTrouble directory ids w
  beyond :
      (j : ℕ)
      → j < length ids
      → (contents w.file).size < page_end directory (get_or ids j 0)
      → ReadTrouble directory ids w
  fault : Any IsFault w.outcomes → ReadTrouble directory ids w

module _ (directory : ExternalLocationDirectory) (valid : IsDirectory directory) (first : ℕ)
    (more : List ℕ) (w : World) (small : All (λ (id : ℕ). id ≤ uint32_max) (first ∷ more)) where
  abbrev Reason : Type 0
  Reason = ReadTrouble directory (first ∷ more) w

  abbrev before : File
  before = contents w.file

  abbrev Same : File → Type 0
  Same file = file ≡ before

  abbrev at : ℕ → ℕ
  at j = get_or (first ∷ more) j 0

  abbrev runs : List (ℕ × List Request)
  runs =
      page_runs (λ (r : Request). r.page) (sort_requests (make_requests directory (first ∷ more) 0))

  abbrev Answer : (ℕ → DiskLocation) → World → Type 0
  Answer result w' =
      (contents w'.file ≡ contents w.file)
      × ((j : ℕ)
          → j < length (first ∷ more)
          → (result j ≡ entry_at (contents w.file).bytes (get_or (first ∷ more) j 0))
            × (get_or (first ∷ more) j 0 * 8 + 8 ≤ (contents w.file).size))

  runs_rule :
      (page : ℕ → ℕ) (w' : World)
      → OnFile Reason Same w'
      → Ends
          (read_runs directory before.size runs page (λ _. tombstone) w')
          Answer
          (Holds Reason Same)
  runs_rule page w' here =
      let count = length (first ∷ more) in
      let requests = make_requests directory (first ∷ more) 0 in
      let P : Request → Type 0 = IsRequest directory at count in
      let page_of : Request → ℕ = λ r. r.page in
      let low : (j : ℕ) → j < count → at j ≤ uint32_max =
        λ j lt. All-get_or (λ (id : ℕ). id ≤ uint32_max) (first ∷ more) j 0 small (omega arith) in
      let all : All P requests =
        make_requests-IsRequest directory at count (first ∷ more) 0
          (λ j lt. let z : 0 + j ≡ j = omega arith in ap at z) (omega arith) in
      Ends_mono _ (FilledIn Reason directory valid at count low before runs (λ _. tombstone)) Answer
        (Holds Reason Same) (Holds Reason Same)
        (read_runs_rule Reason directory valid at count low before beyond runs page (λ _. tombstone)
          w' (page_runs-IsRun page_of P (sort_requests requests) (sort_requests-All P requests all))
          here)
        (λ result w'' (((file, at_file, same), quiet), f). (
          rw at_file same,
          λ j lt.
              let z : 0 + j ≡ j = omega arith in
              f j (
                inr (
                  page_runs-Any page_of (λ r. r.input_index ≡ j) (sort_requests requests)
                    (sort_requests-Any (λ r. r.input_index ≡ j) requests
                      (rw z at (make_requests-Any directory (first ∷ more) 0 j lt))))),
        ))
        (λ w'' h. h)

  batch_rule : Ends (read_batch directory (first ∷ more) w) Answer (Holds Reason Same)
  unfolding read_batch
  batch_rule =
      bind_rule (open_file false w) _ (λ _. OnFile Reason Same) Answer (Holds Reason Same)
        (open_existing_rule Reason Same w refl missing_file fault)
        λ a w1 here1.
          bind_rule (fstat w1) _ (λ size. OnFile Reason (λ file. Same file × (size ≡ file.size)))
            Answer (Holds Reason Same) (fstat_rule Reason Same w1 here1)
            λ size w2 ((file, at_file, (same, e)), quiet).
              let whole : size ≡ before.size = e ∙ ap (λ (f : File). f.size) same in
              check_rule Reason Same Same (not (size % directory.page_size == 0)) runtime_error w2 _
                Answer ((file, at_file, same), quiet) (λ f s. s) (λ test. torn (ground arith))
                λ test.
                  bind_rule (aligned_buffer directory.page_size directory.page_size w2) _
                    (λ _. OnFile Reason Same) Answer (Holds Reason Same)
                    (buffer_rule Reason directory valid Same w2 ((file, at_file, same), quiet))
                    λ page w3 here3. rw whole (runs_rule page w3 here3)

-- For a directory with the page size that its constructor asks for, IDs of 32 bits, and however the
-- calls end: a read of a batch leaves the file as it is. It may return, in every ID's place, whatever
-- the order of the IDs is and however often one stands among them, the location in the eight bytes at
-- byte `id * 8` of the file, which lie in the file. Or it may throw, and only for one of the reasons
-- of `ReadTrouble`: a missing file, a file that is not whole pages, an ID whose page ends past the end
-- of the file, or a fault in a call.
pub read_batch-cases :
    (directory : ExternalLocationDirectory) (ids : List ℕ) (w : World)
    → IsDirectory directory
    → All (λ (id : ℕ). id ≤ uint32_max) ids
    → Ends
        (read_batch directory ids w)
        (λ result w'.
          (contents w'.file ≡ contents w.file)
          × ((j : ℕ)
              → j < length ids
              → (result j ≡ entry_at (contents w.file).bytes (get_or ids j 0))
                × (get_or ids j 0 * 8 + 8 ≤ (contents w.file).size)))
        (λ w'. (contents w'.file ≡ contents w.file) × ReadTrouble directory ids w)
unfolding read_batch
read_batch-cases directory [] w valid small = inl (_, refl, (refl, λ j lt. absurd (omega arith)))
read_batch-cases directory (first ∷ more) w valid small =
    batch_rule directory valid first more w small
