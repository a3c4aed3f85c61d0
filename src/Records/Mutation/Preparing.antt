-- ===== src/Records/Mutation/Preparing.antt =====
-- `prepare_moves_and_truncate` from its first test to the mutation it returns.
use recast.Prelude.{
  ℕ, ◌*◌, ◌/◌, ◌%◌, ◌^◌, ◌≤◌, ◌<◌, ◌≡◌, refl, ◌⊎◌, inl, inr, true, false, not, List, Option, none,
  ok, err, Error, invalid_argument, out_of_range, overflow_error, runtime_error, throw_if, leb, ltb,
  ◌==◌, length, All, arith, ap, Bool-cases,
}
use recast.Checked.{page_count, off_max, checked_multiply}
use recast.Checked.Bounds.{checked_multiply-Fits}
use recast.Storage.{File, World, M, pure, lift, ◌>>=◌, ◌>>◌, open_file, fstat}
use recast.Storage.Triples.{
  Ends, Ends_mono, bind_rule, OnFile, OnFile-Holds, contents, Holds, fstat_rule, open_existing_rule,
  check_rule,
}
use recast.Deletion.{RecordMove}
use recast.Records.{ListFileRecordStore, list_path}
use recast.Records.Layout.{IsValid}
use recast.Records.Mutation.{
  PreparedMutation, check_moves, check_offsets, read_pages, observe, take_snapshots,
  store_snapshots, clear_tail,
}
use recast.Records.Mutation.Sets.{IsMove, check_moves-cases, check_offsets-cases}
use recast.Records.Mutation.Needed.{needed-offsets}
use recast.Records.Mutation.Images.{HasPages}
use recast.Records.Mutation.Snapshot.{rows_of, observe-ok, read_pages_rule, Loaded}
use recast.Records.Mutation.Prepared.{needed, writes, needed-there, images-ok}
use recast.Records.Mutation.Contract.{
  IsPrepared, PrepareTrouble, growing, bad_move, bad_offset, unknown_list, missing_file, wrong_size,
  too_many_moves, fault,
}
use recast.Records.Mutation.Commit.{prepare_moves_and_truncate}

module _ (records : ListFileRecordStore) (valid : IsValid records) (list_no old_size new_size : ℕ)
    (moves : List RecordMove) (observed : List ℕ) (w : World) where
  abbrev Reason : Type 0
  Reason = PrepareTrouble records list_no old_size new_size moves observed w

  abbrev before : File
  before = contents w.file

  abbrev Same : File → Type 0
  Same file = file ≡ before

  abbrev old_bytes : ℕ
  old_bytes = page_count old_size records.records_per_page * records.page_size

  -- What follows the reads.
  abbrev finish : ℕ × ℕ → (ℕ → Option (ℕ → ℕ)) → M PreparedMutation
  finish path pages = lift (observe records pages observed) >>= λ observed_ids.
      lift (checked_multiply (length moves) records.record_stride) >>= λ bytes.
      lift (take_snapshots records pages moves) >>= λ snapshots.
      lift (store_snapshots records moves snapshots pages) >>= λ moved.
      lift (clear_tail records new_size moved) >>= λ cleared. pure (record {
        path = (records.root, path.0, path.1);
        list_no = list_no;
        old_size = old_size;
        new_size = new_size;
        old_pages = page_count old_size records.records_per_page;
        new_pages = page_count new_size records.records_per_page;
        page_size = records.page_size;
        record_stride = records.record_stride;
        records_per_page = records.records_per_page;
        pages = cleared;
        write_pages = writes records valid old_size new_size moves before;
        observed_ids = observed_ids;
      })

  abbrev pub Answer : PreparedMutation → World → Type 0
  Answer prepared w' =
      OnFile Reason Same w'
      × IsPrepared records valid list_no old_size new_size moves observed before prepared

  finish_rule :
      (path : ℕ × ℕ) (pages : ℕ → Option (ℕ → ℕ)) (w' : World)
      → list_path records list_no ≡ ok path
      → HasPages records valid
          (rows_of records before)
          pages
          (needed records valid old_size new_size moves before observed)
      → before.size ≡ old_bytes
      → OnFile Reason Same w'
      → Ends (finish path pages w') Answer (Holds Reason Same)
  finish_rule path pages w' at has sized here =
      let ids =
        observe-ok records valid before pages
          (needed records valid old_size new_size moves before observed) observed has
          (needed-offsets records.records_per_page new_size moves observed) in
      let (snapshots, moved, cleared, taken, stored, tidy, image) =
        images-ok records valid old_size new_size moves before observed pages has in
      elim (checked_multiply-Fits (length moves) records.record_stride) [
        | inr (big, e) ↦
            rw (ids, e)
              (inr (overflow_error, refl, OnFile-Holds Reason Same w' here (too_many_moves big)))
        | inl (le, e) ↦
            rw (ids, e, taken, stored, tidy)
              (inl (
                _,
                refl,
                (
                  here,
                  record {
                    path = at;
                    root = refl;
                    same_list = refl;
                    page_size = refl;
                    record_stride = refl;
                    records_per_page = refl;
                    old_pages = refl;
                    new_pages = refl;
                    images = image;
                    sized = sized;
                    observed_ids = refl;
                  },
                ),
              ))
      ]

  -- From the open file on.
  file_rule :
      (path : ℕ × ℕ)
      → list_path records list_no ≡ ok path
      → new_size ≤ old_size
      → All (IsMove old_size new_size) moves
      → All (λ o. o < old_size) observed
      → old_bytes ≤ off_max
      → Ends
          ((open_file false
              >> (fstat >>= λ size.
                  lift (throw_if (not (size == old_bytes % 2 ^ 64)) runtime_error)
                  >> (read_pages records
                        (needed records valid old_size new_size moves before observed)
                        (λ _. none)
                      >>= λ pages. finish path pages)))
            w)
          Answer
          (Holds Reason Same)
  file_rule path at le good inside fits = rw whole (
      bind_rule (open_file false w) _ (λ _. OnFile Reason Same) Answer (Holds Reason Same)
        (open_existing_rule Reason Same w refl missing_file fault)
        λ a w1 here1.
          bind_rule (fstat w1) _ (λ size. OnFile Reason (Sized size)) Answer (Holds Reason Same)
            (fstat_rule Reason Same w1 here1)
            λ size w2 ((file, at_file, (same, e)), quiet).
              check_rule Reason Same Same (not (size == old_bytes)) runtime_error w2
                (read_pages records (needed records valid old_size new_size moves before observed)
                    (λ _. none)
                  >>= λ pages. finish path pages)
                Answer ((file, at_file, same), quiet) (λ f s. s)
                (λ test. wrong_size λ right. other size file same e right test)
                λ test.
                  bind_rule _ _
                    (Loaded records valid before Reason
                      (page_count old_size records.records_per_page) fits
                      (there size file same e test)
                      (needed records valid old_size new_size moves before observed) (λ _. none))
                    Answer (Holds Reason Same)
                    (read_pages_rule records valid before Reason
                      (page_count old_size records.records_per_page) fits
                      (there size file same e test)
                      (needed records valid old_size new_size moves before observed) (λ _. none) w2
                      (needed-there records valid old_size new_size moves before observed le good
                        inside)
                      ((file, at_file, same), quiet))
                    λ pages w3 (here3, has).
                      finish_rule path pages w3 at (λ p any. has p (inl any))
                        (exact size file same e test) here3)
    where
      whole : old_bytes % 2 ^ 64 ≡ old_bytes
      whole = omega (arith, fits)

      Sized : ℕ → File → Type 0
      Sized size file = Same file × (size ≡ file.size)

      other :
          (size : ℕ) (file : File)
          → Same file
          → size ≡ file.size
          → before.size ≡ old_bytes
          → not (size == old_bytes) ≡ true
          → ⊥
      other size file same e right test =
          let s : file.size ≡ before.size = ap (λ (f : File). f.size) same in ground arith

      exact :
          (size : ℕ) (file : File)
          → Same file
          → size ≡ file.size
          → not (size == old_bytes) ≡ false
          → before.size ≡ old_bytes
      exact size file same e test =
          let s : file.size ≡ before.size = ap (λ (f : File). f.size) same in ground arith

      there :
          (size : ℕ) (file : File)
          → Same file
          → size ≡ file.size
          → not (size == old_bytes) ≡ false
          → old_bytes ≤ before.size
      there size file same e test = omega (arith, exact size file same e test)

  prepare_open :
      (path : ℕ × ℕ)
      → ltb old_size new_size ≡ false
      → check_moves old_size new_size moves ≡ ok tt
      → check_offsets old_size observed ≡ ok tt
      → list_path records list_no ≡ ok path
      → prepare_moves_and_truncate records list_no old_size new_size moves observed w
        ≡ (open_file false
              >> (fstat >>= λ size.
                  lift (throw_if (not (size == old_bytes % 2 ^ 64)) runtime_error)
                  >> (read_pages records
                        (needed records valid old_size new_size moves before observed)
                        (λ _. none)
                      >>= λ pages. finish path pages)))
            w
  unfolding prepare_moves_and_truncate
  prepare_open path grow good inside at =
      rw (grow, good, inside, at, prepare_moves_and_truncate) refl

  list_path-cases :
      ((path : ℕ × ℕ) × (list_path records list_no ≡ ok path))
      ⊎ ((list_path records list_no ≡ err out_of_range) × (records.nlist ≤ list_no))
  unfolding list_path
  list_path-cases = elim (Bool-cases (leb records.nlist list_no)) [
    | inl e ↦ inr (rw (e, list_path) refl, ground arith)
    | inr e ↦ inl ((list_no / (records.lists_per_shard % 2 ^ 32), list_no), rw (e, list_path) refl)
  ]

  -- The tests before the file is opened.
  abbrev Refused : Type 0
  Refused =
      (e : Error) × (prepare_moves_and_truncate records list_no old_size new_size moves observed w
        ≡ (err e, w))
      × Reason

  abbrev Accepted : Type 0
  Accepted =
      (path : ℕ × ℕ) × (list_path records list_no ≡ ok path)
      × (new_size ≤ old_size)
      × All (IsMove old_size new_size) moves
      × All (λ o. o < old_size) observed
      × (prepare_moves_and_truncate records list_no old_size new_size moves observed w
          ≡ (open_file false
                >> (fstat >>= λ size.
                    lift (throw_if (not (size == old_bytes % 2 ^ 64)) runtime_error)
                    >> (read_pages records
                          (needed records valid old_size new_size moves before observed) (λ _. none)
                        >>= λ pages. finish path pages)))
              w)

  prepare_tests : Refused ⊎ Accepted
  unfolding prepare_moves_and_truncate
  prepare_tests = elim (Bool-cases (ltb old_size new_size)) [
    | inl grow ↦
        inl (invalid_argument, rw (grow, prepare_moves_and_truncate) refl, growing (ground arith))
    | inr grow ↦ elim (check_moves-cases old_size new_size moves) [
      | inr (m, bad) ↦
          inl (invalid_argument, rw (grow, m, prepare_moves_and_truncate) refl, bad_move bad)
      | inl (m, good) ↦ elim (check_offsets-cases old_size observed) [
        | inr (o, bad) ↦
            inl (invalid_argument, rw (grow, m, o, prepare_moves_and_truncate) refl, bad_offset bad)
        | inl (o, inside) ↦ elim list_path-cases [
          | inr (p, nowhere) ↦ inl (
            out_of_range,
            rw (grow, m, o, p, prepare_moves_and_truncate) refl,
            unknown_list nowhere,
          )
          | inl (path, p) ↦ inr (path, p, ground arith, good, inside, prepare_open path grow m o p)
        ]
      ]
    ]
  ]

  pub prepare_rule :
      old_bytes ≤ off_max
      → Ends
          (prepare_moves_and_truncate records list_no old_size new_size moves observed w)
          Answer
          (Holds Reason Same)
  prepare_rule fits = elim prepare_tests [
    | inl (e, x, reason) ↦ rw x (inr (e, refl, (refl, reason)))
    | inr (path, at, le, good, inside, x) ↦ rw x (file_rule path at le good inside fits)
  ]

  -- For a store that `IsValid`, and pages of the list that end within off_t, and however the calls
  -- end: a preparation leaves the file as it is. It may return a mutation of that list with the IDs of
  -- the observed rows in their order. Its written pages hold the rows as the moves leave them, with
  -- every source read before the first move and the rows from the new size on cleared. They are named
  -- once each, in rising order, and each holds the destination of a move or is the last retained page
  -- with rows past the new size; a retained page that is not written needs no change. Or it may
  -- throw, and only for one of the reasons of `PrepareTrouble`: a list that would grow, a move that is
  -- not from the tail to a retained row, an observed row past the end, an unknown list, a missing
  -- file, a file that is not exactly the list's pages, more moves than 2^64 - 1 bytes hold, or a fault
  -- in a call.
  pub prepare_moves_and_truncate-cases :
      page_count old_size records.records_per_page * records.page_size ≤ off_max
      → Ends
          (prepare_moves_and_truncate records list_no old_size new_size moves observed w)
          (λ prepared w'.
            (contents w'.file ≡ contents w.file)
            × IsPrepared records valid list_no old_size new_size moves observed
                (contents w.file)
                prepared)
          (λ w'.
            (contents w'.file ≡ contents w.file)
            × PrepareTrouble records list_no old_size new_size moves observed w)
  prepare_moves_and_truncate-cases fits =
      Ends_mono (prepare_moves_and_truncate records list_no old_size new_size moves observed w)
        Answer
        (λ prepared w'.
          (contents w'.file ≡ contents w.file)
          × IsPrepared records valid list_no old_size new_size moves observed (contents w.file)
              prepared)
        (Holds Reason Same) (Holds Reason Same) (prepare_rule fits)
        (λ prepared w' (((file, there, same), quiet), is). (rw there same, is)) (λ w' h. h)
