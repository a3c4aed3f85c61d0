-- ===== src/Records/Lookup/Ids.antt =====
-- `read_logical_ids` from its first test to its last copy.
use recast.Prelude.{
  ℕ, ◌+◌, ◌*◌, ◌%◌, ◌^◌, ◌≤◌, ◌<◌, ◌≡◌, refl, inl, inr, true, false, not, List, [], ◌∷◌, none, ok,
  err, Error, out_of_range, runtime_error, throw_if, leb, ◌==◌, length, get_or, All, Any, arith,
  Bool-cases, ap,
}
use recast.Checked.{page_count, off_max}
use recast.Storage.{File, World, IsFault, lift, ◌>>=◌, ◌>>◌, open_file, fstat}
use recast.Storage.Triples.{
  Ends, Ends_mono, bind_rule, OnFile, contents, Holds, fstat_rule, open_existing_rule, check_rule,
}
use recast.Records.{ListFileRecordStore, aligned_buffer, list_path}
use recast.Records.Layout.{IsValid}
use recast.Records.Tail.{aligned_buffer_rule}
use recast.Records.Lookup.{Request, make_requests, sort_requests, read_requests, read_logical_ids}
use recast.Records.Lookup.Requests.{
  IsRequest, make_requests-Made, sort_requests-All, sort_requests-Any,
}
use recast.Records.Lookup.Found.{stored_id, FilledIn, read_requests_rule}

-- Why a read may throw.
pub data ReadTrouble (records : ListFileRecordStore) (list_no logical_size : ℕ) (offsets : List ℕ)
    (w : World) : Type 0 where
  bad_offset :
      Any (λ offset. logical_size ≤ offset) offsets
      → ReadTrouble records list_no logical_size offsets w
  unknown_list : records.nlist ≤ list_no → ReadTrouble records list_no logical_size offsets w
  missing_file : w.file ≡ none → ReadTrouble records list_no logical_size offsets w
  wrong_size :
      ((contents w.file).size ≡ page_count logical_size records.records_per_page * records.page_size
        → ⊥)
      → ReadTrouble records list_no logical_size offsets w
  read_fault : Any IsFault w.outcomes → ReadTrouble records list_no logical_size offsets w

module _ (records : ListFileRecordStore) (valid : IsValid records)
    (narrow : records.records_per_page < 2 ^ 32) (list_no logical_size : ℕ)
    (fits : page_count logical_size records.records_per_page * records.page_size ≤ off_max)
    (offsets : List ℕ) (w : World) where
  abbrev Reason : Type 0
  Reason = ReadTrouble records list_no logical_size offsets w

  abbrev before : File
  before = contents w.file

  abbrev Same : File → Type 0
  Same file = file ≡ before

  abbrev at : ℕ → ℕ
  at j = get_or offsets j 0

  abbrev Answer : (ℕ → ℕ) → World → Type 0
  Answer result w' =
      (contents w'.file ≡ contents w.file)
      × ((j : ℕ)
          → j < length offsets
          → result j ≡ stored_id records (contents w.file) (get_or offsets j 0))

  abbrev expected : ℕ
  expected = page_count logical_size records.records_per_page * records.page_size

  -- From the open file on.
  pages_rule :
      (requests : List Request) (w' : World)
      → All (IsRequest records logical_size at) requests
      → ((j : ℕ) → j < length offsets → Any (λ s. s.input ≡ j) requests)
      → expected ≤ before.size
      → OnFile Reason Same w'
      → Ends
          ((aligned_buffer records.page_size records.page_size >>= λ page.
              read_requests records (sort_requests requests) none page (λ _. 0))
            w')
          Answer
          (Holds Reason Same)
  pages_rule requests w' all places there here =
      bind_rule _ _ (λ _. OnFile Reason Same) Answer (Holds Reason Same)
        (aligned_buffer_rule Reason records valid Same w' here)
        λ page w'' here'.
          Ends_mono _
            (FilledIn Reason records valid narrow logical_size at before fits there
              (sort_requests requests) (λ _. 0))
            Answer (Holds Reason Same) (Holds Reason Same)
            (read_requests_rule Reason records valid narrow logical_size at before fits there
              (sort_requests requests) none page (λ _. 0) w''
              (sort_requests-All (IsRequest records logical_size at) requests all) tt here')
            (λ result w3 (((file, at_file, same), quiet), f). (
              rw at_file same,
              λ j lt. f j (inr (sort_requests-Any (λ s. s.input ≡ j) requests (places j lt))),
            ))
            (λ w3 h. h)

  -- From the list of requests on.
  file_rule :
      (requests : List Request)
      → All (IsRequest records logical_size at) requests
      → ((j : ℕ) → j < length offsets → Any (λ s. s.input ≡ j) requests)
      → Ends
          ((open_file false
              >> (fstat >>= λ size.
                  lift (throw_if (not (size == expected % 2 ^ 64)) runtime_error)
                  >> (aligned_buffer records.page_size records.page_size >>= λ page.
                      read_requests records (sort_requests requests) none page (λ _. 0))))
            w)
          Answer
          (Holds Reason Same)
  file_rule requests all places = rw whole (
      bind_rule (open_file false w) _ (λ _. OnFile Reason Same) Answer (Holds Reason Same)
        (open_existing_rule Reason Same w refl missing_file read_fault)
        λ a w1 here1.
          bind_rule (fstat w1) _ (λ size. OnFile Reason (Sized size)) Answer (Holds Reason Same)
            (fstat_rule Reason Same w1 here1)
            λ size w2 ((file, at_file, (same, e)), quiet).
              check_rule Reason Same Same (not (size == expected)) runtime_error w2
                (aligned_buffer records.page_size records.page_size >>= λ page.
                  read_requests records (sort_requests requests) none page (λ _. 0))
                Answer ((file, at_file, same), quiet) (λ f s. s)
                (λ test. wrong_size λ right. other size file same e right test)
                λ test.
                  pages_rule requests w2 all places (there size file same e test)
                    ((file, at_file, same), quiet))
    where
      whole : expected % 2 ^ 64 ≡ expected
      whole = omega (arith, fits)

      Sized : ℕ → File → Type 0
      Sized size file = Same file × (size ≡ file.size)

      other :
          (size : ℕ) (file : File)
          → Same file
          → size ≡ file.size
          → before.size ≡ expected
          → not (size == expected) ≡ true
          → ⊥
      other size file same e right test =
          let s : file.size ≡ before.size = ap (λ (f : File). f.size) same in ground arith

      there :
          (size : ℕ) (file : File)
          → Same file
          → size ≡ file.size
          → not (size == expected) ≡ false
          → expected ≤ before.size
      there size file same e test =
          let s : file.size ≡ before.size = ap (λ (f : File). f.size) same in ground arith

module _ (records : ListFileRecordStore) (list_no logical_size : ℕ) (first : ℕ) (more : List ℕ)
    (w : World) where
  read_refused :
      (e : Error)
      → make_requests records logical_size (first ∷ more) 0 ≡ err e
      → read_logical_ids records list_no logical_size (first ∷ more) w ≡ (err e, w)
  unfolding read_logical_ids
  read_refused e bad = rw (bad, read_logical_ids) refl

  read_nowhere :
      (requests : List Request)
      → make_requests records logical_size (first ∷ more) 0 ≡ ok requests
      → leb records.nlist list_no ≡ true
      → read_logical_ids records list_no logical_size (first ∷ more) w ≡ (err out_of_range, w)
  unfolding read_logical_ids list_path
  read_nowhere requests made nowhere = rw (made, nowhere, read_logical_ids, list_path) refl

  read_open :
      (requests : List Request)
      → make_requests records logical_size (first ∷ more) 0 ≡ ok requests
      → leb records.nlist list_no ≡ false
      → read_logical_ids records list_no logical_size (first ∷ more) w
        ≡ (open_file false
              >> (fstat >>= λ size.
                  lift (
                    throw_if
                      (not (
                        size
                        == page_count logical_size records.records_per_page
                          * records.page_size
                          % 2 ^ 64))
                      runtime_error)
                  >> (aligned_buffer records.page_size records.page_size >>= λ page.
                      read_requests records (sort_requests requests) none page (λ _. 0))))
            w
  unfolding read_logical_ids list_path
  read_open requests made here = rw (made, here, read_logical_ids, list_path) refl

-- For a store that `IsValid`, with fewer than 2^32 records to a page, and pages of the list that end
-- within off_t, and however the calls end: a read of IDs leaves the file as it is. It may return,
-- for every offset in its place, the ID that the file holds in that row. Or it may throw, and only
-- for one of the reasons of `ReadTrouble`: an offset past the list's size, an unknown list, a missing
-- file, a file that is not exactly the list's pages, or a fault in a call.
pub read_logical_ids-cases :
    (records : ListFileRecordStore) (valid : IsValid records) (list_no logical_size : ℕ)
    (offsets : List ℕ) (w : World)
    → records.records_per_page < 2 ^ 32
    → page_count logical_size records.records_per_page * records.page_size ≤ off_max
    → Ends
        (read_logical_ids records list_no logical_size offsets w)
        (λ result w'.
          (contents w'.file ≡ contents w.file)
          × ((j : ℕ)
              → j < length offsets
              → result j ≡ stored_id records (contents w.file) (get_or offsets j 0)))
        (λ w'.
          (contents w'.file ≡ contents w.file) × ReadTrouble records list_no logical_size offsets w)
unfolding read_logical_ids
read_logical_ids-cases records valid list_no logical_size [] w narrow fits =
    inl (_, refl, (refl, λ j lt. absurd (omega arith)))
read_logical_ids-cases records valid list_no logical_size (first ∷ more) w narrow fits =
    elim (make_requests-Made records logical_size (λ j. get_or (first ∷ more) j 0) (first ∷ more) 0
      (λ j lt. let e : 0 + j ≡ j = omega arith in rw e refl)) [
        | inr (bad, any) ↦
            rw (read_refused records list_no logical_size first more w out_of_range bad)
              (inr (out_of_range, refl, (refl, bad_offset any)))
        | inl (requests, made, all, places) ↦ elim (Bool-cases (leb records.nlist list_no)) [
          | inl nowhere ↦
              rw (read_nowhere records list_no logical_size first more w requests made nowhere)
                (inr (out_of_range, refl, (refl, unknown_list (ground arith))))
          | inr here ↦ rw (read_open records list_no logical_size first more w requests made here) (
              file_rule records valid narrow list_no logical_size fits (first ∷ more) w requests all
                (λ j lt. let e : 0 + j ≡ j = omega arith in rw e at (places j lt)))
        ]
      ]
