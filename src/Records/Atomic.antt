-- ===== src/Records/Atomic.antt =====
-- What a caller of `append_records` can rely on.
use recast.Prelude.{
  ℕ, ◌+◌, ◌-◌, ◌*◌, ◌%◌, ◌≤◌, ◌<◌, ◌≡◌, refl, inl, inr, Bool, true, false, ◌||◌, err, out_of_range,
  invalid_argument, ltb, leb, ◌==◌, Pointer, is_null, arith, Bool-cases, Any,
}
use recast.Checked.{page_count, off_max, uint32_max}
use recast.Storage.{File, World, IsFault, ◌>>◌, open_file}
use recast.Storage.Triples.{Ends, Ends_mono, bind_rule, OnFile, contents, Holds, open_rule}
use recast.Records.{ListFileRecordStore, append_records, append_to_file, list_path}
use recast.Records.Layout.{IsValid}
use recast.Records.Rows.{Survives}
use recast.Records.Tail.{Appended}
use recast.Records.Publish.{append_to_file_rule}

-- Why an append may throw.
pub data Trouble (store : ListFileRecordStore) (list_no old_size : ℕ) (ids payloads : Pointer ℕ)
    (payload_stride count : ℕ) (w : World) : Type 0 where
  no_ids : ids.address ≡ 0 → Trouble store list_no old_size ids payloads payload_stride count w
  no_payloads :
      payloads.address ≡ 0 → Trouble store list_no old_size ids payloads payload_stride count w
  short_stride :
      payload_stride < store.payload_bytes
      → Trouble store list_no old_size ids payloads payload_stride count w
  too_many :
      uint32_max - old_size < count
      → Trouble store list_no old_size ids payloads payload_stride count w
  unknown_list :
      store.nlist ≤ list_no → Trouble store list_no old_size ids payloads payload_stride count w
  part_of_page :
      ((contents w.file).size % store.page_size == 0) ≡ false
      → Trouble store list_no old_size ids payloads payload_stride count w
  fault :
      Any IsFault w.outcomes → Trouble store list_no old_size ids payloads payload_stride count w

module _ (store : ListFileRecordStore) (valid : IsValid store) (list_no old_size : ℕ)
    (ids payloads : Pointer ℕ) (payload_stride count : ℕ) (w : World) where
  abbrev Reason : Type 0
  Reason = Trouble store list_no old_size ids payloads payload_stride count w

  abbrev Safe : World → Type 0
  Safe = Holds Reason (Survives store old_size (contents w.file))

  abbrev bad_arguments : Bool
  bad_arguments =
      is_null ids
      || is_null payloads
      || ltb payload_stride store.payload_bytes
      || ltb (uint32_max - old_size) count

  bad_arguments-Trouble : bad_arguments ≡ true → Reason
  bad_arguments-Trouble e = elim (Bool-cases (is_null ids)) [
    | inl i ↦ no_ids (ground arith)
    | inr i ↦ elim (Bool-cases (is_null payloads)) [
      | inl p ↦ no_payloads (ground arith)
      | inr p ↦ elim (Bool-cases (ltb payload_stride store.payload_bytes)) [
        | inl s ↦ short_stride (ground arith)
        | inr s ↦ too_many (ground arith)
      ]
    ]
  ]

  abbrev Done : File → Type 0
  Done = Appended store old_size (old_size + count) ids payloads payload_stride (contents w.file)

  abbrev Start : File → Type 0
  Start file =
      Survives store old_size (contents w.file) file
      × ((file.size % store.page_size == 0) ≡ false → Reason)

  unchanged :
      page_count old_size store.records_per_page * store.page_size ≤ (contents w.file).size
      → Survives store old_size (contents w.file) (contents w.file)
  unchanged there = record { pages = there; kept = λ r b lt h. refl }

  -- The three ways through the tests.
  append_refused :
      (count == 0) ≡ false
      → bad_arguments ≡ true
      → append_records store list_no old_size ids payloads payload_stride count w
        ≡ (err invalid_argument, w)
  unfolding append_records
  append_refused some_rows bad = rw (some_rows, bad, append_records) refl

  append_nowhere :
      (count == 0) ≡ false
      → bad_arguments ≡ false
      → leb store.nlist list_no ≡ true
      → append_records store list_no old_size ids payloads payload_stride count w
        ≡ (err out_of_range, w)
  unfolding append_records list_path
  append_nowhere some_rows good nowhere =
      rw (some_rows, good, nowhere, append_records, list_path) refl

  append_open :
      (count == 0) ≡ false
      → bad_arguments ≡ false
      → leb store.nlist list_no ≡ false
      → append_records store list_no old_size ids payloads payload_stride count w
        ≡ (open_file true >> append_to_file store old_size ids payloads payload_stride count) w
  unfolding append_records list_path
  append_open some_rows good here = rw (some_rows, good, here, append_records, list_path) refl

  append_opened :
      page_count old_size store.records_per_page * store.page_size ≤ (contents w.file).size
      → page_count (old_size + count) store.records_per_page * store.page_size ≤ off_max
      → Ends
          ((open_file true >> append_to_file store old_size ids payloads payload_stride count) w)
          (λ _. OnFile Reason Done)
          Safe
  append_opened there fits =
      bind_rule (open_file true w) _ (λ _. OnFile Reason Start) (λ _. OnFile Reason Done) Safe
        (Ends_mono (open_file true w) (λ _. OnFile Reason Start) (λ _. OnFile Reason Start)
          (Holds Reason Start) Safe (open_rule Reason Start w (unchanged there, part_of_page) fault)
          (λ a w' x. x) (λ w' ((s, _), reason). (s, reason)))
        λ a w'.
          append_to_file_rule Reason store valid old_size count ids payloads payload_stride
            (contents w.file) fits w'

  -- For a store that `IsValid`, a positive count, and a file that holds the pages of the published
  -- rows (a missing file is an empty one), with new pages that end within off_t, and however the
  -- calls end: an append may return, with the published rows as before, the new rows holding the
  -- given IDs and payloads, and the file exactly the pages of the new size. Or it may throw, with the
  -- published rows and their pages as before, and only for one of the reasons of `Trouble`: a null
  -- buffer, a payload stride below the payload, more rows than uint32_t counts, an unknown list, a
  -- file that is no whole number of pages, or a fault in a call.
  pub append_records-cases :
      0 < count
      → page_count old_size store.records_per_page * store.page_size ≤ (contents w.file).size
      → page_count (old_size + count) store.records_per_page * store.page_size ≤ off_max
      → Ends
          (append_records store list_no old_size ids payloads payload_stride count w)
          (λ _ w'.
            Appended store old_size
              (old_size + count)
              ids
              payloads
              payload_stride
              (contents w.file)
              (contents w'.file))
          (λ w'.
            Survives store old_size (contents w.file) (contents w'.file)
            × Trouble store list_no old_size ids payloads payload_stride count w)
  append_records-cases pos there fits =
      let some_rows : (count == 0) ≡ false = ground arith in
      elim (Bool-cases bad_arguments) [
        | inl bad ↦
            rw (append_refused some_rows bad)
              (inr (invalid_argument, refl, (unchanged there, bad_arguments-Trouble bad)))
        | inr good ↦ elim (Bool-cases (leb store.nlist list_no)) [
          | inl nowhere ↦
              rw (append_nowhere some_rows good nowhere)
                (inr (out_of_range, refl, (unchanged there, unknown_list (ground arith))))
          | inr here ↦ rw (append_open some_rows good here) (
              Ends_mono _ (λ _. OnFile Reason Done) (λ a w'. Done (contents w'.file)) Safe Safe
                (append_opened there fits) (λ a w' ((file, there', done), _). rw there' done)
                (λ w' x. x))
        ]
      ]
