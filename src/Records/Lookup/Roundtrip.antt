-- ===== src/Records/Lookup/Roundtrip.antt =====
-- What a read returns after an append.
use recast.Prelude.{
  ℕ, ◌+◌, ◌-◌, ◌*◌, ◌^◌, ◌≤◌, ◌<◌, ◌≡◌, ◌∙◌, inl, inr, List, ltb, if◌then◌else◌, Pointer, length,
  get_or, arith, Bool-cases,
}
use recast.Checked.{page_count, off_max}
use recast.Storage.{File, World, ◌>>◌}
use recast.Storage.Triples.{Ends, Ends_mono, bind_rule, contents}
use recast.Records.{ListFileRecordStore, append_records, u32_byte}
use recast.Records.Layout.{IsValid}
use recast.Records.Page.{load_u32-cong, record_byte-u32_byte, load_u32-u32_byte}
use recast.Records.Rows.{Survives}
use recast.Records.Tail.{Appended}
use recast.Records.Atomic.{append_records-cases, Trouble}
use recast.Records.Lookup.{read_logical_ids}
use recast.Records.Lookup.Found.{stored_id}
use recast.Records.Lookup.Ids.{read_logical_ids-cases, ReadTrouble}

module _ (store : ListFileRecordStore) (valid : IsValid store) (old_size count : ℕ)
    (ids payloads : Pointer ℕ) (payload_stride : ℕ) (before file : File)
    (appended : Appended store old_size
      (old_size + count)
      ids
      payloads
      payload_stride
      before
      file) where
  stored_id-old : (r : ℕ) → r < old_size → stored_id store file r ≡ stored_id store before r
  stored_id-old r lt =
      load_u32-cong _ _ λ i h. appended.survives.kept r i lt (omega (arith, valid.stride))

  stored_id-new :
      (r : ℕ)
      → old_size ≤ r
      → r < old_size + count
      → ids.cells (r - old_size) < 4294967296
      → stored_id store file r ≡ ids.cells (r - old_size)
  stored_id-new r ge lt wide =
      load_u32-cong _ (u32_byte (ids.cells (r - old_size))) (λ i h.
        appended.added r i ge lt (omega (arith, valid.stride))
        ∙ record_byte-u32_byte (ids.cells (r - old_size)) payloads.cells
            ((r - old_size) * payload_stride) i h)
      ∙ load_u32-u32_byte (ids.cells (r - old_size)) wide

  -- The ID that row `r` has after the append.
  stored_id-appended :
      (r : ℕ)
      → ((i : ℕ) → i < count → ids.cells i < 4294967296)
      → r < old_size + count
      → stored_id store file r
        ≡ (if ltb r old_size then stored_id store before r else ids.cells (r - old_size))
  stored_id-appended r wide lt = elim (Bool-cases (ltb r old_size)) [
    | inl e ↦ rw e (stored_id-old r (ground arith))
    | inr e ↦
        let ge : old_size ≤ r = ground arith in
        rw e (stored_id-new r ge lt (wide (r - old_size) (omega arith)))
  ]

-- For a store that `IsValid`, with fewer than 2^32 records to a page, a positive count of IDs below
-- 2^32, a file that holds the pages of the published rows, and new pages that end within off_t, and
-- however the calls end: if an append and then a read return, the read has, for each offset of a new
-- row, the ID that was appended there, and for each offset of a published row the ID of the file
-- before. If one of them throws, the published rows and their pages are as before.
pub append-read :
    (store : ListFileRecordStore) (valid : IsValid store) (list_no old_size : ℕ)
    (ids payloads : Pointer ℕ) (payload_stride count : ℕ) (offsets : List ℕ) (w : World)
    → store.records_per_page < 2 ^ 32
    → 0 < count
    → ((i : ℕ) → i < count → ids.cells i < 4294967296)
    → page_count old_size store.records_per_page * store.page_size ≤ (contents w.file).size
    → page_count (old_size + count) store.records_per_page * store.page_size ≤ off_max
    → Ends
        ((append_records store list_no old_size ids payloads payload_stride count
            >> read_logical_ids store list_no (old_size + count) offsets)
          w)
        (λ result w'.
          (j : ℕ)
          → j < length offsets
          → get_or offsets j 0 < old_size + count
          → result j ≡ (
              if ltb (get_or offsets j 0) old_size
              then stored_id store (contents w.file) (get_or offsets j 0)
              else ids.cells (get_or offsets j 0 - old_size)))
        (λ w'. Survives store old_size (contents w.file) (contents w'.file))
append-read store valid list_no old_size ids payloads payload_stride count offsets w narrow pos wide
      there fits =
    bind_rule (append_records store list_no old_size ids payloads payload_stride count w) _
      (λ _ w'. Done (contents w'.file)) Answers Safe
      (Ends_mono (append_records store list_no old_size ids payloads payload_stride count w)
        (λ _ w'. Done (contents w'.file)) (λ _ w'. Done (contents w'.file))
        (λ w'. Safe w' × Trouble store list_no old_size ids payloads payload_stride count w) Safe
        (append_records-cases store valid list_no old_size ids payloads payload_stride count w pos
          there fits)
        (λ a w' x. x) (λ w' (s, _). s))
      λ a w1 done.
        Ends_mono (read_logical_ids store list_no (old_size + count) offsets w1) (Answered w1)
          Answers (Unread w1) Safe
          (read_logical_ids-cases store valid list_no (old_size + count) offsets w1 narrow fits)
          (λ result w2 (_, f) j lt inside.
            f j lt
            ∙ stored_id-appended store valid old_size count ids payloads payload_stride
                (contents w.file) (contents w1.file) done (get_or offsets j 0) wide inside)
          (λ w2 (same, _). rw same done.survives)
  where
    Done : File → Type 0
    Done = Appended store old_size (old_size + count) ids payloads payload_stride (contents w.file)

    Safe : World → Type 0
    Safe w' = Survives store old_size (contents w.file) (contents w'.file)

    Answered : World → (ℕ → ℕ) → World → Type 0
    Answered w1 result w' =
        (contents w'.file ≡ contents w1.file)
        × ((j : ℕ)
            → j < length offsets
            → result j ≡ stored_id store (contents w1.file) (get_or offsets j 0))

    Unread : World → World → Type 0
    Unread w1 w' =
        (contents w'.file ≡ contents w1.file)
        × ReadTrouble store list_no (old_size + count) offsets w1

    Answers : (ℕ → ℕ) → World → Type 0
    Answers result w' =
        (j : ℕ)
        → j < length offsets
        → get_or offsets j 0 < old_size + count
        → result j ≡ (
            if ltb (get_or offsets j 0) old_size
            then stored_id store (contents w.file) (get_or offsets j 0)
            else ids.cells (get_or offsets j 0 - old_size))
