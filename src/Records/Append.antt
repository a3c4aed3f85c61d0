-- ===== src/Records/Append.antt =====
-- What storing one page of an append does to the rows of the file.
use native.Mathlib.Decide.{ℕ_discrete, dec_lt}
use recast.Prelude.{
  ℕ, suc, ◌+◌, ◌*◌, ◌/◌, ◌%◌, ◌≤◌, ◌<◌, ◌≡◌, ◌≢◌, ◌∙◌, ◌⊎◌, inl, inr, Pointer, arith, ap, min,
}
use recast.Checked.{page_count}
use recast.Storage.{File}
use recast.Storage.Writing.{Written}
use recast.Records.{ListFileRecordStore}
use recast.Records.Layout.{IsValid, position, in_page, lane_le, page_apart, page_of_row}
use recast.Records.Rows.{
  Survives, HoldsRecords, page_lt, page_before, position-lt, HasOld, stored, stored_new,
}

module _ (store : ListFileRecordStore) (valid : IsValid store) where
  module _ (old_size new_size : ℕ) (ids payloads : Pointer ℕ) (payload_stride : ℕ) (before : File)
      (p : ℕ) where
    -- A byte that the write does not reach.
    row_outside :
        (page : ℕ → ℕ) (k : ℕ) (file file' : File) (r b : ℕ)
        → k ≤ store.page_size
        → b < store.record_stride
        → position store r b < file.size
        → (r / store.records_per_page ≢ p)
          ⊎ (k ≤ r % store.records_per_page * store.record_stride + b)
        → Written file (p * store.page_size) k page file'
        → file'.bytes (position store r b) ≡ file.bytes (position store r b)
    row_outside page k file file' r b le h there out w =
        elim (ℕ_discrete (r / store.records_per_page) p) [
          | yes e ↦
              w.outside (position store r b) there
                (inr (ground (arith, ap (λ (t : ℕ). t * store.page_size) e)))
          | no ne ↦ w.outside (position store r b) there (
              ground (
                arith,
                page_apart (r / store.records_per_page) p store.page_size
                    (r % store.records_per_page * store.record_stride + b) ne
                    (in_page store valid r b h),
              ))
        ]

    -- A byte that the write reaches.
    row_inside :
        (page : ℕ → ℕ) (k : ℕ) (file file' : File) (r b : ℕ)
        → r / store.records_per_page ≡ p
        → r % store.records_per_page * store.record_stride + b < k
        → Written file (p * store.page_size) k page file'
        → file'.bytes (position store r b)
          ≡ page (r % store.records_per_page * store.record_stride + b)
    row_inside page k file file' r b e lt w =
        let o = r % store.records_per_page * store.record_stride + b in
        ap file'.bytes (ap (λ (t : ℕ). t * store.page_size + o) e) ∙ w.inside o lt

    row_kept :
        (page : ℕ → ℕ) (k : ℕ) (file file' : File)
        → HasOld store valid old_size new_size ids payloads payload_stride before p page
        → k ≤ store.page_size
        → Survives store old_size before file
        → Written file (p * store.page_size) k page file'
        → (r b : ℕ) → r < old_size
        → b < store.record_stride
        → file'.bytes (position store r b) ≡ before.bytes (position store r b)
    row_kept page k file file' old le s w r b lt h =
        let there : position store r b < file.size = omega (
          arith,
          position-lt store valid r b (page_count old_size store.records_per_page) h
              (page_lt store valid r old_size lt),
          s.pages,
        ) in
        elim (ℕ_discrete (r / store.records_per_page) p) [
          | no ne ↦ row_outside page k file file' r b le h there (inl ne) w ∙ s.kept r b lt h
          | yes e ↦ elim (dec_lt (r % store.records_per_page * store.record_stride + b) k) [
            | yes reach ↦ row_inside page k file file' r b e reach w ∙ old r b lt e h
            | no far ↦
                row_outside page k file file' r b le h there (inr (omega arith)) w ∙ s.kept r b lt h
          ]
        ]

    -- However much of the page is stored, the published rows survive.
    pub Written-Survives :
        (page : ℕ → ℕ) (k : ℕ) (file file' : File)
        → HasOld store valid old_size new_size ids payloads payload_stride before p page
        → k ≤ store.page_size
        → Survives store old_size before file
        → Written file (p * store.page_size) k page file'
        → Survives store old_size before file'
    Written-Survives page k file file' old le s w = record {
      pages = ground (arith, w.size, s.pages);
      kept = λ r b lt h. row_kept page k file file' old le s w r b lt h;
    }

    -- With the whole page stored, its new rows are there too.
    pub Written-HoldsRecords :
        (page : ℕ → ℕ) (file file' : File)
        → HoldsRecords store old_size
            (min new_size (p * store.records_per_page))
            ids
            payloads
            payload_stride
            file
        → p * store.page_size ≤ file.size
        → Written file
            (p * store.page_size)
            store.page_size
            (stored store valid old_size new_size ids payloads payload_stride before p page)
            file'
        → HoldsRecords store old_size
            (min new_size (suc p * store.records_per_page))
            ids
            payloads
            payload_stride
            file'
    Written-HoldsRecords page file file' had reach w r b ge lt h =
        elim (ℕ_discrete (r / store.records_per_page) p) [
          | yes e ↦
              row_inside
                (stored store valid old_size new_size ids payloads payload_stride before p page)
                store.page_size file file' r b e (in_page store valid r b h) w
              ∙ stored_new store valid old_size new_size ids payloads payload_stride before p page r
                  b ge (omega arith) e h
          | no ne ↦
              let earlier : r / store.records_per_page < p =
                omega (arith, page_before store valid r (suc p) (omega arith)) in
              let below = position-lt store valid r b p h earlier in
              row_outside
                (stored store valid old_size new_size ids payloads payload_stride before p page)
                store.page_size file file' r b (omega arith) h (omega arith) (inl ne) w
              ∙ had r b ge
                  (omega (
                    arith,
                    page_of_row r store.records_per_page valid.some_rows,
                    lane_le (r / store.records_per_page) p store.records_per_page earlier,
                  ))
                  h
        ]
