-- ===== src/Records/Rows.antt =====
-- The rows of a list's file, and those of a page that an append has filled in.
use native.Mathlib.Nat.{div-add-mod'}
use recast.Prelude.{ℕ, ◌+◌, ◌-◌, ◌*◌, ◌/◌, ◌%◌, ◌≤◌, ◌<◌, ◌≡◌, ◌∙◌, Pointer, arith, ap, min, max}
use recast.Checked.{page_count}
use recast.Checked.Bounds.{page_count_bounds}
use recast.Storage.{File}
use recast.Records.{ListFileRecordStore, fill_rows}
use recast.Records.Layout.{IsValid, position, in_page, lane_lt, page_of_row}
use recast.Records.Page.{record_byte, filled_byte, fill_rows_lem}

module _ (store : ListFileRecordStore) where
  -- The published rows, those below `old_size`, read as in `before`, and their pages are there.
  pub record Survives (old_size : ℕ) (before file : File) : Type 0 where
    pub pages : page_count old_size store.records_per_page * store.page_size ≤ file.size
    pub kept :
        (r b : ℕ)
        → r < old_size
        → b < store.record_stride
        → file.bytes (position store r b) ≡ before.bytes (position store r b)

  -- The rows from `old_size` to `limit` hold the records.
  abbrev pub HoldsRecords : ℕ → ℕ → Pointer ℕ → Pointer ℕ → ℕ → File → Type 0
  HoldsRecords old_size limit ids payloads payload_stride file =
      (r b : ℕ)
      → old_size ≤ r
      → r < limit
      → b < store.record_stride
      → file.bytes (position store r b)
        ≡ record_byte (ids.cells (r - old_size)) payloads.cells ((r - old_size) * payload_stride) b

pub mul_lt_cancel : (a b n : ℕ) → a * n < b * n → a < b
mul_lt_cancel a b n h = grind arith

module _ (store : ListFileRecordStore) (valid : IsValid store) where
  pub page_lt : (r n : ℕ) → r < n → r / store.records_per_page < page_count n store.records_per_page
  page_lt r n h =
      mul_lt_cancel (r / store.records_per_page) (page_count n store.records_per_page)
        store.records_per_page
        (omega (
          arith,
          page_of_row r store.records_per_page valid.some_rows,
          page_count_bounds n store.records_per_page valid.some_rows,
        ))

  pub page_before : (r q : ℕ) → r < q * store.records_per_page → r / store.records_per_page < q
  page_before r q h =
      mul_lt_cancel (r / store.records_per_page) q store.records_per_page
        (omega (arith, page_of_row r store.records_per_page valid.some_rows))

  -- A row of an earlier page lies below the later page.
  pub position-lt :
      (r b p : ℕ)
      → b < store.record_stride
      → r / store.records_per_page < p
      → position store r b < p * store.page_size
  position-lt r b p hb hp =
      lane_lt (r / store.records_per_page) p store.page_size
        (r % store.records_per_page * store.record_stride + b) hp (in_page store valid r b hb)

  module _ (old_size new_size : ℕ) (ids payloads : Pointer ℕ) (payload_stride : ℕ) (before : File)
      (p : ℕ) where
    abbrev page_first : ℕ
    page_first = p * store.records_per_page

    abbrev first_row : ℕ
    first_row = max old_size page_first

    abbrev end_row : ℕ
    end_row = min new_size (page_first + store.records_per_page)

    -- The page as it is written, from the page as it was read.
    abbrev pub stored : (ℕ → ℕ) → ℕ → ℕ
    stored page =
        fill_rows store old_size ids payloads payload_stride page_first first_row
          (end_row - first_row) page

    -- The published rows of the page, in the buffer.
    abbrev pub HasOld : (ℕ → ℕ) → Type 0
    HasOld page =
        (r b : ℕ)
        → r < old_size
        → r / store.records_per_page ≡ p
        → b < store.record_stride
        → page (r % store.records_per_page * store.record_stride + b)
          ≡ before.bytes (position store r b)

    lane_of : (r : ℕ) → r / store.records_per_page ≡ p → r % store.records_per_page ≡ r - page_first
    lane_of r e =
        omega (
          arith,
          div-add-mod' r store.records_per_page,
          ap (λ (t : ℕ). t * store.records_per_page) e,
        )

    first_le :
        (r : ℕ)
        → r / store.records_per_page ≡ p
        → (page_first ≤ r) × (r < page_first + store.records_per_page)
    first_le r e = omega (
      arith,
      page_of_row r store.records_per_page valid.some_rows,
      ap (λ (t : ℕ). t * store.records_per_page) e,
    )

    stored_lem :
        (page : ℕ → ℕ) (r b : ℕ)
        → r / store.records_per_page ≡ p
        → b < store.record_stride
        → stored page (r % store.records_per_page * store.record_stride + b)
          ≡ filled_byte store valid old_size ids payloads payload_stride page_first first_row
              (end_row - first_row)
              page
              r
              b
    stored_lem page r b e h = rw (lane_of r e) (
        fill_rows_lem store valid old_size ids payloads payload_stride page_first first_row
          (end_row - first_row) page r b (omega arith) (omega (arith, first_le r e)) h)

    pub stored_old : (page : ℕ → ℕ) → HasOld page → HasOld (stored page)
    stored_old page old r b lt e h =
        stored_lem page r b e h ∙ ground (arith, old r b lt e h, lane_of r e)

    pub stored_new :
        (page : ℕ → ℕ) (r b : ℕ)
        → old_size ≤ r
        → r < new_size
        → r / store.records_per_page ≡ p
        → b < store.record_stride
        → stored page (r % store.records_per_page * store.record_stride + b)
          ≡ record_byte
              (ids.cells (r - old_size))
              payloads.cells
              ((r - old_size) * payload_stride)
              b
    stored_new page r b ge lt e h = stored_lem page r b e h ∙ ground (arith, first_le r e)
