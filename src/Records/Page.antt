-- ===== src/Records/Page.antt =====
-- The rows that the inner loop stores in a page buffer.
use native.Mathlib.Decide.{ℕ_discrete}
use recast.Prelude.{
  ℕ, zero, suc, ◌+◌, ◌-◌, ◌*◌, ◌≤◌, ◌<◌, ◌≡◌, refl, ◌≢◌, ◌∙◌, ◌⊎◌, ◌&&◌, ltb, leb, if◌then◌else◌,
  Pointer, iterate, arith,
}
use recast.Records.{ListFileRecordStore, u32_byte, load_u32, store_record, fill_rows}
use recast.Records.Layout.{IsValid, lane_le}

-- Byte `b` of a record.
pub record_byte : ℕ → (ℕ → ℕ) → ℕ → ℕ → ℕ
record_byte id payloads from b = if ltb b 4 then u32_byte id b else payloads (from + (b - 4))

pub load_u32-u32_byte : (value : ℕ) → value < 4294967296 → load_u32 (u32_byte value) ≡ value
unfolding load_u32 u32_byte
load_u32-u32_byte value h = omega arith

pub load_u32-cong :
    (bytes bytes' : ℕ → ℕ)
    → ((i : ℕ) → i < 4 → bytes i ≡ bytes' i)
    → load_u32 bytes ≡ load_u32 bytes'
unfolding load_u32
load_u32-cong bytes bytes' same =
    rw (same 0 (omega arith), same 1 (omega arith), same 2 (omega arith), same 3 (omega arith)) refl

pub record_byte-u32_byte :
    (id : ℕ) (payloads : ℕ → ℕ) (from b : ℕ)
    → b < 4
    → record_byte id payloads from b ≡ u32_byte id b
unfolding record_byte
record_byte-u32_byte id payloads from b h = ground arith

module _ (store : ListFileRecordStore) (valid : IsValid store) where
  store_record_same :
      (bytes : ℕ → ℕ) (at id : ℕ) (payloads : ℕ → ℕ) (from b : ℕ)
      → b < store.record_stride
      → store_record store bytes at id payloads from (at + b) ≡ record_byte id payloads from b
  unfolding store_record record_byte
  store_record_same bytes at id payloads from b h =
      let s = valid.stride in
      let x : at + b - at ≡ b = omega arith in
      let y : at + b - (at + 4) ≡ b - 4 = omega arith in
      let z : 0 + (at + b - at) ≡ b = omega arith in ground arith

  store_record_other :
      (bytes : ℕ → ℕ) (at id : ℕ) (payloads : ℕ → ℕ) (from o : ℕ)
      → (o < at) ⊎ (at + store.record_stride ≤ o)
      → store_record store bytes at id payloads from o ≡ bytes o
  unfolding store_record
  store_record_other bytes at id payloads from o h = let s = valid.stride in ground arith

  pub lanes_apart :
      (l m b : ℕ)
      → l ≢ m
      → b < store.record_stride
      → (l * store.record_stride + b < m * store.record_stride)
        ⊎ (m * store.record_stride + store.record_stride ≤ l * store.record_stride + b)
  lanes_apart l m b ne h =
      grind (arith, lane_le l m store.record_stride, lane_le m l store.record_stride)

  module _ (old_size : ℕ) (ids payloads : Pointer ℕ) (payload_stride page_first begin : ℕ) where
    -- What row `r` holds after `rows` rounds.
    abbrev pub filled_byte : ℕ → (ℕ → ℕ) → ℕ → ℕ → ℕ
    filled_byte rows page r b =
        if leb begin r && ltb r (begin + rows)
        then record_byte (ids.cells (r - old_size)) payloads.cells ((r - old_size) * payload_stride)
            b
        else page ((r - page_first) * store.record_stride + b)

    pub fill_rows_lem :
        (rows : ℕ) (page : ℕ → ℕ) (r b : ℕ)
        → page_first ≤ begin
        → page_first ≤ r
        → b < store.record_stride
        → fill_rows store old_size ids payloads payload_stride page_first begin rows page
            ((r - page_first) * store.record_stride + b)
          ≡ filled_byte rows page r b
    unfolding fill_rows iterate
    fill_rows_lem zero page r b first here h = ground arith
    fill_rows_lem (suc rows) page r b first here h = elim (ℕ_discrete (begin + rows) r) [
      | yes e ↦ rw e (
          store_record_same _ ((r - page_first) * store.record_stride) (ids.cells (r - old_size))
            payloads.cells ((r - old_size) * payload_stride) b h
          ∙ ground arith)
      | no ne ↦
          store_record_other _ ((begin + rows - page_first) * store.record_stride)
            (ids.cells (begin + rows - old_size)) payloads.cells
            ((begin + rows - old_size) * payload_stride)
            ((r - page_first) * store.record_stride + b)
            (lanes_apart (r - page_first) (begin + rows - page_first) b (omega arith) h)
          ∙ fill_rows_lem rows page r b first here h
          ∙ ground arith
    ]
