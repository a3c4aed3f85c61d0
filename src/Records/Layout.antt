-- ===== src/Records/Layout.antt =====
-- Where the bytes of a row stand in its list's file.
use native.Mathlib.Nat.{div-eq_of_lt-le, mod-lt, div-add-mod', div-mul-le_self}
use recast.Prelude.{
  ℕ, ◌+◌, ◌-◌, ◌*◌, ◌/◌, ◌%◌, ◌^◌, ◌≤◌, ◌<◌, ◌≡◌, ◌≢◌, ◌⊎◌, true, ok, arith, ap, Bool,
}
use recast.Checked.{is_power_of_two}
use recast.Records.{ListFileStoreOptions, ListFileRecordStore, new_store}

-- What the constructor checks.
pub record IsValid (store : ListFileRecordStore) : Type 0 where
  pub stride : store.record_stride ≡ 4 + store.payload_bytes
  pub room : store.records_per_page * store.record_stride ≤ store.page_size
  pub some_rows : 0 < store.records_per_page
  pub wide : 8 ≤ store.page_size
  pub power : is_power_of_two store.page_size ≡ true

-- Byte `b` of row `r`.
abbrev pub position : ListFileRecordStore → ℕ → ℕ → ℕ
position store r b =
    r / store.records_per_page * store.page_size
    + (r % store.records_per_page * store.record_stride + b)

-- Lanes of a page, in the order of their numbers.
pub lane_lt : (l m s b : ℕ) → l < m → b < s → l * s + b < m * s
lane_lt l m s b h k = grind arith

pub lane_le : (l m s : ℕ) → l < m → l * s + s ≤ m * s
lane_le l m s h = grind arith

pub page_apart :
    (p q ps o : ℕ) → p ≢ q → o < ps → (p * ps + o < q * ps) ⊎ (q * ps + ps ≤ p * ps + o)
page_apart p q ps o h k = grind (arith, lane_le p q ps, lane_le q p ps)

pub row_of_page : (p r n : ℕ) → p * n ≤ r → r < p * n + n → (r / n ≡ p) × (r % n ≡ r - p * n)
row_of_page p r n lo hi =
    let q : r / n ≡ p = div-eq_of_lt-le n lo (omega arith) in
    (q, omega (arith, div-add-mod' r n, ap (λ (t : ℕ). t * n) q))

pub page_of_row : (r n : ℕ) → 0 < n → (r / n * n ≤ r) × (r < r / n * n + n)
page_of_row r n h = omega (arith, div-add-mod' r n, mod-lt r h)

module _ (store : ListFileRecordStore) (valid : IsValid store) where
  pub in_page :
      (r b : ℕ)
      → b < store.record_stride
      → r % store.records_per_page * store.record_stride + b < store.page_size
  in_page r b h = omega (
    arith,
    lane_lt (r % store.records_per_page) store.records_per_page store.record_stride b
        (mod-lt r valid.some_rows) h,
    valid.room,
  )

-- A store whose construction does not throw is valid, if four bytes and the payload stay below 2^64:
-- the stride is the size of a record, a page holds a record at least, all its records fit in it, and
-- its size is a power of two of at least 8.
pub new_store-IsValid :
    (little_endian linux_aio create is_directory : Bool) (root nlist : ℕ)
    (options : ListFileStoreOptions) (store : ListFileRecordStore)
    → options.payload_bytes + 4 < 2 ^ 64
    → new_store little_endian linux_aio root nlist options create is_directory ≡ ok store
    → IsValid store
unfolding new_store
new_store-IsValid little_endian linux_aio create is_directory root nlist options store small e =
    let whole = div-mul-le_self options.page_size ((4 + options.payload_bytes) % 2 ^ 64) in
    ground (arith, whole)
