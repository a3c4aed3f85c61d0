-- ===== src/Records/Mutation/Images.antt =====
-- The page images of a deletion, as rows.
use native.Mathlib.Decide.{ℕ_discrete}
use native.Mathlib.Nat.{div-add-mod'}
use recast.Prelude.{
  ℕ, ◌+◌, ◌*◌, ◌/◌, ◌%◌, ◌<◌, ◌≡◌, ◌≢◌, refl, sym, ◌∙◌, List, [], ◌∷◌, Option, some, ok, ◌==◌,
  if◌then◌else◌, copy, store, All, Any, arith, ap,
}
use recast.Deletion.{RecordMove, move_records}
use recast.Records.{ListFileRecordStore}
use recast.Records.Layout.{IsValid}
use recast.Records.Page.{lanes_apart}
use recast.Records.Mutation.{page_at, record_at, take_snapshots, store_snapshots}

module _ (records : ListFileRecordStore) (valid : IsValid records) where
  -- Page `p` is there, and holds the rows of `slots`.
  abbrev pub Imaged : (ℕ → ℕ → ℕ) → (ℕ → Option (ℕ → ℕ)) → ℕ → Type 0
  Imaged slots pages p =
      (bytes : ℕ → ℕ) × (pages p ≡ some bytes)
      × ((r b : ℕ)
          → r / records.records_per_page ≡ p
          → b < records.record_stride
          → bytes (r % records.records_per_page * records.record_stride + b) ≡ slots r b)

  other_lane :
      (d r : ℕ)
      → d ≢ r
      → r / records.records_per_page ≡ d / records.records_per_page
      → r % records.records_per_page ≢ d % records.records_per_page
  other_lane d r ne e same = ne (
      omega (
        arith,
        div-add-mod' d records.records_per_page,
        div-add-mod' r records.records_per_page,
        ap (λ (t : ℕ). t * records.records_per_page) e,
        same,
      ))

  -- What is stored in one record of a page.
  record_byte_of :
      (bytes snapshot : ℕ → ℕ) (d r b : ℕ)
      → b < records.record_stride
      → r / records.records_per_page ≡ d / records.records_per_page
      → copy bytes
          (d % records.records_per_page * records.record_stride)
          snapshot
          0
          records.record_stride
          (r % records.records_per_page * records.record_stride + b)
        ≡ (if d == r
            then snapshot b
            else bytes (r % records.records_per_page * records.record_stride + b))
  record_byte_of bytes snapshot d r b h e = elim (ℕ_discrete d r) [
    | yes same ↦ rw same (ground arith)
    | no ne ↦
        let apart =
          lanes_apart records valid (r % records.records_per_page) (d % records.records_per_page) b
            (other_lane d r ne e) h in
        ground arith
  ]

  -- The rows when the source of each move is written over its destination.
  abbrev pub Snapshots : (ℕ → ℕ → ℕ) → List RecordMove → List (ℕ → ℕ) → Type 0
  Snapshots rows [] [] = Unit
  Snapshots rows (move ∷ moves) (snapshot ∷ snapshots) =
      ((b : ℕ) → b < records.record_stride → snapshot b ≡ rows move.source b)
      × Snapshots rows moves snapshots
  Snapshots rows _ _ = ⊥

  abbrev pub HasPages : (ℕ → ℕ → ℕ) → (ℕ → Option (ℕ → ℕ)) → List ℕ → Type 0
  HasPages slots pages needed = (p : ℕ) → Any (λ q. q ≡ p) needed → Imaged slots pages p

  pub take_snapshots-ok :
      (rows : ℕ → ℕ → ℕ) (pages : ℕ → Option (ℕ → ℕ)) (needed : List ℕ) (moves : List RecordMove)
      → HasPages rows pages needed
      → All (λ m. Any (λ q. q ≡ m.source / records.records_per_page) needed) moves
      → (snapshots : List (ℕ → ℕ)) × (take_snapshots records pages moves ≡ ok snapshots)
        × Snapshots rows moves snapshots
  unfolding take_snapshots record_at page_at
  take_snapshots-ok rows pages needed [] has all = ([], refl, tt)
  take_snapshots-ok rows pages needed (move ∷ moves) has (here, all) =
      let (bytes, there, same) = has (move.source / records.records_per_page) here in
      let (snapshots, e, snap) = take_snapshots-ok rows pages needed moves has all in
      (
        (λ b. bytes (move.source % records.records_per_page * records.record_stride + b))
            ∷ snapshots,
        rw (there, take_snapshots, record_at, page_at, e) refl,
        ((λ b h. same move.source b refl h), snap),
      )

  store_image :
      (slots : ℕ → ℕ → ℕ) (pages : ℕ → Option (ℕ → ℕ)) (needed : List ℕ) (d : ℕ)
      (bytes snapshot row : ℕ → ℕ)
      → HasPages slots pages needed
      → ((r b : ℕ)
          → r / records.records_per_page ≡ d / records.records_per_page
          → b < records.record_stride
          → bytes (r % records.records_per_page * records.record_stride + b) ≡ slots r b)
      → ((b : ℕ) → b < records.record_stride → snapshot b ≡ row b)
      → HasPages
          (store slots d row)
          (store pages (d / records.records_per_page) (
            some (
              copy bytes
                (d % records.records_per_page * records.record_stride)
                snapshot
                0
                records.record_stride)))
          needed
  store_image slots pages needed d bytes snapshot row has same snap p any =
      let written =
        copy bytes (d % records.records_per_page * records.record_stride) snapshot 0
          records.record_stride in
      elim (ℕ_discrete (d / records.records_per_page) p) [
        | yes e ↦ (
          written,
          ground arith,
          λ r b q h.
              record_byte_of bytes snapshot d r b h (q ∙ sym e)
              ∙ ground (arith, snap b h, same r b (q ∙ sym e) h),
        )
        | no ne ↦
            let (others, there, image) = has p any in
            (
              others,
              ground arith,
              λ r b q h.
                  let other : d ≢ r =
                    λ e. ne (ap (λ (t : ℕ). t / records.records_per_page) e ∙ q) in
                  image r b q h ∙ ground arith,
            )
      ]

  pub store_snapshots-ok :
      (rows slots : ℕ → ℕ → ℕ) (pages : ℕ → Option (ℕ → ℕ)) (needed : List ℕ)
      (moves : List RecordMove) (snapshots : List (ℕ → ℕ))
      → Snapshots rows moves snapshots
      → HasPages slots pages needed
      → All (λ m. Any (λ q. q ≡ m.destination / records.records_per_page) needed) moves
      → (pages' : ℕ → Option (ℕ → ℕ)) × (store_snapshots records moves snapshots pages ≡ ok pages')
        × HasPages (move_records moves rows slots) pages' needed
  unfolding store_snapshots page_at move_records
  store_snapshots-ok rows slots pages needed [] [] snap has all = (pages, refl, has)
  store_snapshots-ok rows slots pages needed [] (s ∷ snapshots) snap has all = elim snap [ ]
  store_snapshots-ok rows slots pages needed (m ∷ moves) [] snap has all = elim snap [ ]
  store_snapshots-ok rows slots pages needed (m ∷ moves) (s ∷ snapshots) (first, snap) has
        (here, all) =
      let d = m.destination in
      let (bytes, there, same) = has (d / records.records_per_page) here in
      let (pages', e, has') =
        store_snapshots-ok rows (store slots d (rows m.source))
          (store pages (d / records.records_per_page) (
            some (
              copy bytes (d % records.records_per_page * records.record_stride) s 0
                records.record_stride)))
          needed moves snapshots snap
          (store_image slots pages needed d bytes s (rows m.source) has same first) all in
      (pages', rw (there, store_snapshots, page_at) e, has')
