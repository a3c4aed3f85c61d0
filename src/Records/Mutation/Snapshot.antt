-- ===== src/Records/Mutation/Snapshot.antt =====
-- The pages as they are read, the IDs observed in them, and what the moves leave of the rows.
use native.Mathlib.Decide.{ℕ_discrete}
use recast.Prelude.{
  ℕ, ◌+◌, ◌*◌, ◌/◌, ◌%◌, ◌≤◌, ◌<◌, ◌≡◌, ◌≢◌, refl, sym, ◌∙◌, ◌⊎◌, inl, inr, List, [], ◌∷◌, map,
  Option, some, ok, store, All, Any, arith, ap,
}
use recast.Checked.{page_offset, off_max}
use recast.Checked.Bounds.{page_offset-Fits}
use recast.Storage.{File, World, pread_exact}
use recast.Storage.Triples.{Ends, Ends_mono, bind_rule, OnFile, Holds}
use recast.Storage.Reading.{Filled}
use recast.Storage.Transfers.{pread_rule}
use recast.Deletion.{RecordMove, move_records}
use recast.Records.{ListFileRecordStore, aligned_buffer}
use recast.Records.Layout.{IsValid, position, in_page, lane_le}
use recast.Records.Page.{load_u32-cong}
use recast.Records.Tail.{aligned_buffer_rule}
use recast.Records.Lookup.Found.{stored_id}
use recast.Records.Mutation.{read_pages, page_at, record_at, observe}
use recast.Records.Mutation.Sets.{Member}
use recast.Records.Mutation.Images.{Imaged, HasPages}

-- The rows of a file.
abbrev pub rows_of : ListFileRecordStore → File → ℕ → ℕ → ℕ
rows_of records file r b = file.bytes (position records r b)

pub move_records-other :
    (moves : List RecordMove) (snapshot slots : ℕ → ℕ → ℕ) (r : ℕ)
    → All (λ m. m.destination ≢ r) moves
    → move_records moves snapshot slots r ≡ slots r
unfolding move_records
move_records-other [] snapshot slots r all = refl
move_records-other (m ∷ moves) snapshot slots r (ne, all) =
    move_records-other moves snapshot (store slots m.destination (snapshot m.source)) r all
    ∙ ground arith

pub destination-cases :
    (r : ℕ) (moves : List RecordMove)
    → Any (λ m. m.destination ≡ r) moves ⊎ All (λ m. m.destination ≢ r) moves
destination-cases r [] = inr tt
destination-cases r (m ∷ moves) = elim (ℕ_discrete m.destination r) [
  | yes e ↦ inl (inl e)
  | no ne ↦ elim (destination-cases r moves) [ inl any ↦ inl (inr any) | inr all ↦ inr (ne, all) ]
]

module _ (records : ListFileRecordStore) (valid : IsValid records) (before : File) where
  pub observe-ok :
      (pages : ℕ → Option (ℕ → ℕ)) (needed offsets : List ℕ)
      → HasPages records valid (rows_of records before) pages needed
      → All (λ o. Member (o / records.records_per_page) needed) offsets
      → observe records pages offsets ≡ ok (map (stored_id records before) offsets)
  unfolding observe record_at page_at
  observe-ok pages needed [] has all = refl
  observe-ok pages needed (o ∷ offsets) has (here, all) =
      let (bytes, there, same) = has (o / records.records_per_page) here in
      let id =
        load_u32-cong (λ b. bytes (o % records.records_per_page * records.record_stride + b))
          (rows_of records before o) λ i h. same o i refl (omega (arith, valid.stride)) in
      rw (there, observe, record_at, page_at, observe-ok pages needed offsets has all, id) refl

  module _ (F : Type 0) (pages_there : ℕ) (fits : pages_there * records.page_size ≤ off_max)
      (there : pages_there * records.page_size ≤ before.size) where
    abbrev Same : File → Type 0
    Same file = file ≡ before

    abbrev pub Loaded : List ℕ → (ℕ → Option (ℕ → ℕ)) → (ℕ → Option (ℕ → ℕ)) → World → Type 0
    Loaded needed pages pages' w' =
        OnFile F Same w'
        × ((p : ℕ)
            → Member p needed ⊎ Imaged records valid (rows_of records before) pages p
            → Imaged records valid (rows_of records before) pages' p)

    page_offset-there :
        (p : ℕ)
        → p < pages_there
        → (page_offset p records.page_size ≡ ok (p * records.page_size))
          × (p * records.page_size + records.page_size ≤ before.size)
    page_offset-there p lt =
        let room = lane_le p pages_there records.page_size lt in
        elim (page_offset-Fits p records.page_size (omega (arith, valid.wide))) [
          | inl (le, e) ↦ (e, omega (arith, there, room))
          | inr (big, e) ↦ absurd (omega (arith, room, fits))
        ]

    Imaged-store :
        (pages : ℕ → Option (ℕ → ℕ)) (page : ℕ) (buffer bytes : ℕ → ℕ) (p : ℕ)
        → Filled before records.page_size (page * records.page_size) buffer bytes
        → (page ≡ p) ⊎ Imaged records valid (rows_of records before) pages p
        → Imaged records valid (rows_of records before) (store pages page (some bytes)) p
    Imaged-store pages page buffer bytes p filled h = elim (ℕ_discrete page p) [
      | yes e ↦ (
        bytes,
        ground arith,
        λ r b q lt.
            let o = r % records.records_per_page * records.record_stride + b in
            filled.inside o (in_page records valid r b lt)
            ∙ ap before.bytes (ap (λ (t : ℕ). t * records.page_size + o) (e ∙ sym q)),
      )
      | no ne ↦ elim h [
        | inl e ↦ absurd (ne e)
        | inr (others, at, same) ↦ (others, ground arith, same)
      ]
    ]

    pub read_pages_rule :
        (needed : List ℕ) (pages : ℕ → Option (ℕ → ℕ)) (w : World)
        → All (λ q. q < pages_there) needed
        → OnFile F Same w
        → Ends (read_pages records needed pages w) (Loaded needed pages) (Holds F Same)
    unfolding read_pages
    read_pages_rule [] pages w all here =
        inl (pages, refl, (here, λ p h. elim h [ inl any ↦ elim any [ ] | inr i ↦ i ]))
    read_pages_rule (page ∷ needed) pages w (lt, all) here =
        let (offset, room) = page_offset-there page lt in
        bind_rule (aligned_buffer records.page_size records.page_size w) _ (λ _. OnFile F Same)
          (Loaded (page ∷ needed) pages) (Holds F Same)
          (aligned_buffer_rule F records valid Same w here)
          λ buffer w1 here1. rw offset (
            bind_rule (pread_exact buffer records.page_size (page * records.page_size) w1) _
              (λ bytes. OnFile F (λ file.
                Same file × Filled file records.page_size (page * records.page_size) buffer bytes))
              (Loaded (page ∷ needed) pages) (Holds F Same)
              (pread_rule F Same buffer records.page_size (page * records.page_size) w1
                (λ file same. rw same room) here1)
              λ bytes w2 ((file, at, (same, filled)), quiet).
                Ends_mono (read_pages records needed (store pages page (some bytes)) w2)
                  (Loaded needed (store pages page (some bytes))) (Loaded (page ∷ needed) pages)
                  (Holds F Same) (Holds F Same)
                  (read_pages_rule needed (store pages page (some bytes)) w2 all
                    ((file, at, same), quiet))
                  (λ pages' w3 (here3, f). (
                    here3,
                    λ p h. f p (elim h [
                      | inl (inr any) ↦ inl any
                      | inl (inl e) ↦
                          inr (Imaged-store pages page buffer bytes p (rw same at filled) (inl e))
                      | inr i ↦
                          inr (Imaged-store pages page buffer bytes p (rw same at filled) (inr i))
                    ]),
                  ))
                  (λ w3 h. h))
