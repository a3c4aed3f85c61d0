-- ===== src/Records/Mutation/Prepared.antt =====
-- The images that a deletion prepares from the pages it has read.
use recast.Prelude.{
  ℕ, ◌/◌, ◌≤◌, ◌<◌, ◌≡◌, refl, ◌⊎◌, inl, inr, List, [], Option, ok, All, All-mono, Any, true, arith,
  ap, Bool-cases,
}
use native.Mathlib.Decide.{ℕ_discrete}
use native.Mathlib.Nat.{div-add-mod'}
use recast.Checked.{page_count}
use recast.Checked.Bounds.{page_count_bounds}
use recast.Storage.{File}
use recast.Deletion.{RecordMove, move_records}
use recast.Records.{ListFileRecordStore}
use recast.Records.Layout.{IsValid}
use recast.Records.Rows.{page_lt, mul_lt_cancel}
use recast.Records.Mutation.{has_tail, take_snapshots, store_snapshots, clear_tail, pages_below}
use recast.Records.Mutation.Sets.{Member, IsMove, Rising}
use recast.Records.Mutation.Needed.{
  needed_pages, written_pages, needed-moves, needed-tail, needed-All, written-needed, written-only,
  written-Rising, written-destination, written-tail, pages_below-All, pages_below-Member,
}
use recast.Records.Mutation.Images.{Imaged, HasPages, take_snapshots-ok, store_snapshots-ok}
use recast.Records.Mutation.Tail.{kept_rows, clear_tail-ok, row_below, row_in_full, page_in_tail}
use recast.Records.Mutation.Snapshot.{rows_of, move_records-other, destination-cases}

module _ (records : ListFileRecordStore) (valid : IsValid records) (old_size new_size : ℕ)
    (moves : List RecordMove) (before : File) where
  -- The rows that the deletion leaves: the sources stand in the holes, the tail is cleared.
  abbrev pub left_rows : ℕ → ℕ → ℕ
  left_rows =
      kept_rows new_size (move_records moves (rows_of records before) (rows_of records before))

  abbrev new_pages : ℕ
  new_pages = page_count new_size records.records_per_page

  -- The written pages with their images: every retained page is among them or is right as it is, and
  -- each is named once, in rising order, and holds the destination of a move or has rows past the
  -- new size after retained ones.
  pub record IsImage (pages : ℕ → Option (ℕ → ℕ)) (writes : List ℕ) : Type 0 where
    pub images : All (λ q. Imaged records valid left_rows pages q × (q < new_pages)) writes
    pub covers :
        (r : ℕ)
        → r / records.records_per_page < new_pages
        → Member (r / records.records_per_page) writes
          ⊎ ((b : ℕ) → left_rows r b ≡ rows_of records before r b)
    pub only :
        All
          (λ q.
            Any (λ (m : RecordMove). m.destination / records.records_per_page ≡ q) moves
            ⊎ ((has_tail records.records_per_page new_size ≡ true)
                × (new_size / records.records_per_page ≡ q)))
          writes
    pub once : Rising writes

  abbrev pub writes : List ℕ
  writes = pages_below new_pages (written_pages records.records_per_page new_size moves [])

  covered :
      (r : ℕ)
      → r / records.records_per_page < new_pages
      → Member (r / records.records_per_page) writes
        ⊎ ((b : ℕ) → left_rows r b ≡ rows_of records before r b)
  covered r lt = elim (Bool-cases (has_tail records.records_per_page new_size)) [
    | inl tail ↦
        elim (ℕ_discrete (new_size / records.records_per_page) (r / records.records_per_page)) [
          | yes e ↦ inl (
              pages_below-Member records.records_per_page (r / records.records_per_page) new_pages _
                lt (rw e at (written-tail records.records_per_page new_size moves [] tail)))
          | no ne ↦ retained r lt (
              row_below records valid r (r / records.records_per_page) new_size refl (
                omega (
                  arith,
                  page_in_tail records valid (r / records.records_per_page) new_size lt,
                  ne,
                )))
        ]
    | inr full ↦ retained r lt (row_in_full records valid r new_size full lt)
  ]
    where
      retained :
          (r : ℕ)
          → r / records.records_per_page < new_pages
          → r < new_size
          → Member (r / records.records_per_page) writes
            ⊎ ((b : ℕ) → left_rows r b ≡ rows_of records before r b)
      retained r lt below = elim (destination-cases r moves) [
        | inl any ↦ inl (
            pages_below-Member records.records_per_page (r / records.records_per_page) new_pages _
              lt (written-destination records.records_per_page new_size moves [] r any))
        | inr all ↦ inr λ b. ground (
          arith,
          ap (λ (row : ℕ → ℕ). row b)
              (move_records-other moves (rows_of records before) (rows_of records before) r all),
        )
      ]

  module _ (observed : List ℕ) where
    abbrev pub needed : List ℕ
    needed = needed_pages records.records_per_page new_size moves observed

    -- The pages that are needed are pages of the list.
    pub needed-there :
        new_size ≤ old_size
        → All (IsMove old_size new_size) moves
        → All (λ o. o < old_size) observed
        → All (λ q. q < page_count old_size records.records_per_page) needed
    needed-there le good inside =
        needed-All records.records_per_page new_size moves observed
          (λ q. q < page_count old_size records.records_per_page)
          (All-mono observed (λ o h. page_lt records valid o old_size h) inside)
          (All-mono moves
            (λ m (d, lo, hi). (
              page_lt records valid m.source old_size hi,
              page_lt records valid m.destination old_size (omega (arith, d, lo, hi)),
            ))
            good)
          (λ tail.
            mul_lt_cancel (new_size / records.records_per_page)
              (page_count old_size records.records_per_page) records.records_per_page
              (ground (
                arith,
                div-add-mod' new_size records.records_per_page,
                page_count_bounds old_size records.records_per_page valid.some_rows,
              )))

    pub images-ok :
        (pages : ℕ → Option (ℕ → ℕ))
        → HasPages records valid (rows_of records before) pages needed
        → (snapshots : List (ℕ → ℕ)) × (moved cleared : ℕ → Option (ℕ → ℕ)) × (take_snapshots
              records pages moves
            ≡ ok snapshots)
          × (store_snapshots records moves snapshots pages ≡ ok moved)
          × (clear_tail records new_size moved ≡ ok cleared)
          × IsImage cleared writes
    images-ok pages has =
        let n = records.records_per_page in
        let both = needed-moves n new_size moves observed in
        let (snapshots, taken, snap) =
          take_snapshots-ok records valid (rows_of records before) pages needed moves has
            (All-mono moves (λ m (s, d). s) both) in
        let (moved, stored, has') =
          store_snapshots-ok records valid (rows_of records before) (rows_of records before) pages
            needed moves snapshots snap has (All-mono moves (λ m (s, d). d) both) in
        let (cleared, tidy, image) =
          clear_tail-ok records valid
            (move_records moves (rows_of records before) (rows_of records before)) moved needed
            new_size has' (needed-tail n new_size moves observed) in
        (
          snapshots,
          moved,
          cleared,
          taken,
          stored,
          tidy,
          record {
            images =
                All-mono writes (λ q (any, lt). (image q any lt, lt))
                  (pages_below-All n (λ q. Member q needed) new_pages
                    (written_pages n new_size moves observed)
                    (written-needed n new_size moves observed));
            covers = covered;
            only = written-only n new_size moves new_pages;
            once = written-Rising n new_size moves new_pages;
          },
        )
