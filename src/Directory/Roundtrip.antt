-- ===== src/Directory/Roundtrip.antt =====
-- What a write of the directory puts in, a read takes out.
use native.Mathlib.Nat.{div-add-mod'}
use recast.Prelude.{
  ℕ, zero, suc, ◌+◌, ◌*◌, ◌/◌, ◌%◌, ◌≤◌, ◌<◌, ◌≡◌, refl, ap, ◌∙◌, inl, inr, List, [], ◌∷◌, map,
  length, length-map, get_or, All, All-inside, Any, arith,
}
use recast.Checked.{uint32_max}
use recast.Storage.{File, World, IsFault, ◌>>◌}
use recast.Storage.Triples.{Ends, Ends_mono, bind_rule, contents}
use recast.Directory.{
  DiskLocation, ExternalLocationDirectory, entries_per_page, entry_at, tombstone, read_batch,
  write_batch,
}
use recast.Directory.Reading.{IsDirectory, page_end, entry_place}
use recast.Directory.Pages.{whole_page}
use recast.Directory.Batch.{ReadTrouble, missing_file, torn, beyond, fault, read_batch-cases}
use recast.Directory.Written.{
  IsNarrow, IsWritten, IsWritten-empty, Untouched, WriteTrouble, Good, Bad, stored_rule,
}

abbrev pub ids_of : List (ℕ × DiskLocation) → List ℕ
ids_of updates = map (λ (u : ℕ × DiskLocation). u.0) updates

get_or-ids_of :
    (updates : List (ℕ × DiskLocation)) (j : ℕ)
    → j < length updates
    → get_or (ids_of updates) j 0 ≡ (get_or updates j (0, tombstone)).0
get_or-ids_of [] j lt = absurd (omega arith)
get_or-ids_of (u ∷ updates) zero lt = refl
get_or-ids_of (u ∷ updates) (suc j) lt = get_or-ids_of updates j (omega arith)

ids_of-All :
    (updates : List (ℕ × DiskLocation))
    → All IsNarrow updates
    → All (λ (id : ℕ). id ≤ uint32_max) (ids_of updates)
ids_of-All [] narrow = tt
ids_of-All (u ∷ updates) (n, narrow) = (n.0, ids_of-All updates narrow)

module _ (directory : ExternalLocationDirectory) (valid : IsDirectory directory)
    (updates : List (ℕ × DiskLocation)) (w' : World) (before : File)
    (written : IsWritten directory updates before (contents w'.file)) where
  abbrev file : File
  file = contents w'.file

  stored_at :
      (j : ℕ)
      → j < length updates
      → (entry_at file.bytes (get_or (ids_of updates) j 0) ≡ (get_or updates j (0, tombstone)).1)
        × (get_or (ids_of updates) j 0 * 8 + 8 ≤ file.size)
  stored_at j lt =
      let e = get_or-ids_of updates j lt in
      rw e (
        All-inside
          (λ (u : ℕ × DiskLocation). (entry_at file.bytes u.0 ≡ u.1) × (u.0 * 8 + 8 ≤ file.size))
          updates j (0, tombstone) written.stored lt)

  -- The page of an entry in whole pages ends in them.
  page_inside :
      (id : ℕ)
      → file.size % directory.page_size ≡ 0
      → id * 8 + 8 ≤ file.size
      → page_end directory id ≤ file.size
  page_inside id whole room =
      let (place, lane) =
        entry_place id directory.page_size (entries_per_page directory) valid.whole refl
          valid.wide in
      let pages = file.size / directory.page_size in
      let e : pages * directory.page_size ≡ file.size =
        omega (arith, div-add-mod' file.size directory.page_size) in
      let p =
        whole_page (id / entries_per_page directory) pages directory.page_size (omega arith) in
      omega arith

  -- Only a fault is left.
  ReadTrouble-IsFault :
      ReadTrouble directory (ids_of updates) w' → (0 < length updates) → Any IsFault w'.outcomes
  ReadTrouble-IsFault (missing_file e) some_of =
      let (_, room) = stored_at 0 some_of in
      absurd (let z : file.size ≡ 0 = ap (λ o. (contents o).size) e in omega arith)
  ReadTrouble-IsFault (torn ne) some_of = elim written.whole [
    | inl e ↦ absurd (let z : length updates ≡ 0 = ap length e in omega arith)
    | inr e ↦ absurd (ne e)
  ]
  ReadTrouble-IsFault (beyond j lt short) some_of = elim written.whole [
    | inl e ↦ absurd (let z : length updates ≡ 0 = ap length e in omega arith)
    | inr e ↦
        let count : length (ids_of updates) ≡ length updates = length-map updates _ in
        let (_, room) = stored_at j (omega arith) in
        absurd (let p = page_inside (get_or (ids_of updates) j 0) e room in omega arith)
  ]
  ReadTrouble-IsFault (fault any) some_of = any

-- The read's answer, for some IDs.
abbrev Answer : List ℕ → World → (ℕ → DiskLocation) → World → Type 0
Answer ids w result w' =
    (contents w'.file ≡ contents w.file)
    × ((j : ℕ)
        → j < length ids
        → (result j ≡ entry_at (contents w.file).bytes (get_or ids j 0))
          × (get_or ids j 0 * 8 + 8 ≤ (contents w.file).size))

-- The locations of the updates, in their places, and the file as the write left it.
abbrev pub Returned :
    ExternalLocationDirectory
    → List (ℕ × DiskLocation)
    → World
    → (ℕ → DiskLocation)
    → World
    → Type 0
Returned directory updates w result w' =
    IsWritten directory updates (contents w.file) (contents w'.file)
    × ((j : ℕ) → j < length updates → result j ≡ (get_or updates j (0, tombstone)).1)

-- For a directory with the page size that its constructor asks for and updates of 32-bit numbers,
-- and however the calls end: a write of a batch followed by a read of its IDs may return, in the
-- place of each update, the location that it wrote, and then the file is as the write left it
-- (`IsWritten`). Or one of the two throws, and only for one of the reasons of `WriteTrouble`; every
-- entry of the old file that no update is of is then as before.
pub write-read :
    (directory : ExternalLocationDirectory) (updates : List (ℕ × DiskLocation)) (w : World)
    → IsDirectory directory
    → All IsNarrow updates
    → Ends
        ((write_batch directory updates >> read_batch directory (ids_of updates)) w)
        (Returned directory updates w)
        (λ w'.
          Untouched updates (contents w.file) (contents w'.file) × WriteTrouble directory updates w)
unfolding read_batch write_batch
write-read directory [] w valid narrow =
    inl (_, refl, (IsWritten-empty directory (contents w.file), λ j lt. absurd (omega arith)))
write-read directory (first ∷ more) w valid narrow =
    let updates = first ∷ more in
    bind_rule (write_batch directory updates w) (λ _. read_batch directory (ids_of updates))
      (Good directory valid first more w narrow) (Returned directory updates w)
      (Bad directory valid first more w narrow) (stored_rule directory valid first more w narrow)
      λ _ w' ((file, at_file, done), quiet).
        let before = contents w.file in
        let written : IsWritten directory updates before (contents w'.file) = rw at_file done in
        let count : length (ids_of updates) ≡ length updates = length-map updates _ in
        Ends_mono (read_batch directory (ids_of updates) w') (Answer (ids_of updates) w')
          (Returned directory updates w)
          (λ w''.
            (contents w''.file ≡ contents w'.file) × ReadTrouble directory (ids_of updates) w')
          (Bad directory valid first more w narrow)
          (read_batch-cases directory (ids_of updates) w' valid (ids_of-All updates narrow))
          (λ result w'' (same, f). (
            rw same written,
            λ j lt.
                (f j (omega arith)).0
                ∙ (stored_at directory valid updates w' before written j lt).0,
          ))
          (λ w'' (same, trouble). (
            rw same written.untouched,
            quiet (
                ReadTrouble-IsFault directory valid updates w' before written trouble
                  (omega arith)),
          ))
