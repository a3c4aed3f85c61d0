-- ===== src/Tests/Locations.antt =====
-- A read of three locations in a directory of two pages, and a write of two.
use recast.Prelude.{
  ok, All, Result, err, ℕ, ◌+◌, ◌*◌, ◌/◌, ◌%◌, ◌<◌, ◌≤◌, ◌≡◌, refl, List, [], ◌∷◌, some, length,
  get_or, arith, false, if◌then◌else◌, ◌==◌,
}
use recast.Checked.{is_power_of_two, page_offset}
use recast.Records.{aligned_buffer, load_u32}
use recast.Storage.{
  ◌>>◌, open_file, find_file, fstat, call, head_outcome, pread_exact, pread_loop, World,
  transferred, interrupted,
}
use recast.Storage.Triples.{Ends, contents}
use recast.Directory.{
  DiskLocation, read_runs, take_entries, page_runs, add_run, sort_requests, insert_request,
  request_before, make_requests, ExternalLocationDirectory, entry_at, read_batch, write_batch,
}
use recast.Directory.Reading.{IsDirectory}
use recast.Directory.Written.{IsNarrow, IsWritten, Untouched, WriteTrouble, write_batch-cases}
use recast.Directory.Roundtrip.{ids_of, Returned, write-read}
use recast.Directory.Batch.{ReadTrouble, read_batch-cases}

abbrev directory : ExternalLocationDirectory
directory = record { path = 1; page_size = 16; direct_io = false; sync_writes = false }

-- List `id + 1` and offset `id` for every ID; the second transfer is short.
abbrev world : World
world = record {
  file = some (record {
    size = 32;
    bytes = λ i. if i % 8 == 0 then i / 8 + 1 else if i % 8 == 4 then i / 8 else 0;
  });
  outcomes =
      transferred 1
      ∷ transferred 1
      ∷ transferred 1
      ∷ transferred 5
      ∷ interrupted
      ∷ transferred 11
      ∷ [];
}

abbrev ids : List ℕ
ids = 3 ∷ 0 ∷ 3 ∷ []

directory-IsDirectory : IsDirectory directory
unfolding is_power_of_two
directory-IsDirectory = record { power = refl; wide = omega arith; whole = refl }

read_batch-cases_example :
    Ends
      (read_batch directory ids world)
      (λ result w'.
        (contents w'.file ≡ contents world.file)
        × ((j : ℕ)
            → j < length ids
            → (result j ≡ entry_at (contents world.file).bytes (get_or ids j 0))
              × (get_or ids j 0 * 8 + 8 ≤ (contents world.file).size)))
      (λ w'. (contents w'.file ≡ contents world.file) × ReadTrouble directory ids world)
read_batch-cases_example =
    read_batch-cases directory ids world directory-IsDirectory
      (omega arith, (omega arith, (omega arith, tt)))

-- The second update is past the end of the file, with a page between.
abbrev updates : List (ℕ × DiskLocation)
updates =
    (7, record { list_no = 70000; offset = 5 })
    ∷ (2, record { list_no = 12; offset = 4294967294 })
    ∷ []

updates-IsNarrow : All IsNarrow updates
updates-IsNarrow =
    ((omega arith, omega arith, omega arith), ((omega arith, omega arith, omega arith), tt))

write_batch-cases_example :
    Ends
      (write_batch directory updates world)
      (λ _ w'. IsWritten directory updates (contents world.file) (contents w'.file))
      (λ w'.
        Untouched updates (contents world.file) (contents w'.file)
        × WriteTrouble directory updates world)
write_batch-cases_example =
    write_batch-cases directory updates world directory-IsDirectory updates-IsNarrow

-- What a read returns in a place.
abbrev place : Result (ℕ → DiskLocation) → ℕ → Result DiskLocation
place (ok result) j = ok (result j)
place (err e) j = err e

reads : place (read_batch directory ids world).0 0 ≡ ok (record { list_no = 4; offset = 3 })
unfolding read_batch read_runs take_entries entry_at page_runs add_run sort_requests insert_request
    request_before make_requests open_file find_file fstat call head_outcome aligned_buffer
    is_power_of_two page_offset pread_exact pread_loop load_u32
reads = refl

write-read_example :
    Ends
      ((write_batch directory updates >> read_batch directory (ids_of updates)) world)
      (Returned directory updates world)
      (λ w'.
        Untouched updates (contents world.file) (contents w'.file)
        × WriteTrouble directory updates world)
write-read_example = write-read directory updates world directory-IsDirectory updates-IsNarrow
