-- ===== src/Tests/Files.antt =====
-- Transfers and appends on small files, with calls that fail or fall short.
use recast.Prelude.{
  ℕ, ◌+◌, ◌<◌, ◌≡◌, refl, true, false, List, [], ◌∷◌, some, ok, Pointer, ◌-◌, ltb, if◌then◌else◌,
  get_or, arith,
}
use recast.Checked.{page_count, is_power_of_two}
use recast.Storage.{File, World, ◌>>◌, failed, interrupted, transferred, pread_exact, pwrite_exact}
use recast.Storage.Triples.{Ends, contents}
use recast.Storage.Reading.{Read, pread_exact-Read}
use recast.Storage.Writing.{Wrote, pwrite_exact-Wrote}
use recast.Records.{ListFileStoreOptions, ListFileRecordStore, new_store, append_records}
use recast.Records.Layout.{IsValid, new_store-IsValid}
use recast.Records.Rows.{Survives}
use recast.Records.Tail.{Appended}
use recast.Records.Lookup.{read_logical_ids, validate_list_file}
use recast.Records.Lookup.Found.{stored_id}
use recast.Records.Lookup.Ids.{ReadTrouble, read_logical_ids-cases}
use recast.Records.Lookup.Roundtrip.{append-read}
use recast.Records.Lookup.Validate.{Validated, validate_list_file-Validated}
use recast.Records.Atomic.{Trouble, append_records-cases}

-- Two pages of 16 bytes, of which a page and a half is written; the second call is interrupted.
abbrev file : File
file = record { size = 32; bytes = λ i. i + 100 }

abbrev world : World
world = record {
  file = some file;
  outcomes = transferred 40 ∷ transferred 5 ∷ interrupted ∷ failed ∷ [];
}

pread_exact-Read_example :
    ((pread_exact (λ i. 0) 8 16 world).1.file ≡ some file)
    × Read file 8 16 (λ i. 0) world.outcomes (pread_exact (λ i. 0) 8 16 world).0
pread_exact-Read_example = pread_exact-Read (λ i. 0) 8 16 world file refl

pwrite_exact-Wrote_example :
    (file' : File) × ((pwrite_exact (λ i. 7) 8 40 world).1.file ≡ some file')
    × Wrote file 40 8 (λ i. 7) world.outcomes (pwrite_exact (λ i. 7) 8 40 world).0 file'
pwrite_exact-Wrote_example = pwrite_exact-Wrote (λ i. 7) 8 40 world file refl

abbrev options : ListFileStoreOptions
options = record {
  page_size = 16;
  payload_bytes = 4;
  lists_per_shard = 1000;
  direct_io = false;
  sync_writes = true;
}

abbrev pub records : ListFileRecordStore
records = record {
  root = 1;
  nlist = 10;
  options = options;
  record_stride = 8;
  records_per_page = 2;
}

new_records : new_store true true 1 10 options true true ≡ ok records
unfolding new_store is_power_of_two
new_records = refl

new_store-IsValid_example : IsValid records
new_store-IsValid_example =
    new_store-IsValid true true true true 1 10 options records (omega arith) new_records

-- Three rows are published, and two more are appended.
abbrev ids : Pointer ℕ
ids = record { address = 1000; cells = λ i. i + 3 }

abbrev payloads : Pointer ℕ
payloads = record { address = 2000; cells = λ i. i }

pub records-IsValid : IsValid records
unfolding is_power_of_two
records-IsValid = record {
  stride = refl;
  room = omega arith;
  some_rows = omega arith;
  wide = omega arith;
  power = refl;
}

append_records-cases_example :
    Ends
      (append_records records 4 3 ids payloads 4 2 world)
      (λ _ w'. Appended records 3 5 ids payloads 4 file (contents w'.file))
      (λ w'.
        Survives records 3 file (contents w'.file) × Trouble records 4 3 ids payloads 4 2 world)
unfolding page_count
append_records-cases_example =
    append_records-cases records records-IsValid 4 3 ids payloads 4 2 world (omega arith)
      (omega arith) (omega arith)

-- The two rows just appended, and one that was there.
abbrev offsets : List ℕ
offsets = 4 ∷ 0 ∷ 3 ∷ []

read_logical_ids-cases_example :
    Ends
      (read_logical_ids records 4 3 (2 ∷ 0 ∷ []) world)
      (λ result w'.
        (contents w'.file ≡ file)
        × ((j : ℕ) → j < 2 → result j ≡ stored_id records file (get_or (2 ∷ 0 ∷ []) j 0)))
      (λ w'. (contents w'.file ≡ file) × ReadTrouble records 4 3 (2 ∷ 0 ∷ []) world)
unfolding page_count
read_logical_ids-cases_example =
    read_logical_ids-cases records records-IsValid 4 3 (2 ∷ 0 ∷ []) world (omega arith)
      (omega arith)

append-read_example :
    Ends
      ((append_records records 4 3 ids payloads 4 2 >> read_logical_ids records 4 (3 + 2) offsets)
        world)
      (λ result w'.
        (j : ℕ)
        → j < 3
        → get_or offsets j 0 < 3 + 2
        → result j ≡ (
            if ltb (get_or offsets j 0) 3
            then stored_id records file (get_or offsets j 0)
            else ids.cells (get_or offsets j 0 - 3)))
      (λ w'. Survives records 3 file (contents w'.file))
unfolding page_count
append-read_example =
    append-read records records-IsValid 4 3 ids payloads 4 2 offsets world (omega arith)
      (omega arith) (λ i h. omega arith) (omega arith) (omega arith)

validate_list_file-Validated_example :
    Validated records 4 3 world (validate_list_file records 4 3 world)
unfolding page_count
validate_list_file-Validated_example = validate_list_file-Validated records 4 3 world (omega arith)
