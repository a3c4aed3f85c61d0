-- ===== src/Tests/Deletions.antt =====
-- The deletion of one row of four, with calls that fail or fall short.
use recast.Prelude.{◌+◌, ◌*◌, ◌≤◌, ◌≡◌, ◌⊎◌, refl, true, false, List, [], ◌∷◌, some, arith}
use recast.Checked.{page_count, off_max, is_power_of_two}
use recast.Storage.{File, World, interrupted, transferred}
use recast.Storage.Triples.{Ends, contents}
use recast.Deletion.{RecordMove}
use recast.Records.{ListFileRecordStore}
use recast.Records.Layout.{IsValid}
use recast.Records.Mutation.Commit.{prepare_moves_and_truncate, apply_moves_and_truncate}
use recast.Records.Mutation.Contract.{IsPrepared, PrepareTrouble}
use recast.Records.Mutation.Preparing.{prepare_moves_and_truncate-cases}
use recast.Records.Mutation.Committing.{Deleted, Torn}
use recast.Records.Mutation.Whole.{apply_moves_and_truncate-cases}

abbrev two_pages : File
two_pages = record { size = 32; bytes = λ i. i + 100 }

abbrev disk : World
disk = record {
  file = some two_pages;
  outcomes = transferred 40 ∷ transferred 40 ∷ transferred 40 ∷ transferred 5 ∷ interrupted ∷ [];
}

abbrev pairs : ListFileRecordStore
pairs = record {
  root = 1;
  nlist = 10;
  options = record {
    page_size = 16;
    payload_bytes = 4;
    lists_per_shard = 1000;
    direct_io = false;
    sync_writes = true;
  };
  record_stride = 8;
  records_per_page = 2;
}

pairs-IsValid : IsValid pairs
unfolding is_power_of_two
pairs-IsValid = record {
  stride = refl;
  room = omega arith;
  some_rows = omega arith;
  wide = omega arith;
  power = refl;
}

-- Row 3 goes to the hole at row 0.
abbrev one_move : List RecordMove
one_move = record { destination = 0; source = 3 } ∷ []

pages-fit : page_count 4 2 * 16 ≤ off_max
unfolding page_count
pages-fit = omega arith

prepare_moves_and_truncate-cases_example :
    Ends
      (prepare_moves_and_truncate pairs 4 4 3 one_move (0 ∷ []) disk)
      (λ prepared w'.
        (contents w'.file ≡ two_pages)
        × IsPrepared pairs pairs-IsValid 4 4 3 one_move (0 ∷ []) two_pages prepared)
      (λ w'. (contents w'.file ≡ two_pages) × PrepareTrouble pairs 4 4 3 one_move (0 ∷ []) disk)
prepare_moves_and_truncate-cases_example =
    prepare_moves_and_truncate-cases pairs pairs-IsValid 4 4 3 one_move (0 ∷ []) disk pages-fit

shorter : 3 ≤ 4
shorter = omega arith

apply_moves_and_truncate-cases_example :
    Ends
      (apply_moves_and_truncate pairs 4 4 3 one_move disk)
      (λ _ w'.
        Deleted pairs pairs-IsValid 4 3 one_move two_pages shorter pages-fit (contents w'.file))
      (λ w'.
        ((contents w'.file ≡ two_pages)
          ⊎ Torn pairs pairs-IsValid 4 3 one_move two_pages shorter pages-fit (contents w'.file))
        × PrepareTrouble pairs 4 4 3 one_move [] disk)
apply_moves_and_truncate-cases_example =
    apply_moves_and_truncate-cases pairs pairs-IsValid 4 4 3 one_move disk shorter pages-fit
