-- ===== src/Records/Mutation/Contract.antt =====
-- What a preparation returns, and why it may throw instead.
use recast.Prelude.{ℕ, ◌*◌, ◌≤◌, ◌<◌, ◌≡◌, List, map, none, ok, length, All, Any}
use recast.Checked.{page_count, size_max}
use recast.Storage.{File, World, IsFault}
use recast.Storage.Triples.{contents}
use recast.Deletion.{RecordMove}
use recast.Records.{ListFileRecordStore, list_path}
use recast.Records.Layout.{IsValid}
use recast.Records.Lookup.Found.{stored_id}
use recast.Records.Mutation.{PreparedMutation}
use recast.Records.Mutation.Sets.{IsMove}
use recast.Records.Mutation.Prepared.{IsImage}

-- What a mutation says of its store, its list and the file that it was prepared from.
pub record IsPrepared (records : ListFileRecordStore) (valid : IsValid records)
    (list_no old_size new_size : ℕ) (moves : List RecordMove) (observed : List ℕ) (before : File)
    (prepared : PreparedMutation) : Type 0 where
  pub path : list_path records list_no ≡ ok (prepared.path.1, prepared.path.2)
  pub root : prepared.path.0 ≡ records.root
  pub same_list : prepared.list_no ≡ list_no
  pub page_size : prepared.page_size ≡ records.page_size
  pub record_stride : prepared.record_stride ≡ records.record_stride
  pub records_per_page : prepared.records_per_page ≡ records.records_per_page
  pub old_pages : prepared.old_pages ≡ page_count old_size records.records_per_page
  pub new_pages : prepared.new_pages ≡ page_count new_size records.records_per_page
  pub images :
      IsImage records valid old_size new_size moves before prepared.pages prepared.write_pages
  pub sized : before.size ≡ page_count old_size records.records_per_page * records.page_size
  pub observed_ids : prepared.observed_ids ≡ map (stored_id records before) observed

-- Why a preparation may throw.
pub data PrepareTrouble (records : ListFileRecordStore) (list_no old_size new_size : ℕ)
    (moves : List RecordMove) (observed : List ℕ) (w : World) : Type 0 where
  growing : old_size < new_size → PrepareTrouble records list_no old_size new_size moves observed w
  bad_move :
      (All (IsMove old_size new_size) moves → ⊥)
      → PrepareTrouble records list_no old_size new_size moves observed w
  bad_offset :
      (All (λ o. o < old_size) observed → ⊥)
      → PrepareTrouble records list_no old_size new_size moves observed w
  unknown_list :
      records.nlist ≤ list_no → PrepareTrouble records list_no old_size new_size moves observed w
  missing_file : w.file ≡ none → PrepareTrouble records list_no old_size new_size moves observed w
  wrong_size :
      ((contents w.file).size ≡ page_count old_size records.records_per_page * records.page_size
        → ⊥)
      → PrepareTrouble records list_no old_size new_size moves observed w
  too_many_moves :
      size_max < length moves * records.record_stride
      → PrepareTrouble records list_no old_size new_size moves observed w
  fault : Any IsFault w.outcomes → PrepareTrouble records list_no old_size new_size moves observed w
