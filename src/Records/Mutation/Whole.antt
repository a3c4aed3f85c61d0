-- ===== src/Records/Mutation/Whole.antt =====
-- `commit_prepared_mutation`, and a whole deletion.
use recast.Prelude.{
  ℕ, ◌*◌, ◌%◌, ◌^◌, ◌≤◌, ◌≡◌, refl, sym, ◌∙◌, ◌⊎◌, inl, inr, false, not, List, [], none, some, ok,
  runtime_error, system_error, throw_if, ltb, ◌==◌, Any, arith, ap, eq→==,
}
use recast.Checked.{page_count, off_max}
use recast.Storage.{
  File, World, IsFault, lift, ◌>>=◌, ◌>>◌, open_file, fstat, resize_file, ftruncate, sync_file,
}
use recast.Storage.Triples.{
  Ends, Ends_mono, bind_rule, OnFile, contents, Holds, sync_rule, fstat_rule, ftruncate_rule,
  open_existing_rule, check_rule,
}
use recast.Deletion.{RecordMove}
use recast.Records.{ListFileRecordStore, list_path}
use recast.Records.Layout.{IsValid, position}
use recast.Records.Tail.{mul_le, pages_le}
use recast.Records.Mutation.{PreparedMutation}
use recast.Records.Mutation.Contract.{IsPrepared, PrepareTrouble}
use recast.Records.Mutation.Preparing.{Answer, prepare_rule}
use recast.Records.Mutation.Committing.{
  Torn, Deleted, Writing, commit_pages_rule, Writing-resize_file,
}
use recast.Records.Mutation.Commit.{
  commit_pages, commit_prepared_mutation, prepare_moves_and_truncate, apply_moves_and_truncate,
}

module _ (F : Type 0) (records : ListFileRecordStore) (valid : IsValid records)
    (list_no old_size new_size : ℕ) (moves : List RecordMove) (observed : List ℕ) (before : File)
    (prepared : PreparedMutation)
    (is : IsPrepared records valid list_no old_size new_size moves observed before prepared)
    (le : new_size ≤ old_size)
    (fits : page_count old_size records.records_per_page * records.page_size ≤ off_max) where
  abbrev new_bytes : ℕ
  new_bytes = page_count new_size records.records_per_page * records.page_size

  abbrev old_bytes : ℕ
  old_bytes = page_count old_size records.records_per_page * records.page_size

  abbrev Same : File → Type 0
  Same file = file ≡ before

  abbrev IsTorn : File → Type 0
  IsTorn = Torn records valid old_size new_size moves before le fits

  abbrev IsDeleted : File → Type 0
  IsDeleted = Deleted records valid old_size new_size moves before le fits

  abbrev IsWriting : List ℕ → File → Type 0
  IsWriting = Writing records valid old_size new_size moves before le fits

  narrower : new_bytes ≤ old_bytes
  narrower = mul_le _ _ records.page_size (pages_le records valid new_size old_size le)

  Same-Torn : (file : File) → Same file → IsTorn file
  Same-Torn file same = (
    omega (arith, narrower, is.sized, ap (λ (f : File). f.size) same),
    λ r b below h. inl (ap (λ (f : File). f.bytes (position records r b)) same),
  )

  Same-Writing : (file : File) → Same file → IsWriting prepared.write_pages file
  Same-Writing file same = record {
    torn = Same-Torn file same;
    size = ap (λ (f : File). f.size) same ∙ is.sized;
    others = λ r b below h. elim (is.images.covers r below) [
      | inl m ↦ inl m
      | inr e ↦ inr (ap (λ (f : File). f.bytes (position records r b)) same ∙ sym (e b))
    ];
  }

  Deleted-Torn : (file : File) → IsDeleted file → IsTorn file
  Deleted-Torn file (size, rows) = (omega (arith, size), λ r b below h. inr (rows r b below h))

  -- From the last page on.
  finish_rule :
      (w : World)
      → OnFile F (IsWriting []) w
      → Ends
          ((lift (throw_if (ltb off_max (new_bytes % 2 ^ 64)) system_error)
              >> (ftruncate (new_bytes % 2 ^ 64) >> sync_file records.sync_writes))
            w)
          (λ _. OnFile F IsDeleted)
          (Holds F IsTorn)
  finish_rule w here =
      let whole : new_bytes % 2 ^ 64 ≡ new_bytes = omega (arith, fits, narrower) in
      let small = narrower in
      rw whole (
        check_rule F (IsWriting []) IsTorn (ltb off_max new_bytes) system_error w
          (ftruncate new_bytes >> sync_file records.sync_writes) (λ _. OnFile F IsDeleted) here
          (λ file g. g.torn) (λ e. absurd (ground arith))
          λ e.
            bind_rule (ftruncate new_bytes w) _ (λ _. OnFile F IsDeleted) (λ _. OnFile F IsDeleted)
              (Holds F IsTorn)
              (Ends_mono (ftruncate new_bytes w)
                (λ _. OnFile F (λ file'.
                  (file : File) × IsWriting [] file × (file' ≡ resize_file file new_bytes)))
                (λ _. OnFile F IsDeleted) (Holds F (IsWriting [])) (Holds F IsTorn)
                (ftruncate_rule F (IsWriting []) w new_bytes here)
                (λ a w' ((file', there, (file, g, r)), quiet). (
                  (
                    file',
                    there,
                    rw r (
                        Writing-resize_file records valid old_size new_size moves before le fits
                          file g),
                  ),
                  quiet,
                ))
                (λ w' (g, reason). (g.torn, reason)))
              λ a w' here'.
                Ends_mono (sync_file records.sync_writes w') (λ _. OnFile F IsDeleted)
                  (λ _. OnFile F IsDeleted) (Holds F IsDeleted) (Holds F IsTorn)
                  (sync_rule F IsDeleted w' records.sync_writes here') (λ a w'' x. x)
                  (λ w'' (g, reason). (Deleted-Torn (contents w''.file) g, reason)))

  -- From the open file on.
  commit_file_rule :
      (w : World)
      → OnFile F Same w
      → Ends
          ((fstat >>= λ size.
              lift (throw_if (not (size == old_bytes % 2 ^ 64)) runtime_error)
              >> (commit_pages records prepared.pages prepared.write_pages
                  >> (lift (throw_if (ltb off_max (new_bytes % 2 ^ 64)) system_error)
                      >> (ftruncate (new_bytes % 2 ^ 64) >> sync_file records.sync_writes))))
            w)
          (λ _. OnFile F IsDeleted)
          (Holds F IsTorn)
  commit_file_rule w here =
      let whole : old_bytes % 2 ^ 64 ≡ old_bytes = omega (arith, fits) in
      rw whole (
        bind_rule (fstat w) _ (λ size. OnFile F (λ file. Same file × (size ≡ file.size)))
          (λ _. OnFile F IsDeleted) (Holds F IsTorn)
          (Ends_mono (fstat w) (λ size. OnFile F (λ file. Same file × (size ≡ file.size)))
            (λ size. OnFile F (λ file. Same file × (size ≡ file.size))) (Holds F Same)
            (Holds F IsTorn) (fstat_rule F Same w here) (λ size w' x. x)
            (λ w' (same, reason). (Same-Torn (contents w'.file) same, reason)))
          λ size w1 ((file, there, (same, e)), quiet).
            let right : size ≡ old_bytes = e ∙ ap (λ (f : File). f.size) same ∙ is.sized in
            check_rule F Same IsTorn (not (size == old_bytes)) runtime_error w1 _
              (λ _. OnFile F IsDeleted) ((file, there, same), quiet) Same-Torn
              (λ test. absurd (ground arith))
              λ test.
                bind_rule (commit_pages records prepared.pages prepared.write_pages w1) _
                  (λ _. OnFile F (IsWriting [])) (λ _. OnFile F IsDeleted) (Holds F IsTorn)
                  (commit_pages_rule records valid old_size new_size moves before le fits F
                    prepared.pages prepared.write_pages w1 is.images.images
                    ((file, there, Same-Writing file same), quiet))
                  λ a w2 here2. finish_rule w2 here2)

  commit_open :
      (w : World)
      → commit_prepared_mutation records (some prepared) w
        ≡ (open_file false
              >> (fstat >>= λ size.
                  lift (throw_if (not (size == old_bytes % 2 ^ 64)) runtime_error)
                  >> (commit_pages records prepared.pages prepared.write_pages
                      >> (lift (throw_if (ltb off_max (new_bytes % 2 ^ 64)) system_error)
                          >> (ftruncate (new_bytes % 2 ^ 64) >> sync_file records.sync_writes)))))
            w
  unfolding commit_prepared_mutation
  commit_open w =
      let a = eq→== prepared.page_size records.page_size is.page_size in
      let b = eq→== prepared.record_stride records.record_stride is.record_stride in
      let c = eq→== prepared.records_per_page records.records_per_page is.records_per_page in
      let d = eq→== prepared.path.0 records.root is.root in
      let e = eq→== prepared.path.1 prepared.path.1 refl in
      let f = eq→== prepared.path.2 prepared.path.2 refl in
      let path : list_path records prepared.list_no ≡ ok (prepared.path.1, prepared.path.2) =
        rw is.same_list is.path in
      rw (commit_prepared_mutation, a, b, c, path, d, e, f, is.old_pages, is.new_pages) refl

  pub commit_rule :
      (w : World)
      → Same (contents w.file)
      → (w.file ≡ none → F)
      → (Any IsFault w.outcomes → F)
      → Ends
          (commit_prepared_mutation records (some prepared) w)
          (λ _. OnFile F IsDeleted)
          (Holds F IsTorn)
  commit_rule w same missing quiet = rw (commit_open w) (
      bind_rule (open_file false w) _ (λ _. OnFile F Same) (λ _. OnFile F IsDeleted)
        (Holds F IsTorn)
        (Ends_mono (open_file false w) (λ _. OnFile F Same) (λ _. OnFile F Same) (Holds F Same)
          (Holds F IsTorn) (open_existing_rule F Same w same missing quiet) (λ a w' x. x)
          (λ w' (same, reason). (Same-Torn (contents w'.file) same, reason)))
        λ a w' here. commit_file_rule w' here)

-- For a store that `IsValid`, a list that does not grow, pages of the list that end within off_t, and
-- however the calls end: a deletion may return, and the file is then exactly the pages of the new
-- size, with the rows as the moves leave them, every source read before the first move, and with
-- nothing behind them. Or it may throw, and only for one of the reasons of `PrepareTrouble`: the file
-- is then as before, or every byte of the retained pages is the old one or the one that the deletion
-- leaves, and those pages are there.
pub apply_moves_and_truncate-cases :
    (records : ListFileRecordStore) (valid : IsValid records) (list_no old_size new_size : ℕ)
    (moves : List RecordMove) (w : World) (le : new_size ≤ old_size)
    (fits : page_count old_size records.records_per_page * records.page_size ≤ off_max)
    → Ends
        (apply_moves_and_truncate records list_no old_size new_size moves w)
        (λ _ w'.
          Deleted records valid old_size new_size moves
            (contents w.file)
            le
            fits
            (contents w'.file))
        (λ w'.
          ((contents w'.file ≡ contents w.file)
            ⊎ Torn records valid old_size new_size moves
                (contents w.file)
                le
                fits
                (contents w'.file))
          × PrepareTrouble records list_no old_size new_size moves [] w)
unfolding apply_moves_and_truncate
apply_moves_and_truncate-cases records valid list_no old_size new_size moves w le fits =
    bind_rule (prepare_moves_and_truncate records list_no old_size new_size moves [] w) _
      (Answer records valid list_no old_size new_size moves [] w)
      (λ _ w'. IsDone (contents w'.file)) Failed
      (Ends_mono (prepare_moves_and_truncate records list_no old_size new_size moves [] w)
        (Answer records valid list_no old_size new_size moves [] w)
        (Answer records valid list_no old_size new_size moves [] w)
        (Holds F (λ file. file ≡ contents w.file)) Failed
        (prepare_rule records valid list_no old_size new_size moves [] w fits) (λ p w' x. x)
        (λ w' (same, reason). (inl same, reason)))
      λ prepared w1 (((file, there, same), quiet), is).
        Ends_mono (commit_prepared_mutation records (some prepared) w1) (λ _. OnFile F IsDone)
          (λ _ w'. IsDone (contents w'.file)) (Holds F IsTorn) Failed
          (commit_rule F records valid list_no old_size new_size moves [] (contents w.file) prepared
            is le fits w1 (rw there same) (λ missing. absurd (cc)) quiet)
          (λ a w' ((f, at, d), q). rw at d) (λ w' (t, reason). (inr t, reason))
  where
    F : Type 0
    F = PrepareTrouble records list_no old_size new_size moves [] w

    IsDone : File → Type 0
    IsDone = Deleted records valid old_size new_size moves (contents w.file) le fits

    IsTorn : File → Type 0
    IsTorn = Torn records valid old_size new_size moves (contents w.file) le fits

    Failed : World → Type 0
    Failed w' = ((contents w'.file ≡ contents w.file) ⊎ IsTorn (contents w'.file)) × F
