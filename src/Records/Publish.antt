-- ===== src/Records/Publish.antt =====
-- `append_records` from its first call to its last.
use recast.Prelude.{
  ℕ, ◌+◌, ◌-◌, ◌*◌, ◌/◌, ◌%◌, ◌^◌, ◌≤◌, ◌≡◌, true, false, not, ◌||◌, runtime_error, system_error,
  throw_if, ltb, ◌==◌, Pointer, arith,
}
use recast.Checked.{page_count, off_max}
use recast.Storage.{File, World, lift, ◌>>=◌, ◌>>◌, fstat, resize_file, ftruncate, sync_file}
use recast.Storage.Triples.{
  Ends, Ends_mono, bind_rule, OnFile, Holds, sync_rule, fstat_rule, ftruncate_rule, check_rule,
}
use recast.Records.{ListFileRecordStore, aligned_buffer, append_pages, append_to_file}
use recast.Records.Layout.{IsValid}
use recast.Records.Rows.{Survives}
use recast.Records.Pages.{Progress, append_pages_rule}
use recast.Records.Tail.{
  Appended, Progress-Appended, aligned_buffer_rule, first_page_le, pages_le, tail_rule, Opened,
  mul_le,
}

module _ (F : Type 0) (store : ListFileRecordStore) (valid : IsValid store) (old_size count : ℕ)
    (ids payloads : Pointer ℕ) (payload_stride : ℕ) (before : File)
    (fits : page_count (old_size + count) store.records_per_page * store.page_size ≤ off_max) where
  abbrev new_pages : ℕ
  new_pages = page_count (old_size + count) store.records_per_page

  abbrev final_bytes : ℕ
  final_bytes = new_pages * store.page_size

  abbrev Safe : World → Type 0
  Safe = Holds F (Survives store old_size before)

  abbrev Reach : ℕ → File → Type 0
  Reach p = Progress store old_size (old_size + count) ids payloads payload_stride before p

  abbrev Reached : ℕ → World → Type 0
  Reached p = OnFile F (Reach p)

  abbrev Done : File → Type 0
  Done = Appended store old_size (old_size + count) ids payloads payload_stride before

  -- From the last page on.
  finish_rule :
      (w : World)
      → Reached new_pages w
      → Ends
          ((lift (throw_if (ltb off_max (final_bytes % 2 ^ 64)) system_error)
              >> (ftruncate (final_bytes % 2 ^ 64) >> sync_file store.sync_writes))
            w)
          (λ _. OnFile F Done)
          Safe
  finish_rule w here =
      let whole : final_bytes % 2 ^ 64 ≡ final_bytes = omega (arith, fits) in
      rw whole (
        check_rule F (Reach new_pages) (Survives store old_size before) (ltb off_max final_bytes)
          system_error w (ftruncate final_bytes >> sync_file store.sync_writes) (λ _. OnFile F Done)
          here (λ file g. g.survives) (λ e. absurd (ground arith))
          λ e.
            bind_rule (ftruncate final_bytes w) _ (λ _. OnFile F Done) (λ _. OnFile F Done) Safe
              (Ends_mono (ftruncate final_bytes w)
                (λ _. OnFile F (λ file'.
                  (file : File) × Reach new_pages file × (file' ≡ resize_file file final_bytes)))
                (λ _. OnFile F Done) (Holds F (Reach new_pages)) Safe
                (ftruncate_rule F (Reach new_pages) w final_bytes here)
                (λ a w' ((file', there, (file, g, r)), quiet). (
                  (
                    file',
                    there,
                    rw r (
                        Progress-Appended F store valid old_size count ids payloads payload_stride
                          before fits file g),
                  ),
                  quiet,
                ))
                (λ w' (g, reason). (g.survives, reason)))
              λ a w' here'.
                Ends_mono (sync_file store.sync_writes w') (λ _. OnFile F Done) (λ _. OnFile F Done)
                  (Holds F Done) Safe (sync_rule F Done w' store.sync_writes here') (λ a w'' x. x)
                  (λ w'' (g, reason). (g.survives, reason)))

  -- The file as it is opened; that it is a whole number of pages, or else that there is a reason.
  abbrev pub Found : File → Type 0
  Found file =
      Survives store old_size before file × ((file.size % store.page_size == 0) ≡ false → F)

  abbrev old_bytes : ℕ
  old_bytes = page_count old_size store.records_per_page * store.page_size

  abbrev first_page : ℕ
  first_page = old_size / store.records_per_page

  -- From the first page on.
  pages_rule :
      (w : World)
      → Reached first_page w
      → Ends
          ((aligned_buffer store.page_size store.page_size >>= λ buffer.
              append_pages store old_size
                (old_size + count)
                ids
                payloads
                payload_stride
                (new_pages - first_page)
                first_page
                buffer
              >> (lift (throw_if (ltb off_max (final_bytes % 2 ^ 64)) system_error)
                  >> (ftruncate (final_bytes % 2 ^ 64) >> sync_file store.sync_writes)))
            w)
          (λ _. OnFile F Done)
          Safe
  pages_rule w here =
      bind_rule _ _ (λ _. Reached first_page) (λ _. OnFile F Done) Safe
        (Ends_mono _ (λ _. Reached first_page) (λ _. Reached first_page)
          (Holds F (Reach first_page)) Safe
          (aligned_buffer_rule F store valid (Reach first_page) w here) (λ a w' x. x)
          (λ w' (g, reason). (g.survives, reason)))
        λ buffer w' here'.
          bind_rule _ _ (λ _. Reached new_pages) (λ _. OnFile F Done) Safe
            (append_pages_rule F store valid old_size (old_size + count) ids payloads payload_stride
              before fits (new_pages - first_page) first_page buffer w'
              (omega (arith, first_le, grown)) here')
            λ a w'' here''. finish_rule w'' here''
    where
      first_le : first_page ≤ page_count old_size store.records_per_page
      first_le = first_page_le store valid old_size (old_size + count)

      grown : page_count old_size store.records_per_page ≤ new_pages
      grown = pages_le store valid old_size (old_size + count) (omega arith)

  pub append_to_file_rule :
      (w : World)
      → OnFile F Found w
      → Ends
          (append_to_file store old_size ids payloads payload_stride count w)
          (λ _. OnFile F Done)
          Safe
  unfolding append_to_file
  append_to_file_rule w here =
      rw (old_bytes_fit, append_to_file)
        (bind_rule (fstat w) _ (λ n. OnFile F (Sized n)) (λ _. OnFile F Done) Safe
          (Ends_mono (fstat w) (λ n. OnFile F (Sized n)) (λ n. OnFile F (Sized n)) (Holds F Found)
            Safe (fstat_rule F Found w here) (λ n w' x. x) (λ w' ((s, _), reason). (s, reason)))
          λ n w' here'.
            check_rule F (Sized n) (Survives store old_size before) _ runtime_error w' _
              (λ _. OnFile F Done) here' (λ file ((s, _), _). s) (misfit n w' here')
              λ e.
                bind_rule _ _ (λ _. Reached first_page) (λ _. OnFile F Done) Safe
                  (tail_rule F store valid old_size count ids payloads payload_stride before fits n
                    w' (ground arith) (opened n w' here'))
                  λ a w'' here''. pages_rule w'' here'')
    where
      Sized : ℕ → File → Type 0
      Sized n file = Found file × (n ≡ file.size)

      old_bytes_fit : old_bytes % 2 ^ 64 ≡ old_bytes
      old_bytes_fit =
          let less =
            mul_le (page_count old_size store.records_per_page) new_pages store.page_size
              (pages_le store valid old_size (old_size + count) (omega arith)) in
          omega (arith, fits, less)

      misfit :
          (n : ℕ) (w' : World)
          → OnFile F (Sized n) w'
          → (ltb n old_bytes || not (n % store.page_size == 0)) ≡ true
          → F
      misfit n w' ((file, there, ((s, reason), e)), quiet) test =
          let there = s.pages in reason (ground arith)

      opened :
          (n : ℕ) (w' : World)
          → OnFile F (Sized n) w'
          → OnFile F
              (Opened F store valid old_size count ids payloads payload_stride before fits n)
              w'
      opened n w' ((file, there, ((s, _), e)), quiet) = ((file, there, (s, e)), quiet)
