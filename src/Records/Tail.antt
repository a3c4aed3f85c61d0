-- ===== src/Records/Tail.antt =====
-- The file of `append_records` before its first page is stored and after the last one.
use recast.Prelude.{
  ℕ, ◌+◌, ◌*◌, ◌/◌, ◌≤◌, ◌<◌, ◌≡◌, ◌∙◌, refl, inl, inr, false, not, ◌||◌, invalid_argument, ltb,
  ◌==◌, if◌then◌else◌, Pointer, arith, ap, Bool-cases,
}
use recast.Checked.{page_count, off_max, is_power_of_two}
use recast.Checked.Bounds.{page_count_bounds}
use recast.Storage.{File, World, pure, call, resize_file, ftruncate}
use recast.Storage.Triples.{
  Ends, Ends_mono, bind_rule, OnFile, Holds, call_keeps, ftruncate_rule, check_rule,
}
use recast.Records.{ListFileRecordStore, aligned_buffer}
use recast.Records.Layout.{IsValid, page_of_row}
use recast.Records.Rows.{Survives, HoldsRecords, page_lt, position-lt}
use recast.Records.Pages.{Progress}

-- The published rows survive, the new rows are there, and no page is left over.
pub record Appended (store : ListFileRecordStore) (old_size new_size : ℕ) (ids payloads : Pointer ℕ)
    (payload_stride : ℕ) (before file : File) : Type 0 where
  pub survives : Survives store old_size before file
  pub size : file.size ≡ page_count new_size store.records_per_page * store.page_size
  pub added : HoldsRecords store old_size new_size ids payloads payload_stride file

module _ (F : Type 0) (store : ListFileRecordStore) (valid : IsValid store) where
  pub aligned_buffer_rule :
      (P : File → Type 0) (w : World)
      → OnFile F P w
      → Ends (aligned_buffer store.page_size store.page_size w) (λ _. OnFile F P) (Holds F P)
  unfolding aligned_buffer
  aligned_buffer_rule P w here =
      let power = valid.power in
      let wide = valid.wide in
      check_rule F P P
        (not (is_power_of_two store.page_size) || ltb store.page_size 8 || store.page_size == 0)
        invalid_argument w _ (λ _. OnFile F P) here (λ file p. p) (λ e. absurd (ground arith))
        λ e.
          bind_rule (call w) _ (λ _ w'. OnFile F P w') (λ _. OnFile F P) (Holds F P)
            (call_keeps F P w here) λ a w' here'. inl (_, refl, here')

pub resize_file-inside :
    (file : File) (size j : ℕ)
    → j < size
    → size ≤ file.size
    → (resize_file file size).bytes j ≡ file.bytes j
unfolding resize_file
resize_file-inside file size j lt le = ground arith

pub mul_le : (a b n : ℕ) → a ≤ b → a * n ≤ b * n
mul_le a b n h = grind arith

pub le_of_mul : (a b n : ℕ) → 0 < n → a * n < b * n + n → a ≤ b
le_of_mul a b n pos h = grind arith

module _ (store : ListFileRecordStore) (valid : IsValid store) (old_size new_size : ℕ) where
  abbrev old_pages : ℕ
  old_pages = page_count old_size store.records_per_page

  abbrev new_pages : ℕ
  new_pages = page_count new_size store.records_per_page

  pub first_page_le : old_size / store.records_per_page ≤ old_pages
  first_page_le =
      le_of_mul (old_size / store.records_per_page) old_pages store.records_per_page valid.some_rows
        (omega (
          arith,
          valid.some_rows,
          page_of_row old_size store.records_per_page valid.some_rows,
          page_count_bounds old_size store.records_per_page valid.some_rows,
        ))

  pub pages_le : old_size ≤ new_size → old_pages ≤ new_pages
  pages_le le = le_of_mul old_pages new_pages store.records_per_page valid.some_rows (
      omega (
        arith,
        page_count_bounds old_size store.records_per_page valid.some_rows,
        page_count_bounds new_size store.records_per_page valid.some_rows,
      ))

  Survives-resize_file :
      (before file : File) (size : ℕ)
      → old_pages * store.page_size ≤ size
      → Survives store old_size before file
      → Survives store old_size before (resize_file file size)
  unfolding resize_file
  Survives-resize_file before file size le s = record {
    pages = le;
    kept = λ r b lt h.
        let below = position-lt store valid r b old_pages h (page_lt store valid r old_size lt) in
        let there = s.pages in let same = s.kept r b lt h in ground arith;
  }

module _ (F : Type 0) (store : ListFileRecordStore) (valid : IsValid store) (old_size count : ℕ)
    (ids payloads : Pointer ℕ) (payload_stride : ℕ) (before : File)
    (fits : page_count (old_size + count) store.records_per_page * store.page_size ≤ off_max) where
  abbrev new_size : ℕ
  new_size = old_size + count

  abbrev pub first_page : ℕ
  first_page = old_size / store.records_per_page

  abbrev pub expected_bytes : ℕ
  expected_bytes = page_count old_size store.records_per_page * store.page_size

  abbrev Safe : World → Type 0
  Safe = Holds F (Survives store old_size before)

  abbrev Reach : ℕ → File → Type 0
  Reach p = Progress store old_size new_size ids payloads payload_stride before p

  -- The file holds the published pages and nothing else.
  Progress-first_page :
      (file : File)
      → Survives store old_size before file
      → file.size ≡ expected_bytes
      → Reach first_page file
  Progress-first_page file s e = record {
    survives = s;
    size =
        let less =
          mul_le first_page (page_count old_size store.records_per_page) store.page_size
            (first_page_le store valid old_size new_size) in
        omega (arith, e, less);
    added = λ r b ge lt h.
        absurd (omega (arith, page_of_row old_size store.records_per_page valid.some_rows));
  }

  abbrev pub Opened : ℕ → File → Type 0
  Opened n file = Survives store old_size before file × (n ≡ file.size)

  Progress-resize_file :
      (n : ℕ) (file file' : File)
      → Opened n file
      → file' ≡ resize_file file expected_bytes
      → Reach first_page file'
  unfolding resize_file
  Progress-resize_file n file file' (s, _) e =
      Progress-first_page file'
        (rw e (
          Survives-resize_file store valid old_size new_size before file expected_bytes
            (omega arith) s))
        (ap (λ (f : File). f.size) e)

  -- Cutting off what a failed append left behind.
  pub tail_rule :
      (n : ℕ) (w : World)
      → ltb n expected_bytes ≡ false
      → OnFile F (Opened n) w
      → Ends
          ((if ltb expected_bytes n then ftruncate expected_bytes else pure tt) w)
          (λ _. OnFile F (Reach first_page))
          Safe
  tail_rule n w e here = elim (Bool-cases (ltb expected_bytes n)) [
    | inl longer ↦ rw longer (
        Ends_mono (ftruncate expected_bytes w)
          (λ _.
            OnFile F
              (λ file'. (file : File) × Opened n file × (file' ≡ resize_file file expected_bytes)))
          (λ _. OnFile F (Reach first_page)) (Holds F (Opened n)) Safe
          (ftruncate_rule F (Opened n) w expected_bytes here)
          (λ a w' ((file', there, (file, opened, r)), quiet).
            ((file', there, Progress-resize_file n file file' opened r), quiet))
          (λ w' ((s, _), reason). (s, reason)))
    | inr same ↦
        let ((file, there, (s, size)), quiet) = here in
        rw same (inl (tt, refl, ((file, there, Progress-first_page file s (ground arith)), quiet)))
  ]

  pub Progress-Appended :
      (file : File)
      → Reach (page_count new_size store.records_per_page) file
      → Appended store old_size new_size ids payloads payload_stride before
          (resize_file file (page_count new_size store.records_per_page * store.page_size))
  unfolding resize_file
  Progress-Appended file g = record {
    survives =
        Survives-resize_file store valid old_size new_size before file _
          (mul_le _ _ store.page_size (pages_le store valid old_size new_size (omega arith)))
          g.survives;
    size = refl;
    added = λ r b ge lt h.
        let below =
          position-lt store valid r b (page_count new_size store.records_per_page) h
            (page_lt store valid r new_size lt) in
        let rows = page_count_bounds new_size store.records_per_page valid.some_rows in
        let had = g.added r b ge (omega (arith, rows)) h in
        let size = g.size in resize_file-inside file _ _ below (omega arith) ∙ had;
  }
