-- ===== src/Records/Pages.antt =====
-- The loop of `append_records` over the pages, with everything that can go wrong in it.
use recast.Prelude.{
  ℕ, zero, suc, ◌+◌, ◌*◌, ◌/◌, ◌%◌, ◌≤◌, ◌<◌, ◌≡◌, ◌∙◌, refl, sym, inl, inr, false, ok, Pointer,
  fill, ltb, if◌then◌else◌, arith, ap, Bool-cases, min, max,
}
use recast.Checked.{page_count, page_offset, off_max}
use recast.Checked.Bounds.{page_offset-Fits}
use recast.Storage.{File, World, pure, lift, ◌>>=◌, pread_exact}
use recast.Storage.Triples.{Ends, Ends_mono, bind_rule, OnFile, Holds}
use recast.Storage.Reading.{Filled}
use recast.Storage.Writing.{Written}
use recast.Storage.Transfers.{pread_rule, pwrite_rule}
use recast.Records.{ListFileRecordStore, append_page, append_pages}
use recast.Records.Layout.{IsValid, lane_le, in_page}
use recast.Records.Rows.{Survives, HoldsRecords, page_lt, HasOld, stored, stored_old}
use recast.Records.Append.{Written-Survives, Written-HoldsRecords}

-- The file when the pages below `p` are stored.
pub record Progress (store : ListFileRecordStore) (old_size new_size : ℕ) (ids payloads : Pointer ℕ)
    (payload_stride : ℕ) (before : File) (p : ℕ) (file : File) : Type 0 where
  pub survives : Survives store old_size before file
  pub size :
      file.size
      ≡ max (page_count old_size store.records_per_page * store.page_size) (p * store.page_size)
  pub added :
      HoldsRecords store old_size
        (min new_size (p * store.records_per_page))
        ids
        payloads
        payload_stride
        file

module _ (F : Type 0) (store : ListFileRecordStore) (valid : IsValid store) (old_size new_size : ℕ)
    (ids payloads : Pointer ℕ) (payload_stride : ℕ) (before : File)
    (fits : page_count new_size store.records_per_page * store.page_size ≤ off_max) where
  abbrev old_pages : ℕ
  old_pages = page_count old_size store.records_per_page

  abbrev new_pages : ℕ
  new_pages = page_count new_size store.records_per_page

  abbrev Safe : World → Type 0
  Safe = Holds F (Survives store old_size before)

  abbrev Reach : ℕ → File → Type 0
  Reach p = Progress store old_size new_size ids payloads payload_stride before p

  abbrev FilledPage : ℕ → (ℕ → ℕ) → (ℕ → ℕ) → File → Type 0
  FilledPage p buffer page file = Filled file store.page_size (p * store.page_size) buffer page

  abbrev Reached : ℕ → World → Type 0
  Reached p = OnFile F (Reach p)

  abbrev Old : ℕ → (ℕ → ℕ) → Type 0
  Old p = HasOld store valid old_size new_size ids payloads payload_stride before p

  page_offset-ok :
      (p : ℕ) → p < new_pages → page_offset p store.page_size ≡ ok (p * store.page_size)
  page_offset-ok p lt = elim (page_offset-Fits p store.page_size (omega (arith, valid.wide))) [
    | inl (le, e) ↦ e
    | inr (big, e) ↦ absurd (omega (arith, lane_le p new_pages store.page_size lt, fits))
  ]

  Filled-Old :
      (p : ℕ) (file : File) (buffer page : ℕ → ℕ)
      → Survives store old_size before file
      → Filled file store.page_size (p * store.page_size) buffer page
      → Old p page
  Filled-Old p file buffer page s f r b lt e h =
      let o = r % store.records_per_page * store.record_stride + b in
      f.inside o (in_page store valid r b h)
      ∙ ap file.bytes (ap (λ (t : ℕ). t * store.page_size + o) (sym e))
      ∙ s.kept r b lt h

  -- A page past the published ones holds no published row.
  new_page :
      (p : ℕ)
      → ltb p old_pages ≡ false
      → (r : ℕ) → r < old_size
      → r / store.records_per_page ≡ p
      → ⊥
  new_page p e r old same = let below = page_lt store valid r old_size old in ground arith

  -- Reading the page that the append goes on with, or clearing a new one.
  page_rule :
      (p : ℕ) (buffer : ℕ → ℕ) (w : World)
      → p < new_pages
      → Reached p w
      → Ends
          ((if ltb p old_pages
              then (lift (page_offset p store.page_size) >>= λ offset.
                  pread_exact buffer store.page_size offset)
              else pure (fill buffer 0 store.page_size 0))
            w)
          (λ page w'. Reached p w' × Old p page)
          Safe
  page_rule p buffer w lt here = elim (Bool-cases (ltb p old_pages)) [
    | inl e ↦
        rw (e, page_offset-ok p lt)
          (Ends_mono (pread_exact buffer store.page_size (p * store.page_size) w)
            (λ page. OnFile F (λ file. Reach p file × FilledPage p buffer page file))
            (λ page w'. Reached p w' × Old p page) (Holds F (Reach p)) Safe
            (pread_rule F (Reach p) buffer store.page_size (p * store.page_size) w
              (λ file g. omega (arith, g.size, lane_le p old_pages store.page_size (ground arith)))
              here)
            (λ page w' ((file, there, (g, f)), quiet).
              (((file, there, g), quiet), Filled-Old p file buffer page g.survives f))
            (λ w' (g, reason). (g.survives, reason)))
    | inr e ↦ rw e (
        inl (
          fill buffer 0 store.page_size 0,
          refl,
          (here, λ r b old same h. absurd (new_page p e r old same)),
        ))
  ]

  abbrev stored_page : ℕ → (ℕ → ℕ) → ℕ → ℕ
  stored_page p page =
      stored store valid old_size new_size ids payloads payload_stride before p page

  abbrev StoredPage : ℕ → (ℕ → ℕ) → File → Type 0
  StoredPage p page file' =
      (file : File) × Reach p file
      × Written file (p * store.page_size) store.page_size (stored_page p page) file'

  stored-Old : (p : ℕ) (page : ℕ → ℕ) → Old p page → Old p (stored_page p page)
  stored-Old p page old =
      stored_old store valid old_size new_size ids payloads payload_stride before p page old

  -- The page is stored.
  Progress-suc :
      (p : ℕ) (page : ℕ → ℕ) (file file' : File)
      → Old p page
      → Reach p file
      → Written file (p * store.page_size) store.page_size (stored_page p page) file'
      → Reach (suc p) file'
  Progress-suc p page file file' old g w = record {
    survives =
        Written-Survives store valid old_size new_size ids payloads payload_stride before p _
          store.page_size file file' (stored-Old p page old) (omega arith) g.survives w;
    size = let wide = valid.wide in ground (arith, w.size, g.size);
    added =
        Written-HoldsRecords store valid old_size new_size ids payloads payload_stride before p page
          file file' g.added (omega (arith, g.size)) w;
  }

  append_page_rule :
      (p : ℕ) (buffer : ℕ → ℕ) (w : World)
      → p < new_pages
      → Reached p w
      → Ends
          (append_page store old_size new_size ids payloads payload_stride p buffer w)
          (λ _. Reached (suc p))
          Safe
  unfolding append_page
  append_page_rule p buffer w lt here =
      bind_rule _ _ (λ page w'. Reached p w' × Old p page) (λ _. Reached (suc p)) Safe
        (page_rule p buffer w lt here)
        λ page w' (here', old). rw (page_offset-ok p lt) (
          bind_rule _ _ (λ _. OnFile F (StoredPage p page)) (λ _. Reached (suc p)) Safe
            (pwrite_rule F (Reach p) (stored_page p page) store.page_size (p * store.page_size) w'
              (Survives store old_size before)
              (λ file file' k g le written.
                Written-Survives store valid old_size new_size ids payloads payload_stride before p
                  _ k file file' (stored-Old p page old) le g.survives written)
              here')
            λ a w'' ((file', there, (file, g, written)), quiet). inl (
              stored_page p page,
              refl,
              ((file', there, Progress-suc p page file file' old g written), quiet),
            ))

  pub append_pages_rule :
      (pages p : ℕ) (buffer : ℕ → ℕ) (w : World)
      → p + pages ≡ new_pages
      → Reached p w
      → Ends
          (append_pages store old_size new_size ids payloads payload_stride pages p buffer w)
          (λ _. Reached new_pages)
          Safe
  unfolding append_pages
  append_pages_rule zero p buffer w e here =
      let last : p ≡ new_pages = omega arith in inl (tt, refl, rw last at here)
  append_pages_rule (suc pages) p buffer w e here =
      bind_rule _ _ (λ _. Reached (suc p)) (λ _. Reached new_pages) Safe
        (append_page_rule p buffer w (omega arith) here)
        λ bytes w' here'.
          append_pages_rule pages (p + 1) bytes w' (omega arith)
            (let next : suc p ≡ p + 1 = omega arith in rw next at here')
