-- ===== src/Records/Mutation/Committing.antt =====
-- The file while the pages of a deletion are written.
use native.Mathlib.Decide.{ℕ_discrete, dec_lt}
use recast.Prelude.{
  ℕ, ◌+◌, ◌*◌, ◌/◌, ◌%◌, ◌≤◌, ◌<◌, ◌≡◌, ◌≢◌, refl, sym, ◌∙◌, ◌⊎◌, inl, inr, List, [], ◌∷◌, Option,
  ok, All, arith, ap,
}
use recast.Checked.{page_count, page_offset, off_max}
use recast.Checked.Bounds.{page_offset-Fits}
use recast.Storage.{File, World, resize_file, pwrite_exact}
use recast.Storage.Triples.{Ends, bind_rule, OnFile, Holds}
use recast.Storage.Writing.{Written}
use recast.Storage.Transfers.{pwrite_rule}
use recast.Deletion.{RecordMove}
use recast.Records.{ListFileRecordStore}
use recast.Records.Layout.{IsValid, position, in_page, lane_le, page_apart}
use recast.Records.Rows.{position-lt}
use recast.Records.Tail.{resize_file-inside, mul_le, pages_le}
use recast.Records.Mutation.{page_at}
use recast.Records.Mutation.Sets.{Member}
use recast.Records.Mutation.Images.{Imaged}
use recast.Records.Mutation.Prepared.{left_rows}
use recast.Records.Mutation.Commit.{commit_pages}

module _ (records : ListFileRecordStore) (valid : IsValid records) (old_size new_size : ℕ)
    (moves : List RecordMove) (before : File) (le : new_size ≤ old_size)
    (fits : page_count old_size records.records_per_page * records.page_size ≤ off_max) where
  abbrev new_pages : ℕ
  new_pages = page_count new_size records.records_per_page

  abbrev old_pages : ℕ
  old_pages = page_count old_size records.records_per_page

  abbrev left : ℕ → ℕ → ℕ
  left = left_rows records valid old_size new_size moves before

  -- A byte of a retained page is the old one or the one that the deletion leaves.
  abbrev pub Torn : File → Type 0
  Torn file =
      (page_count new_size records.records_per_page * records.page_size ≤ file.size)
      × ((r b : ℕ)
          → r / records.records_per_page < page_count new_size records.records_per_page
          → b < records.record_stride
          → (file.bytes (position records r b) ≡ before.bytes (position records r b))
            ⊎ (file.bytes (position records r b)
                ≡ left_rows records valid old_size new_size moves before r b))

  -- The retained pages hold the rows that are left, and the file ends with them.
  abbrev pub Deleted : File → Type 0
  Deleted file =
      (file.size ≡ page_count new_size records.records_per_page * records.page_size)
      × ((r b : ℕ)
          → r / records.records_per_page < page_count new_size records.records_per_page
          → b < records.record_stride
          → file.bytes (position records r b)
            ≡ left_rows records valid old_size new_size moves before r b)

  -- With the pages `rest` still to be written.
  pub record Writing (rest : List ℕ) (file : File) : Type 0 where
    pub torn : Torn file
    pub size : file.size ≡ old_pages * records.page_size
    pub others :
        (r b : ℕ)
        → r / records.records_per_page < new_pages
        → b < records.record_stride
        → Member (r / records.records_per_page) rest
          ⊎ (file.bytes (position records r b) ≡ left r b)

  -- Where a byte of a row is after a part of a page is stored.
  stored_row :
      (page : ℕ → ℕ) (k q : ℕ) (file file' : File) (r b : ℕ)
      → k ≤ records.page_size
      → b < records.record_stride
      → position records r b < file.size
      → Written file (q * records.page_size) k page file'
      → ((r / records.records_per_page ≡ q)
          × (file'.bytes (position records r b)
              ≡ page (r % records.records_per_page * records.record_stride + b)))
        ⊎ ((file'.bytes (position records r b) ≡ file.bytes (position records r b))
            × ((r / records.records_per_page ≢ q) ⊎ (k < records.page_size)))
  stored_row page k q file file' r b small h there w =
      let o = r % records.records_per_page * records.record_stride + b in
      let inside = in_page records valid r b h in
      elim (ℕ_discrete (r / records.records_per_page) q) [
        | no ne ↦ inr (
          w.outside (position records r b) there (
              ground
                (arith, page_apart (r / records.records_per_page) q records.page_size o ne inside)),
          inl ne,
        )
        | yes e ↦ elim (dec_lt o k) [
          | yes lt ↦
              inl (e, ap file'.bytes (ap (λ (t : ℕ). t * records.page_size + o) e) ∙ w.inside o lt)
          | no far ↦ inr (
            w.outside (position records r b) there
                (inr (omega (arith, far, ap (λ (t : ℕ). t * records.page_size) e))),
            inr (omega (arith, far, inside)),
          )
        ]
      ]

  below_size :
      (rest : List ℕ) (file : File) (r b : ℕ)
      → Writing rest file
      → r / records.records_per_page < new_pages
      → b < records.record_stride
      → position records r b < file.size
  below_size rest file r b g lt h = omega (
    arith,
    position-lt records valid r b new_pages h lt,
    mul_le new_pages old_pages records.page_size (pages_le records valid new_size old_size le),
    g.size,
  )

  Written-size :
      (page : ℕ → ℕ) (k q : ℕ) (rest : List ℕ) (file file' : File)
      → q < new_pages
      → k ≤ records.page_size
      → Writing rest file
      → Written file (q * records.page_size) k page file'
      → file'.size ≡ old_pages * records.page_size
  Written-size page k q rest file file' lt small g w =
      let pages = pages_le records valid new_size old_size le in
      let room = lane_le q old_pages records.page_size (omega (arith, pages, lt)) in
      let size = g.size in let size' = w.size in ground arith

  Torn-Written :
      (page : ℕ → ℕ) (k q : ℕ) (rest : List ℕ) (file file' : File)
      → q < new_pages
      → ((r b : ℕ)
          → r / records.records_per_page ≡ q
          → b < records.record_stride
          → page (r % records.records_per_page * records.record_stride + b) ≡ left r b)
      → k ≤ records.page_size
      → Writing rest file
      → Written file (q * records.page_size) k page file'
      → Torn file'
  Torn-Written page k q rest file file' lt image small g w = (
    omega (
      arith,
      Written-size page k q rest file file' lt small g w,
      mul_le new_pages old_pages records.page_size (pages_le records valid new_size old_size le),
    ),
    λ r b below h.
        elim (stored_row page k q file file' r b small h (below_size rest file r b g below h) w) [
          | inl (e, x) ↦ inr (x ∙ image r b e h)
          | inr (x, _) ↦ elim (g.torn.1 r b below h) [ inl y ↦ inl (x ∙ y) | inr y ↦ inr (x ∙ y) ]
        ],
  )

  Writing-Written :
      (page : ℕ → ℕ) (q : ℕ) (rest : List ℕ) (file file' : File)
      → q < new_pages
      → ((r b : ℕ)
          → r / records.records_per_page ≡ q
          → b < records.record_stride
          → page (r % records.records_per_page * records.record_stride + b) ≡ left r b)
      → Writing (q ∷ rest) file
      → Written file (q * records.page_size) records.page_size page file'
      → Writing rest file'
  Writing-Written page q rest file file' lt image g w = record {
    torn = Torn-Written page records.page_size q (q ∷ rest) file file' lt image (omega arith) g w;
    size = Written-size page records.page_size q (q ∷ rest) file file' lt (omega arith) g w;
    others = λ r b below h.
        elim (stored_row page records.page_size q file file' r b (omega arith) h
          (below_size (q ∷ rest) file r b g below h) w) [
            | inl (e, x) ↦ inr (x ∙ image r b e h)
            | inr (x, inr bad) ↦ absurd (omega arith)
            | inr (x, inl ne) ↦ elim (g.others r b below h) [
              | inl (inl e) ↦ absurd (ne (sym e))
              | inl (inr m) ↦ inl m
              | inr y ↦ inr (x ∙ y)
            ]
          ];
  }

  module _ (F : Type 0) (pages : ℕ → Option (ℕ → ℕ)) where
    page_offset-written :
        (q : ℕ) → q < new_pages → page_offset q records.page_size ≡ ok (q * records.page_size)
    page_offset-written q lt =
        elim (page_offset-Fits q records.page_size (omega (arith, valid.wide))) [
          | inl (small, e) ↦ e
          | inr (big, e) ↦ absurd (
              omega (
                arith,
                lane_le q old_pages records.page_size
                    (omega (arith, pages_le records valid new_size old_size le, lt)),
                fits,
              ))
        ]

    pub commit_pages_rule :
        (rest : List ℕ) (w : World)
        → All (λ q. Imaged records valid left pages q × (q < new_pages)) rest
        → OnFile F (Writing rest) w
        → Ends (commit_pages records pages rest w) (λ _. OnFile F (Writing [])) (Holds F Torn)
    unfolding commit_pages page_at
    commit_pages_rule [] w all here = inl (tt, refl, here)
    commit_pages_rule (q ∷ rest) w (((bytes, there, image), lt), all) here =
        rw (there, commit_pages, page_at, page_offset-written q lt)
          (bind_rule (pwrite_exact bytes records.page_size (q * records.page_size) w) _
            (λ _. OnFile F (λ file'.
              (file : File) × Writing (q ∷ rest) file
              × Written file (q * records.page_size) records.page_size bytes file'))
            (λ _. OnFile F (Writing [])) (Holds F Torn)
            (pwrite_rule F (Writing (q ∷ rest)) bytes records.page_size (q * records.page_size) w
              Torn
              (λ file file' k g small written.
                Torn-Written bytes k q (q ∷ rest) file file' lt image small g written)
              here)
            λ a w' ((file', at, (file, g, written)), quiet).
              commit_pages_rule rest w' all
                ((file', at, Writing-Written bytes q rest file file' lt image g written), quiet))

  pub Writing-resize_file :
      (file : File)
      → Writing [] file
      → Deleted
          (resize_file file (page_count new_size records.records_per_page * records.page_size))
  unfolding resize_file
  Writing-resize_file file g = (
    refl,
    λ r b below h.
        let inside = position-lt records valid r b new_pages h below in
        elim (g.others r b below h) [
          | inl m ↦ elim m [ ]
          | inr e ↦ resize_file-inside file _ _ inside g.torn.0 ∙ e
        ],
  )
