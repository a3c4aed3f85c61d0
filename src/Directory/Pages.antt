-- ===== src/Directory/Pages.antt =====
-- The loop of `write_batch` of the directory over its pages.
use recast.Prelude.{
  ℕ, ◌+◌, ◌*◌, ◌/◌, ◌≤◌, ◌<◌, ◌≡◌, refl, sym, ap, subst, ◌∙◌, ◌⊎◌, inl, inr, List, [], ◌∷◌, ok, ltb,
  Any-All, All, Any, arith, Bool-cases, max, fill, if◌then◌else◌,
}
use recast.Checked.{page_offset}
use recast.Checked.Bounds.{page_offset-Fits}
use recast.Storage.{File, World, pread_exact, pwrite_exact, pure}
use recast.Storage.Triples.{Ends, Ends_mono, bind_rule, OnFile, Holds}
use recast.Storage.Reading.{Filled}
use recast.Storage.Writing.{Written}
use recast.Storage.Transfers.{pread_rule, pwrite_rule}
use recast.Records.Layout.{lane_le}
use recast.Directory.{
  DiskLocation, ExternalLocationDirectory, entries_per_page, store_entries, write_runs,
}
use recast.Directory.Runs.{IsRun}
use recast.Directory.Reading.{IsDirectory, entry_place, page_end}
use recast.Directory.Writing.{
  Settled, IsWhole, Agreed, IsUpdate, page_of, Kept, part_Settled, new_Settled,
}

Any-mono :
    {A : Type 0} {P Q : A → Type 0} (xs : List A) → ((x : A) → P x → Q x) → Any P xs → Any Q xs
Any-mono [] f any = elim any [ ]
Any-mono (x ∷ xs) f (inl p) = inl (f x p)
Any-mono (x ∷ xs) f (inr any) = inr (Any-mono xs f any)

pub whole_page : (page pages ps : ℕ) → page * ps < pages * ps → page * ps + ps ≤ pages * ps
whole_page page pages ps lt = grind (arith, lane_le page pages ps, lane_le pages page ps)

page_after : (page ps : ℕ) → page * ps + ps ≡ (page + 1) * ps
page_after page ps = grind arith

module _ (F : Type 0) (directory : ExternalLocationDirectory) (valid : IsDirectory directory)
    (updates : List (ℕ × DiskLocation)) (before : File) where
  abbrev KeptHere : File → Type 0
  KeptHere = Kept F directory valid updates before

  abbrev pub Runs : List (ℕ × List (ℕ × DiskLocation)) → Type 0
  Runs runs =
      All
        (IsRun (page_of F directory valid updates before)
          (IsUpdate F directory valid updates before))
        runs

  -- The size of the file is the old one, or the end of the page of some run.
  abbrev pub Grown : List (ℕ × List (ℕ × DiskLocation)) → ℕ → ℕ → Type 0
  Grown runs old size =
      (old ≤ size)
      × ((size ≡ old) ⊎ Any (λ run. run.0 * directory.page_size + directory.page_size ≡ size) runs)

  -- After some pages: what was kept is kept, and the updated entries have their bytes.
  pub record Done (runs : List (ℕ × List (ℕ × DiskLocation))) (now : File) (size : ℕ) (file : File)
      : Type 0 where
    pub sized : file.size ≡ size
    pub grown : Grown runs now.size size
    pub whole : IsWhole F directory valid updates before file
    pub kept : Kept F directory valid updates before file
    pub has :
        (id : ℕ) (want : ℕ → ℕ)
        → Agreed F directory valid updates before id want
        → Settled now id want ⊎ Any (λ run. Any (λ u. u.0 ≡ id) run.1) runs
        → Settled file id want

  page_offset-run :
      (page : ℕ) (run : List (ℕ × DiskLocation))
      → IsRun
          (page_of F directory valid updates before)
          (IsUpdate F directory valid updates before)
          (page, run)
      → page_offset page directory.page_size ≡ ok (page * directory.page_size)
  page_offset-run page run (some_of, all_of) =
      let Q : ℕ × DiskLocation → Type 0 = λ u.
        IsUpdate F directory valid updates before u
        × (page_of F directory valid updates before u ≡ page) in
      let (u, ((low, _, _), on), _) = Any-All Q Q run some_of all_of in
      let (place, lane) =
        entry_place u.0 directory.page_size (entries_per_page directory) valid.whole refl
          valid.wide in
      let start : u.0 / entries_per_page directory * directory.page_size
          ≡ page * directory.page_size =
        ap (λ (n : ℕ). n * directory.page_size) on in
      elim (page_offset-Fits page directory.page_size (omega (arith, valid.wide))) [
        | inl (le, f) ↦ f
        | inr (big, f) ↦ absurd (omega arith)
      ]

  -- The page buffer before the entries go in: the page of the file, if it has one.
  abbrev Loaded : File → ℕ → (ℕ → ℕ) → Type 0
  Loaded now page bytes =
      page * directory.page_size < now.size
      → (i : ℕ) → i < directory.page_size
      → bytes i ≡ now.bytes (page * directory.page_size + i)

  load_rule :
      (page : ℕ) (bytes : ℕ → ℕ) (now : File) (w : World)
      → IsWhole F directory valid updates before now
      → KeptHere now
      → OnFile F (λ file. file ≡ now) w
      → Ends
          ((if ltb (page * directory.page_size) now.size
              then pread_exact bytes directory.page_size (page * directory.page_size)
              else pure (fill bytes 0 directory.page_size 255))
            w)
          (λ bytes' w'. OnFile F (λ file. file ≡ now) w' × Loaded now page bytes')
          (Holds F KeptHere)
  load_rule page bytes now w (pages, e) kept here =
      let start = page * directory.page_size in
      elim (Bool-cases (ltb start now.size)) [
        | inr t ↦ rw t (inl (_, refl, (here, λ lt i h. absurd (ground arith))))
        | inl t ↦
            let lt : start < pages * directory.page_size = ground arith in
            let room = whole_page page pages directory.page_size lt in
            rw t (
              Ends_mono _
                (λ bytes'.
                  OnFile F
                    (λ file. (file ≡ now) × Filled file directory.page_size start bytes bytes'))
                (λ bytes' w'. OnFile F (λ file. file ≡ now) w' × Loaded now page bytes')
                (Holds F (λ file. file ≡ now)) (Holds F KeptHere)
                (pread_rule F (λ file. file ≡ now) bytes directory.page_size start w
                  (λ file same. rw same (omega arith)) here)
                (λ bytes' w' ((file, at_file, (same, f)), quiet).
                  (((file, at_file, same), quiet), λ lt i h. rw (sym same) (f.inside i h)))
                (λ w' (same, f). (rw same kept, f)))
      ]

  -- After one more page in front.
  Done-cons :
      (page : ℕ) (run : List (ℕ × DiskLocation)) (runs : List (ℕ × List (ℕ × DiskLocation)))
      (now bytes_now : File) (bytes : ℕ → ℕ) (size : ℕ) (file : File)
      → All
          (λ u.
            IsUpdate F directory valid updates before u
            × (page_of F directory valid updates before u ≡ page))
          run
      → Loaded now page bytes
      → Written now
          (page * directory.page_size)
          directory.page_size
          (store_entries directory run bytes)
          bytes_now
      → Done runs bytes_now size file
      → Done ((page, run) ∷ runs) now size file
  Done-cons page run runs now next bytes size file all_of loaded w done = record {
    sized = done.sized;
    grown =
        let wide = valid.wide in
        let s = w.size in
        (
          ground (arith, done.grown.0),
          elim done.grown.1 [
            | inr any ↦ inr (inr any)
            | inl e ↦
                elim (Bool-cases
                  (ltb now.size (page * directory.page_size + directory.page_size))) [
                    | inl t ↦ inr (inl (ground arith))
                    | inr t ↦ inl (ground arith)
                  ]
          ],
        );
    whole = done.whole;
    kept = done.kept;
    has = λ id want agreed had. done.has id want agreed (elim had [
      | inr (inr any) ↦ inr any
      | inr (inl any) ↦ inl (
          new_Settled F directory valid updates before page run all_of now bytes loaded id want next
            agreed any w)
      | inl s ↦ inl (
          part_Settled F directory valid updates before page run all_of now bytes loaded id want
            directory.page_size next (omega arith) agreed s w)
    ]);
  }

  pub write_runs_rule :
      (runs : List (ℕ × List (ℕ × DiskLocation))) (bytes : ℕ → ℕ) (now : File) (w : World)
      → Runs runs
      → IsWhole F directory valid updates before now
      → KeptHere now
      → OnFile F (λ file. file ≡ now) w
      → Ends
          (write_runs directory runs bytes now.size w)
          (λ size. OnFile F (Done runs now size))
          (Holds F KeptHere)
  unfolding write_runs
  write_runs_rule [] bytes now w is whole kept ((file, at_file, same), quiet) = inl (
    now.size,
    refl,
    (
      (
        file,
        at_file,
        record {
          sized = ap (λ (f : File). f.size) same;
          grown = (omega arith, inl refl);
          whole = rw same whole;
          kept = rw same kept;
          has = λ id want agreed had. elim had [ inl s ↦ rw same s | inr any ↦ elim any [ ] ];
        },
      ),
      quiet,
    ),
  )
  write_runs_rule ((page, run) ∷ runs) bytes now w (is_run, is) whole kept here =
      let start = page * directory.page_size in
      let Q = λ (size : ℕ). OnFile F (Done ((page, run) ∷ runs) now size) in
      rw (page_offset-run page run is_run, write_runs)
        (bind_rule _ _ (λ bytes' w'. OnFile F (λ file. file ≡ now) w' × Loaded now page bytes') Q
          (Holds F KeptHere) (load_rule page bytes now w whole kept here)
          λ bytes' w1 (here1, loaded).
            let entries = store_entries directory run bytes' in
            bind_rule (pwrite_exact entries directory.page_size start w1) _
              (λ _. OnFile F (λ file'.
                (file : File) × (file ≡ now)
                × Written file start directory.page_size entries file'))
              Q (Holds F KeptHere)
              (pwrite_rule F (λ file. file ≡ now) entries directory.page_size start w1 KeptHere
                (λ file file' k same le w id want agreed had.
                  part_Settled F directory valid updates before page run is_run.1 now bytes' loaded
                    id want k file' le agreed (kept id want agreed had)
                    (subst (λ f. Written f start k entries file') same w))
                here1)
              λ _ w2 ((next, at_next, (file, same, written)), quiet).
                let w =
                  subst (λ f. Written f start directory.page_size entries next) same written in
                let size_e : next.size ≡ max now.size (start + directory.page_size) =
                  ground (arith, w.size, valid.wide) in
                rw (sym size_e) (
                  Ends_mono _ (λ size. OnFile F (Done runs next size)) Q (Holds F KeptHere)
                    (Holds F KeptHere)
                    (write_runs_rule runs entries next w2 is
                      (elim (Bool-cases (ltb now.size (start + directory.page_size))) [
                        | inl t ↦ (page + 1, ground (arith, page_after page directory.page_size))
                        | inr t ↦ (whole.0, ground (arith, whole.1))
                      ])
                      (λ id want agreed had.
                        part_Settled F directory valid updates before page run is_run.1 now bytes'
                          loaded id want directory.page_size next (omega arith) agreed
                          (kept id want agreed had) w)
                      ((next, at_next, refl), quiet))
                    (λ size w3 ((file, at_file, done), quiet). (
                      (
                        file,
                        at_file,
                        Done-cons page run runs now next bytes' size file is_run.1 loaded w done,
                      ),
                      quiet,
                    ))
                    (λ w3 h. h)))

  -- The size is the old one, or the end of the page of some update.
  pub Grown-updates :
      (runs : List (ℕ × List (ℕ × DiskLocation))) (old size : ℕ)
      → Runs runs
      → Grown runs old size
      → (size ≡ old) ⊎ Any (λ u. page_end directory u.0 ≡ size) updates
  Grown-updates runs old size all (le, inl e) = inl e
  Grown-updates runs old size all (le, inr any) =
      let P : ℕ × DiskLocation → Type 0 = IsUpdate F directory valid updates before in
      let page : ℕ × DiskLocation → ℕ = page_of F directory valid updates before in
      let (run, end, (some_of, all_of)) =
        Any-All (λ run. run.0 * directory.page_size + directory.page_size ≡ size) (IsRun page P)
          runs any all in
      let Q : ℕ × DiskLocation → Type 0 = λ u. P u × (page u ≡ run.0) in
      let (u, ((low, _, known), on), _) = Any-All Q Q run.1 some_of all_of in
      inr (
        Any-mono updates
          (λ v same.
            ap
              (λ (n : ℕ).
                n / entries_per_page directory * directory.page_size + directory.page_size)
              same
            ∙ (ap (λ (n : ℕ). n * directory.page_size + directory.page_size) on ∙ end))
          known)
