-- ===== src/Refine/Refiner/Opening.antt =====
-- `open_files`: the files of a batch are open, or none is.
use recast.Prelude.{
  ℕ, suc, ◌+◌, ◌<◌, ◌≡◌, refl, sym, ap, ◌∙◌, inl, inr, true, false, List, [], ◌∷◌, ◌++◌, map,
  append_assoc, append-nil, length, length-append, All, Any, Any-All, some, err, arith, ltb, leb,
  ◌==◌, eq→==, Bool-cases,
}
use recast.Storage.{File}
use recast.Records.{ListFileRecordStore, list_path}
use recast.Deletion.Sorting.{Increasing}
use recast.Refine.Kernel.{
  Kernel, IsFault, call, fresh_fd, open_list, list_of, first_response, later_responses, fails,
}
use recast.Refine.Scan.{OpenFile, descriptor_for, close_all, open_path, open_each}
use recast.Refine.Scan.Calls.{Ends, Ends-mono, catch_rule, later-Any, fails-Any}
use recast.Refine.Scan.Blocking.{HasFile}
use recast.Refine.Refiner.Files.{
  entries, with_entry, Numbered, Below, closed_descriptors, closed_descriptors-entries,
  close_all-Kept,
}

abbrev pub lists_of : List OpenFile → List ℕ
lists_of files = map (λ (f : OpenFile). f.list_no) files

module _ (store : ListFileRecordStore) (F : Type 0) (lists : ℕ → File) (descriptors : List (ℕ × ℕ))
    (first : ℕ) where
  -- The files that are open besides those of before.
  pub record Opened (files : List OpenFile) (k : Kernel) : Type 0 where
    pub same_lists : k.lists ≡ lists
    pub descriptors_are : k.descriptors ≡ entries files descriptors
    pub next : fresh_fd k.descriptors ≡ first + length files
    pub none_inflight : k.inflight ≡ []
    pub fault : Any IsFault k.responses → F
    pub numbered : Numbered first files

  -- Nothing is open but what was before, and there is a reason.
  pub record Failed (k : Kernel) : Type 0 where
    pub same_lists : k.lists ≡ lists
    pub descriptors_are : k.descriptors ≡ descriptors
    pub reason : F

  Numbered-snoc :
      (n : ℕ) (files : List OpenFile) (l fd : ℕ)
      → Numbered n files
      → fd ≡ n + length files
      → Numbered n (files ++ (record { list_no = l; fd = some fd } ∷ []))
  Numbered-snoc n [] l fd numbered e =
      let same : fd ≡ n = omega arith in (ap (λ (t : ℕ). some t) same, tt)
  Numbered-snoc n (file ∷ files) l fd (m, numbered) e =
      (m, Numbered-snoc (suc n) files l fd numbered (omega arith))

  lists_of-snoc :
      (files : List OpenFile) (l fd : ℕ)
      → lists_of (files ++ (record { list_no = l; fd = some fd } ∷ [])) ≡ lists_of files ++ (l ∷ [])
  lists_of-snoc [] l fd = refl
  lists_of-snoc (file ∷ files) l fd =
      ap (λ (xs : List ℕ). file.list_no ∷ xs) (lists_of-snoc files l fd)

  entries-snoc :
      (files : List OpenFile) (ds : List (ℕ × ℕ)) (l fd : ℕ)
      → entries (files ++ (record { list_no = l; fd = some fd } ∷ [])) ds
        ≡ (fd, l) ∷ entries files ds
  entries-snoc [] ds l fd = refl
  entries-snoc (file ∷ files) ds l fd = entries-snoc files _ l fd

  abbrev after_open : ℕ → Kernel → Kernel
  after_open l k = record k {
    descriptors = (fresh_fd k.descriptors, l) ∷ k.descriptors;
    responses = later_responses k.responses;
  }

  abbrev after_failure : Kernel → Kernel
  after_failure k = record k { responses = later_responses k.responses }

  open_path_rule :
      (l : ℕ) (k : Kernel)
      → l < store.nlist
      → Ends
          (open_path store l k)
          (λ fd k'. (fd ≡ fresh_fd k.descriptors) × (k' ≡ after_open l k))
          (λ k'. (k' ≡ after_failure k) × Any IsFault k.responses)
  unfolding open_path open_list call list_path
  open_path_rule l k lt =
      let t : leb store.nlist l ≡ false = ground arith in
      rw t (elim (Bool-cases (fails (first_response k.responses))) [
        | inl u ↦ rw u (refl, fails-Any k.responses u)
        | inr u ↦ rw u (refl, refl)
      ])

  -- One file more is open.
  Opened-next :
      (l : ℕ) (files : List OpenFile) (k : Kernel)
      → Opened files k
      → Opened
          (files ++ (record { list_no = l; fd = some (fresh_fd k.descriptors) } ∷ []))
          (after_open l k)
  unfolding fresh_fd
  Opened-next l files k opened = record {
    same_lists = opened.same_lists;
    descriptors_are =
        ap (λ (ds : List (ℕ × ℕ)). (fresh_fd k.descriptors, l) ∷ ds) opened.descriptors_are
        ∙ sym (entries-snoc files descriptors l (fresh_fd k.descriptors));
    next = omega (
      arith,
      opened.next,
      length-append files (record { list_no = l; fd = some (fresh_fd k.descriptors) } ∷ []),
    );
    none_inflight = opened.none_inflight;
    fault = λ any. opened.fault (later-Any k.responses any);
    numbered = Numbered-snoc first files l (fresh_fd k.descriptors) opened.numbered opened.next;
  }

  pub open_each-Opened :
      (todo : List ℕ) (files : List OpenFile) (k : Kernel)
      → All (λ l. l < store.nlist) todo
      → Below first descriptors
      → Opened files k
      → Ends
          (open_each store todo files k)
          (λ files' k'. Opened files' k' × (lists_of files' ≡ lists_of files ++ todo))
          Failed
  unfolding open_each
  open_each-Opened [] files k known below opened = (opened, sym (append-nil (lists_of files)))
  open_each-Opened (l ∷ todo) files k (lt, known) below opened =
      let Goal : List OpenFile → Kernel → Type 0 =
        λ files' k'. Opened files' k' × (lists_of files' ≡ lists_of files ++ (l ∷ todo)) in
      let more = files ++ (record { list_no = l; fd = some (fresh_fd k.descriptors) } ∷ []) in
      catch_rule (open_path store l k)
        (λ fd. open_each store todo (files ++ (record { list_no = l; fd = some fd } ∷ [])))
        (λ x k'. (err x, close_all files k'))
        (λ fd k'. (fd ≡ fresh_fd k.descriptors) × (k' ≡ after_open l k))
        (λ k'. (k' ≡ after_failure k) × Any IsFault k.responses) Goal Failed (open_path_rule l k lt)
        (λ fd k' (same, e).
          rw (same, e)
            (Ends-mono (open_each store todo more (after_open l k))
              (λ files' k'. Opened files' k' × (lists_of files' ≡ lists_of more ++ todo)) Goal
              Failed Failed
              (open_each-Opened todo more (after_open l k) known below
                (Opened-next l files k opened))
              (λ files' k2 (o, ls). (
                o,
                ls
                    ∙ (ap (λ (xs : List ℕ). xs ++ todo)
                          (lists_of-snoc files l (fresh_fd k.descriptors))
                        ∙ append_assoc (lists_of files) (l ∷ []) todo),
              ))
              (λ k2 f. f)))
        (λ x k' (e, any). rw e (
          let kept = close_all-Kept files (after_failure k) in
          record {
            same_lists = kept.same_lists ∙ opened.same_lists;
            descriptors_are =
                kept.descriptors_are
                ∙ (ap (closed_descriptors files) opened.descriptors_are
                    ∙ closed_descriptors-entries first files descriptors opened.numbered below);
            reason = opened.fault any;
          }))

-- An open file for a list, among the descriptors.
open_entry :
    (first fd : ℕ) (files : List OpenFile) (ds : List (ℕ × ℕ))
    → Numbered first files
    → fd < first
    → list_of fd (entries files ds) ≡ list_of fd ds
unfolding list_of
open_entry first fd [] ds numbered lt = refl
open_entry first fd (file ∷ files) ds (n, numbered) lt =
    let e : (fd == first) ≡ false = ground arith in
    rw n (
      open_entry (suc first) fd files ((first, file.list_no) ∷ ds) numbered (omega arith)
      ∙ rw e refl)

-- The lists increase, as `std::lower_bound` needs, and every one of them has its file.
pub files-HasFile :
    (first l : ℕ) (files : List OpenFile) (ds : List (ℕ × ℕ))
    → Numbered first files
    → Increasing (lists_of files)
    → Any (λ x. x ≡ l) (lists_of files)
    → HasFile (entries files ds) files l
unfolding descriptor_for list_of
files-HasFile first l [] ds numbered increasing any = elim any [ ]
files-HasFile first l (file ∷ files) ds (n, numbered) (above, increasing) (inl here) =
    let t : ltb file.list_no l ≡ false = ground (arith, here) in
    let u : (file.list_no == l) ≡ true = ground (arith, here) in
    let v : (first == first) ≡ true = eq→== first first refl in
    let found : list_of first ((first, file.list_no) ∷ ds) ≡ some l =
      rw v (ap (λ (x : ℕ). some x) here) in
    rw (t, u)
      (
        file.fd,
        refl,
        rw n (
            open_entry (suc first) first files ((first, file.list_no) ∷ ds) numbered (omega arith)
            ∙ found),
      )
files-HasFile first l (file ∷ files) ds (n, numbered) (above, increasing) (inr any) =
    let (x, e, lt) = Any-All (λ x. x ≡ l) (λ y. file.list_no < y) (lists_of files) any above in
    let t : ltb file.list_no l ≡ true = ground (arith, e) in
    rw t (
      files-HasFile (suc first) l files (with_entry file.fd file.list_no ds) numbered increasing
        any)
