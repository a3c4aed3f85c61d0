-- ===== src/Refine/Refiner/Files.antt =====
-- The files of a batch: they are open while its plans are read, and closed whatever happens.
use recast.Prelude.{
  ℕ, suc, ◌<◌, ◌≡◌, refl, ap, subst, ◌∙◌, ◌⊎◌, inl, inr, Bool, true, false, List, [], ◌∷◌, All,
  All-mono, Any, Option, none, some, Result, ok, err, Error, system_error, ◌>>◌, arith, ◌==◌, eq→==,
}
use recast.Refine.Kernel.{
  Kernel, IsFault, call, fresh_fd, close_fd, remove_fd, first_response, fails,
}
use recast.Refine.Scan.{OpenFile, close_one, close_all, close_files}
use recast.Refine.Scan.Calls.{later-Any, fails-Any}

abbrev pub with_entry : Option ℕ → ℕ → List (ℕ × ℕ) → List (ℕ × ℕ)
with_entry none list_no descriptors = descriptors
with_entry (some fd) list_no descriptors = (fd, list_no) ∷ descriptors

abbrev without : Option ℕ → List (ℕ × ℕ) → List (ℕ × ℕ)
without none descriptors = descriptors
without (some fd) descriptors = remove_fd fd descriptors

-- The descriptors with those of some files, the last of them first.
abbrev pub entries : List OpenFile → List (ℕ × ℕ) → List (ℕ × ℕ)
entries [] descriptors = descriptors
entries (file ∷ files) descriptors = entries files (with_entry file.fd file.list_no descriptors)

-- The files have descriptors one after the other, from `first` on.
abbrev pub Numbered : ℕ → List OpenFile → Type 0
Numbered first [] = Unit {0}
Numbered first (file ∷ files) = (file.fd ≡ some first) × Numbered (suc first) files

-- All descriptors are below one.
abbrev pub Below : ℕ → List (ℕ × ℕ) → Type 0
Below next descriptors = All (λ (d : ℕ × ℕ). d.0 < next) descriptors

remove-absent :
    (fd : ℕ) (descriptors : List (ℕ × ℕ))
    → Below fd descriptors
    → remove_fd fd descriptors ≡ descriptors
unfolding remove_fd
remove-absent fd [] below = refl
remove-absent fd ((fd', l) ∷ descriptors) (lt, below) =
    let e : (fd == fd') ≡ false = ground arith in
    rw e (ap (λ (ds : List (ℕ × ℕ)). (fd', l) ∷ ds) (remove-absent fd descriptors below))

remove-entries :
    (fd first : ℕ) (files : List OpenFile) (descriptors : List (ℕ × ℕ))
    → Numbered first files
    → fd < first
    → remove_fd fd (entries files descriptors) ≡ entries files (remove_fd fd descriptors)
unfolding remove_fd
remove-entries fd first [] descriptors numbered lt = refl
remove-entries fd first (file ∷ files) descriptors (n, numbered) lt =
    let e : (fd == first) ≡ false = ground arith in
    rw n (
      remove-entries fd (suc first) files ((first, file.list_no) ∷ descriptors) numbered
        (omega arith)
      ∙ rw e refl)

-- What closing does to the descriptors.
abbrev pub closed_descriptors : List OpenFile → List (ℕ × ℕ) → List (ℕ × ℕ)
closed_descriptors [] descriptors = descriptors
closed_descriptors (file ∷ files) descriptors =
    closed_descriptors files (without file.fd descriptors)

pub closed_descriptors-entries :
    (first : ℕ) (files : List OpenFile) (descriptors : List (ℕ × ℕ))
    → Numbered first files
    → Below first descriptors
    → closed_descriptors files (entries files descriptors) ≡ descriptors
unfolding remove_fd
closed_descriptors-entries first [] descriptors numbered below = refl
closed_descriptors-entries first (file ∷ files) descriptors (n, numbered) below =
    let own : (first == first) ≡ true = eq→== first first refl in
    let gone : remove_fd first ((first, file.list_no) ∷ descriptors) ≡ descriptors =
      rw own (remove-absent first descriptors below) in
    let removed =
      remove-entries first (suc first) files ((first, file.list_no) ∷ descriptors) numbered
        (omega arith) in
    rw n (
      ap (closed_descriptors files) (removed ∙ ap (entries files) gone)
      ∙ closed_descriptors-entries (suc first) files descriptors numbered
          (All-mono descriptors (λ d lt. omega (arith, lt)) below))

-- A kernel with other descriptors, and fewer calls to come.
pub record Kept (descriptors : List (ℕ × ℕ)) (k k' : Kernel) : Type 0 where
  pub same_lists : k'.lists ≡ k.lists
  pub descriptors_are : k'.descriptors ≡ descriptors
  pub same_inflight : k'.inflight ≡ k.inflight
  pub fault : Any IsFault k'.responses → Any IsFault k.responses

Kept-then : (d d' : List (ℕ × ℕ)) (k k' k2 : Kernel) → Kept d k k' → Kept d' k' k2 → Kept d' k k2
Kept-then d d' k k' k2 a b = record {
  same_lists = b.same_lists ∙ a.same_lists;
  descriptors_are = b.descriptors_are;
  same_inflight = b.same_inflight ∙ a.same_inflight;
  fault = λ any. a.fault (b.fault any);
}

-- The close of one file.
thrown_by :
    (test : Bool) (e : Error)
    → ◌≡◌ {A = Result (Unit {0})} (elim test [ true ↦ err system_error | false ↦ ok tt ]) (err e)
    → test ≡ true
thrown_by true e f = refl
thrown_by false e f = cc

thrown_first :
    (r rest : Result (Unit {0})) (e : Error) → r >> rest ≡ err e → (r ≡ err e) ⊎ (rest ≡ err e)
thrown_first (ok done) rest e f = inr f
thrown_first (err x) rest e f = inl f

-- Either there is nothing to close, or the descriptor goes.
close_fd-Kept :
    (fd : Option ℕ) (k : Kernel)
    → Kept (without fd k.descriptors) k (close_one fd k).1
      × ((e : Error) → (close_one fd k).0 ≡ err e → Any IsFault k.responses)
unfolding close_fd call close_one
close_fd-Kept none k = (
  record { same_lists = refl; descriptors_are = refl; same_inflight = refl; fault = λ any. any },
  λ e f. cc,
)
close_fd-Kept (some fd) k = (
  record {
    same_lists = refl;
    descriptors_are = refl;
    same_inflight = refl;
    fault = λ any. later-Any k.responses any;
  },
  λ e f. fails-Any k.responses (thrown_by (fails (first_response k.responses)) e f),
)

pub close_all-Kept :
    (files : List OpenFile) (k : Kernel)
    → Kept (closed_descriptors files k.descriptors) k (close_all files k)
unfolding close_all
close_all-Kept [] k = record {
  same_lists = refl;
  descriptors_are = refl;
  same_inflight = refl;
  fault = λ any. any;
}
close_all-Kept (file ∷ files) k =
    let head = (close_fd-Kept file.fd k).0 in
    let k' = (close_one file.fd k).1 in
    Kept-then _ _ k k' _ head (
      subst (λ (d : List (ℕ × ℕ)). Kept (closed_descriptors files d) k' (close_all files k'))
        head.descriptors_are (close_all-Kept files k'))

pub close_files-Kept :
    (files : List OpenFile) (k : Kernel)
    → Kept (closed_descriptors files k.descriptors) k (close_files files k).1
      × ((e : Error) → (close_files files k).0 ≡ err e → Any IsFault k.responses)
unfolding close_files close_all
close_files-Kept [] k = (close_all-Kept [] k, λ e f. cc)
close_files-Kept (file ∷ files) k =
    let (head, thrown) = close_fd-Kept file.fd k in
    let k' = (close_one file.fd k).1 in
    let (tail, thrown') = close_files-Kept files k' in
    (
      Kept-then _ _ k k' _ head (
          subst
            (λ (d : List (ℕ × ℕ)). Kept (closed_descriptors files d) k' (close_files files k').1)
            head.descriptors_are tail),
      λ e f. elim (thrown_first (close_one file.fd k).0 (close_files files k').0 e f) [
        | inl g ↦ thrown e g
        | inr g ↦ head.fault (thrown' e g)
      ],
    )

-- A new descriptor is above all that are open.
pub fresh_fd-Below : (descriptors : List (ℕ × ℕ)) → Below (fresh_fd descriptors) descriptors
unfolding fresh_fd
fresh_fd-Below [] = tt
fresh_fd-Below ((fd, l) ∷ descriptors) =
    (omega arith, All-mono descriptors (λ d lt. omega (arith, lt)) (fresh_fd-Below descriptors))
