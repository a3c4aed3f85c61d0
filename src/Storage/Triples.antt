-- ===== src/Storage/Triples.antt =====
-- How an operation on the file can end, and the rules for the single calls.
use recast.Prelude.{
  ℕ, ◌≡◌, refl, sym, ◌∙◌, ◌⊎◌, inl, inr, Bool, true, false, List, [], ◌∷◌, Any, Option, none, some,
  Result, ok, err, Error, system_error, throw_if,
}
use recast.Storage.Outcomes.{IsFault-rest}
use recast.Storage.{
  File, Outcome, failed, interrupted, transferred, World, IsFault, M, lift, continue, head_outcome,
  call, find_file, open_file, fstat, resize_file, ftruncate, sync_file,
}

-- It returns a value such that `Q` holds, or it throws in a state in which `E` holds.
abbrev pub Ends : {A : Type 0} → Result A × World → (A → World → Type 0) → (World → Type 0) → Type 0
Ends {A} r Q E = ((a : A) × (r.0 ≡ ok a) × Q a r.1) ⊎ ((e : Error) × (r.0 ≡ err e) × E r.1)

ok_injective : {A : Type 0} {a b : A} → ok a ≡ ok b → a ≡ b
ok_injective e = cc

pub bind_rule :
    {A B : Type 0} (r : Result A × World) (f : A → M B) (Q : A → World → Type 0)
    (R : B → World → Type 0) (E : World → Type 0)
    → Ends r Q E
    → ((a : A) (w : World) → Q a w → Ends (f a w) R E)
    → Ends (continue f r) R E
bind_rule (ok a, w) f Q R E (inl (b, e, q)) next = next a w (rw (ok_injective e) q)
bind_rule (ok a, w) f Q R E (inr (x, e, q)) next = cc
bind_rule (err x, w) f Q R E (inl (b, e, q)) next = cc
bind_rule (err x, w) f Q R E (inr (y, e, q)) next = inr (x, refl, q)

pub Ends_mono :
    {A : Type 0} (r : Result A × World) (Q R : A → World → Type 0) (D E : World → Type 0)
    → Ends r Q D
    → ((a : A) (w : World) → Q a w → R a w)
    → ((w : World) → D w → E w)
    → Ends r R E
Ends_mono r Q R D E (inl (a, e, q)) f g = inl (a, e, f a r.1 q)
Ends_mono r Q R D E (inr (x, e, d)) f g = inr (x, e, g r.1 d)

-- The file, or the one that `open` would create.
abbrev pub contents : Option File → File
contents (some file) = file
contents none = record { size = 0; bytes = λ _. 0 }

-- `F` is the reason that an operation may have to throw: a fault in the calls is one.
module _ (F : Type 0) where
  -- `P` of the file that is there.
  abbrev pub OnFile : (File → Type 0) → World → Type 0
  OnFile P w = ((file : File) × (w.file ≡ some file) × P file) × (Any IsFault w.outcomes → F)

  -- After an exception: `P` of the file, and the reason.
  abbrev pub Holds : (File → Type 0) → World → Type 0
  Holds P w = P (contents w.file) × F

  pub OnFile-Holds : (P : File → Type 0) (w : World) → OnFile P w → F → Holds P w
  OnFile-Holds P w ((file, e, p), quiet) reason = (rw e p, reason)

  -- A call that changes nothing.
  call_rule :
      (P : File → Type 0) (w : World)
      → P (contents w.file)
      → (Any IsFault w.outcomes → F)
      → Ends (call w) (λ _ w'. (w'.file ≡ w.file) × (Any IsFault w'.outcomes → F)) (Holds P)
  unfolding call head_outcome
  call_rule P w p quiet = call_cases w.outcomes refl
    where
      call_cases :
          (os : List Outcome)
          → w.outcomes ≡ os
          → Ends (call w) (λ _ w'. (w'.file ≡ w.file) × (Any IsFault w'.outcomes → F)) (Holds P)
      call_cases [] e =
          inl (tt, rw (e, call, head_outcome), (refl, λ a. quiet (IsFault-rest w.outcomes a)))
      call_cases (failed ∷ os) e =
          inr (system_error, rw (e, call, head_outcome), (p, quiet (rw e (inl tt))))
      call_cases (interrupted ∷ os) e =
          inr (system_error, rw (e, call, head_outcome), (p, quiet (rw e (inl tt))))
      call_cases (transferred k ∷ os) e =
          inl (tt, rw (e, call, head_outcome), (refl, λ a. quiet (IsFault-rest w.outcomes a)))

  module _ (P : File → Type 0) (w : World) where
    pub call_keeps : OnFile P w → Ends (call w) (λ _. OnFile P) (Holds P)
    call_keeps ((file, e, p), quiet) = on_file (call_rule P w (rw e p) quiet)
      where
        on_file :
            Ends (call w) (λ _ w'. (w'.file ≡ w.file) × (Any IsFault w'.outcomes → F)) (Holds P)
            → Ends (call w) (λ _. OnFile P) (Holds P)
        on_file (inl (a, r, (q, still))) = inl (a, r, ((file, q ∙ e, p), still))
        on_file (inr x) = inr x

    pub sync_rule :
        (enabled : Bool) → OnFile P w → Ends (sync_file enabled w) (λ _. OnFile P) (Holds P)
    unfolding sync_file
    sync_rule true here = call_keeps here
    sync_rule false here = inl (tt, refl, here)

    pub fstat_rule :
        OnFile P w → Ends (fstat w) (λ n. OnFile (λ file. P file × (n ≡ file.size))) (Holds P)
    unfolding fstat
    fstat_rule here =
        bind_rule (call w) _ (λ _. OnFile P) (λ n. OnFile (λ file. P file × (n ≡ file.size)))
          (Holds P) (call_keeps here)
          λ a w' ((file, e, p), quiet).
            inl (file.size, rw e refl, ((file, rw e e, (p, refl)), rw e quiet))

    pub ftruncate_rule :
        (size : ℕ)
        → OnFile P w
        → Ends
            (ftruncate size w)
            (λ _. OnFile (λ file'. (file : File) × P file × (file' ≡ resize_file file size)))
            (Holds P)
    unfolding ftruncate
    ftruncate_rule size here =
        bind_rule (call w) _ (λ _. OnFile P)
          (λ _. OnFile (λ file'. (file : File) × P file × (file' ≡ resize_file file size)))
          (Holds P) (call_keeps here)
          λ a w' ((file, e, p), quiet).
            inl (tt, rw e refl, ((resize_file file size, rw e refl, (file, p, refl)), rw e quiet))

    pub open_rule :
        P (contents w.file)
        → (Any IsFault w.outcomes → F)
        → Ends (open_file true w) (λ _. OnFile P) (Holds P)
    unfolding open_file find_file
    open_rule here quiet =
        bind_rule (call w) _ (λ _ w'. (w'.file ≡ w.file) × (Any IsFault w'.outcomes → F))
          (λ _. OnFile P) (Holds P) (call_rule P w here quiet)
          λ a w' (e, still). found w' w'.file refl (rw e here) still
      where
        found :
            (w' : World) (o : Option File)
            → w'.file ≡ o
            → P (contents w'.file)
            → (Any IsFault w'.outcomes → F)
            → Ends (find_file true w') (λ _. OnFile P) (Holds P)
        found w' none e h still =
            inl
              (tt, rw (e, find_file), ((_, rw (e, find_file), rw e at h), rw (e, find_file) still))
        found w' (some file) e h still = inl (
          tt,
          rw (e, find_file),
          ((file, rw (e, find_file) e, rw e at h), rw (e, find_file) still),
        )

  -- Opening without O_CREAT.
  module _ (P : File → Type 0) (w : World) where
    pub open_existing_rule :
        P (contents w.file)
        → (w.file ≡ none → F)
        → (Any IsFault w.outcomes → F)
        → Ends (open_file false w) (λ _. OnFile P) (Holds P)
    unfolding open_file find_file
    open_existing_rule here missing quiet =
        bind_rule (call w) _ (λ _ w'. (w'.file ≡ w.file) × (Any IsFault w'.outcomes → F))
          (λ _. OnFile P) (Holds P) (call_rule P w here quiet)
          λ a w' (e, still). found w' w'.file refl (rw e here) (λ n. missing (sym e ∙ n)) still
      where
        found :
            (w' : World) (o : Option File)
            → w'.file ≡ o
            → P (contents w'.file)
            → (w'.file ≡ none → F)
            → (Any IsFault w'.outcomes → F)
            → Ends (find_file false w') (λ _. OnFile P) (Holds P)
        found w' none e h none_there still =
            inr (system_error, rw (e, find_file), (rw (e, find_file) h, none_there e))
        found w' (some file) e h none_there still = inl (
          tt,
          rw (e, find_file),
          ((file, rw (e, find_file) e, rw e at h), rw (e, find_file) still),
        )

  -- A test that throws, and what follows it.
  pub check_rule :
      {B : Type 0} (P E : File → Type 0) (test : Bool) (e : Error) (w : World) (k : M B)
      (R : B → World → Type 0)
      → OnFile P w
      → ((file : File) → P file → E file)
      → (test ≡ true → F)
      → (test ≡ false → Ends (k w) R (Holds E))
      → Ends (continue (λ _. k) (lift (throw_if test e) w)) R (Holds E)
  check_rule P E true e w k R ((file, there, p), quiet) f reason next =
      inr (e, refl, (rw there (f file p), reason refl))
  check_rule P E false e w k R here f reason next = next refl
