-- ===== src/Storage/Transfers.antt =====
-- The rules for the two exact transfers, in the form of those for the single calls.
use recast.Prelude.{
  ℕ, ◌+◌, ◌≤◌, ◌≡◌, inl, inr, List, Any, some, Result, err, Error, system_error, runtime_error,
  length, arith,
}
use recast.Storage.{File, World, Outcome, IsFault, pread_exact, pwrite_exact}
use recast.Storage.Outcomes.{failed-IsFault, stuck-IsFault}
use recast.Storage.Triples.{Ends, OnFile, Holds}
use recast.Storage.Reading.{Filled, Read, pread_exact-Read, pread_loop-rest}
use recast.Storage.Writing.{Written, Wrote, Thrown, pwrite_exact-Wrote, pwrite_loop-rest}

pread_exact-rest :
    (buffer : ℕ → ℕ) (bytes offset : ℕ) (w : World) (file : File)
    → w.file ≡ some file
    → Any IsFault (pread_exact buffer bytes offset w).1.outcomes
    → Any IsFault w.outcomes
unfolding pread_exact
pread_exact-rest buffer bytes offset w file e h =
    pread_loop-rest file bytes offset buffer (length w.outcomes + 2) w.outcomes 0 buffer
      (rw (e, pread_exact) at h)

pwrite_exact-rest :
    (buffer : ℕ → ℕ) (bytes offset : ℕ) (w : World) (file : File)
    → w.file ≡ some file
    → Any IsFault (pwrite_exact buffer bytes offset w).1.outcomes
    → Any IsFault w.outcomes
unfolding pwrite_exact
pwrite_exact-rest buffer bytes offset w file e h =
    pwrite_loop-rest file bytes offset buffer (length w.outcomes + 2) w.outcomes 0 file
      (rw (e, pwrite_exact) at h)

Thrown-err :
    (outcomes : List Outcome) (r : Result (Unit {0}))
    → Thrown outcomes r
    → (e : Error) × (r ≡ err e) × Any IsFault outcomes
Thrown-err outcomes r (inl (e, a)) = (system_error, e, failed-IsFault outcomes a)
Thrown-err outcomes r (inr (e, a)) = (runtime_error, e, stuck-IsFault outcomes a)

module _ (F : Type 0) (P : File → Type 0) (buffer : ℕ → ℕ) (bytes offset : ℕ) (w : World) where
  -- The bytes have to be there.
  pub pread_rule :
      ((file : File) → P file → offset + bytes ≤ file.size)
      → OnFile F P w
      → Ends
          (pread_exact buffer bytes offset w)
          (λ buffer'. OnFile F (λ file. P file × Filled file bytes offset buffer buffer'))
          (Holds F P)
  pread_rule reach ((file, e, p), quiet) =
      let (same, read) = pread_exact-Read buffer bytes offset w file e in
      how (pread_exact buffer bytes offset w) same
        (λ a. quiet (pread_exact-rest buffer bytes offset w file e a)) read
    where
      how :
          (r : Result (ℕ → ℕ) × World)
          → r.1.file ≡ some file
          → (Any IsFault r.1.outcomes → F)
          → Read file bytes offset buffer w.outcomes r.0
          → Ends r
              (λ buffer'. OnFile F (λ file. P file × Filled file bytes offset buffer buffer'))
              (Holds F P)
      how r same still (inl (buffer', ok', f)) = inl (buffer', ok', ((file, same, (p, f)), still))
      how r same still (inr (inl (e', a))) =
          inr (system_error, e', (rw same p, quiet (failed-IsFault w.outcomes a)))
      how r same still (inr (inr (e', short))) = absurd (let there = reach file p in omega arith)

  -- `E` holds of the file with a part of the buffer stored.
  pub pwrite_rule :
      (E : File → Type 0)
      → ((file file' : File) (k : ℕ)
          → P file
          → k ≤ bytes
          → Written file offset k buffer file'
          → E file')
      → OnFile F P w
      → Ends
          (pwrite_exact buffer bytes offset w)
          (λ _. OnFile F (λ file'. (file : File) × P file × Written file offset bytes buffer file'))
          (Holds F E)
  pwrite_rule E part ((file, e, p), quiet) =
      let (file', there, wrote) = pwrite_exact-Wrote buffer bytes offset w file e in
      how (pwrite_exact buffer bytes offset w) file' there
        (λ a. quiet (pwrite_exact-rest buffer bytes offset w file e a)) wrote
    where
      how :
          (r : Result (Unit {0}) × World) (file' : File)
          → r.1.file ≡ some file'
          → (Any IsFault r.1.outcomes → F)
          → Wrote file offset bytes buffer w.outcomes r.0 file'
          → Ends r
              (λ _.
                OnFile F (λ file'. (file : File) × P file × Written file offset bytes buffer file'))
              (Holds F E)
      how r file' there still (inl (ok', written)) =
          inl (tt, ok', ((file', there, (file, p, written)), still))
      how r file' there still (inr (t, (k, lt, written))) =
          let (x, e', a) = Thrown-err w.outcomes r.0 t in
          inr (x, e', (rw there (part file file' k p (omega arith) written), quiet a))
