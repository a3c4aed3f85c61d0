-- ===== src/Records/Lookup/Validate.antt =====
-- `validate_list_file`.
use recast.Prelude.{
  ℕ, ◌*◌, ◌%◌, ◌^◌, ◌≤◌, ◌≡◌, refl, ◌⊎◌, inl, inr, true, false, not, List, [], ◌∷◌, Option, none,
  some, Result, ok, err, Error, out_of_range, runtime_error, system_error, throw_if, leb, ◌==◌, Any,
  arith, Bool-cases, Option-cases,
}
use recast.Checked.{page_count, off_max}
use recast.Storage.{
  File, Outcome, failed, interrupted, transferred, World, IsFault, call, head_outcome,
}
use recast.Records.{ListFileRecordStore, list_path}
use recast.Records.Lookup.{validate_list_file}

-- The file is exactly the list's pages; an empty list may have no file.
abbrev pub Agrees : ListFileRecordStore → ℕ → Option File → Type 0
Agrees records logical_size none = logical_size ≡ 0
Agrees records logical_size (some file) =
    file.size ≡ page_count logical_size records.records_per_page * records.page_size

module _ (records : ListFileRecordStore) (list_no logical_size : ℕ) (w : World) where
  abbrev pub Validated : Result (Unit {0}) × World → Type 0
  Validated r =
      (r.1.file ≡ w.file)
      × (((r.0 ≡ ok tt) × Agrees records logical_size w.file)
          ⊎ ((r.0 ≡ err out_of_range) × (records.nlist ≤ list_no))
          ⊎ ((r.0 ≡ err system_error) × Any IsFault w.outcomes)
          ⊎ ((e : Error) × (r.0 ≡ err e) × (Agrees records logical_size w.file → ⊥)))

  abbrev expected : ℕ
  expected = page_count logical_size records.records_per_page * records.page_size

  -- What is left to do after `stat`.
  abbrev answer : Option File → Result (Unit {0})
  answer none = throw_if (not (logical_size == 0)) system_error
  answer (some file) = throw_if (not (file.size == expected % 2 ^ 64)) runtime_error

  validate_nowhere :
      leb records.nlist list_no ≡ true
      → validate_list_file records list_no logical_size w ≡ (err out_of_range, w)
  unfolding validate_list_file list_path
  validate_nowhere e = rw (e, validate_list_file, list_path) refl

  validate_fault :
      leb records.nlist list_no ≡ false
      → (call w).0 ≡ err system_error
      → validate_list_file records list_no logical_size w ≡ (err system_error, (call w).1)
  unfolding validate_list_file list_path
  validate_fault e f = rw (e, f, validate_list_file, list_path) refl

  validate_answer :
      leb records.nlist list_no ≡ false
      → (call w).0 ≡ ok tt
      → validate_list_file records list_no logical_size w ≡ (answer (call w).1.file, (call w).1)
  unfolding validate_list_file list_path
  validate_answer e f = elim (Option-cases (call w).1.file) [
    | inl none_there ↦ rw (e, f, none_there, validate_list_file, list_path) refl
    | inr (file, there) ↦ rw (e, f, there, validate_list_file, list_path) refl
  ]

  -- The call leaves the file, and fails for a fault only.
  call-cases :
      ((call w).1.file ≡ w.file)
      × (((call w).0 ≡ ok tt) ⊎ (((call w).0 ≡ err system_error) × Any IsFault w.outcomes))
  unfolding call head_outcome
  call-cases = (refl, by_outcomes w.outcomes refl)
    where
      by_outcomes :
          (os : List Outcome)
          → w.outcomes ≡ os
          → ((call w).0 ≡ ok tt) ⊎ (((call w).0 ≡ err system_error) × Any IsFault w.outcomes)
      by_outcomes [] e = inl (rw (e, call, head_outcome) refl)
      by_outcomes (failed ∷ os) e = inr (rw (e, call, head_outcome) refl, rw e (inl tt))
      by_outcomes (interrupted ∷ os) e = inr (rw (e, call, head_outcome) refl, rw e (inl tt))
      by_outcomes (transferred k ∷ os) e = inl (rw (e, call, head_outcome) refl)

  answer-Agrees :
      expected ≤ off_max
      → (o : Option File)
      → ((answer o ≡ ok tt) × Agrees records logical_size o)
        ⊎ ((e : Error) × (answer o ≡ err e) × (Agrees records logical_size o → ⊥))
  answer-Agrees fits none = elim (Bool-cases (logical_size == 0)) [
    | inl e ↦ inl (rw e refl, ground arith)
    | inr e ↦ inr (system_error, rw e refl, λ a. ground arith)
  ]
  answer-Agrees fits (some file) =
      let whole : expected % 2 ^ 64 ≡ expected = omega (arith, fits) in
      elim (Bool-cases (file.size == expected)) [
        | inl e ↦ inl (rw (whole, e) refl, ground arith)
        | inr e ↦ inr (runtime_error, rw (whole, e) refl, λ a. ground arith)
      ]

  -- For pages of the list that end within off_t: the file is not touched, and the validation ends in
  -- one of four ways. It returns, and the file is exactly the list's pages, or the list is empty and
  -- has no file; or it throws, because the list is unknown, because a call has a fault, or because
  -- the file disagrees with the size.
  pub validate_list_file-Validated :
      page_count logical_size records.records_per_page * records.page_size ≤ off_max
      → Validated (validate_list_file records list_no logical_size w)
  validate_list_file-Validated fits = elim (Bool-cases (leb records.nlist list_no)) [
    | inl e ↦ rw (validate_nowhere e) (refl, inr (inl (refl, ground arith)))
    | inr e ↦
        let (same, how) = call-cases in
        elim how [
          | inr (f, any) ↦ rw (validate_fault e f) (same, inr (inr (inl (refl, any))))
          | inl f ↦
              rw (validate_answer e f, same)
                (
                  refl,
                  elim (answer-Agrees fits w.file) [ inl a ↦ inl a | inr a ↦ inr (inr (inr a)) ],
                )
        ]
  ]
