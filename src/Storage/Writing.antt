-- ===== src/Storage/Writing.antt =====
-- `pwrite_exact` stores its buffer, or throws with a part of it stored.
use recast.Prelude.{
  ℕ, zero, suc, ◌+◌, ◌-◌, ◌≤◌, ◌<◌, ◌≡◌, refl, ◌⊎◌, inl, inr, true, false, List, [], ◌∷◌, some,
  Result, ok, err, system_error, runtime_error, ltb, ◌==◌, if◌then◌else◌, length, Any, min, max,
  arith, Bool-cases,
}
use recast.Storage.Outcomes.{IsFault-rest, Outcome-cases}
use recast.Storage.{
  File, Outcome, failed, interrupted, transferred, World, IsFault, head_outcome, rest_outcomes,
  write_bytes, pwrite_loop, pwrite_exact,
}

-- `count` bytes of the source stand at `at`, and the rest of the file is unchanged.
pub record Written (file : File) (at count : ℕ) (source : ℕ → ℕ) (file' : File) : Type 0 where
  pub size : file'.size ≡ (if count == 0 then file.size else max file.size (at + count))
  pub inside : (i : ℕ) → i < count → file'.bytes (at + i) ≡ source i
  pub outside : (j : ℕ) → j < file.size → (j < at) ⊎ (at + count ≤ j) → file'.bytes j ≡ file.bytes j
  pub gap : (j : ℕ) → file.size ≤ j → j < at → 0 < count → file'.bytes j ≡ 0

abbrev pub Thrown : List Outcome → Result (Unit {0}) → Type 0
Thrown outcomes r =
    ((r ≡ err system_error) × Any (λ o. o ≡ failed) outcomes)
    ⊎ ((r ≡ err runtime_error) × Any (λ o. o ≡ transferred 0) outcomes)

abbrev pub Wrote : File → ℕ → ℕ → (ℕ → ℕ) → List Outcome → Result (Unit {0}) → File → Type 0
Wrote file at count source outcomes r file' =
    ((r ≡ ok tt) × Written file at count source file')
    ⊎ (Thrown outcomes r × ((k : ℕ) × (k < count) × Written file at k source file'))

module _ (file : File) (bytes offset : ℕ) (buffer : ℕ → ℕ) where
  Written-zero : Written file offset 0 buffer file
  Written-zero = record {
    size = refl;
    inside = λ i h. absurd (omega arith);
    outside = λ j h o. refl;
    gap = λ j h k z. absurd (omega arith);
  }

  Written-step :
      (completed result : ℕ) (now : File)
      → 0 < result
      → Written file offset completed buffer now
      → Written file offset
          (completed + result)
          buffer
          (write_bytes now (offset + completed) result (λ i. buffer (completed + i)))
  unfolding write_bytes
  Written-step completed result now pos p = record {
    size = ground (arith, p.size);
    inside = λ i h. ground (arith, p.inside i, p.size);
    outside = λ j h o. ground (arith, p.outside j, p.size);
    gap = λ j h k z. ground (arith, p.gap j, p.size);
  }

  abbrev Goal : List Outcome → Result (Unit {0}) × File × List Outcome → Type 0
  Goal before (r, now, outcomes) = Wrote file offset bytes buffer before r now

  Thrown-later :
      (o : Outcome) (outcomes : List Outcome) (r : Result (Unit {0}))
      → Thrown outcomes r
      → Thrown (o ∷ outcomes) r
  Thrown-later o outcomes r (inl (e, a)) = inl (e, inr a)
  Thrown-later o outcomes r (inr (e, a)) = inr (e, inr a)

  Goal-later :
      (o : Outcome) (outcomes : List Outcome) (r : Result (Unit {0})) (now : File)
      → Wrote file offset bytes buffer outcomes r now
      → Wrote file offset bytes buffer (o ∷ outcomes) r now
  Goal-later o outcomes r now (inl h) = inl h
  Goal-later o outcomes r now (inr (t, h)) = inr (Thrown-later o outcomes r t, h)

  module _ (fuel : ℕ) (outcomes : List Outcome) (completed : ℕ) (now : File) where
    loop_end :
        ltb completed bytes ≡ false
        → pwrite_loop (suc fuel) outcomes now bytes offset completed buffer ≡ (ok tt, now, outcomes)
    unfolding pwrite_loop
    loop_end e = rw (e, pwrite_loop) refl

    loop_failed :
        ltb completed bytes ≡ true
        → head_outcome outcomes (bytes - completed) ≡ failed
        → pwrite_loop (suc fuel) outcomes now bytes offset completed buffer
          ≡ (err system_error, now, rest_outcomes outcomes)
    unfolding pwrite_loop
    loop_failed e h = rw (e, h, pwrite_loop) refl

    loop_interrupted :
        ltb completed bytes ≡ true
        → head_outcome outcomes (bytes - completed) ≡ interrupted
        → pwrite_loop (suc fuel) outcomes now bytes offset completed buffer
          ≡ pwrite_loop fuel (rest_outcomes outcomes) now bytes offset completed buffer
    unfolding pwrite_loop
    loop_interrupted e h = ground arith

    loop_over :
        (k : ℕ)
        → ltb completed bytes ≡ true
        → head_outcome outcomes (bytes - completed) ≡ transferred k
        → (min k (bytes - completed) == 0) ≡ true
        → pwrite_loop (suc fuel) outcomes now bytes offset completed buffer
          ≡ (err runtime_error, now, rest_outcomes outcomes)
    unfolding pwrite_loop
    loop_over k e h z = ground arith

    loop_more :
        (k result : ℕ)
        → ltb completed bytes ≡ true
        → head_outcome outcomes (bytes - completed) ≡ transferred k
        → min k (bytes - completed) ≡ result
        → (result == 0) ≡ false
        → pwrite_loop (suc fuel) outcomes now bytes offset completed buffer
          ≡ pwrite_loop fuel
              (rest_outcomes outcomes)
              (write_bytes now (offset + completed) result (λ i. buffer (completed + i)))
              bytes
              offset
              (completed + result)
              buffer
    unfolding pwrite_loop
    loop_more k result e h r z = ground arith

    loop_finished :
        completed ≤ bytes
        → ltb completed bytes ≡ false
        → Written file offset completed buffer now
        → Goal outcomes (pwrite_loop (suc fuel) outcomes now bytes offset completed buffer)
    loop_finished le e p =
        let same : completed ≡ bytes = ground arith in rw (loop_end e) (inl (refl, rw same at p))

  loop_full :
      (fuel completed : ℕ) (now : File)
      → completed ≤ bytes
      → Written file offset completed buffer now
      → Goal [] (pwrite_loop (suc (suc fuel)) [] now bytes offset completed buffer)
  unfolding head_outcome rest_outcomes
  loop_full fuel completed now le p = elim (Bool-cases (ltb completed bytes)) [
    | inr e ↦ loop_finished (suc fuel) [] completed now le e p
    | inl e ↦
        let result = bytes - completed in
        rw
          (loop_more (suc fuel) [] completed now (bytes - completed) result e refl (omega arith)
            (ground arith))
          (loop_finished fuel [] (completed + result) _ (omega arith) (ground arith)
            (Written-step completed result now (ground arith) p))
  ]

  pwrite_loop-Wrote :
      (outcomes : List Outcome) (fuel completed : ℕ) (now : File)
      → length outcomes + 2 ≤ fuel
      → completed ≤ bytes
      → Written file offset completed buffer now
      → Goal outcomes (pwrite_loop fuel outcomes now bytes offset completed buffer)
  unfolding head_outcome rest_outcomes
  pwrite_loop-Wrote outcomes zero completed now enough le p = absurd (omega arith)
  pwrite_loop-Wrote [] (suc zero) completed now enough le p = absurd (omega arith)
  pwrite_loop-Wrote [] (suc (suc fuel)) completed now enough le p =
      loop_full fuel completed now le p
  pwrite_loop-Wrote (failed ∷ outcomes) (suc fuel) completed now enough le p =
      elim (Bool-cases (ltb completed bytes)) [
        | inr e ↦ loop_finished fuel (failed ∷ outcomes) completed now le e p
        | inl e ↦
            rw (loop_failed fuel (failed ∷ outcomes) completed now e refl)
              (inr (inl (refl, inl refl), (completed, ground arith, p)))
      ]
  pwrite_loop-Wrote (interrupted ∷ outcomes) (suc fuel) completed now enough le p =
      elim (Bool-cases (ltb completed bytes)) [
        | inr e ↦ loop_finished fuel (interrupted ∷ outcomes) completed now le e p
        | inl e ↦ rw (loop_interrupted fuel (interrupted ∷ outcomes) completed now e refl) (
            Goal-later interrupted outcomes _ _
              (pwrite_loop-Wrote outcomes fuel completed now (omega arith) le p))
      ]
  pwrite_loop-Wrote (transferred k ∷ outcomes) (suc fuel) completed now enough le p =
      let result = min k (bytes - completed) in
      elim (Bool-cases (ltb completed bytes)) [
        | inr e ↦ loop_finished fuel (transferred k ∷ outcomes) completed now le e p
        | inl e ↦ elim (Bool-cases (result == 0)) [
          | inl z ↦
              rw (loop_over fuel (transferred k ∷ outcomes) completed now k e refl z)
                (inr (inr (refl, inl (ground arith)), (completed, ground arith, p)))
          | inr z ↦
              rw (loop_more fuel (transferred k ∷ outcomes) completed now k result e refl refl z) (
                Goal-later (transferred k) outcomes _ _ (
                  pwrite_loop-Wrote outcomes fuel (completed + result) _ (omega arith) (omega arith)
                    (Written-step completed result now (ground arith) p)))
        ]
      ]

  -- No new outcomes come up.
  pub pwrite_loop-rest :
      (fuel : ℕ) (outcomes : List Outcome) (completed : ℕ) (now : File)
      → Any IsFault (pwrite_loop fuel outcomes now bytes offset completed buffer).2
      → Any IsFault outcomes
  unfolding pwrite_loop head_outcome rest_outcomes
  pwrite_loop-rest zero outcomes completed now h = h
  pwrite_loop-rest (suc fuel) outcomes completed now h = elim (Bool-cases (ltb completed bytes)) [
    | inr e ↦ rw (loop_end fuel outcomes completed now e) at h
    | inl e ↦ elim (Outcome-cases (head_outcome outcomes (bytes - completed))) [
      | inl f ↦ IsFault-rest outcomes (rw (loop_failed fuel outcomes completed now e f) at h)
      | inr (inl f) ↦ IsFault-rest outcomes (
          pwrite_loop-rest fuel (rest_outcomes outcomes) completed now
            (rw (loop_interrupted fuel outcomes completed now e f) at h))
      | inr (inr (k, f)) ↦
          let result = min k (bytes - completed) in
          elim (Bool-cases (result == 0)) [
            | inl z ↦
                IsFault-rest outcomes (rw (loop_over fuel outcomes completed now k e f z) at h)
            | inr z ↦ IsFault-rest outcomes (
                pwrite_loop-rest fuel (rest_outcomes outcomes) (completed + result) _
                  (rw (loop_more fuel outcomes completed now k result e f refl z) at h))
          ]
    ]
  ]

-- However the calls end: `pwrite_exact` on an existing file either returns, with exactly `bytes`
-- cells of the buffer stored from `offset` on, or throws with fewer cells stored: system_error, when
-- one of the calls has failed with an error other than EINTR, or runtime_error, when one has stored
-- nothing. The bytes of the file outside the stored part are unchanged in both cases.
pub pwrite_exact-Wrote :
    (buffer : ℕ → ℕ) (bytes offset : ℕ) (w : World) (file : File)
    → w.file ≡ some file
    → (file' : File) × ((pwrite_exact buffer bytes offset w).1.file ≡ some file')
      × Wrote file offset bytes buffer w.outcomes (pwrite_exact buffer bytes offset w).0 file'
unfolding pwrite_exact
pwrite_exact-Wrote buffer bytes offset w file e = (
  (pwrite_loop (length w.outcomes + 2) w.outcomes file bytes offset 0 buffer).1,
  rw (e, pwrite_exact) refl,
  rw (e, pwrite_exact)
      (pwrite_loop-Wrote file bytes offset buffer w.outcomes (length w.outcomes + 2) 0 file
        (omega arith) (omega arith) (Written-zero file bytes offset buffer)),
)
