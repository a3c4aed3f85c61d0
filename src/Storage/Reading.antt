-- ===== src/Storage/Reading.antt =====
-- `pread_exact` fills its buffer from the file, or throws.
use recast.Prelude.{
  ℕ, zero, suc, ◌+◌, ◌-◌, ◌≤◌, ◌<◌, ◌≡◌, refl, ◌⊎◌, inl, inr, true, false, not, ◌&&◌, List, [], ◌∷◌,
  some, Result, ok, err, system_error, runtime_error, ltb, ◌==◌, length, Any, copy, arith,
  Bool-cases,
}
use recast.Storage.Outcomes.{IsFault-rest, Outcome-cases}
use recast.Storage.{
  File, Outcome, failed, interrupted, transferred, World, IsFault, head_outcome, rest_outcomes,
  read_count, pread_loop, pread_exact,
}

-- The buffer holds the bytes of the file, and is unchanged beyond them.
pub record Filled (file : File) (bytes offset : ℕ) (buffer buffer' : ℕ → ℕ) : Type 0 where
  pub inside : (i : ℕ) → i < bytes → buffer' i ≡ file.bytes (offset + i)
  pub beyond : (i : ℕ) → bytes ≤ i → buffer' i ≡ buffer i
  pub present : (bytes ≡ 0) ⊎ (offset + bytes ≤ file.size)

abbrev pub Read : File → ℕ → ℕ → (ℕ → ℕ) → List Outcome → Result (ℕ → ℕ) → Type 0
Read file bytes offset buffer outcomes r =
    ((buffer' : ℕ → ℕ) × (r ≡ ok buffer') × Filled file bytes offset buffer buffer')
    ⊎ ((r ≡ err system_error) × Any (λ o. o ≡ failed) outcomes)
    ⊎ ((r ≡ err runtime_error) × (file.size < offset + bytes))

-- What the loop has done after `completed` bytes.
record Partly (file : File) (bytes offset completed : ℕ) (buffer now : ℕ → ℕ) : Type 0 where
  some_left : completed ≤ bytes
  done : (i : ℕ) → i < completed → now i ≡ file.bytes (offset + i)
  rest : (i : ℕ) → completed ≤ i → now i ≡ buffer i
  there : (completed ≡ 0) ⊎ (offset + completed ≤ file.size)

module _ (file : File) (bytes offset : ℕ) (buffer : ℕ → ℕ) where
  Partly-Filled :
      (completed : ℕ) (now : ℕ → ℕ)
      → bytes ≤ completed
      → Partly file bytes offset completed buffer now
      → Filled file bytes offset buffer now
  Partly-Filled completed now h p =
      let e : completed ≡ bytes = omega (arith, p.some_left) in
      record {
        inside = λ i lt. p.done i (omega arith);
        beyond = λ i ge. p.rest i (omega arith);
        present = rw e at p.there;
      }

  Partly-step :
      (completed result : ℕ) (now : ℕ → ℕ)
      → 0 < result
      → completed + result ≤ bytes
      → offset + (completed + result) ≤ file.size
      → Partly file bytes offset completed buffer now
      → Partly file bytes offset
          (completed + result)
          buffer
          (copy now completed file.bytes (offset + completed) result)
  Partly-step completed result now pos fits there p = record {
    some_left = fits;
    done = λ i h. ground (arith, p.done i);
    rest = λ i h. ground (arith, p.rest i);
    there = inr there;
  }

  Read-later :
      (o : Outcome) (outcomes : List Outcome) (r : Result (ℕ → ℕ))
      → Read file bytes offset buffer outcomes r
      → Read file bytes offset buffer (o ∷ outcomes) r
  Read-later o outcomes r (inl h) = inl h
  Read-later o outcomes r (inr (inl (e, a))) = inr (inl (e, inr a))
  Read-later o outcomes r (inr (inr h)) = inr (inr h)

  module _ (fuel : ℕ) (outcomes : List Outcome) (completed : ℕ) (now : ℕ → ℕ) where
    -- The rounds of the loop.
    loop_end :
        ltb completed bytes ≡ false
        → pread_loop (suc fuel) outcomes file bytes offset completed now ≡ (ok now, outcomes)
    unfolding pread_loop
    loop_end e = rw (e, pread_loop) refl

    loop_failed :
        ltb completed bytes ≡ true
        → head_outcome outcomes (bytes - completed) ≡ failed
        → pread_loop (suc fuel) outcomes file bytes offset completed now
          ≡ (err system_error, rest_outcomes outcomes)
    unfolding pread_loop
    loop_failed e h = rw (e, h, pread_loop) refl

    loop_interrupted :
        ltb completed bytes ≡ true
        → head_outcome outcomes (bytes - completed) ≡ interrupted
        → pread_loop (suc fuel) outcomes file bytes offset completed now
          ≡ pread_loop fuel (rest_outcomes outcomes) file bytes offset completed now
    unfolding pread_loop
    loop_interrupted e h = ground arith

    loop_over :
        (k : ℕ)
        → ltb completed bytes ≡ true
        → head_outcome outcomes (bytes - completed) ≡ transferred k
        → (read_count (bytes - completed) (file.size - (offset + completed)) k == 0) ≡ true
        → pread_loop (suc fuel) outcomes file bytes offset completed now
          ≡ (err runtime_error, rest_outcomes outcomes)
    unfolding pread_loop
    loop_over k e h z = ground arith

    loop_more :
        (k result : ℕ)
        → ltb completed bytes ≡ true
        → head_outcome outcomes (bytes - completed) ≡ transferred k
        → read_count (bytes - completed) (file.size - (offset + completed)) k ≡ result
        → (result == 0) ≡ false
        → pread_loop (suc fuel) outcomes file bytes offset completed now
          ≡ pread_loop fuel
              (rest_outcomes outcomes)
              file
              bytes
              offset
              (completed + result)
              (copy now completed file.bytes (offset + completed) result)
    unfolding pread_loop
    loop_more k result e h r z = ground arith

  loop_finished :
      (fuel : ℕ) (outcomes : List Outcome) (completed : ℕ) (now : ℕ → ℕ)
      → ltb completed bytes ≡ false
      → Partly file bytes offset completed buffer now
      → Read file bytes offset buffer outcomes
          (pread_loop (suc fuel) outcomes file bytes offset completed now).0
  loop_finished fuel outcomes completed now e p =
      rw (loop_end fuel outcomes completed now e)
        (inl (now, refl, Partly-Filled completed now (ground arith) p))

  -- At the end of the outcomes the calls succeed in full: one more transfer at most.
  loop_last :
      (fuel completed : ℕ) (now : ℕ → ℕ)
      → Partly file bytes offset completed buffer now
      → (bytes ≤ completed) ⊎ (file.size ≤ offset + completed)
      → Read file bytes offset buffer []
          (pread_loop (suc fuel) [] file bytes offset completed now).0
  unfolding head_outcome
  loop_last fuel completed now p last = elim (Bool-cases (ltb completed bytes)) [
    | inr e ↦
        rw (loop_end fuel [] completed now e)
          (inl (now, refl, Partly-Filled completed now (ground arith) p))
    | inl e ↦
        rw (loop_over fuel [] completed now (bytes - completed) e refl (ground arith))
          (inr (inr (refl, ground arith)))
  ]

  loop_full :
      (fuel completed : ℕ) (now : ℕ → ℕ)
      → Partly file bytes offset completed buffer now
      → Read file bytes offset buffer []
          (pread_loop (suc (suc fuel)) [] file bytes offset completed now).0
  unfolding head_outcome rest_outcomes
  loop_full fuel completed now p =
      let result =
        read_count (bytes - completed) (file.size - (offset + completed)) (bytes - completed) in
      elim (Bool-cases (ltb completed bytes && not (result == 0))) [
        | inr e ↦ loop_last (suc fuel) completed now p (ground arith)
        | inl e ↦
            rw
              (loop_more (suc fuel) [] completed now (bytes - completed) result (ground arith) refl
                refl (ground arith))
              (loop_last fuel (completed + result) _
                (Partly-step completed result now (ground arith) (ground arith) (ground arith) p)
                (ground arith))
      ]

  pread_loop-Read :
      (outcomes : List Outcome) (fuel completed : ℕ) (now : ℕ → ℕ)
      → length outcomes + 2 ≤ fuel
      → Partly file bytes offset completed buffer now
      → Read file bytes offset buffer outcomes
          (pread_loop fuel outcomes file bytes offset completed now).0
  unfolding head_outcome rest_outcomes
  pread_loop-Read outcomes zero completed now enough p = absurd (omega arith)
  pread_loop-Read [] (suc zero) completed now enough p = absurd (omega arith)
  pread_loop-Read [] (suc (suc fuel)) completed now enough p = loop_full fuel completed now p
  pread_loop-Read (failed ∷ outcomes) (suc fuel) completed now enough p =
      elim (Bool-cases (ltb completed bytes)) [
        | inr e ↦ loop_finished fuel (failed ∷ outcomes) completed now e p
        | inl e ↦
            rw (loop_failed fuel (failed ∷ outcomes) completed now e refl)
              (inr (inl (refl, inl refl)))
      ]
  pread_loop-Read (interrupted ∷ outcomes) (suc fuel) completed now enough p =
      elim (Bool-cases (ltb completed bytes)) [
        | inr e ↦ loop_finished fuel (interrupted ∷ outcomes) completed now e p
        | inl e ↦ rw (loop_interrupted fuel (interrupted ∷ outcomes) completed now e refl) (
            Read-later interrupted outcomes _
              (pread_loop-Read outcomes fuel completed now (omega arith) p))
      ]
  pread_loop-Read (transferred k ∷ outcomes) (suc fuel) completed now enough p =
      let result = read_count (bytes - completed) (file.size - (offset + completed)) k in
      elim (Bool-cases (ltb completed bytes)) [
        | inr e ↦ loop_finished fuel (transferred k ∷ outcomes) completed now e p
        | inl e ↦ elim (Bool-cases (result == 0)) [
          | inl z ↦
              rw (loop_over fuel (transferred k ∷ outcomes) completed now k e refl z)
                (inr (inr (refl, ground arith)))
          | inr z ↦
              rw (loop_more fuel (transferred k ∷ outcomes) completed now k result e refl refl z) (
                Read-later (transferred k) outcomes _ (
                  pread_loop-Read outcomes fuel (completed + result) _ (omega arith) (
                    Partly-step completed result now (ground arith) (ground arith) (ground arith)
                      p)))
        ]
      ]

  -- No new outcomes come up.
  pub pread_loop-rest :
      (fuel : ℕ) (outcomes : List Outcome) (completed : ℕ) (now : ℕ → ℕ)
      → Any IsFault (pread_loop fuel outcomes file bytes offset completed now).1
      → Any IsFault outcomes
  unfolding pread_loop head_outcome rest_outcomes
  pread_loop-rest zero outcomes completed now h = h
  pread_loop-rest (suc fuel) outcomes completed now h = elim (Bool-cases (ltb completed bytes)) [
    | inr e ↦ rw (loop_end fuel outcomes completed now e) at h
    | inl e ↦ elim (Outcome-cases (head_outcome outcomes (bytes - completed))) [
      | inl f ↦ IsFault-rest outcomes (rw (loop_failed fuel outcomes completed now e f) at h)
      | inr (inl f) ↦ IsFault-rest outcomes (
          pread_loop-rest fuel (rest_outcomes outcomes) completed now
            (rw (loop_interrupted fuel outcomes completed now e f) at h))
      | inr (inr (k, f)) ↦
          let result = read_count (bytes - completed) (file.size - (offset + completed)) k in
          elim (Bool-cases (result == 0)) [
            | inl z ↦
                IsFault-rest outcomes (rw (loop_over fuel outcomes completed now k e f z) at h)
            | inr z ↦ IsFault-rest outcomes (
                pread_loop-rest fuel (rest_outcomes outcomes) (completed + result) _
                  (rw (loop_more fuel outcomes completed now k result e f refl z) at h))
          ]
    ]
  ]

-- However the calls end: `pread_exact` on an existing file leaves the file as it is. Either it
-- returns the buffer, whose first `bytes` cells are those of the file from `offset` on, all of them
-- within the file, and whose other cells are unchanged; or it throws system_error, and one of the
-- calls has failed with an error other than EINTR; or it throws runtime_error, and the file ends
-- before `offset + bytes`.
pub pread_exact-Read :
    (buffer : ℕ → ℕ) (bytes offset : ℕ) (w : World) (file : File)
    → w.file ≡ some file
    → ((pread_exact buffer bytes offset w).1.file ≡ some file)
      × Read file bytes offset buffer w.outcomes (pread_exact buffer bytes offset w).0
unfolding pread_exact
pread_exact-Read buffer bytes offset w file e = (
  rw (e, pread_exact) e,
  rw (e, pread_exact)
      (pread_loop-Read file bytes offset buffer w.outcomes (length w.outcomes + 2) 0 buffer
        (omega arith)
        (record {
          some_left = omega arith;
          done = λ i h. absurd (omega arith);
          rest = λ i h. refl;
          there = inl refl;
        })),
)
