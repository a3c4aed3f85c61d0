-- ===== src/Refine/Scan/Calls.antt =====
-- How the calls of a refinement can end, as rules that the operations compose.
use recast.Prelude.{
  ℕ, ◌+◌, ◌-◌, ◌≤◌, ◌<◌, ◌≡◌, refl, ap, ◌∙◌, ◌⊎◌, inl, inr, Bool, true, false, not, ◌||◌, List, [],
  ◌∷◌, Any, Option, some, Result, ok, err, Error, arith, ltb, ltb→lt, ltb→le, leb, ◌==◌, ◌&&◌,
  Bool-cases, min, copy, throw_if,
}
use recast.Checked.{is_power_of_two}
use recast.Storage.{File}
use recast.Refine.Kernel.{
  Response, failed, interrupted, succeeded, transferred, completed, IsFault, Kernel, K, lift, ◌>>=◌,
  ◌>>◌, continue, try_catch, first_response, later_responses, skip_interrupted, fails, call,
  file_of, amount_of, pread, read_result, ReadRequest,
}
use recast.Refine.Scan.{new_buffer}

-- What holds after an operation, whether it returns or throws.
abbrev pub Ends :
    {A : Type 0} → Result A × Kernel → (A → Kernel → Type 0) → (Kernel → Type 0) → Type 0
Ends r Q E = elim r.0 [ ok a ↦ Q a r.1 | err e ↦ E r.1 ]

pub bind_rule :
    {A B : Type 0} (r : Result A × Kernel) (f : A → K B) (Q : A → Kernel → Type 0)
    (R : B → Kernel → Type 0) (E : Kernel → Type 0)
    → Ends r Q E
    → ((a : A) (k : Kernel) → Q a k → Ends (f a k) R E)
    → Ends (continue f r) R E
bind_rule (ok a, k) f Q R E h next = next a k h
bind_rule (err e, k) f Q R E h next = h

pub ends_rule :
    {A : Type 0} (r : Result A × Kernel) (Q : A → Kernel → Type 0) (E : Kernel → Type 0)
    → ((a : A) → r.0 ≡ ok a → Q a r.1)
    → ((e : Error) → r.0 ≡ err e → E r.1)
    → Ends r Q E
ends_rule (ok a, k) Q E f g = f a refl
ends_rule (err e, k) Q E f g = g e refl

pub ends_cases :
    {A : Type 0} (r : Result A × Kernel) (Q : A → Kernel → Type 0) (E : Kernel → Type 0)
    → Ends r Q E
    → ((a : A) × (r.0 ≡ ok a) × Q a r.1) ⊎ ((e : Error) × (r.0 ≡ err e) × E r.1)
ends_cases (ok a, k) Q E h = inl (a, refl, h)
ends_cases (err e, k) Q E h = inr (e, refl, h)

pub catch_rule :
    {A B : Type 0} (r : Result A × Kernel) (next : A → K B) (handler : Error → K B)
    (Q : A → Kernel → Type 0) (D : Kernel → Type 0) (R : B → Kernel → Type 0) (E : Kernel → Type 0)
    → Ends r Q D
    → ((a : A) (k : Kernel) → Q a k → Ends (next a k) R E)
    → ((e : Error) (k : Kernel) → D k → Ends (handler e k) R E)
    → Ends (try_catch r next handler) R E
catch_rule (ok a, k) next handler Q D R E h f g = f a k h
catch_rule (err e, k) next handler Q D R E h f g = g e k h

pub Ends-mono :
    {A : Type 0} (r : Result A × Kernel) (Q R : A → Kernel → Type 0) (D E : Kernel → Type 0)
    → Ends r Q D
    → ((a : A) (k : Kernel) → Q a k → R a k)
    → ((k : Kernel) → D k → E k)
    → Ends r R E
Ends-mono (ok a, k) Q R D E h f g = f a k h
Ends-mono (err e, k) Q R D E h f g = g k h

pub throw_rule :
    {B : Type 0} (test : Bool) (e : Error) (rest : K B) (k : Kernel) (R : B → Kernel → Type 0)
    (E : Kernel → Type 0)
    → (test ≡ true → E k)
    → (test ≡ false → Ends (rest k) R E)
    → Ends ((lift (throw_if test e) >> rest) k) R E
throw_rule true e rest k R E thrown next = thrown refl
throw_rule false e rest k R E thrown next = next refl

pub lift_rule :
    {A B : Type 0} (r : Result A) (f : A → K B) (k : Kernel) (R : B → Kernel → Type 0)
    (E : Kernel → Type 0)
    → ((e : Error) → r ≡ err e → E k)
    → ((a : A) → r ≡ ok a → Ends (f a k) R E)
    → Ends ((lift r >>= f) k) R E
lift_rule (ok a) f k R E thrown next = next a refl
lift_rule (err e) f k R E thrown next = thrown e refl

pub later-Any :
    (responses : List Response) → Any IsFault (later_responses responses) → Any IsFault responses
later-Any [] any = any
later-Any (r ∷ responses) any = inr any

pub skip-Any :
    (responses : List Response) → Any IsFault (skip_interrupted responses) → Any IsFault responses
unfolding skip_interrupted
skip-Any [] any = any
skip-Any (failed ∷ responses) any = any
skip-Any (interrupted ∷ responses) any = inr (skip-Any responses any)
skip-Any (succeeded ∷ responses) any = any
skip-Any (transferred n ∷ responses) any = any
skip-Any (completed cs ∷ responses) any = any

pub fails-Any :
    (responses : List Response) → fails (first_response responses) ≡ true → Any IsFault responses
fails-Any [] e = cc
fails-Any (failed ∷ responses) e = inl tt
fails-Any (interrupted ∷ responses) e = inl tt
fails-Any (succeeded ∷ responses) e = cc
fails-Any (transferred n ∷ responses) e = cc
fails-Any (completed cs ∷ responses) e = cc

-- The response is no count, or the read may have been short.
pub whole_amount :
    (responses : List Response) (n : ℕ)
    → (amount_of (first_response responses) n ≡ n) ⊎ Any IsFault responses
whole_amount [] n = inl refl
whole_amount (failed ∷ responses) n = inl refl
whole_amount (interrupted ∷ responses) n = inl refl
whole_amount (succeeded ∷ responses) n = inl refl
whole_amount (transferred m ∷ responses) n = inr (inl tt)
whole_amount (completed cs ∷ responses) n = inl refl

pub copy-inside :
    (cells source : ℕ → ℕ) (from n i : ℕ) → i < n → copy cells 0 source from n i ≡ source (from + i)
copy-inside cells source from n i lt =
    let t : (leb 0 i && ltb i (0 + n)) ≡ true = ground arith in
    let d : i - 0 ≡ i = omega arith in rw t (ap (λ (j : ℕ). source (from + j)) d)

-- What stays as it was, and what follows from a fault among the calls to come.
module _ (F : Type 0) (lists : ℕ → File) (descriptors : List (ℕ × ℕ))
    (inflight : List ReadRequest) where
  pub record Frame (k : Kernel) : Type 0 where
    pub same_lists : k.lists ≡ lists
    pub same_descriptors : k.descriptors ≡ descriptors
    pub same_inflight : k.inflight ≡ inflight
    pub fault : Any IsFault k.responses → F

  -- Thrown for a reason.
  abbrev pub Thrown : Kernel → Type 0
  Thrown k = Frame k × F

  pub call_rule : (k : Kernel) → Frame k → Ends (call k) (λ _ k'. Frame k') Thrown
  unfolding call
  call_rule k frame =
      let after : Frame (record k { responses = later_responses k.responses }) = record {
        same_lists = frame.same_lists;
        same_descriptors = frame.same_descriptors;
        same_inflight = frame.same_inflight;
        fault = λ any. frame.fault (later-Any k.responses any);
      } in
      elim (Bool-cases (fails (first_response k.responses))) [
        | inl e ↦ rw e (after, frame.fault (fails-Any k.responses e))
        | inr e ↦ rw e after
      ]

  -- The bytes of the file from an offset on are in the buffer, all of them or for a reason.
  abbrev pub HasRead : ℕ → ℕ → ℕ → ℕ × (ℕ → ℕ) → Kernel → Type 0
  HasRead list_no bytes offset (n, buffer) k =
      Frame k
      × ((n ≡ bytes) ⊎ F)
      × ((i : ℕ) → i < n → buffer i ≡ (lists list_no).bytes (offset + i))

  -- A read of a file that is long enough and open.
  pub pread_rule :
      (fd : Option ℕ) (list_no bytes offset : ℕ) (buffer : ℕ → ℕ) (k : Kernel)
      → file_of fd descriptors ≡ some list_no
      → ((lists list_no).size < offset + bytes → F)
      → Frame k
      → Ends (pread fd bytes offset buffer k) (HasRead list_no bytes offset) Thrown
  unfolding pread
  pread_rule fd list_no bytes offset buffer k e short frame =
      let responses = skip_interrupted k.responses in
      let after : Frame (record k { responses = later_responses responses }) = record {
        same_lists = frame.same_lists;
        same_descriptors = frame.same_descriptors;
        same_inflight = frame.same_inflight;
        fault = λ any. frame.fault (skip-Any k.responses (later-Any responses any));
      } in
      rw (frame.same_descriptors, frame.same_lists, e, Ends, read_result)
        (elim (Bool-cases (fails (first_response responses))) [
          | inl t ↦ rw t (after, frame.fault (skip-Any k.responses (fails-Any responses t)))
          | inr t ↦ rw t (
              let size = (lists list_no).size in
              let available = min bytes (size - offset) in
              let full : (amount_of (first_response responses) available ≡ bytes) ⊎ F =
                elim (Bool-cases (ltb size (offset + bytes))) [
                  | inl s ↦ inr (short (ltb→lt _ _ s))
                  | inr s ↦
                      let m : available ≡ bytes = omega (arith, ltb→le _ _ s) in
                      elim (whole_amount responses available) [
                        | inl a ↦ inl (a ∙ m)
                        | inr any ↦ inr (frame.fault (skip-Any k.responses any))
                      ]
                ] in
              (after, full, λ i lt. copy-inside buffer (lists list_no).bytes offset _ i lt))
        ])

  pub new_buffer_rule :
      (alignment bytes : ℕ) (k : Kernel)
      → is_power_of_two alignment ≡ true
      → 8 ≤ alignment
      → 0 < bytes
      → Frame k
      → Ends (new_buffer alignment bytes k) (λ _ k'. Frame k') Thrown
  unfolding new_buffer
  new_buffer_rule alignment bytes k power wide positive frame =
      let t : (not (is_power_of_two alignment) || ltb alignment 8 || bytes == 0) ≡ false =
        rw power (ground arith) in
      rw t (
        bind_rule (call k) _ (λ _ k'. Frame k') (λ _ k'. Frame k') Thrown (call_rule k frame)
          (λ a k' after. after))
