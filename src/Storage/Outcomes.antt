-- ===== src/Storage/Outcomes.antt =====
-- The outcomes of the calls to come.
use recast.Prelude.{ℕ, ◌≡◌, refl, ◌⊎◌, inl, inr, List, [], ◌∷◌, Any}
use recast.Storage.{Outcome, failed, interrupted, transferred, IsFault, rest_outcomes}

pub IsFault-rest :
    (outcomes : List Outcome) → Any IsFault (rest_outcomes outcomes) → Any IsFault outcomes
unfolding rest_outcomes
IsFault-rest [] h = h
IsFault-rest (o ∷ outcomes) h = inr h

pub Outcome-cases :
    (o : Outcome) → (o ≡ failed) ⊎ (o ≡ interrupted) ⊎ ((k : ℕ) × (o ≡ transferred k))
Outcome-cases failed = inl refl
Outcome-cases interrupted = inr (inl refl)
Outcome-cases (transferred k) = inr (inr (k, refl))

Any-mono :
    (P Q : Outcome → Type 0) (outcomes : List Outcome)
    → ((o : Outcome) → P o → Q o)
    → Any P outcomes
    → Any Q outcomes
Any-mono P Q [] f a = a
Any-mono P Q (o ∷ outcomes) f (inl p) = inl (f o p)
Any-mono P Q (o ∷ outcomes) f (inr a) = inr (Any-mono P Q outcomes f a)

pub failed-IsFault :
    (outcomes : List Outcome) → Any (λ o. o ≡ failed) outcomes → Any IsFault outcomes
failed-IsFault outcomes = Any-mono (λ o. o ≡ failed) IsFault outcomes λ o e. rw e tt

pub stuck-IsFault :
    (outcomes : List Outcome) → Any (λ o. o ≡ transferred 0) outcomes → Any IsFault outcomes
stuck-IsFault outcomes = Any-mono (λ o. o ≡ transferred 0) IsFault outcomes λ o e. rw e refl
