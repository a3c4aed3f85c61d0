-- ===== src/Directory/Stores.antt =====
-- The entries of a page that a write puts in.
use native.Mathlib.Decide.{ℕ_discrete}
use native.Mathlib.Nat.{div-add-mod'}
use recast.Prelude.{
  ℕ, ◌+◌, ◌*◌, ◌-◌, ◌/◌, ◌%◌, ◌<◌, ◌≡◌, ◌≢◌, sym, ap, ◌∙◌, ◌⊎◌, inl, inr, List, [], ◌∷◌, All, Any,
  ltb, if◌then◌else◌, arith,
}
use recast.Records.{u32_byte}
use recast.Directory.{
  DiskLocation, ExternalLocationDirectory, entries_per_page, store_entry, store_entries,
}

-- The eight bytes of a location.
abbrev pub location_byte : DiskLocation → ℕ → ℕ
location_byte location i =
    if ltb i 4 then u32_byte location.list_no i else u32_byte location.offset (i - 4)

store_entry-same :
    (bytes : ℕ → ℕ) (lane : ℕ) (location : DiskLocation) (i : ℕ)
    → i < 8
    → store_entry bytes lane location (lane * 8 + i) ≡ location_byte location i
unfolding store_entry
store_entry-same bytes lane location i h =
    let low : 0 + (lane * 8 + i - lane * 8) ≡ i = omega arith in
    let high : 0 + (lane * 8 + i - (lane * 8 + 4)) ≡ i - 4 = omega arith in ground arith

store_entry-other :
    (bytes : ℕ → ℕ) (lane : ℕ) (location : DiskLocation) (other i : ℕ)
    → lane ≢ other
    → i < 8
    → store_entry bytes lane location (other * 8 + i) ≡ bytes (other * 8 + i)
unfolding store_entry
store_entry-other bytes lane location other i ne h = ground arith

-- The update gives these bytes, if it is one of this entry.
abbrev pub Agrees : ℕ → (ℕ → ℕ) → ℕ × DiskLocation → Type 0
Agrees id want u = u.0 ≡ id → (i : ℕ) → i < 8 → want i ≡ location_byte u.1 i

abbrev pub HasLane : (ℕ → ℕ) → ℕ → (ℕ → ℕ) → Type 0
HasLane bytes lane want = (i : ℕ) → i < 8 → bytes (lane * 8 + i) ≡ want i

lanes_differ : (v id e : ℕ) → v / e ≡ id / e → v ≢ id → v % e ≢ id % e
lanes_differ v id e page ne lane = ne (
    sym (div-add-mod' v e)
    ∙ (ap (λ (t : ℕ). t * e + v % e) page
        ∙ (ap (λ (t : ℕ). id / e * e + t) lane ∙ div-add-mod' id e)))

module _ (directory : ExternalLocationDirectory) (page id : ℕ) (want : ℕ → ℕ)
    (on_page : id / entries_per_page directory ≡ page) where
  -- An entry of the page ends with bytes on which all its updates agree, if it has them before or
  -- there is an update of it.
  pub store_entries-HasLane :
      (updates : List (ℕ × DiskLocation)) (bytes : ℕ → ℕ)
      → All (λ u. Agrees id want u × (u.0 / entries_per_page directory ≡ page)) updates
      → HasLane bytes (id % entries_per_page directory) want ⊎ Any (λ u. u.0 ≡ id) updates
      → HasLane (store_entries directory updates bytes) (id % entries_per_page directory) want
  unfolding store_entries
  store_entries-HasLane [] bytes all (inl has) = has
  store_entries-HasLane [] bytes all (inr any) = elim any [ ]
  store_entries-HasLane ((v, location) ∷ updates) bytes ((agrees, at_page), all) has =
      store_entries-HasLane updates _ all (elim (ℕ_discrete v id) [
        | yes e ↦ inl (λ i h.
            ap
              (λ (n : ℕ).
                store_entry bytes (n % entries_per_page directory) location
                  (id % entries_per_page directory * 8 + i))
              e
            ∙ (store_entry-same bytes (id % entries_per_page directory) location i h
                ∙ sym (agrees e i h)))
        | no ne ↦ elim has [
          | inr (inl e) ↦ absurd (ne e)
          | inr (inr any) ↦ inr any
          | inl had ↦ inl (λ i h.
              store_entry-other bytes (v % entries_per_page directory) location
                (id % entries_per_page directory) i
                (lanes_differ v id (entries_per_page directory) (at_page ∙ sym on_page) ne) h
              ∙ had i h)
        ]
      ])
