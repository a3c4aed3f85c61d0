-- ===== src/Prelude/Memory.antt =====
-- Buffers. A buffer is its contents as a function of the index, with an address for the tests
-- that compare pointers; address 0 is `nullptr`. How many cells a caller owns is an argument of
-- each operation, as in the source.
use Prim.Native.Nat.{ℕ, ◌+◌, ◌-◌}
use mathlib.Core.Bool.{Bool, ◌&&◌}
use recast.Prelude.Tests.{◌==◌, ltb, leb, if◌then◌else◌}

pub record Pointer {ℓ} (A : Type ℓ) : Type ℓ where
  pub address : ℕ
  pub cells : ℕ → A

module _ {ℓ} {A : Type ℓ} where
  abbrev pub is_null : Pointer A → Bool
  is_null p = p.address == 0

  -- `cells[i] = v`
  abbrev pub store : (ℕ → A) → ℕ → A → ℕ → A
  store cells i v j = if i == j then v else cells j

  -- `memset(cells + at, v, n)`
  abbrev pub fill : (ℕ → A) → ℕ → ℕ → A → ℕ → A
  fill cells at n v j = if leb at j && ltb j (at + n) then v else cells j

  -- `memcpy(cells + at, source + from, n)`
  abbrev pub copy : (ℕ → A) → ℕ → (ℕ → A) → ℕ → ℕ → ℕ → A
  copy cells at source from n j =
      if leb at j && ltb j (at + n) then source (from + (j - at)) else cells j
