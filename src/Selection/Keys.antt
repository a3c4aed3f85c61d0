-- ===== src/Selection/Keys.antt =====
-- The integer keys of floats and of rows: they have the order of the floats, and of the result.
use recast.Prelude.{ℕ, ◌+◌, ◌*◌, ◌<◌, ◌≡◌, refl, false, not, ltb, ◌==◌, if◌then◌else◌, arith}
use recast.Floats.{less, equal, is_nan}
use recast.Selection.{DistanceEstimate}
use recast.Selection.Collector.{
  ordered_float_key, float_from_ordered_key, rank_key, candidate_before,
}

-- The bits of a float that is no NaN.
abbrev pub IsNumber : ℕ → Type 0
IsNumber bits = (bits < 4294967296) × (is_nan bits ≡ false)

pub less-ordered_float_key :
    (a b : ℕ) → IsNumber a → IsNumber b → less a b ≡ ltb (ordered_float_key a) (ordered_float_key b)
unfolding less equal ordered_float_key
less-ordered_float_key a b p q = ground arith

pub equal-ordered_float_key :
    (a b : ℕ) → IsNumber a → IsNumber b → equal a b ≡ (ordered_float_key a == ordered_float_key b)
unfolding equal ordered_float_key
equal-ordered_float_key a b p q = ground arith

pub ordered_float_key_bound : (a : ℕ) → IsNumber a → ordered_float_key a < 4294967296
unfolding equal ordered_float_key
ordered_float_key_bound a p = ground arith

-- The float of a key is as good as the one that the key is of.
pub float_from_ordered_key-IsNumber :
    (a : ℕ) → IsNumber a → IsNumber (float_from_ordered_key (ordered_float_key a))
unfolding equal ordered_float_key float_from_ordered_key
float_from_ordered_key-IsNumber a p = ground arith

pub ordered_float_key-float_from_ordered_key :
    (a : ℕ)
    → IsNumber a
    → ordered_float_key (float_from_ordered_key (ordered_float_key a)) ≡ ordered_float_key a
unfolding equal ordered_float_key float_from_ordered_key
ordered_float_key-float_from_ordered_key a p = ground arith

-- A row with an estimate and an ID that the scan can give.
abbrev pub IsRow : DistanceEstimate → Type 0
IsRow row = IsNumber row.estimated_distance × (row.id < 4294967296)

abbrev pub rank : DistanceEstimate → ℕ
rank row = rank_key row.estimated_distance row.id

lexicographic :
    (a b x y : ℕ)
    → x < 4294967296
    → y < 4294967296
    → ltb (a * 4294967296 + x) (b * 4294967296 + y) ≡ (if not (a == b) then ltb a b else ltb x y)
lexicographic a b x y p q = ground arith

pub candidate_before-rank :
    (r s : DistanceEstimate) → IsRow r → IsRow s → candidate_before r s ≡ ltb (rank r) (rank s)
unfolding candidate_before rank_key
candidate_before-rank r s (p, i) (q, j) =
    rw
      (
        less-ordered_float_key r.estimated_distance s.estimated_distance p q,
        equal-ordered_float_key r.estimated_distance s.estimated_distance p q,
        lexicographic (ordered_float_key r.estimated_distance)
            (ordered_float_key s.estimated_distance) r.id s.id i j,
      )
      refl
