-- ===== src/Records/Mutation/Tail.antt =====
-- The stale lanes of the last retained page.
use native.Mathlib.Decide.{ℕ_discrete, dec_lt}
use native.Mathlib.Nat.{div-add-mod', mod-lt}
use recast.Prelude.{
  ℕ, suc, ◌+◌, ◌-◌, ◌*◌, ◌/◌, ◌%◌, ◌≤◌, ◌<◌, ◌≡◌, refl, sym, ◌∙◌, inl, inr, true, false, List,
  Option, some, ok, ltb, if◌then◌else◌, fill, store, Any, arith, ap, Bool-cases,
}
use recast.Checked.{page_count}
use recast.Checked.Bounds.{page_count_bounds}
use recast.Records.{ListFileRecordStore}
use recast.Records.Layout.{IsValid, lane_lt, lane_le, page_of_row}
use recast.Records.Tail.{mul_le, le_of_mul}
use recast.Records.Mutation.{has_tail, page_at, clear_tail}
use recast.Records.Mutation.Images.{Imaged, HasPages}

-- The rows that are left; nothing else is.
abbrev pub kept_rows : ℕ → (ℕ → ℕ → ℕ) → ℕ → ℕ → ℕ
kept_rows new_size slots r b = if ltb r new_size then slots r b else 0

mul-split : (a n s : ℕ) → a ≤ n → a * s + (n - a) * s ≡ n * s
mul-split a n s h = grind arith

module _ (records : ListFileRecordStore) (valid : IsValid records) where
  fill_lane :
      (bytes : ℕ → ℕ) (first l b : ℕ)
      → b < records.record_stride
      → l < records.records_per_page
      → first ≤ records.records_per_page
      → fill bytes
          (first * records.record_stride)
          ((records.records_per_page - first) * records.record_stride)
          0
          (l * records.record_stride + b)
        ≡ (if ltb l first then bytes (l * records.record_stride + b) else 0)
  fill_lane bytes first l b h lt le = elim (dec_lt l first) [
    | yes below ↦ let x = lane_lt l first records.record_stride b below h in ground arith
    | no above ↦
        let x = mul_le first l records.record_stride (omega arith) in
        let y = lane_lt l records.records_per_page records.record_stride b lt h in
        let z = mul-split first records.records_per_page records.record_stride le in ground arith
  ]

  -- The rows of a page before the last one, and of the last one.
  pub row_below :
      (r p new_size : ℕ)
      → r / records.records_per_page ≡ p
      → p < new_size / records.records_per_page
      → r < new_size
  row_below r p new_size e lt = omega (
    arith,
    page_of_row r records.records_per_page valid.some_rows,
    page_of_row new_size records.records_per_page valid.some_rows,
    lane_le p (new_size / records.records_per_page) records.records_per_page lt,
    ap (λ (t : ℕ). t * records.records_per_page) e,
  )

  row_in_tail :
      (r new_size : ℕ)
      → r / records.records_per_page ≡ new_size / records.records_per_page
      → ltb (r % records.records_per_page) (new_size % records.records_per_page) ≡ ltb r new_size
  row_in_tail r new_size e = ground (
    arith,
    div-add-mod' r records.records_per_page,
    div-add-mod' new_size records.records_per_page,
    ap (λ (t : ℕ). t * records.records_per_page) e,
  )

  pub row_in_full :
      (r new_size : ℕ)
      → has_tail records.records_per_page new_size ≡ false
      → r / records.records_per_page < page_count new_size records.records_per_page
      → r < new_size
  row_in_full r new_size full lt =
      let per_page = records.records_per_page in
      let whole : new_size ≡ new_size / per_page * per_page =
        ground (arith, div-add-mod' new_size per_page) in
      let few =
        le_of_mul (page_count new_size per_page) (new_size / per_page) per_page valid.some_rows
          (omega (arith, page_count_bounds new_size per_page valid.some_rows, whole)) in
      row_below r (r / per_page) new_size refl (omega (arith, lt, few))

  pub page_in_tail :
      (p new_size : ℕ)
      → p < page_count new_size records.records_per_page
      → p ≤ new_size / records.records_per_page
  page_in_tail p new_size lt =
      let per_page = records.records_per_page in
      let few =
        le_of_mul (page_count new_size per_page) (suc (new_size / per_page)) per_page
          valid.some_rows
          (omega (
            arith,
            page_count_bounds new_size per_page valid.some_rows,
            page_of_row new_size per_page valid.some_rows,
          )) in
      omega (arith, lt, few)

  -- With the stale lanes of the last page cleared, the retained pages hold the rows that are left.
  pub clear_tail-ok :
      (slots : ℕ → ℕ → ℕ) (pages : ℕ → Option (ℕ → ℕ)) (needed : List ℕ) (new_size : ℕ)
      → HasPages records valid slots pages needed
      → (has_tail records.records_per_page new_size ≡ true
          → Any (λ q. q ≡ new_size / records.records_per_page) needed)
      → (pages' : ℕ → Option (ℕ → ℕ)) × (clear_tail records new_size pages ≡ ok pages')
        × ((p : ℕ)
            → Any (λ q. q ≡ p) needed
            → p < page_count new_size records.records_per_page
            → Imaged records valid (kept_rows new_size slots) pages' p)
  unfolding clear_tail page_at
  clear_tail-ok slots pages needed new_size has tail_needed =
      elim (Bool-cases (has_tail records.records_per_page new_size)) [
        | inr full ↦ (
          pages,
          rw (full, clear_tail) refl,
          λ p any lt.
              let (bytes, there, same) = has p any in
              (
                bytes,
                there,
                λ r b e h.
                    let below = row_in_full r new_size full (omega (arith, e, lt)) in
                    same r b e h ∙ ground arith,
              ),
        )
        | inl tail ↦
            let last = new_size / records.records_per_page in
            let first = new_size % records.records_per_page in
            let (bytes, there, same) = has last (tail_needed tail) in
            let cleared =
              fill bytes (first * records.record_stride)
                ((records.records_per_page - first) * records.record_stride) 0 in
            (
              store pages last (some cleared),
              rw (tail, there, clear_tail, page_at) refl,
              λ p any lt. elim (ℕ_discrete last p) [
                | yes e ↦ (
                  cleared,
                  ground arith,
                  λ r b q h.
                      let in_tail = row_in_tail r new_size (q ∙ sym e) in
                      let at = same r b (q ∙ sym e) h in
                      fill_lane bytes first (r % records.records_per_page) b h
                        (mod-lt r valid.some_rows) (omega (arith, mod-lt new_size valid.some_rows))
                      ∙ ground arith,
                )
                | no ne ↦
                    let (others, there', same') = has p any in
                    (
                      others,
                      ground arith,
                      λ r b q h.
                          let below =
                            row_below r p new_size q
                              (omega (arith, page_in_tail p new_size lt, ne)) in
                          same' r b q h ∙ ground arith,
                    )
              ],
            )
      ]
