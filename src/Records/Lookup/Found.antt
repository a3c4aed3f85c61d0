-- ===== src/Records/Lookup/Found.antt =====
-- The IDs that a read returns.
use recast.Prelude.{
  ℕ, ◌+◌, ◌*◌, ◌/◌, ◌%◌, ◌^◌, ◌≤◌, ◌<◌, ◌≡◌, refl, sym, ◌∙◌, ◌⊎◌, inl, inr, true, List, [], ◌∷◌,
  Option, none, some, Result, ok, ◌==◌, if◌then◌else◌, All, Any, arith, Bool-cases,
}
use recast.Checked.{page_count, page_offset, off_max}
use recast.Checked.Bounds.{page_offset-Fits}
use recast.Storage.{File, World, pread_exact}
use recast.Storage.Triples.{Ends, Ends_mono, bind_rule, OnFile, Holds}
use recast.Storage.Reading.{Filled}
use recast.Storage.Transfers.{pread_rule}
use recast.Records.{ListFileRecordStore, load_u32}
use recast.Records.Layout.{IsValid, position, in_page, lane_le}
use recast.Records.Rows.{page_lt}
use recast.Records.Lookup.{Request, take_id, is_loaded, read_requests}
use recast.Records.Lookup.Requests.{IsRequest}

-- The ID of row `r`, in the file.
abbrev pub stored_id : ListFileRecordStore → File → ℕ → ℕ
stored_id records file r = load_u32 (λ i. file.bytes (position records r i))

module _ (F : Type 0) (records : ListFileRecordStore) (valid : IsValid records)
    (narrow : records.records_per_page < 2 ^ 32) (logical_size : ℕ) (at : ℕ → ℕ) (before : File)
    (fits : page_count logical_size records.records_per_page * records.page_size ≤ off_max)
    (there : page_count logical_size records.records_per_page * records.page_size
      ≤ before.size) where
  abbrev Same : File → Type 0
  Same file = file ≡ before

  -- The page buffer holds page `page`.
  abbrev IsPage : ℕ → (ℕ → ℕ) → Type 0
  IsPage page bytes =
      (i : ℕ) → i < records.page_size → bytes i ≡ before.bytes (page * records.page_size + i)

  abbrev IsLoaded : Option ℕ → (ℕ → ℕ) → Type 0
  IsLoaded none bytes = Unit
  IsLoaded (some page) bytes = IsPage page bytes

  -- Place `j` of the result is filled in, or will be.
  abbrev Filling : ℕ → List Request → (ℕ → ℕ) → Type 0
  Filling j requests result =
      (result j ≡ stored_id records before (at j)) ⊎ Any (λ r. r.input ≡ j) requests

  narrow-page :
      (r : Request)
      → IsRequest records logical_size at r
      → r.page ≡ at r.input / records.records_per_page
  narrow-page r request =
      let whole : records.records_per_page % 2 ^ 32 ≡ records.records_per_page =
        omega (arith, narrow) in
      request.page ∙ rw (whole, request.offset) refl

  IsPage-byte :
      (bytes : ℕ → ℕ) (r : Request) (i : ℕ)
      → IsRequest records logical_size at r
      → IsPage r.page bytes
      → i < records.record_stride
      → bytes (r.offset % records.records_per_page * records.record_stride + i)
        ≡ before.bytes (position records (at r.input) i)
  IsPage-byte bytes r i request page h =
      let e = narrow-page r request in
      let o = request.offset in
      page (r.offset % records.records_per_page * records.record_stride + i)
        (in_page records valid r.offset i h)
      ∙ rw (e, o) refl

  take_id-lem :
      (bytes : ℕ → ℕ) (r : Request) (result : ℕ → ℕ) (j : ℕ)
      → IsRequest records logical_size at r
      → IsPage r.page bytes
      → take_id records bytes r result j
        ≡ (if r.input == j then stored_id records before (at j) else result j)
  unfolding take_id load_u32
  take_id-lem bytes r result j request page = elim (Bool-cases (r.input == j)) [
    | inr e ↦ ground arith
    | inl e ↦
        let same : r.input ≡ j = ground arith in
        let stride = valid.stride in
        let at_byte =
          λ (i : ℕ) (h : i < 4). IsPage-byte bytes r i request page (omega (arith, stride)) in
        rw
          (
            e,
            take_id,
            load_u32,
            at_byte 0 (omega arith),
            at_byte 1 (omega arith),
            at_byte 2 (omega arith),
            at_byte 3 (omega arith),
            same,
          )
          refl
  ]

  Filling-take_id :
      (j : ℕ) (bytes : ℕ → ℕ) (r : Request) (requests : List Request) (result : ℕ → ℕ)
      → IsRequest records logical_size at r
      → IsPage r.page bytes
      → Filling j (r ∷ requests) result
      → Filling j requests (take_id records bytes r result)
  Filling-take_id j bytes r requests result request page filling =
      let lem = take_id-lem bytes r result j request page in
      elim filling [
        | inr (inr a) ↦ inr a
        | inr (inl e) ↦ inl (ground arith)
        | inl e ↦ inl (ground arith)
      ]

  loaded-IsPage :
      (loaded : Option ℕ) (page : ℕ) (bytes : ℕ → ℕ)
      → is_loaded loaded page ≡ true
      → IsLoaded loaded bytes
      → IsPage page bytes
  loaded-IsPage none page bytes e is = absurd (ground arith)
  loaded-IsPage (some p) page bytes e is = let same : page ≡ p = ground arith in rw same is

  page_offset-request :
      (r : Request)
      → IsRequest records logical_size at r
      → (page_offset r.page records.page_size ≡ ok (r.page * records.page_size))
        × (r.page * records.page_size + records.page_size ≤ before.size)
  page_offset-request r request =
      let pages = page_count logical_size records.records_per_page in
      let below : r.page < pages =
        rw (narrow-page r request, sym request.offset)
          (page_lt records valid r.offset logical_size request.inside) in
      let room = lane_le r.page pages records.page_size below in
      elim (page_offset-Fits r.page records.page_size (omega (arith, valid.wide))) [
        | inl (le, e) ↦ (e, omega (arith, there, room))
        | inr (big, e) ↦ absurd (omega (arith, room, fits))
      ]

  abbrev pub FilledIn : List Request → (ℕ → ℕ) → (ℕ → ℕ) → World → Type 0
  FilledIn requests result result' w' =
      OnFile F Same w'
      × ((j : ℕ) → Filling j requests result → result' j ≡ stored_id records before (at j))

  -- With one request more, whose page is in the buffer.
  FilledIn-cons :
      (bytes : ℕ → ℕ) (r : Request) (requests : List Request) (result : ℕ → ℕ)
      (x : Result (ℕ → ℕ) × World)
      → IsRequest records logical_size at r
      → IsPage r.page bytes
      → Ends x (FilledIn requests (take_id records bytes r result)) (Holds F Same)
      → Ends x (FilledIn (r ∷ requests) result) (Holds F Same)
  FilledIn-cons bytes r requests result x request page ends =
      Ends_mono x (FilledIn requests (take_id records bytes r result))
        (FilledIn (r ∷ requests) result) (Holds F Same) (Holds F Same) ends
        (λ result' w' (here, f).
          (here, λ j filling. f j (Filling-take_id j bytes r requests result request page filling)))
        (λ w' h. h)

  pub read_requests_rule :
      (requests : List Request) (loaded : Option ℕ) (bytes result : ℕ → ℕ) (w : World)
      → All (IsRequest records logical_size at) requests
      → IsLoaded loaded bytes
      → OnFile F Same w
      → Ends
          (read_requests records requests loaded bytes result w)
          (FilledIn requests result)
          (Holds F Same)
  unfolding read_requests
  read_requests_rule [] loaded bytes result w all page here =
      inl (result, refl, (here, λ j f. elim f [ inl e ↦ e | inr a ↦ elim a [ ] ]))
  read_requests_rule (r ∷ requests) loaded bytes result w (request, all) page here =
      elim (Bool-cases (is_loaded loaded r.page)) [
        | inl e ↦
            let this = loaded-IsPage loaded r.page bytes e page in
            rw (e, read_requests)
              (FilledIn-cons bytes r requests result _ request this (
                read_requests_rule requests loaded bytes (take_id records bytes r result) w all page
                  here))
        | inr e ↦
            let (offset, room) = page_offset-request r request in
            rw (e, read_requests, offset)
              (bind_rule (pread_exact bytes records.page_size (r.page * records.page_size) w) _
                (λ bytes'. OnFile F (λ file.
                  Same file
                  × Filled file records.page_size (r.page * records.page_size) bytes bytes'))
                (FilledIn (r ∷ requests) result) (Holds F Same)
                (pread_rule F Same bytes records.page_size (r.page * records.page_size) w
                  (λ file same. rw same room) here)
                λ bytes' w' ((file, at_file, (same, f)), quiet).
                  let this : IsPage r.page bytes' = λ i h. rw (sym same) (f.inside i h) in
                  FilledIn-cons bytes' r requests result _ request this (
                    read_requests_rule requests (some r.page) bytes'
                      (take_id records bytes' r result) w' all this ((file, at_file, same), quiet)))
      ]
