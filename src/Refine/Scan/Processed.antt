-- ===== src/Refine/Scan/Processed.antt =====
-- What the records of one plan add to the heap.
use recast.Prelude.{
  ℕ, ◌+◌, ◌-◌, ◌≤◌, ◌<◌, ◌≡◌, refl, sym, ap, ◌∙◌, ◌⊎◌, inl, inr, Bool, true, false, not, ◌||◌, List,
  [], ◌∷◌, All, tally, ok, err, runtime_error, arith, ltb,
}
use recast.Checked.{uint32_max}
use recast.Floats.{is_finite, less}
use recast.Storage.{File}
use recast.Records.{ListFileRecordStore, load_u32}
use recast.Records.Page.{load_u32-cong}
use recast.Records.Layout.{IsValid, position}
use recast.Refine.{ListCandidate, CandidateInRequest}
use recast.Refine.Builder.{IsItem}
use recast.Refine.TopK.{Neighbor}
use recast.Refine.TopK.Heap.{IsSelected, insert_exact-cases}
use recast.Refine.Scan.{process_items}

-- What a refinement is about: the candidates, the files of their lists, and the distance, which reads
-- the payload and nothing else. `F` follows from a distance that is none.
pub record Scene : Type 1 where
  pub store : ListFileRecordStore
  pub valid : IsValid store
  pub at : ℕ → ListCandidate
  pub count : ℕ
  pub lists : ℕ → File
  pub bytes_fit : (l i : ℕ) → (lists l).bytes i < 256
  pub distance : (ℕ → ℕ) → ℕ
  pub local :
      (p q : ℕ → ℕ) → ((i : ℕ) → i < store.payload_bytes → p i ≡ q i) → distance p ≡ distance q

-- The exact record of a candidate.
abbrev pub neighbor_of : ListFileRecordStore → (ℕ → File) → ((ℕ → ℕ) → ℕ) → ListCandidate → Neighbor
neighbor_of store lists distance candidate =
    let bytes = (lists candidate.list_no).bytes in
    let start = position store candidate.offset 0 in
    record {
      id = load_u32 (λ i. bytes (start + i));
      distance = distance (λ i. bytes (start + (4 + i)));
    }

load_u32_bound : (bytes : ℕ → ℕ) → ((i : ℕ) → bytes i < 256) → load_u32 bytes ≤ uint32_max
unfolding load_u32
load_u32_bound bytes h = omega (arith, h 0, h 1, h 2, h 3)

module _ (scene : Scene) where
  -- The record of the candidate of a number.
  abbrev pub exact : ℕ → Neighbor
  exact i = neighbor_of scene.store scene.lists scene.distance (scene.at i)

  -- A candidate whose distance is refused.
  abbrev pub Invalid : Type 0
  Invalid =
      (i : ℕ) × (i < scene.count)
      × ((not (is_finite (exact i).distance) || less (exact i).distance 0) ≡ true)

  -- The heap has the nearest of the records with these tallies.
  pub record IsChosen (topk : ℕ) (heap : List Neighbor) (amount : (Neighbor → Bool) → ℕ)
      : Type 0 where
    pub seen : List Neighbor
    pub rest : List Neighbor
    pub selected : IsSelected topk seen heap rest
    pub same : (test : Neighbor → Bool) → tally test seen ≡ amount test

  abbrev pub tally_items : List CandidateInRequest → (Neighbor → Bool) → ℕ
  tally_items items test = tally (λ (i : CandidateInRequest). test (exact i.candidate_index)) items

  -- A byte of the record of a candidate, in the buffer and in the file.
  record_byte :
      (list_no aligned bytes : ℕ) (buffer : ℕ → ℕ) (item : CandidateInRequest)
      → IsItem scene.store scene.at scene.count list_no aligned bytes item
      → ((i : ℕ) → i < bytes → buffer i ≡ (scene.lists list_no).bytes (aligned + i))
      → (j k : ℕ) → j < scene.store.record_stride
      → k ≡ item.record_in_buffer + j
      → buffer k
        ≡ (scene.lists (scene.at item.candidate_index).list_no).bytes
            (position scene.store (scene.at item.candidate_index).offset 0 + j)
  record_byte list_no aligned bytes buffer item i agree j k lt e =
      let place : aligned + k ≡ position scene.store (scene.at item.candidate_index).offset 0 + j =
        omega (arith, i.placed) in
      agree k (omega (arith, i.inside))
      ∙ (ap (λ (l : ℕ). (scene.lists l).bytes (aligned + k)) (sym i.of_list)
          ∙ ap (scene.lists (scene.at item.candidate_index).list_no).bytes place)

  pub process_items-cases :
      (topk list_no aligned bytes : ℕ) (buffer : ℕ → ℕ) (items : List CandidateInRequest)
      (heap : List Neighbor) (amount : (Neighbor → Bool) → ℕ)
      → All (IsItem scene.store scene.at scene.count list_no aligned bytes) items
      → ((i : ℕ) → i < bytes → buffer i ≡ (scene.lists list_no).bytes (aligned + i))
      → IsChosen topk heap amount
      → ((heap' : List Neighbor) × (process_items scene.store topk scene.distance buffer bytes items
              heap
            ≡ ok heap')
          × IsChosen topk heap' (λ test. tally_items items test + amount test))
        ⊎ ((process_items scene.store topk scene.distance buffer bytes items heap
              ≡ err runtime_error)
            × Invalid)
  unfolding process_items
  process_items-cases topk list_no aligned bytes buffer [] heap amount all agree chosen = inl (
    heap,
    refl,
    record {
      seen = chosen.seen;
      rest = chosen.rest;
      selected = chosen.selected;
      same = λ test. omega (arith, chosen.same test);
    },
  )
  process_items-cases topk list_no aligned bytes buffer (item ∷ items) heap amount (i, all) agree
        chosen =
      let place = item.record_in_buffer in
      let stride = scene.valid.stride in
      let test : (ltb bytes place
            || ltb (bytes - place) scene.store.record_stride
            || ltb scene.store.record_stride (4 + scene.store.payload_bytes))
          ≡ false =
        ground (arith, i.inside, stride) in
      let cell = record_byte list_no aligned bytes buffer item i agree in
      let id : load_u32 (λ j. buffer (place + j)) ≡ (exact item.candidate_index).id =
        load_u32-cong _ _ λ j lt. cell j (place + j) (omega arith) refl in
      let far : scene.distance (λ j. buffer (place + 4 + j))
          ≡ (exact item.candidate_index).distance =
        scene.local _ _ λ j lt. cell (4 + j) (place + 4 + j) (omega arith) (omega arith) in
      rw test (
        rw id (
          rw far
            (elim (insert_exact-cases topk (exact item.candidate_index).id
              (exact item.candidate_index).distance chosen.seen heap chosen.rest
              (load_u32_bound _ λ j. scene.bytes_fit _ _) chosen.selected) [
                | inr (e, invalid) ↦ rw e (inr (refl, (item.candidate_index, i.known, invalid)))
                | inl (heap', rest', e, d, selected) ↦ rw e (
                    let chosen' : IsChosen topk heap' (λ t. tally_items (item ∷ []) t + amount t) =
                      record {
                        seen = exact item.candidate_index ∷ chosen.seen;
                        rest = rest';
                        selected = selected;
                        same = λ t. omega (arith, chosen.same t);
                      } in
                    elim (process_items-cases topk list_no aligned bytes buffer items heap' _ all
                      agree chosen') [
                        | inr (e, invalid) ↦ inr (e, invalid)
                        | inl (heap2, e, chosen2) ↦ inl (
                          heap2,
                          e,
                          record {
                            seen = chosen2.seen;
                            rest = chosen2.rest;
                            selected = chosen2.selected;
                            same = λ t. omega (arith, chosen2.same t);
                          },
                        )
                      ])
              ])))
