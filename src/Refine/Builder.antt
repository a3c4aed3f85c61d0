-- ===== src/Refine/Builder.antt =====
-- What one location does to the plans of `build_read_plans`.
use native.Mathlib.Nat.{mul-div_left, mod-eq_of_lt, mod-lt}
use recast.Prelude.{
  ℕ, ◌+◌, ◌-◌, ◌*◌, ◌/◌, ◌%◌, ◌^◌, ◌≤◌, ◌<◌, ◌≡◌, refl, ap, sym, ◌∙◌, ◌⊎◌, inl, inr, Bool, true,
  false, not, List, [], ◌∷◌, ◌++◌, All, All-mono, All-append, Any, Chain, Chain-head, tally,
  tally-append, Result, ok, err, overflow_error, arith, ltb, ltb→lt, ltb→le, ◌==◌, ◌&&◌, Bool-cases,
  ◌>>=◌,
}
use recast.Checked.{size_max, uint32_max, off_max}
use recast.Checked.Bounds.{checked_multiply-Fits}
use recast.Records.{ListFileRecordStore}
use recast.Records.Layout.{IsValid, position, lane_le}
use recast.Refine.{
  ListCandidate, CandidateInRequest, ReadPlan, Location, location_of, PlanBuilder, new_plan,
  start_plan, add_page, add_candidate, with_candidate, add_location,
}
use recast.Refine.Places.{NotAfter, IsPlace}

abbrev pub items : List ReadPlan → List CandidateInRequest
items [] = []
items (plan ∷ plans) = plan.candidates ++ items plans

first_le : (p f c ps : ℕ) → (p + 1) * ps ≡ f * ps + c * ps → 0 < c → 0 < ps → f ≤ p
first_le p f c ps e h k = grind (arith, lane_le p f ps, lane_le 0 c ps)

Any-append : {A : Type 0} (P : A → Type 0) (xs ys : List A) → Any P xs ⊎ Any P ys → Any P (xs ++ ys)
Any-append P [] ys (inl any) = elim any [ ]
Any-append P [] ys (inr any) = any
Any-append P (x ∷ xs) ys (inl (inl p)) = inl p
Any-append P (x ∷ xs) ys (inl (inr any)) = inr (Any-append P xs ys (inl any))
Any-append P (x ∷ xs) ys (inr any) = inr (Any-append P xs ys (inr any))

split : (p f ps : ℕ) → f ≤ p → (p - f) * ps + f * ps ≡ p * ps
split p f ps h = grind arith

-- The page that follows `c` pages from `f` on.
page_of : (p f c ps : ℕ) → p * ps ≡ f * ps + c * ps → 0 < ps → p ≡ f + c
page_of p f c ps e h =
    let e' : p * ps ≡ (f + c) * ps = omega arith in
    sym (mul-div_left p h) ∙ (ap (λ (t : ℕ). t / ps) e' ∙ mul-div_left (f + c) h)

suc_mul : (p ps : ℕ) → (p + 1) * ps ≡ p * ps + ps
suc_mul p ps = grind arith

module _ (store : ListFileRecordStore) (at : ℕ → ListCandidate) (count : ℕ) where
  -- A record of one of the candidates, of the list, that lies where the store keeps it, whole in the bytes that are read.
  pub record IsItem (list_no aligned bytes : ℕ) (item : CandidateInRequest) : Type 0 where
    pub known : item.candidate_index < count
    pub of_list : (at item.candidate_index).list_no ≡ list_no
    pub placed : aligned + item.record_in_buffer ≡ position store (at item.candidate_index).offset 0
    pub inside : item.record_in_buffer + store.record_stride ≤ bytes

  -- A read of whole pages with the records of its candidates.
  pub record IsRead (plan : ReadPlan) : Type 0 where
    pub first_page : ℕ
    pub aligned : plan.aligned_offset ≡ first_page * store.page_size
    pub whole : plan.request_bytes ≡ plan.page_count * store.page_size
    pub some_pages : 0 < plan.page_count
    pub list_known : (i : ℕ) × (i < count) × ((at i).list_no ≡ plan.list_no)
    pub limit : plan.request_bytes ≤ size_max
    pub start_limit : plan.aligned_offset ≤ off_max
    pub records : All (IsItem plan.list_no plan.aligned_offset plan.request_bytes) plan.candidates

  -- One of the candidates has its row in the page.
  abbrev pub NeedsPage : ℕ → List CandidateInRequest → Type 0
  NeedsPage page items =
      Any
        (λ (item : CandidateInRequest).
          (at item.candidate_index).offset / store.records_per_page ≡ page)
        items

  -- A read in which every page has the row of a candidate.
  pub record IsPlan (plan : ReadPlan) : Type 0 where
    pub read : IsRead plan
    pub needed : (k : ℕ) → k < plan.page_count → NeedsPage (read.first_page + k) plan.candidates

-- The later plan reads a later list, or leaves out a page of the same list at least.
abbrev pub Apart : ReadPlan → ReadPlan → Type 0
Apart earlier later =
    (earlier.list_no < later.list_no)
    ⊎ ((earlier.list_no ≡ later.list_no)
        × (earlier.aligned_offset + earlier.request_bytes < later.aligned_offset))

module _ (store : ListFileRecordStore) (at : ℕ → ListCandidate) (count : ℕ) where
  -- The builder after some locations.
  pub record IsBuilt (b : PlanBuilder) : Type 0 where
    pub last : ReadPlan
    pub before : List ReadPlan
    pub plans : b.plans ≡ last ∷ before
    pub last_list : last.list_no ≡ b.previous_list
    pub last_page :
        (b.previous_page + 1) * store.page_size ≡ last.aligned_offset + last.request_bytes
    pub page_limit : b.previous_page < size_max
    pub all : All (IsPlan store at count) (last ∷ before)
    pub chain : Chain (λ later earlier. Apart earlier later) (last ∷ before)

  -- One candidate more, or a page that ends past the last offset of a file.
  abbrev pub Stepped : List ReadPlan → Location → Result PlanBuilder → Type 0
  Stepped old l r =
      ((b : PlanBuilder) × (r ≡ ok b)
        × IsBuilt b
        × (b.previous_list ≡ l.list_no)
        × (b.previous_page ≡ l.page_no)
        × ((test : ℕ → Bool)
            → tally (λ (i : CandidateInRequest). test i.candidate_index) (items b.plans)
              ≡ elim (test l.candidate_index) [ true ↦ 1 | false ↦ 0 ]
                + tally (λ (i : CandidateInRequest). test i.candidate_index) (items old)))
      ⊎ ((r ≡ err overflow_error) × (off_max < (l.page_no + 1) * store.page_size))

  module _ (valid : IsValid store) where
    -- The place of a record in the bytes of its plan.
    new_item :
        (l : Location) (list_no aligned bytes first pages : ℕ)
        → IsPlace store at count l
        → list_no ≡ l.list_no
        → aligned ≡ first * store.page_size
        → bytes ≡ pages * store.page_size
        → (l.page_no + 1) * store.page_size ≡ aligned + bytes
        → 0 < pages
        → bytes ≤ size_max
        → IsItem store at count list_no aligned bytes (record {
          candidate_index = l.candidate_index;
          record_in_buffer =
              ((l.page_no - aligned / store.page_size) * store.page_size + l.record_in_page)
              % 2 ^ 64;
        })
    unfolding location_of
    new_item l list_no aligned bytes first pages (known, e) same start whole page some limit =
        let row = (at l.candidate_index).offset in
        let ps = store.page_size in
        let positive : 0 < ps = omega (arith, valid.wide) in
        let page_e : l.page_no ≡ row / store.records_per_page =
          ap (λ (k : Location). k.page_no) e in
        let rip_e : l.record_in_page ≡ row % store.records_per_page * store.record_stride =
          ap (λ (k : Location). k.record_in_page) e in
        let first_e : aligned / ps ≡ first =
          ap (λ (t : ℕ). t / ps) start ∙ mul-div_left first positive in
        let le : first ≤ l.page_no =
          first_le l.page_no first pages ps (omega arith) some positive in
        let sum : (l.page_no - first) * ps + first * ps ≡ l.page_no * ps =
          split l.page_no first ps le in
        let next : (l.page_no + 1) * ps ≡ l.page_no * ps + ps = suc_mul l.page_no ps in
        let lane : l.record_in_page + store.record_stride ≤ ps = omega (
          arith,
          lane_le (row % store.records_per_page) store.records_per_page store.record_stride
              (mod-lt row valid.some_rows),
          valid.room,
        ) in
        let in_buffer = (l.page_no - first) * ps + l.record_in_page in
        let inside : in_buffer + store.record_stride ≤ bytes = omega arith in
        let place_e : ((l.page_no - aligned / ps) * ps + l.record_in_page) % 2 ^ 64 ≡ in_buffer =
          ap (λ (t : ℕ). ((l.page_no - t) * ps + l.record_in_page) % 2 ^ 64) first_e
          ∙ mod-eq_of_lt (omega arith) in
        record {
          known = known;
          of_list = sym (ap (λ (k : Location). k.list_no) e) ∙ sym same;
          placed =
              let page_ps : l.page_no * ps ≡ row / store.records_per_page * ps =
                ap (λ (t : ℕ). t * ps) page_e in
              omega arith;
          inside = omega arith;
        }

    -- The candidate is put into the last plan, which reads its page.
    add_candidate-Stepped :
        (l : Location) (plan : ReadPlan) (before old : List ReadPlan)
        → IsPlace store at count l
        → l.page_no < size_max
        → plan.list_no ≡ l.list_no
        → (l.page_no + 1) * store.page_size ≡ plan.aligned_offset + plan.request_bytes
        → (p : IsRead store at count plan)
        → ((k : ℕ)
            → k < plan.page_count
            → NeedsPage store at count (p.first_page + k) plan.candidates
              ⊎ (l.page_no ≡ p.first_page + k))
        → All (IsPlan store at count) before
        → Chain (λ later earlier. Apart earlier later) (plan ∷ before)
        → ((test : CandidateInRequest → Bool)
            → tally test (items (plan ∷ before)) ≡ tally test (items old))
        → Stepped old l (
            add_candidate store l (plan ∷ before) >>= λ plans.
            ok (record { previous_list = l.list_no; previous_page = l.page_no; plans = plans }))
    unfolding add_candidate location_of
    add_candidate-Stepped l plan before old place limit same page p wanted all chain tallies =
        let item =
          new_item l plan.list_no plan.aligned_offset plan.request_bytes p.first_page
            plan.page_count place same p.aligned p.whole page p.some_pages p.limit in
        let read_is : IsRead store at count (with_candidate store l plan) = record {
          first_page = p.first_page;
          aligned = p.aligned;
          whole = p.whole;
          some_pages = p.some_pages;
          list_known = p.list_known;
          limit = p.limit;
          start_limit = p.start_limit;
          records =
              All-append (IsItem store at count plan.list_no plan.aligned_offset plan.request_bytes)
                plan.candidates _ p.records (item, tt);
        } in
        let own : (at l.candidate_index).offset / store.records_per_page ≡ l.page_no =
          sym (ap (λ (m : Location). m.page_no) place.1) in
        let plan_is : IsPlan store at count (with_candidate store l plan) = record {
          read = read_is;
          needed = λ k lt. elim (wanted k lt) [
            | inl any ↦ Any-append _ plan.candidates _ (inl any)
            | inr e ↦ Any-append _ plan.candidates _ (inr (inl (own ∙ e)))
          ];
        } in
        inl (
          _,
          refl,
          record {
            last = with_candidate store l plan;
            before = before;
            plans = refl;
            last_list = same;
            last_page = page;
            page_limit = limit;
            all = (plan_is, all);
            chain =
                Chain-head (λ (later earlier : ReadPlan). Apart earlier later) plan
                  (with_candidate store l plan) before (λ y r. r) chain;
          },
          refl,
          refl,
          λ test. omega (
            arith,
            tally-append (λ (i : CandidateInRequest). test i.candidate_index)
                (plan.candidates ++ (_ ∷ [])) (items before),
            tally-append (λ (i : CandidateInRequest). test i.candidate_index) plan.candidates
                (_ ∷ []),
            tally-append (λ (i : CandidateInRequest). test i.candidate_index) plan.candidates
                (items before),
            tallies (λ (i : CandidateInRequest). test i.candidate_index),
          ),
        )

    -- A page more for a plan, which then takes the candidate.
    add_page-Stepped :
        (l : Location) (plan : ReadPlan) (before old : List ReadPlan) (first : ℕ)
        → IsPlace store at count l
        → l.page_no < size_max
        → plan.list_no ≡ l.list_no
        → plan.aligned_offset ≡ first * store.page_size
        → plan.request_bytes ≡ plan.page_count * store.page_size
        → l.page_no * store.page_size ≡ plan.aligned_offset + plan.request_bytes
        → plan.aligned_offset ≤ off_max
        → All
            (IsItem store at count plan.list_no plan.aligned_offset plan.request_bytes)
            plan.candidates
        → ((k : ℕ) → k < plan.page_count → NeedsPage store at count (first + k) plan.candidates)
        → All (IsPlan store at count) before
        → Chain (λ later earlier. Apart earlier later) (plan ∷ before)
        → ((test : CandidateInRequest → Bool)
            → tally test (items (plan ∷ before)) ≡ tally test (items old))
        → Stepped old l (
            add_page store (plan ∷ before) >>= λ plans. add_candidate store l plans >>= λ plans.
            ok (record { previous_list = l.list_no; previous_page = l.page_no; plans = plans }))
    unfolding add_page location_of
    add_page-Stepped l plan before old first place limit same start whole page low records needed
          all chain tallies =
        let bytes = (plan.page_count + 1) * store.page_size in
        let plan' = record plan { page_count = plan.page_count + 1; request_bytes = bytes } in
        let more : bytes ≡ plan.page_count * store.page_size + store.page_size =
          suc_mul plan.page_count store.page_size in
        let next : (l.page_no + 1) * store.page_size
            ≡ l.page_no * store.page_size + store.page_size =
          suc_mul l.page_no store.page_size in
        elim (checked_multiply-Fits (plan.page_count + 1) store.page_size) [
          | inl (fits, e) ↦ rw e (
              add_candidate-Stepped l plan' before old place limit same (omega arith)
                (record {
                  first_page = first;
                  aligned = start;
                  whole = refl;
                  some_pages = omega arith;
                  list_known = (
                    l.candidate_index,
                    place.0,
                    sym (ap (λ (k : Location). k.list_no) place.1) ∙ sym same,
                  );
                  limit = fits;
                  start_limit = low;
                  records =
                      All-mono plan.candidates
                        (λ item i. record {
                          known = i.known;
                          of_list = i.of_list;
                          placed = i.placed;
                          inside = omega (arith, i.inside);
                        })
                        records;
                })
                (λ k lt. elim (Bool-cases (ltb k plan.page_count)) [
                  | inl t ↦ inl (needed k (ltb→lt _ _ t))
                  | inr t ↦ inr (
                      let last : k ≡ plan.page_count = let ge = ltb→le _ _ t in omega arith in
                      page_of l.page_no first plan.page_count store.page_size (omega arith)
                        (omega (arith, valid.wide))
                      ∙ ap (λ (n : ℕ). first + n) (sym last))
                ])
                all
                (Chain-head (λ (later earlier : ReadPlan). Apart earlier later) plan plan' before
                  (λ y r. r) chain)
                tallies)
          | inr (over, e) ↦ rw e (inr (refl, omega arith))
        ]

    -- A new plan of one page.
    start_plan-Stepped :
        (l : Location) (old : List ReadPlan)
        → IsPlace store at count l
        → l.page_no < size_max
        → All (IsPlan store at count) old
        → ((plan : ReadPlan)
            → plan.list_no ≡ l.list_no
            → plan.aligned_offset ≡ l.page_no * store.page_size
            → Chain (λ (later earlier : ReadPlan). Apart earlier later) (plan ∷ old))
        → Stepped old l (
            start_plan store l old >>= add_page store >>= λ plans.
            add_candidate store l plans >>= λ plans.
            ok (record { previous_list = l.list_no; previous_page = l.page_no; plans = plans }))
    unfolding start_plan
    start_plan-Stepped l old place limit all chain =
        let next : (l.page_no + 1) * store.page_size
            ≡ l.page_no * store.page_size + store.page_size =
          suc_mul l.page_no store.page_size in
        elim (checked_multiply-Fits l.page_no store.page_size) [
          | inr (over, e) ↦ rw e (inr (refl, omega arith))
          | inl (fits, e) ↦ rw e (elim (Bool-cases (ltb off_max (l.page_no * store.page_size))) [
            | inl t ↦ rw t (inr (refl, omega (arith, ltb→lt _ _ t)))
            | inr t ↦ rw t (
                add_page-Stepped l (new_plan l.list_no (l.page_no * store.page_size)) old old
                  l.page_no place limit refl refl (omega arith) (omega arith) (ltb→le _ _ t) tt
                  (λ k lt. absurd (omega arith)) all
                  (chain (new_plan l.list_no (l.page_no * store.page_size)) refl refl)
                  (λ test. refl))
          ])
        ]

    -- One location, when the builder has seen some.
    pub add_location-Stepped :
        (b : PlanBuilder) (l : Location)
        → IsBuilt b
        → IsPlace store at count l
        → l.page_no < size_max
        → NotAfter b.previous_list b.previous_page l
        → Stepped b.plans l (add_location store l b)
    unfolding add_location
    add_location-Stepped b l built place limit order =
        let adjacent : Bool =
          l.list_no == b.previous_list
          && (not (b.previous_page == size_max) && l.page_no == b.previous_page + 1) in
        let follows = suc_mul b.previous_page store.page_size in
        rw built.plans
          (elim (Bool-cases (l.list_no == b.previous_list && l.page_no == b.previous_page)) [
            | inl t ↦ rw t (
                let page : l.page_no ≡ b.previous_page = ground arith in
                let list : l.list_no ≡ b.previous_list = ground arith in
                add_candidate-Stepped l built.last built.before (built.last ∷ built.before) place
                  limit (built.last_list ∙ sym list)
                  (ap (λ (t : ℕ). (t + 1) * store.page_size) page ∙ built.last_page)
                  built.all.0.read (λ k lt. inl (built.all.0.needed k lt)) built.all.1 built.chain
                  (λ test. refl))
            | inr t ↦ rw t (elim (Bool-cases adjacent) [
              | inl u ↦ rw u (
                  let page : l.page_no ≡ b.previous_page + 1 = ground arith in
                  let list : l.list_no ≡ b.previous_list = ground arith in
                  add_page-Stepped l built.last built.before (built.last ∷ built.before)
                    built.all.0.read.first_page place limit (built.last_list ∙ sym list)
                    built.all.0.read.aligned built.all.0.read.whole
                    (ap (λ (t : ℕ). t * store.page_size) page ∙ built.last_page)
                    built.all.0.read.start_limit built.all.0.read.records built.all.0.needed
                    built.all.1 built.chain (λ test. refl))
              | inr u ↦ rw u (
                  start_plan-Stepped l (built.last ∷ built.before) place limit built.all
                    (λ plan e f. (
                      elim order [
                        | inl lt ↦ inl (omega (arith, built.last_list))
                        | inr (same, le) ↦
                            let far : b.previous_page + 1 < l.page_no =
                              ground (arith, built.page_limit) in
                            inr (
                              built.last_list ∙ (same ∙ sym e),
                              omega (
                                arith,
                                built.last_page,
                                lane_le (b.previous_page + 1) l.page_no store.page_size far,
                                valid.wide,
                              ),
                            )
                      ],
                      built.chain,
                    )))
            ])
          ])

    -- The first location.
    pub add_location-first :
        (l : Location)
        → IsPlace store at count l
        → l.page_no < size_max
        → Stepped [] l (
            add_location store l
              (record { previous_list = uint32_max; previous_page = size_max; plans = [] }))
    unfolding add_location
    add_location-first l place limit =
        let t : (l.list_no == uint32_max && l.page_no == size_max) ≡ false = ground arith in
        let u : (l.list_no == uint32_max && false) ≡ false = ground arith in
        rw t (rw u (start_plan-Stepped l [] place limit tt (λ plan e f. tt)))
