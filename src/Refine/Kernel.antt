-- ===== src/Refine/Kernel.antt =====
-- The system calls of adapters/list_file_aio_refiner.cpp. How each call ends is taken from a list that
-- the theorems leave open, and a call past its end succeeds. The files of the lists do not change
-- meanwhile. A new descriptor is a number that no open one has.
use recast.Prelude.{
  ℕ, zero, suc, ◌+◌, ◌-◌, ◌%◌, ◌≡◌, ◌⊎◌, Bool, true, false, List, [], ◌∷◌, ◌++◌, Option, none, some,
  Result, ok, err, Error, system_error, leb, ◌==◌, if◌then◌else◌, min, max, length, Any, copy, take,
}
use recast.Storage.{File}

-- How much a request read: everything, some bytes at most, or an error.
pub data Amount : Type 0 where
  all_bytes no_bytes : Amount
  some_bytes : ℕ → Amount

-- The end of one request: which of those in flight it is, whether its data pointer is lost, and the
-- second result.
pub record Completion : Type 0 where
  pub choice : ℕ
  pub lost : Bool
  pub amount : Amount
  pub res2 : ℕ

-- `completed` is what `io_getevents` may return, `transferred` a number of bytes or requests.
pub data Response : Type 0 where
  failed interrupted succeeded : Response
  transferred : ℕ → Response
  completed : List Completion → Response

-- A completion that makes the refinement throw.
abbrev pub IsBad : Completion → Type 0
IsBad c =
    ((c.lost ≡ true) ⊎ (c.amount ≡ no_bytes))
    ⊎ (((k : ℕ) × (c.amount ≡ some_bytes k)) ⊎ ((c.res2 == 0) ≡ false))

-- A response that can make a call throw.
abbrev pub IsFault : Response → Type 0
IsFault failed = Unit
IsFault interrupted = Unit
IsFault succeeded = ⊥
IsFault (transferred k) = Unit
IsFault (completed []) = Unit
IsFault (completed (c ∷ cs)) = Any IsBad (c ∷ cs)

-- An iocb: the number of its slot, and what it reads.
pub record ReadRequest : Type 0 where
  pub slot : ℕ
  pub fd : Option ℕ
  pub offset : ℕ
  pub bytes : ℕ

-- `context` is the capacity of the AIO context of the thread, if there is one.
pub record Kernel : Type 0 where
  pub lists : ℕ → File
  pub descriptors : List (ℕ × ℕ)
  pub context : Option ℕ
  pub inflight : List ReadRequest
  pub responses : List Response

abbrev pub K : Type 0 → Type 0
K A = Kernel → Result A × Kernel

abbrev pub pure : {A : Type 0} → A → K A
pure a k = (ok a, k)

abbrev pub lift : {A : Type 0} → Result A → K A
lift r k = (r, k)

abbrev pub continue : {A B : Type 0} → (A → K B) → Result A × Kernel → Result B × Kernel
continue f (ok a, k) = f a k
continue f (err e, k) = (err e, k)

infixl 5 ◌>>=◌ ◌>>◌
abbrev pub ◌>>=◌ : {A B : Type 0} → K A → (A → K B) → K B
◌>>=◌ m f k = continue f (m k)

abbrev pub ◌>>◌ : {B : Type 0} → K (Unit {0}) → K B → K B
◌>>◌ m rest k = continue (λ _. rest) (m k)

-- `try { ... } catch (...) { ... }`, with what follows when nothing is thrown.
abbrev pub try_catch :
    {A B : Type 0} → Result A × Kernel → (A → K B) → (Error → K B) → Result B × Kernel
try_catch r next handler = elim r.0 [ ok a ↦ next a r.1 | err e ↦ handler e r.1 ]

abbrev pub first_response : List Response → Response
first_response [] = succeeded
first_response (r ∷ responses) = r

abbrev pub later_responses : List Response → List Response
later_responses [] = []
later_responses (r ∷ responses) = responses

-- `do ... while (result == EINTR)` on the responses.
unfoldable pub skip_interrupted : List Response → List Response
skip_interrupted (interrupted ∷ responses) = skip_interrupted responses
skip_interrupted (r ∷ responses) = r ∷ responses
skip_interrupted [] = []

abbrev pub fails : Response → Bool
fails failed = true
fails interrupted = true
fails r = false

-- A call that fails or does its work.
unfoldable pub call : K (Unit {0})
call k = (
  elim (fails (first_response k.responses)) [ true ↦ err system_error | false ↦ ok tt ],
  record k { responses = later_responses k.responses },
)

-- The number after the largest open descriptor.
unfoldable pub fresh_fd : List (ℕ × ℕ) → ℕ
fresh_fd [] = 0
fresh_fd ((fd, list_no) ∷ descriptors) = max (suc fd) (fresh_fd descriptors)

-- `::open` of the file of a list.
unfoldable pub open_list : ℕ → K ℕ
open_list list_no = call >> λ k.
    let fd = fresh_fd k.descriptors in
    (ok fd, record k { descriptors = (fd, list_no) ∷ k.descriptors })

unfoldable pub remove_fd : ℕ → List (ℕ × ℕ) → List (ℕ × ℕ)
remove_fd fd [] = []
remove_fd fd ((fd', list_no) ∷ descriptors) =
    let rest = remove_fd fd descriptors in if fd == fd' then rest else (fd', list_no) ∷ rest

-- `::close`, which gives the descriptor up even when it reports an error.
unfoldable pub close_fd : ℕ → K (Unit {0})
close_fd fd k = call (record k { descriptors = remove_fd fd k.descriptors })

-- The list whose file a descriptor is open on.
unfoldable pub list_of : ℕ → List (ℕ × ℕ) → Option ℕ
list_of fd [] = none
list_of fd ((fd', list_no) ∷ descriptors) =
    let rest = list_of fd descriptors in if fd == fd' then some list_no else rest

-- The same for a descriptor that may be -1.
abbrev pub file_of : Option ℕ → List (ℕ × ℕ) → Option ℕ
file_of none descriptors = none
file_of (some fd) descriptors = list_of fd descriptors

-- How many bytes a read of a file returns.
abbrev pub amount_of : Response → ℕ → ℕ
amount_of (transferred n) available = min n available
amount_of r available = available

abbrev pub read_result : Option ℕ → (ℕ → File) → Response → ℕ → ℕ → (ℕ → ℕ) → Result (ℕ × (ℕ → ℕ))
read_result none lists response bytes offset buffer = err system_error
read_result (some list_no) lists response bytes offset buffer = elim (fails response) [
  | true ↦ err system_error
  | false ↦
      let file = lists list_no in
      let n = amount_of response (min bytes (file.size - offset)) in
      ok (n, copy buffer 0 file.bytes offset n)
]

-- `::pread` until it is not interrupted; a negative result throws.
unfoldable pub pread : Option ℕ → ℕ → ℕ → (ℕ → ℕ) → K (ℕ × (ℕ → ℕ))
pread fd bytes offset buffer k =
    let responses = skip_interrupted k.responses in
    (
      read_result (file_of fd k.descriptors) k.lists (first_response responses) bytes offset buffer,
      record k { responses = later_responses responses },
    )

-- `::io_setup`, where a context of enough capacity is kept, and `::io_destroy`, which cancels what is in
-- flight.
unfoldable pub reset_context : Kernel → Kernel
reset_context k = record k { context = none; inflight = [] }

abbrev pub has_capacity : Option ℕ → ℕ → Bool
has_capacity none queue_depth = false
has_capacity (some capacity) queue_depth = leb queue_depth capacity

unfoldable pub acquire_context : ℕ → K (Unit {0})
acquire_context queue_depth k =
    if has_capacity k.context queue_depth
    then (ok tt, k)
    else (call >> λ k. (ok tt, record k { context = some queue_depth })) (reset_context k)

-- `::io_submit`, and how many of the requests it took.
unfoldable pub io_submit : List ReadRequest → K ℕ
io_submit requests k =
    let n = amount_of (first_response k.responses) (length requests) in
    let k' = record k { responses = later_responses k.responses } in
    if fails (first_response k.responses)
    then (err system_error, k')
    else (ok n, record k' { inflight = k.inflight ++ take n requests })

-- What `::io_getevents` tells of one request.
pub record Event : Type 0 where
  pub obj : ReadRequest
  pub data_pointer : Option ℕ
  pub res : Option ℕ
  pub res2 : ℕ
  pub bytes : ℕ → ℕ

-- The result of the read of one request.
abbrev pub amount_read : Amount → ℕ → Option ℕ
amount_read all_bytes available = some available
amount_read no_bytes available = none
amount_read (some_bytes n) available = some (min n available)

-- The result and the bytes of a request on a file, if its descriptor is open on one.
abbrev pub event_res : (ℕ → File) → Option ℕ → Amount → ℕ → ℕ → Option ℕ
event_res lists none amount bytes offset = none
event_res lists (some list_no) amount bytes offset =
    amount_read amount (min bytes ((lists list_no).size - offset))

abbrev pub event_bytes : (ℕ → File) → Option ℕ → ℕ → ℕ → ℕ
event_bytes lists none offset i = 0
event_bytes lists (some list_no) offset i = (lists list_no).bytes (offset + i)

abbrev pub read_event : (ℕ → File) → Option ℕ → Completion → ReadRequest → Event
read_event lists file completion request = record {
  obj = request;
  data_pointer = if completion.lost then none else some request.slot;
  res = event_res lists file completion.amount request.bytes request.offset;
  res2 = completion.res2;
  bytes = event_bytes lists file request.offset;
}

-- The request of a number, and the others.
unfoldable pub pick : ℕ → ReadRequest → List ReadRequest → ReadRequest × List ReadRequest
pick zero request requests = (request, requests)
pick (suc n) request [] = (request, [])
pick (suc n) request (next ∷ requests) =
    let (found, others) = pick n next requests in (found, request ∷ others)

unfoldable pub complete :
    (ℕ → File) → List (ℕ × ℕ) → List Completion → List ReadRequest → List Event × List ReadRequest
complete lists descriptors [] inflight = ([], inflight)
complete lists descriptors (c ∷ cs) [] = ([], [])
complete lists descriptors (c ∷ cs) (request ∷ requests) =
    let (found, others) = pick (c.choice % suc (length requests)) request requests in
    let (events, left) = complete lists descriptors cs others in
    (read_event lists (file_of found.fd descriptors) c found ∷ events, left)

abbrev pub completions_of : Response → List Completion
completions_of (completed cs) = cs
completions_of r = record { choice = 0; lost = false; amount = all_bytes; res2 = 0 } ∷ []

-- `::io_getevents` until it is not interrupted.
unfoldable pub io_getevents : K (List Event)
io_getevents k =
    let responses = skip_interrupted k.responses in
    let k' = record k { responses = later_responses responses } in
    let (events, left) =
      complete k.lists k.descriptors (completions_of (first_response responses)) k.inflight in
    if fails (first_response responses)
    then (err system_error, k')
    else (ok events, record k' { inflight = left })
