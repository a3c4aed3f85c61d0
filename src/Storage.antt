-- ===== src/Storage.antt =====
-- Files and the exact transfers of adapters/external_io_util.h (`pread_exact`, `pwrite_exact`,
-- `sync_file`). The operating system decides how each call ends: every operation takes the outcomes
-- of its calls from a list that the theorems leave open, and a call past its end succeeds in full.
pub mod Outcomes
pub mod Triples
pub mod Reading
pub mod Writing
pub mod Transfers
use recast.Prelude.{
  ℕ, zero, suc, ◌+◌, ◌-◌, ◌≡◌, Bool, true, false, not, ◌&&◌, List, [], ◌∷◌, Option, none, some,
  Result, ok, err, Error, system_error, runtime_error, logic_error, ltb, leb, ◌==◌, if◌then◌else◌,
  length, min, max, copy,
}

pub record File : Type 0 where
  pub size : ℕ
  pub bytes : ℕ → ℕ

-- How one system call ends: with an error, with EINTR, which only the transfers try again, or well;
-- a transfer moves at most that many bytes.
pub data Outcome : Type 0 where
  failed interrupted : Outcome
  transferred : ℕ → Outcome

-- An outcome that makes a call or a transfer throw.
abbrev pub IsFault : Outcome → Type 0
IsFault failed = Unit
IsFault interrupted = Unit
IsFault (transferred k) = k ≡ 0

-- One file, `none` before it is created, and the outcomes of the calls to come.
pub record World : Type 0 where
  pub file : Option File
  pub outcomes : List Outcome

-- An operation that may throw; what it did to the file before stays.
abbrev pub M : Type 0 → Type 0
M A = World → Result A × World

abbrev pub pure : {A : Type 0} → A → M A
pure a w = (ok a, w)

abbrev pub lift : {A : Type 0} → Result A → M A
lift r w = (r, w)

abbrev pub continue {ℓ} :
    {A : Type ℓ} {B : Type 0} → (A → M B) → Result A × World → Result B × World
continue f (ok a, w) = f a w
continue f (err e, w) = (err e, w)

infixl 5 ◌>>=◌ ◌>>◌
abbrev pub ◌>>=◌ : {A B : Type 0} → M A → (A → M B) → M B
◌>>=◌ m f w = continue f (m w)

abbrev pub ◌>>◌ : {B : Type 0} → M (Unit {0}) → M B → M B
◌>>◌ m k w = continue (λ _. k) (m w)

-- The outcome of the next call, and those after it.
unfoldable pub head_outcome : List Outcome → ℕ → Outcome
head_outcome [] limit = transferred limit
head_outcome (o ∷ outcomes) limit = o

unfoldable pub rest_outcomes : List Outcome → List Outcome
rest_outcomes [] = []
rest_outcomes (o ∷ outcomes) = outcomes

-- What a pread of at most `limit` bytes returns: 0 only at the end of the file.
abbrev read_count : ℕ → ℕ → ℕ → ℕ
read_count limit available k = min (max k 1) (min limit available)

-- One buffer position per byte: `completed` bytes are there.
unfoldable pub pread_loop :
    ℕ → List Outcome → File → ℕ → ℕ → ℕ → (ℕ → ℕ) → Result (ℕ → ℕ) × List Outcome
pread_loop zero outcomes file bytes offset completed buffer = (err logic_error, outcomes)
pread_loop (suc fuel) outcomes file bytes offset completed buffer = elim (ltb completed bytes) [
  | false ↦ (ok buffer, outcomes)
  | true ↦ elim (head_outcome outcomes (bytes - completed)) [
    | interrupted ↦ pread_loop fuel (rest_outcomes outcomes) file bytes offset completed buffer
    | failed ↦ (err system_error, rest_outcomes outcomes)
    | transferred k ↦
        let result = read_count (bytes - completed) (file.size - (offset + completed)) k in
        elim (result == 0) [
          | true ↦ (err runtime_error, rest_outcomes outcomes)
          | false ↦
              pread_loop fuel (rest_outcomes outcomes) file bytes offset (completed + result)
                (copy buffer completed file.bytes (offset + completed) result)
        ]
  ]
]

unfoldable pub pread_exact : (ℕ → ℕ) → ℕ → ℕ → M (ℕ → ℕ)
pread_exact buffer bytes offset w = elim w.file [
  | none ↦ (err system_error, w)
  | some file ↦
      let (r, outcomes) =
        pread_loop (length w.outcomes + 2) w.outcomes file bytes offset 0 buffer in
      (r, record w { outcomes = outcomes })
]

-- `count` bytes of `source` stored at `at`; what lies between the old end and `at` reads as zero.
unfoldable pub write_bytes : File → ℕ → ℕ → (ℕ → ℕ) → File
write_bytes file at count source = record {
  size = max file.size (at + count);
  bytes = λ j.
      if leb at j && ltb j (at + count)
      then source (j - at)
      else if ltb j file.size
      then file.bytes j
      else 0;
}

unfoldable pub pwrite_loop :
    ℕ → List Outcome → File → ℕ → ℕ → ℕ → (ℕ → ℕ) → Result (Unit {0}) × File × List Outcome
pwrite_loop zero outcomes file bytes offset completed buffer = (err logic_error, file, outcomes)
pwrite_loop (suc fuel) outcomes file bytes offset completed buffer = elim (ltb completed bytes) [
  | false ↦ (ok tt, file, outcomes)
  | true ↦ elim (head_outcome outcomes (bytes - completed)) [
    | interrupted ↦ pwrite_loop fuel (rest_outcomes outcomes) file bytes offset completed buffer
    | failed ↦ (err system_error, file, rest_outcomes outcomes)
    | transferred k ↦
        let result = min k (bytes - completed) in
        elim (result == 0) [
          | true ↦ (err runtime_error, file, rest_outcomes outcomes)
          | false ↦
              pwrite_loop fuel (rest_outcomes outcomes)
                (write_bytes file (offset + completed) result (λ i. buffer (completed + i))) bytes
                offset (completed + result) buffer
        ]
  ]
]

unfoldable pub pwrite_exact : (ℕ → ℕ) → ℕ → ℕ → M (Unit {0})
pwrite_exact buffer bytes offset w = elim w.file [
  | none ↦ (err system_error, w)
  | some file ↦
      let (r, file', outcomes) =
        pwrite_loop (length w.outcomes + 2) w.outcomes file bytes offset 0 buffer in
      (r, record { file = some file'; outcomes = outcomes })
]

-- A call without a transfer.
unfoldable pub call : M (Unit {0})
unfolding head_outcome rest_outcomes
call w = (
  elim (head_outcome w.outcomes 0) [ transferred k ↦ ok tt | _ ↦ err system_error ],
  record w { outcomes = rest_outcomes w.outcomes },
)

-- The file that `open` finds, or makes with O_CREAT.
unfoldable pub find_file : Bool → M (Unit {0})
find_file create w = elim w.file [
  | some file ↦ (ok tt, w)
  | none ↦
      if create
      then (ok tt, record w { file = some (record { size = 0; bytes = λ _. 0 }) })
      else (err system_error, w)
]

-- `open`, with O_CREAT if `create`.
unfoldable pub open_file : Bool → M (Unit {0})
open_file create = call >> find_file create

-- `fstat`, for the size.
unfoldable pub fstat : M ℕ
fstat = do call; λ w. elim w.file [ some file ↦ (ok file.size, w) | none ↦ (err system_error, w) ]

unfoldable pub resize_file : File → ℕ → File
resize_file file size = record {
  size = size;
  bytes = λ j. if ltb j file.size then file.bytes j else 0;
}

unfoldable pub ftruncate : ℕ → M (Unit {0})
ftruncate size = do
  call
  λ w. elim w.file [
    | some file ↦ (ok tt, record w { file = some (resize_file file size) })
    | none ↦ (err system_error, w)
  ]

unfoldable pub sync_file : Bool → M (Unit {0})
sync_file enabled = if enabled then call else pure tt
