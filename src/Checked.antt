-- ===== src/Checked.antt =====
-- The arithmetic that guards sizes and offsets: adapters/external_io_util.h (`checked_add`,
-- `checked_multiply`, `is_power_of_two`), adapters/external_list_ivf.cpp (`round_up`,
-- `page_count`), adapters/list_file_record_store.cpp (`page_offset`) and
-- adapters/pq4_update_packing.cpp (`flat_code_size`, `ranges_overlap`). `size_t`, `uint64_t` and
-- `uintptr_t` are 64 bits wide, `off_t` is a signed 64-bit integer.
pub mod Bounds
use recast.Prelude.{
  ℕ, ◌+◌, ◌-◌, ◌*◌, ◌/◌, ◌%◌, ◌^◌, Bool, true, false, not, ◌&&◌, ◌||◌, bit_and, Result, ok, err,
  overflow_error, invalid_argument, throw_if, ◌>>=◌, ◌>>◌, ltb, ◌==◌, if◌then◌else◌,
}

-- std::numeric_limits<size_t>::max(), and those of uint32_t and off_t.
abbrev pub size_max : ℕ
size_max = 18446744073709551615

abbrev pub uint32_max : ℕ
uint32_max = 4294967295

abbrev pub off_max : ℕ
off_max = 9223372036854775807

unfoldable pub checked_add : ℕ → ℕ → Result ℕ
checked_add lhs rhs = throw_if (ltb (size_max - lhs) rhs) overflow_error >> ok (lhs + rhs)

unfoldable pub checked_multiply : ℕ → ℕ → Result ℕ
checked_multiply lhs rhs =
    throw_if (not (lhs == 0) && ltb (size_max / lhs) rhs) overflow_error >> ok (lhs * rhs)

unfoldable pub round_up : ℕ → ℕ → Result ℕ
round_up value multiple =
    throw_if (multiple == 0 || ltb (size_max - (multiple - 1)) value) overflow_error
    >> ok ((value + multiple - 1) / multiple * multiple)

unfoldable pub page_count : ℕ → ℕ → ℕ
page_count rows records_per_page = if rows == 0 then 0 else 1 + (rows - 1) / records_per_page

-- `page_offset`, and `checked_offset` of the directory.
unfoldable pub page_offset : ℕ → ℕ → Result ℕ
page_offset page page_size =
    throw_if (ltb (off_max / page_size) page) overflow_error >> ok (page * page_size)

unfoldable pub is_power_of_two : ℕ → Bool
is_power_of_two value = not (value == 0) && bit_and value (value - 1) == 0

unfoldable pub flat_code_size : ℕ → Result ℕ
flat_code_size subquantizers =
    throw_if (subquantizers == 0 || not (subquantizers % 2 == 0)) invalid_argument
    >> ok (subquantizers / 2)

-- Two byte ranges by their addresses and lengths.
unfoldable pub ranges_overlap : ℕ → ℕ → ℕ → ℕ → Result Bool
ranges_overlap first first_bytes second second_bytes =
    if first_bytes == 0 || second_bytes == 0
    then ok false
    else throw_if (ltb (size_max - first_bytes) first || ltb (size_max - second_bytes) second)
        overflow_error
      >> ok (ltb first (second + second_bytes) && ltb second (first + first_bytes))
