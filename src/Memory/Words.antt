-- ===== src/Memory/Words.antt =====
-- The word arithmetic of src/mvm/runtime_memory.cc on an LP64 target, where size_t and uintptr_t
-- have 64 bits. An out parameter with a Boolean result is an Option.
pub mod Laws
use lona_mvm.Prelude.{
  ℕ, ◌+◌, ◌-◌, ◌*◌, ◌/◌, ◌%◌, ◌^◌, Bool, ◌&&◌, not, Option, none, some, if◌then◌else◌, ltb, ◌==◌,
  bit_and,
}

-- 2 ^ 64
abbrev pub word : ℕ
word = 2 ^ 64

-- std::numeric_limits<std::size_t>::max()
abbrev pub size_max : ℕ
size_max = word - 1

-- alignof(std::max_align_t), and sizeof and alignof of AllocationHeader: nine words and two bools.
abbrev pub default_alignment : ℕ
default_alignment = 16

abbrev pub header_size : ℕ
header_size = 80

abbrev pub header_alignment : ℕ
header_alignment = 8

abbrev pub allocation_page_bytes : ℕ
allocation_page_bytes = 2 ^ 12

abbrev pub managed_slab_page_bytes : ℕ
managed_slab_page_bytes = 64 * 1024

abbrev pub max_slab_payload_bytes : ℕ
max_slab_payload_bytes = 512

abbrev pub max_slab_alignment : ℕ
max_slab_alignment = 64

-- 0x4D564D4152524159
abbrev pub allocation_magic : ℕ
allocation_magic = 0x4D56_4D41_5252_4159

unfoldable pub is_power_of_two : ℕ → Bool
is_power_of_two value = not (value == 0) && (bit_and value ((value + word - 1) % word) == 0)

unfoldable pub to_size : ℕ → Option ℕ
to_size value = if ltb size_max value then none else some value

unfoldable pub checked_add : ℕ → ℕ → Option ℕ
checked_add lhs rhs = if ltb (size_max - rhs) lhs then none else some ((lhs + rhs) % word)

unfoldable pub checked_mul : ℕ → ℕ → Option ℕ
checked_mul lhs rhs =
    if not (lhs == 0) && ltb (size_max / lhs) rhs then none else some (lhs * rhs % word)

-- value + (alignment - 1), with the low bits cleared by the complement of alignment - 1.
unfoldable pub align_up : ℕ → ℕ → ℕ
align_up value alignment =
    let low = (alignment + word - 1) % word in bit_and ((value + low) % word) (word - 1 - low)

unfoldable pub allocation_page_for_address : ℕ → ℕ
allocation_page_for_address address = address / 2 ^ 12

unfoldable pub allocation_last_address : ℕ → ℕ → ℕ
allocation_last_address payload_address payload_size =
    let offset = (payload_size + word - 1) % word in
    if ltb (size_max - offset) payload_address then size_max else payload_address + offset
