-- ===== src/Cli.antt =====
-- cli.cc: the command line. A text is the list of its bytes; `strtol` and `strtoull` are the C
-- library's, the first with the rest that it does not read.
pub mod Text
pub mod Range
pub mod HeapSize
pub mod Valid
pub mod RoundTrip
mod Tests
use lona_mvm.Prelude.{
  ℕ, ◌+◌, ◌-◌, ◌*◌, ◌/◌, ◌^◌, Bool, true, false, not, ◌&&◌, ◌||◌, Option, none, some, List, [], ◌∷◌,
  ◌++◌, if◌then◌else◌, ltb, leb, ◌==◌, length,
}
use lona_mvm.Prelude.Expected.{Expected, success, failure, ◌>>=◌}
use lona_mvm.Cli.Text.{Bytes, text, is_same, is_digit, take_digits, drop_digits, has_prefix, drop}

pub record Options : Type 0 where
  pub show_help : Bool
  pub dump_ir : Bool
  pub opt_level : ℕ
  pub heap_size_bytes : ℕ
  pub input_path : Bytes
  pub entry_symbol : Bytes
  pub program_args : List Bytes

abbrev pub default_options : Options
default_options = record {
  show_help = false;
  dump_ir = false;
  opt_level = 2;
  heap_size_bytes = 8 * 1024 * 1024;
  input_path = [];
  entry_symbol = [];
  program_args = [];
}

-- One constructor for each message.
pub data CliError : Type 0 where
  invalid_opt_level : Bytes → CliError
  unsupported_opt_level : CliError
  invalid_heap_size : Bytes → CliError
  invalid_heap_size_suffix : Bytes → CliError
  heap_size_too_large : Bytes → CliError
  missing_symbol : CliError
  missing_value : Bytes → CliError
  unknown_option : Bytes → CliError
  multiple_inputs : CliError
  missing_input : CliError

-- What strtol reads: a sign, a magnitude, and the text from `end` on.
pub record ParsedLong : Type 0 where
  pub is_negative : Bool
  pub magnitude : ℕ
  pub rest : Bytes

abbrev pub max_u64 : ℕ
max_u64 = 2 ^ 64 - 1

abbrev pub multiplier : Bytes → Option ℕ
multiplier suffix =
    if is_same suffix []
    then some 1
    else if is_same suffix (text "K") || is_same suffix (text "k")
    then some 1024
    else if is_same suffix (text "M") || is_same suffix (text "m")
    then some (1024 * 1024)
    else if is_same suffix (text "G") || is_same suffix (text "g")
    then some (1024 * 1024 * 1024)
    else none

-- parsed * multiplier, if it fits.
unfoldable pub scaled : Bytes → (parsed : ℕ) → Option ℕ → Expected CliError ℕ
scaled value parsed none = failure (invalid_heap_size_suffix value)
scaled value parsed (some factor) =
    if ltb (max_u64 / factor) parsed
    then failure (heap_size_too_large value)
    else success (parsed * factor)

-- What an argument is, by the tests in their order.
pub data ArgKind : Type 0 where
  end_of_options help dump_ir entry heap_size opt_level : ArgKind
  joined_opt_level : Bytes → ArgKind
  joined_heap_size : Bytes → ArgKind
  unknown : ArgKind
  input : ArgKind

abbrev pub is_joined_opt_level : Bytes → Bool
is_joined_opt_level arg = (length arg == 3) && has_prefix arg (text "-O")

abbrev pub is_joined_heap_size : Bytes → Bool
is_joined_heap_size arg = has_prefix arg (text "-Xm") && ltb 3 (length arg)

unfoldable pub kind_of : Bytes → ArgKind
kind_of arg =
    if is_same arg (text "--")
    then end_of_options
    else if is_same arg (text "-h") || is_same arg (text "--help")
    then help
    else if is_same arg (text "--dump-ir")
    then dump_ir
    else if is_same arg (text "--entry")
    then entry
    else if is_same arg (text "--heap-size") || is_same arg (text "-Xm")
    then heap_size
    else if is_same arg (text "-O")
    then opt_level
    else if is_joined_opt_level arg
    then joined_opt_level (drop 2 arg)
    else if is_joined_heap_size arg
    then joined_heap_size (drop 3 arg)
    else if has_prefix arg (text "-")
    then unknown
    else input

abbrev pub with_input : Options → Bytes → Expected CliError Options
with_input o arg =
    if not (is_same o.input_path [])
    then failure multiple_inputs
    else success (record o { input_path = arg })

-- The test after the loop.
abbrev pub check_input : Options → Expected CliError Options
check_input o = if is_same o.input_path [] then failure missing_input else success o

module _ (strtol : Bytes → ParsedLong) (strtoull : Bytes → ℕ) where
  unfoldable pub parse_opt_level : Bytes → Expected CliError ℕ
  parse_opt_level value =
      let parsed = strtol value in
      if not (is_same parsed.rest [])
        || (parsed.is_negative && not (parsed.magnitude == 0))
        || ltb 3 parsed.magnitude
      then failure (invalid_opt_level value)
      else if parsed.magnitude == 0
      then failure unsupported_opt_level
      else success parsed.magnitude

  -- The size of a text with these digits and this suffix. strtoull reads all of the digits.
  abbrev pub size_of : (value digits suffix : Bytes) → Expected CliError ℕ
  size_of value digits suffix =
      if is_same value [] || (length digits == 0)
      then failure (invalid_heap_size value)
      else if strtoull digits == 0
      then failure (invalid_heap_size value)
      else scaled value (strtoull digits) (multiplier suffix)

  unfoldable pub parse_heap_size : Bytes → Expected CliError ℕ
  parse_heap_size value = size_of value (take_digits value) (drop_digits value)

  abbrev pub with_opt_level : Options → Bytes → Expected CliError Options
  with_opt_level o value =
      parse_opt_level value >>= λ level. success (record o { opt_level = level })

  abbrev pub with_heap_size : Options → Bytes → Expected CliError Options
  with_heap_size o value = parse_heap_size value >>= λ n. success (record o { heap_size_bytes = n })

  -- One argument. `after` is what follows it, `next` goes on there; `value` is the next argument,
  -- with what goes on behind it.
  unfoldable pub parse_arg :
      ArgKind
      → (arg : Bytes) → Options
      → (after : List Bytes) (next : Options → Expected CliError Options)
        (value : Option (Bytes × (Options → Expected CliError Options)))
      → Expected CliError Options
  parse_arg end_of_options arg o after next value =
      check_input (record o { program_args = o.program_args ++ after })
  parse_arg help arg o after next value = success (record o { show_help = true })
  parse_arg dump_ir arg o after next value = next (record o { dump_ir = true })
  parse_arg entry arg o after next none = failure missing_symbol
  parse_arg entry arg o after next (some (v, skip)) = skip (record o { entry_symbol = v })
  parse_arg heap_size arg o after next none = failure (missing_value arg)
  parse_arg heap_size arg o after next (some (v, skip)) = with_heap_size o v >>= skip
  parse_arg opt_level arg o after next none = failure (missing_value arg)
  parse_arg opt_level arg o after next (some (v, skip)) = with_opt_level o v >>= skip
  parse_arg (joined_opt_level v) arg o after next value = with_opt_level o v >>= next
  parse_arg (joined_heap_size v) arg o after next value = with_heap_size o v >>= next
  parse_arg unknown arg o after next value = failure (unknown_option arg)
  parse_arg input arg o after next value = with_input o arg >>= next

  -- The loop over the arguments. After "--", they are the program's.
  unfoldable pub parse_args : List Bytes → Options → Expected CliError Options
  parse_args [] o = check_input o
  parse_args (arg ∷ []) o = parse_arg (kind_of arg) arg o [] check_input none
  parse_args (arg ∷ value ∷ rest) o =
      parse_arg (kind_of arg) arg o (value ∷ rest) (parse_args (value ∷ rest))
        (some (value, parse_args rest))

  -- The arguments from argv[1] on.
  unfoldable pub parse_command_line : List Bytes → Expected CliError Options
  parse_command_line args = parse_args args default_options
