-- ===== src/Cli/Tests.antt =====
-- Reading command lines, with concrete functions for those of the C library.
use lona_mvm.Prelude.{ℕ, ◌*◌, ◌≡◌, refl, true, false, [], ◌∷◌, if◌then◌else◌, leb, arith}
use lona_mvm.Prelude.Expected.{success}
use lona_mvm.Cli.Text.{Bytes, text, take_digits, drop_digits}
use lona_mvm.Cli.{
  Options, default_options, ParsedLong, max_u64, parse_opt_level, parse_heap_size,
  parse_command_line, scaled, parse_args, parse_arg, kind_of,
}
use lona_mvm.Cli.HeapSize.{decimal, expected_size, parse_heap_size_lem}
use lona_mvm.Cli.Valid.{Accepted, parse_command_line-Accepted}
use lona_mvm.Cli.RoundTrip.{written, parse_command_line-written}

abbrev strtol : Bytes → ParsedLong
strtol t = record { is_negative = false; magnitude = decimal (take_digits t); rest = drop_digits t }

abbrev strtoull : Bytes → ℕ
strtoull t = if leb (decimal t) max_u64 then decimal t else max_u64

parse_heap_size_lem_example :
    parse_heap_size strtol strtoull (text "8M") ≡ expected_size (text "8M") 8 (1024 * 1024)
parse_heap_size_lem_example =
    parse_heap_size_lem strtol strtoull 56 [] (text "M") (1024 * 1024) (λ d ds all. refl) (refl, tt)
      refl (omega arith)

abbrev sample : Options
sample = record default_options {
  dump_ir = true;
  opt_level = 3;
  heap_size_bytes = 4096;
  input_path = text "a.bc";
  entry_symbol = text "--";
  program_args = text "-h" ∷ text "x" ∷ [];
}

level-parsed : parse_opt_level strtol strtoull (text "3") ≡ success 3
unfolding parse_opt_level
level-parsed = refl

heap-parsed : parse_heap_size strtol strtoull (text "4k") ≡ success 4096
unfolding parse_heap_size scaled
heap-parsed = refl

parse_command_line-written_example :
    parse_command_line strtol strtoull (written sample (text "3") (text "4k")) ≡ success sample
parse_command_line-written_example =
    parse_command_line-written strtol strtoull sample (text "3") (text "4k") refl level-parsed
      heap-parsed refl refl

sample-parsed :
    parse_command_line strtol strtoull (text "-O1" ∷ text "b.bc" ∷ [])
    ≡ success (record default_options { opt_level = 1; input_path = text "b.bc" })
unfolding parse_command_line parse_args parse_arg kind_of parse_opt_level
sample-parsed = refl

parse_command_line-Accepted_example :
    Accepted (record default_options { opt_level = 1; input_path = text "b.bc" })
parse_command_line-Accepted_example =
    parse_command_line-Accepted strtol strtoull (text "-O1" ∷ text "b.bc" ∷ [])
      (record default_options { opt_level = 1; input_path = text "b.bc" }) sample-parsed
