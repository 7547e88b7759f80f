-- ===== src/Cli/RoundTrip.antt =====
-- Options that are written out are read back.
use lona_mvm.Prelude.{
  ℕ, ◌≡◌, refl, Bool, true, false, List, [], ◌∷◌, if◌then◌else◌, ◌==◌, arith, ap, ap₂, sym, ◌∙◌,
}
use lona_mvm.Prelude.Expected.{Expected, success, ◌>>=◌}
use lona_mvm.Cli.Text.{Bytes, text, is_same, has_prefix}
use lona_mvm.Cli.{
  Options, default_options, CliError, ParsedLong, kind_of, parse_opt_level, parse_heap_size,
  check_input, parse_arg, parse_args, parse_command_line, input,
}

-- A command line for options, with texts for the optimization level and for the heap size.
abbrev pub written_from_entry : Options → (level heap : Bytes) → List Bytes
written_from_entry o level heap =
    text "--entry"
    ∷ o.entry_symbol
    ∷ text "-O"
    ∷ level
    ∷ text "--heap-size"
    ∷ heap
    ∷ o.input_path
    ∷ text "--"
    ∷ o.program_args

abbrev pub written : Options → (level heap : Bytes) → List Bytes
written o level heap =
    if o.dump_ir
    then text "--dump-ir" ∷ written_from_entry o level heap
    else written_from_entry o level heap

not_dash : (a : ℕ) (arg : Bytes) → (a == 45) ≡ false → kind_of (a ∷ arg) ≡ input
unfolding kind_of
not_dash a arg h = ground arith

plain-input : (arg : Bytes) → has_prefix arg (text "-") ≡ false → kind_of arg ≡ input
unfolding kind_of
plain-input [] h = refl
plain-input (a ∷ arg) h = not_dash a arg (ground arith)

check_input-success : (o : Options) → is_same o.input_path [] ≡ false → check_input o ≡ success o
check_input-success o there = rw there refl

module _ (strtol : Bytes → ParsedLong) (strtoull : Bytes → ℕ) where
  program_args-read :
      (o : Options) (args : List Bytes)
      → is_same o.input_path [] ≡ false
      → parse_args strtol strtoull (text "--" ∷ args) (record o { program_args = [] })
        ≡ success (record o { program_args = args })
  unfolding parse_args parse_arg kind_of
  program_args-read o [] there = check_input-success (record o { program_args = [] }) there
  program_args-read o (a ∷ args) there =
      check_input-success (record o { program_args = a ∷ args }) there

  input-read :
      (o : Options) (path : Bytes) (args : List Bytes)
      → has_prefix path (text "-") ≡ false
      → is_same path [] ≡ false
      → parse_args strtol strtoull
          (path ∷ text "--" ∷ args)
          (record o { input_path = []; program_args = [] })
        ≡ success (record o { input_path = path; program_args = args })
  unfolding parse_args parse_arg
  input-read o path args plain there =
      rw (plain-input path plain) (program_args-read (record o { input_path = path }) args there)

  opt_level-read :
      (s : Options) (level : Bytes) (n : ℕ) (rest : List Bytes)
      → parse_opt_level strtol strtoull level ≡ success n
      → parse_args strtol strtoull (text "-O" ∷ level ∷ rest) s
        ≡ parse_args strtol strtoull rest (record s { opt_level = n })
  unfolding parse_args parse_arg kind_of
  opt_level-read s level n rest h =
      ap
        (λ m. m >>= (λ k. success (record s { opt_level = k })) >>= parse_args strtol strtoull rest)
        h

  heap_size-read :
      (s : Options) (heap : Bytes) (n : ℕ) (rest : List Bytes)
      → parse_heap_size strtol strtoull heap ≡ success n
      → parse_args strtol strtoull (text "--heap-size" ∷ heap ∷ rest) s
        ≡ parse_args strtol strtoull rest (record s { heap_size_bytes = n })
  unfolding parse_args parse_arg kind_of
  heap_size-read s heap n rest h =
      ap
        (λ m.
          m
          >>= (λ k. success (record s { heap_size_bytes = k }))
          >>= parse_args strtol strtoull rest)
        h

  entry-read :
      (s : Options) (symbol : Bytes) (rest : List Bytes)
      → parse_args strtol strtoull (text "--entry" ∷ symbol ∷ rest) s
        ≡ parse_args strtol strtoull rest (record s { entry_symbol = symbol })
  unfolding parse_args parse_arg kind_of
  entry-read s symbol rest = refl

  dump_ir-read :
      (s : Options) (arg : Bytes) (rest : List Bytes)
      → parse_args strtol strtoull (text "--dump-ir" ∷ arg ∷ rest) s
        ≡ parse_args strtol strtoull (arg ∷ rest) (record s { dump_ir = true })
  unfolding parse_args parse_arg kind_of
  dump_ir-read s arg rest = refl

  -- The rest of the command line, behind the flag.
  written_from_entry-read :
      (o : Options) (d : Bool) (level heap : Bytes)
      → parse_opt_level strtol strtoull level ≡ success o.opt_level
      → parse_heap_size strtol strtoull heap ≡ success o.heap_size_bytes
      → has_prefix o.input_path (text "-") ≡ false
      → is_same o.input_path [] ≡ false
      → parse_args strtol strtoull
          (written_from_entry o level heap)
          (record default_options { dump_ir = d })
        ≡ success (record o { dump_ir = d; show_help = false })
  written_from_entry-read o d level heap leveled sized plain there =
      entry-read _ o.entry_symbol _
      ∙ opt_level-read _ level o.opt_level _ leveled
      ∙ heap_size-read _ heap o.heap_size_bytes _ sized
      ∙ input-read (record o { dump_ir = d; show_help = false }) o.input_path o.program_args plain
          there

  -- A command line that is written from options is read back to these options: options without help,
  -- with an input path that is not empty and does not start with a dash, and with texts for the level
  -- and for the heap size that stand for theirs. The entry symbol and the program's arguments are
  -- any texts.
  pub parse_command_line-written :
      (o : Options) (level heap : Bytes)
      → o.show_help ≡ false
      → parse_opt_level strtol strtoull level ≡ success o.opt_level
      → parse_heap_size strtol strtoull heap ≡ success o.heap_size_bytes
      → has_prefix o.input_path (text "-") ≡ false
      → is_same o.input_path [] ≡ false
      → parse_command_line strtol strtoull (written o level heap) ≡ success o
  unfolding parse_command_line
  parse_command_line-written o level heap no_help leveled sized plain there = by_dump o.dump_ir refl
    where
      read_as :
          (d : Bool)
          → o.dump_ir ≡ d
          → ◌≡◌ {A = Expected CliError Options}
              (success (record o { dump_ir = d; show_help = false }))
              (success o)
      read_as d e =
          ap₂ (λ x y. success (record o { dump_ir = x; show_help = y })) (sym e) (sym no_help)

      by_dump :
          (d : Bool)
          → o.dump_ir ≡ d
          → parse_args strtol strtoull
              (if d
                then text "--dump-ir" ∷ written_from_entry o level heap
                else written_from_entry o level heap)
              default_options
            ≡ success o
      by_dump true e =
          dump_ir-read default_options _ _
          ∙ written_from_entry-read o true level heap leveled sized plain there
          ∙ read_as true e
      by_dump false e =
          written_from_entry-read o false level heap leveled sized plain there ∙ read_as false e
