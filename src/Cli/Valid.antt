-- ===== src/Cli/Valid.antt =====
-- What options that are accepted satisfy.
use lona_mvm.Prelude.{
  ℕ, ◌≤◌, ◌≡◌, refl, ◌⊎◌, inl, inr, Bool, true, false, not, Option, none, some, List, [], ◌∷◌, ◌++◌,
  arith, Bool-cases, subst,
}
use lona_mvm.Prelude.Expected.{Expected, success, ◌>>=◌, Expected-cases}
use lona_mvm.Cli.Text.{Bytes, text, is_same, has_prefix}
use lona_mvm.Cli.{
  Options, default_options, CliError, ParsedLong, max_u64, ArgKind, kind_of, parse_opt_level,
  parse_heap_size, with_opt_level, with_heap_size, with_input, check_input, parse_arg, parse_args,
  parse_command_line, end_of_options, help, dump_ir, entry, heap_size, opt_level, joined_opt_level,
  joined_heap_size, unknown, input,
}
use lona_mvm.Cli.Range.{parse_opt_level-range, parse_heap_size-range}

-- The settings that every step keeps.
pub record Settings (o : Options) : Type 0 where
  pub opt_least : 1 ≤ o.opt_level
  pub opt_most : o.opt_level ≤ 3
  pub heap_least : 1 ≤ o.heap_size_bytes
  pub heap_most : o.heap_size_bytes ≤ max_u64
  pub no_option : has_prefix o.input_path (text "-") ≡ false

-- Help is asked for, or there is an input.
abbrev pub Accepted : Options → Type 0
Accepted o = Settings o × ((o.show_help ≡ true) ⊎ (is_same o.input_path [] ≡ false))

kind_of-input : (arg : Bytes) → kind_of arg ≡ input → has_prefix arg (text "-") ≡ false
unfolding kind_of
kind_of-input arg h = ground arith

module _ (strtol : Bytes → ParsedLong) (strtoull : Bytes → ℕ) where
  -- Going on from good settings leads to accepted options only.
  abbrev GoesWell : (Options → Expected CliError Options) → Type 0
  GoesWell next = (o r : Options) → Settings o → next o ≡ success r → Accepted r

  check_input-GoesWell : GoesWell check_input
  check_input-GoesWell o r settings h = elim (Bool-cases (is_same o.input_path [])) [
    | inl missing ↦ absurd (ground arith)
    | inr present ↦ subst Accepted (ground arith) (settings, inr present)
  ]

  with_opt_level-GoesWell :
      (value : Bytes) (next : Options → Expected CliError Options)
      → GoesWell next
      → GoesWell (λ o. with_opt_level strtol strtoull o value >>= next)
  with_opt_level-GoesWell value next well o r settings h =
      elim (Expected-cases (parse_opt_level strtol strtoull value)) [
        | inr (e, failed) ↦ absurd (ground arith)
        | inl (level, parsed) ↦
            let (least, most) = parse_opt_level-range strtol strtoull value level parsed in
            well (record o { opt_level = level }) r
              (record {
                opt_least = least;
                opt_most = most;
                heap_least = settings.heap_least;
                heap_most = settings.heap_most;
                no_option = settings.no_option;
              })
              (ground arith)
      ]

  with_heap_size-GoesWell :
      (value : Bytes) (next : Options → Expected CliError Options)
      → GoesWell next
      → GoesWell (λ o. with_heap_size strtol strtoull o value >>= next)
  with_heap_size-GoesWell value next well o r settings h =
      elim (Expected-cases (parse_heap_size strtol strtoull value)) [
        | inr (e, failed) ↦ absurd (ground arith)
        | inl (n, parsed) ↦
            let (least, most) = parse_heap_size-range strtol strtoull value n parsed in
            well (record o { heap_size_bytes = n }) r
              (record {
                opt_least = settings.opt_least;
                opt_most = settings.opt_most;
                heap_least = least;
                heap_most = most;
                no_option = settings.no_option;
              })
              (ground arith)
      ]

  with_input-GoesWell :
      (arg : Bytes) (next : Options → Expected CliError Options)
      → has_prefix arg (text "-") ≡ false
      → GoesWell next
      → GoesWell (λ o. with_input o arg >>= next)
  with_input-GoesWell arg next plain well o r settings h =
      elim (Bool-cases (not (is_same o.input_path []))) [
        | inl second ↦ absurd (ground arith)
        | inr first ↦
            well (record o { input_path = arg }) r
              (record {
                opt_least = settings.opt_least;
                opt_most = settings.opt_most;
                heap_least = settings.heap_least;
                heap_most = settings.heap_most;
                no_option = plain;
              })
              (ground arith)
      ]

  kept :
      (o : Options) (e : Bytes) (d : Bool) (ps : List Bytes)
      → Settings o
      → Settings (record o { entry_symbol = e; dump_ir = d; program_args = ps })
  kept o e d ps settings = record {
    opt_least = settings.opt_least;
    opt_most = settings.opt_most;
    heap_least = settings.heap_least;
    heap_most = settings.heap_most;
    no_option = settings.no_option;
  }

  -- What goes on behind the next argument goes well.
  abbrev ValueGoesWell : Option (Bytes × (Options → Expected CliError Options)) → Type 0
  ValueGoesWell none = Unit {0}
  ValueGoesWell (some (v, skip)) = GoesWell skip

  parse_arg-GoesWell :
      (k : ArgKind) (arg : Bytes) (after : List Bytes) (next : Options → Expected CliError Options)
      (value : Option (Bytes × (Options → Expected CliError Options)))
      → kind_of arg ≡ k
      → GoesWell next
      → ValueGoesWell value
      → GoesWell (λ o. parse_arg strtol strtoull k arg o after next value)
  unfolding parse_arg
  parse_arg-GoesWell end_of_options arg after next value e well skips o r settings h =
      check_input-GoesWell _ r (kept o o.entry_symbol o.dump_ir (o.program_args ++ after) settings)
        h
  parse_arg-GoesWell help arg after next value e well skips o r settings h =
      subst Accepted (ground arith) (helped o settings)
    where
      helped : (o : Options) → Settings o → Accepted (record o { show_help = true })
      helped o settings = (
        record {
          opt_least = settings.opt_least;
          opt_most = settings.opt_most;
          heap_least = settings.heap_least;
          heap_most = settings.heap_most;
          no_option = settings.no_option;
        },
        inl refl,
      )
  parse_arg-GoesWell dump_ir arg after next value e well skips o r settings h =
      well _ r (kept o o.entry_symbol true o.program_args settings) h
  parse_arg-GoesWell entry arg after next none e well skips o r settings h = absurd (ground arith)
  parse_arg-GoesWell entry arg after next (some (v, skip)) e well skips o r settings h =
      skips _ r (kept o v o.dump_ir o.program_args settings) h
  parse_arg-GoesWell heap_size arg after next none e well skips o r settings h =
      absurd (ground arith)
  parse_arg-GoesWell heap_size arg after next (some (v, skip)) e well skips o r settings h =
      with_heap_size-GoesWell v skip skips o r settings h
  parse_arg-GoesWell opt_level arg after next none e well skips o r settings h =
      absurd (ground arith)
  parse_arg-GoesWell opt_level arg after next (some (v, skip)) e well skips o r settings h =
      with_opt_level-GoesWell v skip skips o r settings h
  parse_arg-GoesWell (joined_opt_level v) arg after next value e well skips o r settings h =
      with_opt_level-GoesWell v next well o r settings h
  parse_arg-GoesWell (joined_heap_size v) arg after next value e well skips o r settings h =
      with_heap_size-GoesWell v next well o r settings h
  parse_arg-GoesWell unknown arg after next value e well skips o r settings h =
      absurd (ground arith)
  parse_arg-GoesWell input arg after next value e well skips o r settings h =
      with_input-GoesWell arg next (kind_of-input arg e) well o r settings h

  parse_args-GoesWell : (args : List Bytes) → GoesWell (parse_args strtol strtoull args)
  unfolding parse_args
  parse_args-GoesWell [] o r settings h = check_input-GoesWell o r settings h
  parse_args-GoesWell (arg ∷ []) o r settings h =
      parse_arg-GoesWell (kind_of arg) arg [] check_input none refl check_input-GoesWell tt o r
        settings h
  parse_args-GoesWell (arg ∷ value ∷ rest) o r settings h =
      parse_arg-GoesWell (kind_of arg) arg (value ∷ rest)
        (parse_args strtol strtoull (value ∷ rest)) (some (value, parse_args strtol strtoull rest))
        refl (parse_args-GoesWell (value ∷ rest)) (parse_args-GoesWell rest) o r settings h

  -- Options that are accepted have an optimization level from 1 to 3, a heap size of at least one
  -- byte that fits in 64 bits, and an input path that does not start with a dash, which is there
  -- unless help is asked for.
  pub parse_command_line-Accepted :
      (args : List Bytes) (r : Options)
      → parse_command_line strtol strtoull args ≡ success r
      → Accepted r
  unfolding parse_command_line
  parse_command_line-Accepted args r h =
      parse_args-GoesWell args default_options r
        (record {
          opt_least = omega arith;
          opt_most = omega arith;
          heap_least = omega arith;
          heap_most = omega arith;
          no_option = refl;
        })
        h
