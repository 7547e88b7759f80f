-- ===== src/Lowering/Rebuilt.antt =====
-- What a function is rebuilt to.
use lona_mvm.Prelude.{
  ℕ, ◌≡◌, refl, Bool, true, false, Option, some, none, List, [], ◌∷◌, Bool-cases, inl, inr, subst,
  if_both,
}
use lona_mvm.Prelude.Expected.{Expected, success, failure, Ensures, bind-Ensures}
use lona_mvm.Managed.Module.{ModuleView}
use lona_mvm.Managed.Store.{States}
use lona_mvm.Lowering.{
  IrType, is_void_type, same_type, NewValue, new_type, LoweringError, IrView, Maps, map_value,
  map_to, Signature,
}
use lona_mvm.Lowering.Replace.{
  OldBlock, OldFunction, Replacement, result_of, create_function_replacements,
}
use lona_mvm.Lowering.Instructions.{OldInstruction, NewInstruction, lower_instruction, result_type}
use lona_mvm.Lowering.Functions.{
  NewBlock, NewPhi, NewFunction, lowering_order, instructions_of, phis_in_order, map_lowered,
  with_instruction, lower_instructions, lower_blocks, check_incoming, lower_incoming, lower_phis,
  map_params, start_maps, rebuild_function, rebuild_functions, find_replacement, any_used,
  lower_managed_pointers,
}
use lona_mvm.Lowering.Stands.{Stands, MapsStand, map_to-MapsStand, map_value-Stands, same_type-eq}
use lona_mvm.Lowering.Meaning.{IsLowered, LowersTo, is_debug}
use lona_mvm.Lowering.Lowered.{lower_instruction-LowersTo}

any_value {ℓ} : {E : Type 0} {T : Type ℓ} (call : Expected E T) → Ensures (λ (x : T). Unit {0}) call
any_value (failure error) = tt
any_value (success x) = tt

module _ (ir : IrView) (m : ModuleView) (s : States) where
  -- One new instruction for each old one, in order, but for the calls of debug intrinsics.
  pub data AllLowered : List OldInstruction → List NewInstruction → Type 0 where
    none_left : AllLowered [] []
    dropped :
        {i : OldInstruction} {is : List OldInstruction} {news : List NewInstruction}
        → is_debug ir m s i ≡ true
        → AllLowered is news
        → AllLowered (i ∷ is) news
    kept :
        {i : OldInstruction} {is : List OldInstruction} {new : NewInstruction}
        {news : List NewInstruction}
        → IsLowered ir m s i new
        → AllLowered is news
        → AllLowered (i ∷ is) (new ∷ news)

  -- A new block for each block of the order.
  abbrev pub AllBlocks : List OldBlock → (order : List ℕ) → List NewBlock → Type 0
  AllBlocks blocks [] [] = Unit {0}
  AllBlocks blocks [] (new ∷ news) = ⊥
  AllBlocks blocks (b ∷ order) [] = ⊥
  AllBlocks blocks (b ∷ order) (new ∷ news) =
      (new.made_for ≡ b)
      × AllLowered (instructions_of blocks b) new.instructions
      × AllBlocks blocks order news

  -- As many incoming values as before, from the same blocks, each of the type of the phi.
  abbrev pub AllIncoming : IrType → List (ℕ × ℕ) → List (NewValue × ℕ) → Type 0
  AllIncoming type [] [] = Unit {0}
  AllIncoming type [] (new ∷ news) = ⊥
  AllIncoming type (old ∷ olds) [] = ⊥
  AllIncoming type ((v, block) ∷ olds) ((new, new_block) ∷ news) =
      (Stands ir v new × (new_type new ≡ type) × (new_block ≡ block)) × AllIncoming type olds news

  abbrev pub AllPhis : List (ℕ × List (ℕ × ℕ)) → List NewPhi → Type 0
  AllPhis [] [] = Unit {0}
  AllPhis [] (new ∷ news) = ⊥
  AllPhis (old ∷ olds) [] = ⊥
  AllPhis ((result, incoming) ∷ olds) (new ∷ news) =
      ((new.made_for ≡ result)
        × (new.type ≡ result_type ir m s result)
        × AllIncoming new.type incoming new.incoming)
      × AllPhis olds news

  pub record IsRebuilt (r : Replacement) (new : NewFunction) : Type 0 where
    pub blocks : AllBlocks r.old.blocks (lowering_order r.old) new.blocks
    pub phis : AllPhis (phis_in_order r.old.blocks (lowering_order r.old)) new.phis

  map_lowered-MapsStand :
      (i : OldInstruction) (lowered : Option NewInstruction) (maps : Maps)
      → MapsStand ir maps
      → MapsStand ir (map_lowered ir (result_of i) lowered maps)
  map_lowered-MapsStand i none maps stand = stand
  map_lowered-MapsStand i (some new) maps stand =
      if_both (MapsStand ir) (is_void_type (ir.type_of (result_of i))) (λ _. stand)
        (λ _. map_to-MapsStand ir (result_of i) new.type maps stand)

  add_lowered :
      (i : OldInstruction) (is : List OldInstruction) (lowered : Option NewInstruction)
      (news : List NewInstruction)
      → LowersTo ir m s i lowered
      → AllLowered is news
      → AllLowered (i ∷ is) (with_instruction lowered news)
  add_lowered i is none news first rest = AllLowered.dropped first rest
  add_lowered i is (some new) news first rest = AllLowered.kept first rest

  abbrev LoweredWith : List OldInstruction → List NewInstruction × Maps → Type 0
  LoweredWith is r = AllLowered is r.0 × MapsStand ir r.1

  lower_instructions-AllLowered :
      (return_type : IrType) (is : List OldInstruction) (maps : Maps)
      → MapsStand ir maps
      → Ensures (LoweredWith is) (lower_instructions ir m s return_type is maps)
  unfolding lower_instructions
  lower_instructions-AllLowered t [] maps stand = (AllLowered.none_left, stand)
  lower_instructions-AllLowered t (i ∷ is) maps stand =
      bind-Ensures (LowersTo ir m s i) (LoweredWith (i ∷ is)) (lower_instruction ir m s maps t i) _
        (lower_instruction-LowersTo ir m s maps stand t i)
        (λ lowered first.
          let after = map_lowered ir (result_of i) lowered maps in
          bind-Ensures (LoweredWith is) (LoweredWith (i ∷ is))
            (lower_instructions ir m s t is after) _
            (lower_instructions-AllLowered t is after (map_lowered-MapsStand i lowered maps stand))
            (λ rest all. (add_lowered i is lowered rest.0 first all.0, all.1)))

  abbrev BlocksWith : List OldBlock → List ℕ → List NewBlock × Maps → Type 0
  BlocksWith blocks order r = AllBlocks blocks order r.0 × MapsStand ir r.1

  lower_blocks-AllBlocks :
      (return_type : IrType) (blocks : List OldBlock) (order : List ℕ) (maps : Maps)
      → MapsStand ir maps
      → Ensures (BlocksWith blocks order) (lower_blocks ir m s return_type blocks order maps)
  unfolding lower_blocks
  lower_blocks-AllBlocks t blocks [] maps stand = (tt, stand)
  lower_blocks-AllBlocks t blocks (b ∷ order) maps stand =
      bind-Ensures (LoweredWith (instructions_of blocks b)) (BlocksWith blocks (b ∷ order))
        (lower_instructions ir m s t (instructions_of blocks b) maps) _
        (lower_instructions-AllLowered t (instructions_of blocks b) maps stand)
        (λ lowered first.
          bind-Ensures (BlocksWith blocks order) (BlocksWith blocks (b ∷ order))
            (lower_blocks ir m s t blocks order lowered.1) _
            (lower_blocks-AllBlocks t blocks order lowered.1 first.1)
            (λ rest all. ((refl, first.0, all.0), all.1)))

  abbrev OfType : IrType → ℕ → NewValue → Type 0
  OfType type v new = Stands ir v new × (new_type new ≡ type)

  check_incoming-OfType :
      (type : IrType) (v : ℕ) (new : NewValue)
      → Stands ir v new
      → Ensures (OfType type v) (check_incoming ir m s type new)
  check_incoming-OfType type v new stands = elim (Bool-cases (same_type (new_type new) type)) [
    | inl same ↦ rw same (stands, same_type-eq _ _ same)
    | inr other ↦ rw other tt
  ]

  lower_incoming-AllIncoming :
      (maps : Maps) (type : IrType) (incoming : List (ℕ × ℕ))
      → MapsStand ir maps
      → Ensures (AllIncoming type incoming) (lower_incoming ir m s maps type incoming)
  unfolding lower_incoming
  lower_incoming-AllIncoming maps type [] stand = tt
  lower_incoming-AllIncoming maps type ((v, block) ∷ incoming) stand =
      let all = AllIncoming type ((v, block) ∷ incoming) in
      bind-Ensures (Stands ir v) all (map_value ir maps v (some type)) _
        (map_value-Stands ir maps stand v (some type))
        (λ mapped stands.
          bind-Ensures (OfType type v) all (check_incoming ir m s type mapped) _
            (check_incoming-OfType type v mapped stands)
            (λ new ok.
              bind-Ensures (AllIncoming type incoming) all
                (lower_incoming ir m s maps type incoming) _
                (lower_incoming-AllIncoming maps type incoming stand)
                (λ more rest. ((ok.0, ok.1, refl), rest))))

  lower_phis-AllPhis :
      (maps : Maps) (phis : List (ℕ × List (ℕ × ℕ)))
      → MapsStand ir maps
      → Ensures (AllPhis phis) (lower_phis ir m s maps phis)
  unfolding lower_phis
  lower_phis-AllPhis maps [] stand = tt
  lower_phis-AllPhis maps ((result, incoming) ∷ phis) stand =
      let type = result_type ir m s result in
      bind-Ensures (AllIncoming type incoming) (AllPhis ((result, incoming) ∷ phis))
        (lower_incoming ir m s maps type incoming) _
        (lower_incoming-AllIncoming maps type incoming stand)
        (λ new ok.
          bind-Ensures (AllPhis phis) (AllPhis ((result, incoming) ∷ phis))
            (lower_phis ir m s maps phis) _ (lower_phis-AllPhis maps phis stand)
            (λ more rest. ((refl, refl, ok), rest)))

  map_params-MapsStand :
      (arguments : List ℕ) (types : List IrType) (maps : Maps)
      → MapsStand ir maps
      → MapsStand ir (map_params ir m s arguments types maps)
  map_params-MapsStand [] types maps stand = stand
  map_params-MapsStand (a ∷ more) [] maps stand = stand
  map_params-MapsStand (a ∷ more) (type ∷ types) maps stand =
      map_params-MapsStand more types (map_to a (NewValue.lowered a type) maps)
        (map_to-MapsStand ir a type maps stand)

  rebuild_function-IsRebuilt :
      (function_map : ℕ → Option Signature) (r : Replacement)
      → Ensures (IsRebuilt r) (rebuild_function ir m s function_map r)
  unfolding rebuild_function
  rebuild_function-IsRebuilt function_map r =
      let start = start_maps ir m s function_map r in
      let order = lowering_order r.old in
      bind-Ensures (BlocksWith r.old.blocks order) (IsRebuilt r)
        (lower_blocks ir m s r.signature.return_type r.old.blocks order start) _
        (lower_blocks-AllBlocks r.signature.return_type r.old.blocks order start
          (map_params-MapsStand r.old.arguments r.signature.params _ (λ v new e. cc)))
        (λ lowered all.
          bind-Ensures (AllPhis (phis_in_order r.old.blocks order)) (IsRebuilt r)
            (lower_phis ir m s lowered.1 (phis_in_order r.old.blocks order)) _
            (lower_phis-AllPhis lowered.1 (phis_in_order r.old.blocks order) all.1)
            (λ phis ok. record { blocks = all.0; phis = ok }))

  -- The replacements with a body are rebuilt, in order.
  pub data AllRebuilt : List Replacement → List (Replacement × NewFunction) → Type 0 where
    none_left : AllRebuilt [] []
    declared :
        {r : Replacement} {rs : List Replacement} {news : List (Replacement × NewFunction)}
        → r.old.is_declaration ≡ true
        → AllRebuilt rs news
        → AllRebuilt (r ∷ rs) news
    defined :
        {r : Replacement} {rs : List Replacement} {new : NewFunction}
        {news : List (Replacement × NewFunction)}
        → r.old.is_declaration ≡ false
        → IsRebuilt r new
        → AllRebuilt rs news
        → AllRebuilt (r ∷ rs) ((r, new) ∷ news)

  rebuild_functions-AllRebuilt :
      (function_map : ℕ → Option Signature) (rs : List Replacement)
      → Ensures (AllRebuilt rs) (rebuild_functions ir m s function_map rs)
  unfolding rebuild_functions
  rebuild_functions-AllRebuilt function_map [] = AllRebuilt.none_left
  rebuild_functions-AllRebuilt function_map (r ∷ rs) =
      if_both (Ensures (AllRebuilt (r ∷ rs))) r.old.is_declaration
        (λ d.
          declared_first r rs (rebuild_functions ir m s function_map rs) d
            (rebuild_functions-AllRebuilt function_map rs))
        (λ d.
          bind-Ensures (IsRebuilt r) (AllRebuilt (r ∷ rs)) (rebuild_function ir m s function_map r)
            _ (rebuild_function-IsRebuilt function_map r)
            (λ new first.
              bind-Ensures (AllRebuilt rs) (AllRebuilt (r ∷ rs))
                (rebuild_functions ir m s function_map rs) _
                (rebuild_functions-AllRebuilt function_map rs)
                (λ more rest. AllRebuilt.defined d first rest)))
    where
      declared_first :
          (r : Replacement) (rs : List Replacement)
          (rest : Expected LoweringError (List (Replacement × NewFunction)))
          → r.old.is_declaration ≡ true
          → Ensures (AllRebuilt rs) rest
          → Ensures (AllRebuilt (r ∷ rs)) rest
      declared_first r rs (failure error) d all = tt
      declared_first r rs (success news) d all = AllRebuilt.declared d all

  module _ (i64 : IrType) (use_empty : ℕ → Bool) (functions : List OldFunction) where
    abbrev Rewritten : List Replacement × List (Replacement × NewFunction) → Type 0
    Rewritten r = AllRebuilt r.0 r.1 × (any_used ir m s use_empty r.0 ≡ false)

    lower_managed_pointers-Rewritten :
        Ensures Rewritten (lower_managed_pointers ir m s i64 use_empty functions)
    unfolding lower_managed_pointers
    lower_managed_pointers-Rewritten =
        bind-Ensures (λ (rs : List Replacement). Unit {0}) Rewritten
          (create_function_replacements ir m s i64 functions) _ (any_value _)
          (λ rs _.
            bind-Ensures (AllRebuilt rs) Rewritten
              (rebuild_functions ir m s (find_replacement ir m s rs) rs) _
              (rebuild_functions-AllRebuilt (find_replacement ir m s rs) rs)
              (λ rebuilt all. elim (Bool-cases (any_used ir m s use_empty rs)) [
                | inl used ↦ rw used tt
                | inr unused ↦ rw unused (all, unused)
              ]))

    -- When the lowering succeeds, no function that is replaced has a use left, and each replacement
    -- with a body has it rebuilt: for each block, in the lowering order, a block with one new
    -- instruction for each old one but the calls of debug intrinsics, in order, which does the same
    -- with operands that stand for the old ones; what a store writes has the type that its slot or
    -- location wants, and instructions that the lowering does not know see the types that they had;
    -- and each phi gets all its incoming values, from the same blocks and of its own type.
    pub lower_managed_pointers-Rebuilt :
        (replacements : List Replacement) (rebuilt : List (Replacement × NewFunction))
        → lower_managed_pointers ir m s i64 use_empty functions ≡ success (replacements, rebuilt)
        → AllRebuilt replacements rebuilt × (any_used ir m s use_empty replacements ≡ false)
    lower_managed_pointers-Rebuilt replacements rebuilt e =
        subst (Ensures Rewritten) e lower_managed_pointers-Rewritten
