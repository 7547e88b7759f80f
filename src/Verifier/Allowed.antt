-- ===== src/Verifier/Allowed.antt =====
-- What a module has to satisfy to be accepted.
use Prim.Native.String.{String}
use text.Mathlib.Text.{◌==◌ as ◌≐◌}
use lona_mvm.Prelude.{
  ◌≡◌, refl, ◌↔◌, inl, inr, true, false, Option, none, some, List, [], ◌∷◌, ◌++◌, if◌then◌else◌,
  Among, here, there, arith, Bool-cases, ap, ap₂,
}
use lona_mvm.Prelude.Expected.{success}
use lona_mvm.Verifier.{
  inline_asm, function, other_callee, InstructionKind, ptr_to_int, int_to_ptr, addr_space_cast,
  call, other_instruction, VerifiedInstruction, VerifiedFunction, VerifiedModule, Violation,
  callee_reason, instruction_reason, recorded, instruction_violations, lacks_subprogram,
  function_violations, refused, verify, missing_subprogram, Reason,
}

-- The text is none of the list.
abbrev pub NoneOf : String → List String → Type 0
NoneOf name [] = Unit {0}
NoneOf name (t ∷ ts) = ((name ≐ t) ≡ false) × NoneOf name ts

-- Instructions that managed code may have.
pub data Allowed : InstructionKind → Type 0 where
  plain : Allowed other_instruction
  indirect_call : Allowed (call other_callee)
  named_call :
      {name : String}
      → NoneOf name
          ("malloc" ∷ "calloc" ∷ "realloc" ∷ "free" ∷ "__mvm_free" ∷ "__mvm_array_free" ∷ [])
      → Allowed (call (function name))

pub record AllowedFunction (f : VerifiedFunction) : Type 0 where
  pub debug_info : lacks_subprogram f ≡ false
  pub instructions : (i : VerifiedInstruction) → Among i f.instructions → Allowed i.kind

pub record AllowedModule (m : VerifiedModule) : Type 0 where
  pub debug_units : m.has_debug_compile_units ≡ true
  pub no_asm : m.has_inline_asm ≡ false
  pub functions : (f : VerifiedFunction) → Among f m.functions → AllowedFunction f

instruction_reason-Allowed : (k : InstructionKind) → instruction_reason k ≡ none → Allowed k
unfolding callee_reason
instruction_reason-Allowed ptr_to_int h = cc
instruction_reason-Allowed int_to_ptr h = cc
instruction_reason-Allowed addr_space_cast h = cc
instruction_reason-Allowed (call inline_asm) h = cc
instruction_reason-Allowed (call (function name)) h = named_call (
  ground arith,
  (ground arith, (ground arith, (ground arith, (ground arith, (ground arith, tt))))),
)
instruction_reason-Allowed (call other_callee) h = indirect_call
instruction_reason-Allowed other_instruction h = plain

Allowed-instruction_reason : (k : InstructionKind) → Allowed k → instruction_reason k ≡ none
unfolding callee_reason
Allowed-instruction_reason ptr_to_int a = elim a [ ]
Allowed-instruction_reason int_to_ptr a = elim a [ ]
Allowed-instruction_reason addr_space_cast a = elim a [ ]
Allowed-instruction_reason (call inline_asm) a = elim a [ ]
Allowed-instruction_reason other_instruction plain = refl
Allowed-instruction_reason (call other_callee) indirect_call = refl
Allowed-instruction_reason (call (function name)) (named_call n) = ground arith

append-empty : (xs ys : List Violation) → (xs ++ ys) ≡ [] → (xs ≡ []) × (ys ≡ [])
append-empty [] ys h = (refl, h)
append-empty (x ∷ xs) ys h = cc

recorded-empty : (name text : String) (o : Option Reason) → recorded name text o ≡ [] → o ≡ none
recorded-empty name text none h = refl
recorded-empty name text (some r) h = cc

instruction_violations-Allowed :
    (name : String) (is : List VerifiedInstruction) (i : VerifiedInstruction)
    → instruction_violations name is ≡ []
    → Among i is
    → Allowed i.kind
unfolding instruction_violations
instruction_violations-Allowed name [] i h m = elim m [ ]
instruction_violations-Allowed name (j ∷ is) i h here =
    instruction_reason-Allowed i.kind (recorded-empty name i.text _ (append-empty _ _ h).0)
instruction_violations-Allowed name (j ∷ is) i h (there m) =
    instruction_violations-Allowed name is i
      (append-empty (recorded name j.text (instruction_reason j.kind)) _ h).1 m

Allowed-instruction_violations :
    (name : String) (is : List VerifiedInstruction)
    → ((i : VerifiedInstruction) → Among i is → Allowed i.kind)
    → instruction_violations name is ≡ []
unfolding instruction_violations
Allowed-instruction_violations name [] h = refl
Allowed-instruction_violations name (i ∷ is) h =
    ap₂ (λ o vs. recorded name i.text o ++ vs) (Allowed-instruction_reason i.kind (h i here))
      (Allowed-instruction_violations name is (λ j m. h j (there m)))

abbrev subprogram_reason : VerifiedFunction → Option Reason
subprogram_reason f = if lacks_subprogram f then some missing_subprogram else none

abbrev own_violations : VerifiedFunction → List Violation
own_violations f =
    recorded f.name f.type_text (subprogram_reason f)
    ++ instruction_violations f.name f.instructions

subprogram_reason-none :
    (f : VerifiedFunction) → subprogram_reason f ≡ none → lacks_subprogram f ≡ false
subprogram_reason-none f h = ground arith

function_violations-AllowedFunction :
    (fs : List VerifiedFunction) (f : VerifiedFunction)
    → function_violations fs ≡ []
    → Among f fs
    → AllowedFunction f
unfolding function_violations
function_violations-AllowedFunction [] f h m = elim m [ ]
function_violations-AllowedFunction (g ∷ fs) f h here =
    let (own, rest) = append-empty (own_violations f) (function_violations fs) h in
    let (first, second) =
      append-empty (recorded f.name f.type_text (subprogram_reason f))
        (instruction_violations f.name f.instructions) own in
    record {
      debug_info =
          subprogram_reason-none f (recorded-empty f.name f.type_text (subprogram_reason f) first);
      instructions = λ i m. instruction_violations-Allowed f.name f.instructions i second m;
    }
function_violations-AllowedFunction (g ∷ fs) f h (there m) =
    function_violations-AllowedFunction fs f
      (append-empty (own_violations g) (function_violations fs) h).1 m

AllowedFunction-function_violations :
    (fs : List VerifiedFunction)
    → ((f : VerifiedFunction) → Among f fs → AllowedFunction f)
    → function_violations fs ≡ []
unfolding function_violations
AllowedFunction-function_violations [] h = refl
AllowedFunction-function_violations (f ∷ fs) h =
    let none_missing : subprogram_reason f ≡ none = ground (arith, (h f here).debug_info) in
    ap₂ (λ xs ys. xs ++ ys)
      (ap₂ (λ o vs. recorded f.name f.type_text o ++ vs) none_missing
        (Allowed-instruction_violations f.name f.instructions (h f here).instructions))
      (AllowedFunction-function_violations fs (λ g m. h g (there m)))

refused-eq-success : (vs : List Violation) → refused vs ≡ success true → vs ≡ []
refused-eq-success [] h = refl
refused-eq-success (v ∷ vs) h = cc

-- The verifier accepts a module exactly if it has debug compile units and no inline assembly, every
-- function defined in it has debug metadata, and no instruction casts between pointers and integers
-- or address spaces, calls inline assembly, or calls one of the C allocators or a function that
-- frees.
pub verify_iff : (m : VerifiedModule) → (verify m ≡ success true) ↔ AllowedModule m
unfolding verify
verify_iff m = (accepted, allowed)
  where
    accepted : verify m ≡ success true → AllowedModule m
    accepted h = elim (Bool-cases m.has_debug_compile_units) [
      | inr missing ↦ absurd (ground arith)
      | inl units ↦ elim (Bool-cases m.has_inline_asm) [
        | inl asm ↦ absurd (ground arith)
        | inr no_asm ↦
            let empty = refused-eq-success (function_violations m.functions) (ground arith) in
            record {
              debug_units = units;
              no_asm = no_asm;
              functions = λ f k. function_violations-AllowedFunction m.functions f empty k;
            }
      ]
    ]

    allowed : AllowedModule m → verify m ≡ success true
    allowed a =
        let empty : refused (function_violations m.functions) ≡ success true =
          ap refused (AllowedFunction-function_violations m.functions a.functions) in
        ground (arith, a.debug_units, a.no_asm, empty)
