-- ===== src/Roots.antt =====
-- gc.cc: the precise scan of the stack for roots. The locations of a stack map are what LLVM's parser
-- hands out; an offset of 32 bits is its bit pattern.
pub mod Parse
pub mod Frame
pub mod Scan
mod Tests
use lona_mvm.Prelude.{ℕ, Option, List}

-- StackMapParser::LocationKind
pub data LocationKind : Type 0 where
  register direct indirect constant constant_index : LocationKind

-- What StackMapParser::LocationAccessor answers.
pub record Location : Type 0 where
  pub kind : LocationKind
  pub size_in_bytes : ℕ
  pub dwarf_reg_num : ℕ
  pub offset : ℕ
  pub small_constant : ℕ
  pub constant_index : ℕ

-- GCRootLocation::Kind
pub data RootKind : Type 0 where
  register direct indirect constant : RootKind

pub record GcRootLocation : Type 0 where
  pub kind : RootKind
  pub dwarf_register : ℕ
  pub offset : ℕ
  pub size : ℕ
  pub constant : ℕ

pub record GcRootLocationPair : Type 0 where
  pub base : GcRootLocation
  pub derived : GcRootLocation

pub record SafepointRecord : Type 0 where
  pub id : ℕ
  pub function_address : ℕ
  pub function_end_address : ℕ
  pub instruction_address : ℕ
  pub root_pairs : List GcRootLocationPair

-- One constructor for each message; `no_safepoint` has the address, and the nearest safepoint with
-- its distance.
pub data ScanError : Type 0 where
  constant_index_out_of_range : ℕ → ScanError
  not_a_constant : ScanError
  missing_prefix : ScanError
  prefix_not_constant : ℕ → ScanError
  odd_root_locations : ScanError
  unsupported_register : ℕ → ScanError
  unexpected_size : ℕ → ScanError
  no_statepoint : ℕ → ScanError
  no_safepoint : ℕ → Option (ℕ × ℕ) → ScanError
  not_a_mutator : ScanError
  no_registry : ScanError
  no_frame : ScanError
