-- ===== src/Roots/Scan/Stack.antt =====
-- What a stack of managed frames is, and which roots it has, by the layout that the System V ABI and the
-- stack map give it. The scan is shown to find exactly these.
use lona_mvm.Prelude.{ℕ, zero, suc, ◌+◌, ◌-◌, ◌%◌, ◌^◌, ◌≤◌, ◌<◌, ◌≡◌, ◌≢◌, ◌⊎◌, List, [], ◌∷◌}
use lona_mvm.Prelude.Expected.{Expected, success, failure}
use lona_mvm.Roots.{RootKind, GcRootLocation, GcRootLocationPair, SafepointRecord, ScanError}
use lona_mvm.Roots.ScanError.{unsupported_register, unexpected_size}
use lona_mvm.Roots.Scan.Walk.{ManagedFrame}
use lona_mvm.Roots.Scan.Lookup.{Nearest, NoneInReach}

-- The frames of the callers of a frame, from its frame pointer on. The caller's frame pointer stands
-- at that address, the return address 8 bytes above it, and the caller's stack pointer is 16 bytes
-- above it. The safepoint of the caller is the nearest one up to the return address, at most 4096
-- bytes below it. The walk stops without a frame pointer or a return address, at a caller without
-- such a safepoint, and at the given depth.
pub data Callers (read : ℕ → ℕ) (safepoints : List SafepointRecord)
    : (depth frame_pointer : ℕ) → List ManagedFrame → Type 0 where
  at_limit : {fp : ℕ} → Callers read safepoints zero fp []
  no_frame : {n fp : ℕ} → fp ≡ 0 → Callers read safepoints (suc n) fp []
  no_return : {n fp : ℕ} → read ((fp + 8) % 2 ^ 64) ≡ 0 → Callers read safepoints (suc n) fp []
  unmanaged :
      {n fp : ℕ}
      → NoneInReach safepoints (read ((fp + 8) % 2 ^ 64))
      → Callers read safepoints (suc n) fp []
  managed :
      {n fp : ℕ} {fs : List ManagedFrame} {r : SafepointRecord}
      → fp ≢ 0
      → read ((fp + 8) % 2 ^ 64) ≢ 0
      → Nearest safepoints (read ((fp + 8) % 2 ^ 64)) r
      → read ((fp + 8) % 2 ^ 64) - r.instruction_address ≤ 4096
      → Callers read safepoints n (read fp) fs
      → Callers read safepoints
          (suc n)
          fp
          (record { safepoint = r; sp = (fp + 16) % 2 ^ 64; bp = read fp } ∷ fs)

-- The registers by their DWARF numbers for x86-64: 7 is rsp, 6 is rbp.
pub data RegisterValue (sp bp : ℕ) : ℕ → Expected ScanError ℕ → Type 0 where
  rsp : {n : ℕ} → n ≡ 7 → RegisterValue sp bp n (success sp)
  rbp : {n : ℕ} → n ≡ 6 → RegisterValue sp bp n (success bp)
  other : {n : ℕ} → n ≢ 6 → n ≢ 7 → RegisterValue sp bp n (failure (unsupported_register n))

-- An address is a base and an offset of 32 bits in two's complement, modulo 2 ^ 64.
abbrev pub Displaced : (base offset address : ℕ) → Type 0
Displaced base offset address =
    ((offset < 2 ^ 31) × (address ≡ (base + offset) % 2 ^ 64))
    ⊎ ((2 ^ 31 ≤ offset)
        × (address < 2 ^ 64)
        × ((address + 2 ^ 32) % 2 ^ 64 ≡ (base + offset) % 2 ^ 64))

-- The value of a location in a frame: a constant, a register, an address, or the word at an address.
-- All but constants have 8 bytes.
pub data RootValue (read : ℕ → ℕ) (sp bp : ℕ) : GcRootLocation → Expected ScanError ℕ → Type 0 where
  constant :
      {l : GcRootLocation}
      → l.kind ≡ RootKind.constant
      → RootValue read sp bp l (success l.constant)
  wrong_size :
      {l : GcRootLocation}
      → l.kind ≢ RootKind.constant
      → l.size ≢ 8
      → RootValue read sp bp l (failure (unexpected_size l.size))
  no_register :
      {l : GcRootLocation} {e : ScanError}
      → l.kind ≢ RootKind.constant
      → l.size ≡ 8
      → RegisterValue sp bp l.dwarf_register (failure e)
      → RootValue read sp bp l (failure e)
  register :
      {l : GcRootLocation} {v : ℕ}
      → l.kind ≡ RootKind.register
      → l.size ≡ 8
      → RegisterValue sp bp l.dwarf_register (success v)
      → RootValue read sp bp l (success v)
  direct :
      {l : GcRootLocation} {base address : ℕ}
      → l.kind ≡ RootKind.direct
      → l.size ≡ 8
      → RegisterValue sp bp l.dwarf_register (success base)
      → Displaced base l.offset address
      → RootValue read sp bp l (success address)
  indirect :
      {l : GcRootLocation} {base address : ℕ}
      → l.kind ≡ RootKind.indirect
      → l.size ≡ 8
      → RegisterValue sp bp l.dwarf_register (success base)
      → Displaced base l.offset address
      → RootValue read sp bp l (success (read address))

-- A location in a frame.
pub record RootAt : Type 0 where
  pub location : GcRootLocation
  pub sp : ℕ
  pub bp : ℕ

-- The locations of the pairs of a frame, base before derived, and those after them.
abbrev pub pair_locations : List GcRootLocationPair → (sp bp : ℕ) → List RootAt → List RootAt
pair_locations [] sp bp more = more
pair_locations (p ∷ ps) sp bp more =
    record { location = p.base; sp = sp; bp = bp }
    ∷ record { location = p.derived; sp = sp; bp = bp }
    ∷ pair_locations ps sp bp more

abbrev pub frame_locations : List ManagedFrame → List RootAt
frame_locations [] = []
frame_locations (f ∷ fs) = pair_locations f.safepoint.root_pairs f.sp f.bp (frame_locations fs)

-- The values of a list of locations that are not null, in order, or the first error.
pub data RootsOf (read : ℕ → ℕ) : List RootAt → Expected ScanError (List ℕ) → Type 0 where
  nothing : RootsOf read [] (success [])
  null :
      {l : RootAt} {ls : List RootAt} {vs : Expected ScanError (List ℕ)}
      → RootValue read l.sp l.bp l.location (success 0)
      → RootsOf read ls vs
      → RootsOf read (l ∷ ls) vs
  kept :
      {l : RootAt} {ls : List RootAt} {v : ℕ} {vs : List ℕ}
      → v ≢ 0
      → RootValue read l.sp l.bp l.location (success v)
      → RootsOf read ls (success vs)
      → RootsOf read (l ∷ ls) (success (v ∷ vs))
  failed :
      {l : RootAt} {ls : List RootAt} {e : ScanError}
      → RootValue read l.sp l.bp l.location (failure e)
      → RootsOf read (l ∷ ls) (failure e)
  failed_later :
      {l : RootAt} {ls : List RootAt} {v : ℕ} {e : ScanError}
      → RootValue read l.sp l.bp l.location (success v)
      → RootsOf read ls (failure e)
      → RootsOf read (l ∷ ls) (failure e)
