-- ===== src/Lib.antt =====
-- A model of the Lona MVM, the virtual machine that runs LLVM bitcode with a collected heap, and the
-- theorems about it.
--
-- The program. The JIT (src/mvm/jit.cc) runs code whose allocations call the runtime in
-- src/mvm/runtime_memory.cc. That file keeps every allocation in one registry: a header in front
-- of each payload, a doubly linked list of the active allocations, and two maps from address pages
-- to the allocations on them, one for blocks straight from malloc and one for slab pages with
-- slots of one size. A collection is given the words that the stack scan of src/mvm/gc.cc found;
-- it marks what they reach and sweeps the list of active allocations. Before the JIT runs the
-- code, the verifier (src/mvm/verifier.cc) accepts or refuses it, and passes prepare it: the
-- allocation calls get descriptors of their types (src/mvm/heap_layout.cc), pointers are
-- classified (src/mvm/managed_state.cc), GEPs are tested (src/mvm/bounds_instrumentation.cc),
-- functions are cloned for the kinds of their arguments (src/mvm/managed_dispatch.cc), managed
-- pointers move to an address space of their own (src/mvm/managed_pointer_lowering.cc), and the
-- functions that need safepoint polls are found (src/mvm/gc.cc). The command line is read in
-- src/mvm/cli.cc.
--
-- Which file models what:
--   Prelude             shared names, Boolean tests, lists, stores and bit operations
--   Memory.Words        the word arithmetic of runtime_memory.cc (isPowerOfTwo to
--                       allocationLastAddress)
--   Memory.Header       its structs and those of runtime_memory.hh
--   Memory.Registry     its global state; how headers, pages and classes are written; the ways a call
--                       ends
--   Memory.Active       linkActiveAllocation, unlinkActiveAllocation
--   Memory.Slab         slabClassKey to releaseSlabPage
--   Memory.System       registerSystemAllocationPages, unregisterSystemAllocationPages
--   Memory.Find         findOwningSlabAllocation, findOwningAllocation; Memory.Find.Exact says when the page
--                       maps lead to the active allocations (Mapped)
--   Memory.Mark         markAllocation, markAddress, scanAllocationPayload and the worklist loop of
--                       collectManagedHeap
--   Memory.Sweep        reclaimAllocation and the sweep loop of collectManagedHeap
--   Memory.Collect      collectManagedHeap
--   Memory.Invariant    the invariant of the heap
--   Memory.Allocate     shouldUseSlabAllocator to allocateTrackedLocked
--   Memory.Entry        checkedHeader and the entry points __mvm_malloc_typed, __mvm_array_length, ...
--   Gc.Requests         the byte count and the request flag of src/mvm/gc.cc
--   Memory.Sample       a concrete heap
--   Threads             src/mvm/runtime_threads.cc: what each thread does under the mutex
--   Threads.Steps       the moves of the mutators and of the collecting thread as a step relation;
--                       Threads.Release has runs of them
--   Gc.Safepoint        handlePendingRuntimeGCSafepoint and the entry points __mvm_gc_safepoint_poll and
--                       __mvm_request_gc of src/mvm/gc.cc
--   Roots               the structs of src/mvm/gc.hh for roots
--   Roots.Parse         readStackMapConstant, parseRootLocation, parseRootPairs of src/mvm/gc.cc
--   Roots.Frame         resolveRootValue, and scanSingleManagedFrame inside the scans
--   Roots.Scan          scanCurrentSafepointByID, scanCurrentSafepoint and their lookups; its child
--                       modules describe the lookups, and the frames and roots of a stack without
--                       the code (Roots.Scan.Stack)
--   Managed             src/mvm/managed_state.cc: the data-flow analysis of pointers
--   Managed.Module      what the passes ask of a module of LLVM
--   Managed.Store       the maps of the analysis and their updates
--   Managed.Visit       visitInstruction to run; its child modules prove that the analysis ends, and
--                       that its result is closed under the flow of pointers
--   Managed.Metadata    renderState, attachMetadata, attachFunctionMetadata
--   Gc.Leaf             inferManagedGCLeafFunctions of src/mvm/gc.cc, with its tests; that it ends, and
--                       what it finds, in its child modules
--   Cli                 parseCommandLine, parseHeapSize and parseOptLevel of src/mvm/cli.cc
--   Jit                 classifyEntryPoint, resolveEntryPoint and JitExecutor::invoke of src/mvm/jit.cc
--   Layout              collectPointerOffsets and getOrCreateDescriptor of src/mvm/heap_layout.cc
--   Verifier            ManagedVerifier::verify of src/mvm/verifier.cc
--   Bounds              src/mvm/bounds_instrumentation.cc: the checks of a GEP; Bounds.Base has the
--                       recognition of managed arrays
--   Lowering            src/mvm/managed_pointer_lowering.cc: mapValue
--   Lowering.Replace    functionNeedsLowering to createFunctionReplacements
--   Lowering.Instructions  lowerInstruction and what it calls
--   Lowering.Functions  rebuildFunction and run; the relation of a function with its rewritten one,
--                       and the order of the blocks, in the other children
--   Dispatch            src/mvm/managed_dispatch.cc; its child modules say when a round changes nothing,
--                       which clones it makes and which calls it redirects
--   Runtime             ModulePipeline::run of src/mvm/pipeline.cc and runManagedProgram of
--                       src/mvm/runtime.cc
--   Gc.Polls            insertManagedSafepointPolls of src/mvm/gc.cc
--   Memory.Tests        a run of a collection, and the theorems at concrete inputs; other Tests likewise
--
-- State and memory. A pointer is its address, nullptr is 0. The registry is a record; an object
-- behind a pointer is an entry of a store, a function of addresses. The stores of headers, of slab
-- pages, of slab classes and of payload words are separate. A DenseMap is a function into Option.
-- Numbers are natural numbers, and what the source computes in 64 bits is reduced modulo 2 ^ 64
-- where it can pass that bound. A C++ out parameter with a Boolean result is an Option, and
-- runtimeAbort is a result of its own (Outcome). Target: LP64, header of 80 bytes.
--
-- Fuel. The walks along the list of active allocations and the worklist loop run on fuel, since
-- the pointers could form a ring; out_of_fuel is a result of its own. The number of active
-- allocations is enough: an allocation is pushed at most once, because it is marked when it is
-- pushed. Loops with a counter are structural recursion on the rounds left. The analysis of
-- pointers runs for a given number of rounds; four for each cell that the module names, and one
-- more, are enough, since a round that changes something adds one of four flags at one of these
-- cells; the inference of leaf functions needs one round more than there are functions. The search
-- for managed arrays visits no value of a function twice, so one step more than there are values
-- is enough. The loop that clones functions runs for a given number of rounds, and none may be
-- enough.
--
-- Parameters. `keys` are the two keys that llvm::DenseMap reserves, `read` is the word of payload
-- memory at an address, and what malloc returns is an argument. The locations of a stack map are
-- what LLVM's parser answers for them, and a module of LLVM is what its accessors answer
-- (Managed.Module): values and functions are their addresses, with their kind, and each function
-- has the instructions of its blocks in order. For the inference of leaf functions only the calls
-- of a block count, and LLVM tells whether a function has loops. For the polls, the loops of a
-- function are given with their latches, for the lowering, the dominator tree with its blocks, and
-- for the dispatch, where LLVM puts the clone for a signature and the module after a round. A run
-- takes LLVM and the passes as operations on a type of modules (Runtime.Host), since each pass is
-- modelled on the view of the module that it needs. The sizes, alignments and offsets of types are
-- what LLVM's data layout answers. The theorems on lookups, marking and collections take as a
-- hypothesis (Mapped) that the page maps lead to the active allocations; for slab pages, and after a
-- collection, that is not derived from the operations. `to_string` is the standard library's, and `strtol` and
-- `strtoull` are the C library's.
--
-- Not modelled. The mutex of the registry, since every operation of the registry holds it; free,
-- which has no effect that the registry reads; the capacities that containers reserve; the
-- shutdown of the collecting thread; the set-up of the JIT and the registration of object files;
-- what LLVM does with a module, as its own passes and the insertion of the instructions that a
-- pass of the program asks for; the texts of errors, except where they are told apart; the
-- metadata of statepoints and the rewriting of the allocation calls to their typed versions; and
-- I/O. The lines that the collector prints when it is debugged are left out.
pub mod Prelude
pub mod Bounds
pub mod Cli
pub mod Dispatch
pub mod Gc
pub mod Jit
pub mod Layout
pub mod Lowering
pub mod Managed
pub mod Memory
pub mod Roots
pub mod Runtime
pub mod Threads
pub mod Verifier
