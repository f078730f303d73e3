-- ===== src/Lib.antt =====
-- CppInterOp: a model of the library's own logic.
--
-- CppInterOp lets another language talk to C++ through an interpreter built on Clang. What it does
-- itself, beside calling Clang, are the parts below. The paths are those of the repository.
--
-- Errors (include/CppInterOp/Error.h, lib/CppInterOp/ErrorInternal.h, ErrorInternal.cpp). A call
-- that can fail gives a Result<T>, whose error is one word: an inline status or the address of a
-- reference-counted slice with diagnostics.
--   Errors/Encoding.antt: Status and the word, `ErrorRef`, with makeInline, makeSlice, isOk,
--     isInline, isSlice, inlineStatus and slice. Addresses are numbers.
--   Errors/Slices.antt: `ErrorSlice`, the store of live slices (`World`), AllocSlice,
--     RetainErrorRef, ReleaseErrorRef and the accessors. A call is a step of the store that ends
--     with a value, in a fault (a use of what is not alive) or in std::abort (`Run`). Counts are
--     of 32 bits and wrap. The relaxed and acquire-release orders of the atomic operations are
--     not modelled: the steps of all owners are one sequence.
--   Errors/Ownership.antt: `CapturedError`, the owning handle, and histories of its copies, moves,
--     assignments and destructions (`Command`, `step`, `run`) over the list of live handles.
--   Errors/Results.antt, Results/Void.antt: Result<T>, Result<void> and makeResult, as a build
--     that checks that results are looked at; whether T's storage holds a value is a part of
--     the state (`Content`).
--   Errors/Diagnostics.antt: CppInteropDiagConsumer and the diagnostics that wait at an
--     interpreter. Errors/Producers.antt: makeError and drainError, whose handlers see the payloads
--     of the llvm::Error as a list, and ErrorRef::record. The allocator's next address is an
--     argument, which the theorems take to be free and aligned.
--
-- Paths (lib/CppInterOp/Paths.h, Paths.cpp), as built on Linux.
--   Paths/Split.antt: SplitPaths. Its two loops have no bound that the source states, so they run
--     on fuel, one unit for each separator met. Paths/Split/FirstAt.antt is a function for the
--     tests.
--   Paths/Includes.antt: CopyIncludePaths and AddIncludePaths on the header search options.
--     Includes/Options.antt reads a list of options as a command line, an independent description
--     of what CopyIncludePaths writes.
--   Paths/System.antt: GetSystemLibraryPaths on what the loader prints.
--   llvm::StringRef::split and find, llvm::sys::fs::is_directory and
--   clang::HeaderSearchOptions::AddPath are arguments (`Platform`), with their documented behaviour
--   as hypotheses (`IsSplit`, `IsAddPath`).
--
-- Libraries (lib/CppInterOp/DynamicLibraryManager.h, DynamicLibraryManager.cpp), which find, load
-- and unload shared libraries with the help of Paths.
--   Libraries/Manager.antt: m_DyLibs, m_LoadedLibraries and m_SearchPaths as lists, the
--     constructor and addSearchPath. The constructor's fuel is that of SplitPaths.
--   Libraries/Lookup.antt: isSharedLibrary, normalizePath, substFront, substAll, lookupLibInPaths,
--     lookupLibMaybeAddExt and lookupLibrary. The file system and LLVM's path functions,
--     real_path (called with `expand_tilde`) among them, are a `System`.
--   Libraries/Loading.antt: loadLibrary, unloadLibrary and isLibraryLoaded with DLOpen and DLClose;
--     dlopen, dlclose and dlerror act on a state of the dynamic linker (`Linker`).
--
-- Symbols (lib/CppInterOp/DynamicLibraryManagerSymbol.cpp), which find the library, among those
-- not loaded yet, that has a symbol.
--   Symbols/Filter.antt: GNUHash, BloomFilter and LibraryPath. Words are numbers whose digits are
--     read with `bit_and` and `bit_or` (Common/Bits.antt); the source computes the size of the
--     table in floats, and it is an argument here. log2u runs on fuel for 32 bits.
--   Symbols/Contents.antt: MayExistInElfObjectFile, BuildBloomFilter and ContainsSymbol. An object
--     file is what LLVM reads of it (`ObjectFile`). `none` stands for undefined behaviour.
--   Symbols/Registry.antt: LibraryPaths. A pointer into its set is told by the path and the name
--     of the element; the order of the hash set, which nothing reads, is that of insertion.
--   Symbols/Ignore.antt: ShouldPermanentlyIgnore, with isSharedLibrary and isLibraryLoaded of
--     Libraries.
--   Symbols/Dynamic.antt: HandleDynTab, which splits RPATH and RUNPATH with SplitPaths, on its
--     fuel; one more than the length of the string table is enough. An offset whose text does not
--     end within the table is read out of bounds (`none`); the theorems on files take the offsets
--     to be within it.
--   Symbols/RealPath.antt: cached_realpath on Unix, with its static maps as a state. The limit on
--     links is what its recursion runs on; errno is left out.
--   Symbols/Scan.antt: the state of Dyld and ScanForLibraries, which asks RealPath, Ignore, Dynamic
--     and the lookup of Libraries. Its recursion through dependencies runs on fuel, and a unit
--     more than the files that are not permanently ignored is enough.
--   Symbols/Search.antt: searchLibrariesForSymbol. ContainsSymbol changes a library in its set,
--     into which the changed one is written back.
--   Not modelled: the COFF branches and getSymbolLocation.
--
-- Interpreters (lib/CppInterOp/InterpreterInfo.h; lib/CppInterOp/CppInterOp.cpp), the deque of
-- interpreters that every call without one looks at.
--   Interpreters/Slots.antt: `InterpreterInfo` with its constructors, assignment and destructor. The
--     members that a move takes along (`Holding`) and those that it leaves out (`Stores`) are two
--     records; the element's address is a third member.
--   Interpreters/Registry.antt: RegisterInterpreter, UseExternalInterpreter, ActivateInterpreter,
--     DeleteInterpreter, GetInterpreter and getInterpInfo, of a build with assertions: a failed one
--     gives `none`. std::rotate is its swaps, and std::deque::erase the move assignments of one
--     side, the side being an argument (`front`). Registry/Order.antt has the list that the deque
--     stands for (`Stack`) and the sequences that fail no assertion (`are_allowed`),
--     Registry/Searches.antt what finding an interpreter in it does, Registry/Calls.antt one call,
--     Registry/History.antt sequences of calls, Registry/Ownership.antt what is deleted, and
--     Registry/Places.antt what stays in place.
--   CreateInterpreter, which makes Clang's arguments, the shutdown and the crash handler are not
--     modelled.
--
-- Boxes (include/CppInterOp/Box.h; ValueRefCount and MakeValueBox of lib/CppInterOp/Compatibility.h;
-- Evaluate of lib/CppInterOp/CppInterOp.cpp), which carry values between compiled and interpreted
-- code.
--   Boxes.antt: Box and its payload. The union is its active member, and the read of another
--     one is undefined (`none`), as is a use of a payload that was deleted; a fundamental value is
--     a number.
--   Boxes/Commands.antt: MakeValueBox, and a history of boxes as a list of commands on the boxes
--     that live, by position.
--   Boxes/Evaluation.antt: classifyByQualType and Evaluate, on what they ask of clang's value.
--
-- Tracing (lib/CppInterOp/Tracing.h, Tracing.cpp; the hooks in lib/CppInterOp/CppInterOp.cpp), which
-- logs the API calls so that a program that repeats them can be written.
--   Tracing/Names.antt: a line of the log is the list of the pieces that are written into it
--     (`Line`), which tells the variables it declares and uses from other text; `render` is its text.
--   Tracing/Info.antt: TraceInfo with its handles, counters of 32 bits, log and stack of timers.
--     The calls of llvm::Timer are recorded (`timer_calls`).
--   Tracing/Buffer.antt: ReproBuffer. The text of a floating-point number is an argument.
--   Tracing/Calls.antt: the constructor (`enter`) and destructor (`leave`) of TraceRegion with
--     OutParam's callbacks, which read the containers as they are at the end of the call.
--     Calls/History.antt: the hooks of JIT calls, the log of a wrapper's source, and sequences of
--     events; Calls/Lines.antt, Calls/Keeping and Calls/Scope are about the names in the log.
--   Tracing/Output.antt: writeToFile, StartRegion and StopRegion with the text that they write. What
--     the build and the loader say (`Texts`), whether files can be made and llvm::StringRef::split,
--     as documented (`IsSplit`), are arguments; the loop over lines runs on fuel, and one more than
--     the length of the text is enough.
--   Tracing/Timers.antt and Tracing/Literals.antt are about the timers and the literals.
--   Tracing/Signatures.antt: countParams, on text without a null character.
--   Not modelled: parseEnumName, computeOutMask and lookupOutMask.
--
-- Common holds what all of them use: text as a list of character codes (`Str`), lists measured by
-- native numbers and Boolean tests.
--
-- Not modelled. Debug output; the macOS and Windows branches; Popen, which runs a program; the files
-- that only pass calls on: lib/CppInterOp/Compatibility.h but for the payload of boxes,
-- CppInterOpInterpreter.h, Unwrap.h, CXCppInterOp.cpp and the dispatch tables; and the tests.
-- utils/TableGen/CppInterOpEmitter.cpp prints those tables when the library is built. The rest of
-- lib/CppInterOp/CppInterOp.cpp asks Clang's AST and Sema about declarations, or makes C++ source
-- text for wrappers.
pub mod Common
pub mod Errors
pub mod Paths
pub mod Libraries
pub mod Symbols
pub mod Interpreters
pub mod Boxes
pub mod Tracing
