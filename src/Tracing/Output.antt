-- ===== src/Tracing/Output.antt =====
-- lib/CppInterOp/Tracing.cpp: the regions of a recording and the text of a reproducer.
pub mod Dumps
pub mod Comments
use cpp_inter_op.Common.{
  ℕ, zero, suc, ◌≡◌, Bool, true, false, not, List, [], ◌∷◌, ◌++◌, map, Option, none, some,
  if◌then◌else◌, Str, codes, is_empty, length, drop,
}
use cpp_inter_op.Errors.Encoding.{Address}
use cpp_inter_op.Tracing.Names.{ℤ, Line, render}
use cpp_inter_op.Tracing.Info.{TraceInfo, set_dumping}
use cpp_inter_op.Tracing.Calls.{value, enter, leave}

-- What the build and the loader say: GetVersion, GetBuildInfo and the path of the library.
pub record Texts : Type 0 where
  pub version : Str
  pub build_info : Str
  pub lib_path : Str

-- Lines, each with its end.
unfoldable pub unlines : List Str → Str
unlines [] = []
unlines (l ∷ ls) = l ++ (10 ∷ unlines ls)

-- The parts of WriteReproducerPrologue.
unfoldable pub how_to_build : List Str
how_to_build =
    codes "//"
    ∷ codes "// Build (default, static link):"
    ∷ codes
        "//   c++ -std=c++17 -I<CppInterOp-include-dir> reproducer.cpp -lclangCppInterOp -o reproducer"
    ∷ codes "// Build (dlopen via Dispatch.h):"
    ∷ codes
        "//   c++ -std=c++17 -DCPPINTEROP_USE_DISPATCH -I<CppInterOp-include-dir> reproducer.cpp -ldl -o reproducer"
    ∷ []

unfoldable pub replay_scope : List Str
replay_scope =
    codes "//"
    ∷ codes "// Replay scope: re-runs recorded CppInterOp API calls. JIT"
    ∷ codes "// wrappers (Cpp::JitCall::Invoke) are not replayed -- their"
    ∷ codes "// pointer args reference the original process's memory. The"
    ∷ codes "// trailing `// JitCall::Invoke ...` comment, if present,"
    ∷ codes "// names the call active at the crash site."
    ∷ codes "//"
    ∷ []

unfoldable pub how_to_run : Str → List Str
how_to_run lib_path =
    if is_empty lib_path
    then codes
        "// Run: ./reproducer  (dispatch build: set CPPINTEROP_LIBRARY_PATH=<libclangCppInterOp.so>)"
      ∷ []
      ∷ []
    else codes
        "// Run: ./reproducer  (dispatch build: CPPINTEROP_LIBRARY_PATH overrides the captured path)"
      ∷ []
      ∷ []

unfoldable pub dispatch_code : Str → List Str
dispatch_code lib_path =
    codes "#ifdef CPPINTEROP_USE_DISPATCH"
    ∷ codes "#include <CppInterOp/Dispatch.h>"
    ∷ []
    ∷ codes "using namespace Cpp;"
    ∷ codes "#define CPPINTEROP_API_FUNC(DN, CN, Ret, DeclArgs, CallArgs, RawTypes) \\"
    ∷ codes "  Ret(*CppInternal::DispatchRaw::DN) RawTypes = nullptr;"
    ∷ codes "#include \"CppInterOp/CppInterOpAPI.inc\""
    ∷ []
    ∷ codes "static void initCppInterOpReproducer() {"
    ∷ codes "  static bool inited = false;"
    ∷ codes "  if (inited) return;"
    ∷ codes "  const char* path = std::getenv(\"CPPINTEROP_LIBRARY_PATH\");"
    ∷ ((if is_empty lib_path
          then []
          else (codes "  if (!path) path = R\"PATH(" ++ (lib_path ++ codes ")PATH\";")) ∷ [])
        ++ codes "  Cpp::LoadDispatchAPI(path);"
          ∷ codes "  inited = true;"
          ∷ codes "}"
          ∷ codes "#else"
          ∷ codes "#include <CppInterOp/CppInterOp.h>"
          ∷ codes "static void initCppInterOpReproducer() {}"
          ∷ codes "#endif"
          ∷ []
          ∷ [])

unfoldable pub reproducer : List Str → List Str
reproducer log =
    codes "void reproducer() {"
    ∷ codes "  initCppInterOpReproducer();"
    ∷ (log ++ codes "}" ∷ [] ∷ codes "int main() { reproducer(); return 0; }" ∷ [])

-- A traced call without arguments that returns text.
unfoldable pub text_call : Str → ℤ → TraceInfo → TraceInfo
text_call name ns ti =
    let (ti', td) = enter name [] ti in leave td value ns (λ (a : Address). []) ti'

-- What happens while the reproducer is written: m_Dumping is held, GetVersion is called if no version
-- is given, and GetBuildInfo is called.
unfoldable pub while_dumping : Str → ℤ → TraceInfo → TraceInfo
while_dumping version ns ti =
    let ti1 = set_dumping true ti in
    let ti2 = if is_empty version then text_call (codes "GetVersion") ns ti1 else ti1 in
    set_dumping false (text_call (codes "GetBuildInfo") ns ti2)

unfoldable pub start_region : Bool → Option Str → TraceInfo → TraceInfo × Str
start_region write_on_std_err created ti =
    let started = record ti {
      region_start = length ti.log;
      in_region = true;
      write_on_std_err = write_on_std_err;
    } in
    if write_on_std_err then (record started { region_path = [] }, []) else (elim created [
      | none ↦ (started, [])
      | some path ↦ (record started { region_path = path }, path)
    ])

-- `split` is StringRef::split.
module _ (split : Str → Str → Str × Str) where
  -- WriteVersionComment's loop; the length of the text is fuel enough.
  unfoldable pub commented : Str → ℕ → Str → List Str
  commented start zero s = []
  commented start (suc fuel) s =
      let (line, rest) = split s (10 ∷ []) in
      let later = commented start fuel rest in
      if is_empty s then [] else if is_empty line then later else (start ++ line) ∷ later

  unfoldable pub version_comment : Str → List Str
  version_comment version = commented (codes "// ") (suc (length version)) version

  unfoldable pub build_context : Str → List Str
  build_context info =
      codes "// Build context (CppInterOp configure-time snapshot):"
      ∷ commented (codes "//") (suc (length info)) info

  unfoldable pub prologue : Str → Str → Str → Texts → List Str
  prologue title version footnote texts =
      (codes "// CppInterOp " ++ title)
      ∷ (version_comment version
          ++ ((if is_empty footnote then [] else (codes "// " ++ footnote) ∷ [])
              ++ (replay_scope
                  ++ (build_context texts.build_info
                      ++ (how_to_build
                          ++ (how_to_run texts.lib_path ++ dispatch_code texts.lib_path))))))

  -- TraceInfo::writeToFile, with the path of the new file unless it could not be made. The last
  -- component is the path returned and the file's text.
  unfoldable pub write_to_file :
      Option Str → Str → ℤ → Texts → TraceInfo → TraceInfo × Option (Str × Str)
  write_to_file none version ns texts ti = (ti, none)
  write_to_file (some path) version ns texts ti =
      let shown_version = if is_empty version then texts.version else version in
      (
        while_dumping version ns ti,
        some (
          path,
          unlines (
              prologue (codes "crash reproducer") shown_version
                (codes "Generated automatically "
                  ++ (226 ∷ 128 ∷ 148 ∷ codes " re-run to reproduce."))
                texts
              ++ reproducer (map render ti.log)),
        ),
      )

  -- TraceInfo::StopRegion, with whether the region's file could be opened.
  unfoldable pub stop_region : Bool → Str → ℤ → Texts → TraceInfo → TraceInfo × Option (Str × Str)
  stop_region opened version ns texts ti =
      let ti1 = record ti { in_region = false } in
      let shown_version = if is_empty version then texts.version else version in
      let content = unlines (
        prologue (codes "trace region") shown_version (codes "Generated automatically.") texts
        ++ reproducer (map render (drop ti.region_start ti.log))) in
      if not ti.in_region
      then (ti, none)
      else if ti.write_on_std_err
      then (ti1, none)
      else if opened
      then (while_dumping version ns ti1, some (ti.region_path, content))
      else (ti1, none)
