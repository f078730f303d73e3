-- ===== src/Symbols/Dynamic.antt =====
-- lib/CppInterOp/DynamicLibraryManagerSymbol.cpp: HandleDynTab.
pub mod Texts
pub mod Tables
use cpp_inter_op.Common.{
  ℕ, ◌+◌, Bool, true, false, not, List, [], ◌∷◌, ◌++◌, Option, none, some, ◌==◌, bit_and, ◌||◌,
  if◌then◌else◌, Str, codes, drop,
}
use cpp_inter_op.Paths.Split.{Platform, allow_non_existent, split_paths}

-- An entry of the dynamic table: its tag and value.
pub data Dyn : Type 0 where
  dt_needed dt_rpath dt_runpath dt_flags_1 dt_other : ℕ → Dyn

-- The variables that the function fills.
pub record DynTab : Type 0 where
  pub rpath : List Str
  pub run_path : List Str
  pub deps : List Str
  pub is_pie_executable : Bool

-- The text up to the next zero byte.
abbrev pub until_zero : Str → Str
until_zero [] = []
until_zero (c ∷ s) = let rest = until_zero s in if c == 0 then [] else c ∷ rest

abbrev pub has_zero : Str → Bool
has_zero [] = false
has_zero (c ∷ s) = c == 0 || has_zero s

-- The text at an offset of the string table. The source does not check the offset: `none` where no
-- zero byte follows it within the table, so that the source reads out of bounds.
unfoldable pub text_at : Str → ℕ → Option Str
text_at strings offset =
    let rest = drop offset strings in if has_zero rest then some (until_zero rest) else none

-- `none` means that a text is read out of the bounds of the string table, or that the fuel of
-- SplitPaths ran out; `df_1_pie` is LLVM's flag.
module _ (fs : Platform) (fuel df_1_pie : ℕ) where
  unfoldable pub handle_entry : Str → Dyn → DynTab → Option DynTab
  handle_entry strings (dt_needed v) t = elim (text_at strings v) [
    | none ↦ none
    | some name ↦ some (record t { deps = t.deps ++ name ∷ [] })
  ]
  handle_entry strings (dt_rpath v) t = elim (text_at strings v) [
    | none ↦ none
    | some text ↦ elim (split_paths fs allow_non_existent (codes ":") false fuel text t.rpath) [
      | none ↦ none
      | some (existed, s) ↦ some (record t { rpath = s.paths })
    ]
  ]
  handle_entry strings (dt_runpath v) t = elim (text_at strings v) [
    | none ↦ none
    | some text ↦ elim (split_paths fs allow_non_existent (codes ":") false fuel text t.run_path) [
      | none ↦ none
      | some (existed, s) ↦ some (record t { run_path = s.paths })
    ]
  ]
  handle_entry strings (dt_flags_1 v) t = some (record t {
    is_pie_executable = if bit_and v df_1_pie == 0 then t.is_pie_executable else true;
  })
  handle_entry strings (dt_other v) t = some t

  unfoldable pub handle_entries : Str → List Dyn → DynTab → Option DynTab
  handle_entries strings [] t = some t
  handle_entries strings (e ∷ es) t = elim (handle_entry strings e t) [
    | none ↦ none
    | some t' ↦ handle_entries strings es t'
  ]

  -- The string table and the entries are what LLVM reads of the file, if it can; the literal ""
  -- stands in for a table that it cannot read.
  unfoldable pub handle_dyn_tab : Option Str → Option (List Dyn) → DynTab → Option DynTab
  handle_dyn_tab str_tab entries t =
      let start : DynTab = record t { is_pie_executable = false } in
      let strings : Str = elim str_tab [ none ↦ 0 ∷ [] | some s ↦ s ] in
      elim entries [ none ↦ some start | some es ↦ handle_entries strings es start ]
