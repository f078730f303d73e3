-- ===== src/Symbols/Scan/Steps.antt =====
-- Symbols/Scan: what a scan has left to do, and what it reads of a file.
use cpp_inter_op.Common.{
  ℕ, ◌+◌, ◌<◌, ◌≤◌, ◌≡◌, refl, ap, ◌∙◌, Bool, true, false, List, [], ◌∷◌, Option, none, some,
  if◌then◌else◌, Str, length, arith, Bool-cases, inl, inr,
}
use cpp_inter_op.Paths.Split.Pieces.{IsSplit}
use cpp_inter_op.Symbols.Registry.{Pointer, same_library}
use cpp_inter_op.Symbols.Registry.Order.{has_pointer, same_library_iff}
use cpp_inter_op.Symbols.Dynamic.{DynTab, handle_dyn_tab}
use cpp_inter_op.Symbols.Dynamic.Tables.{AllInBounds, handle_dyn_tab_lem, split_text}
use cpp_inter_op.Symbols.Scan.{
  Dyld, LoadCommand, lc_load_dylib, lc_rpath, lc_other, BinObj, elf, mach_o, other_object, Scanner,
  no_deps, for_each, handle_load_command, handle_load_commands, read_deps,
}
use cpp_inter_op.Symbols.Scan.Growth.{
  IsSound, Extends, Extends-same, Extends-trans, Ends, is_known, is_known-Extends,
}

-- How many of some libraries are in neither registry.
abbrev pub missing : List Pointer → Dyld → ℕ
missing [] d = 0
missing (p ∷ ps) d = (if is_known p d then 0 else 1) + missing ps d

pub missing-Extends :
    (ps : List Pointer) {search_system : Bool} {d d' : Dyld}
    → Extends search_system d d'
    → missing ps d' ≤ missing ps d
missing-Extends [] x = omega arith
missing-Extends (p ∷ ps) x = ground (arith, missing-Extends ps x, is_known-Extends p x)

pub missing-register_in :
    (p : Pointer) (ps : List Pointer) {search_system : Bool} {d d' : Dyld}
    → Extends search_system d d'
    → has_pointer p ps ≡ true
    → is_known p d ≡ false
    → is_known p d' ≡ true
    → missing ps d' < missing ps d
missing-register_in p [] x there before after = absurd (ground (arith, there))
missing-register_in p (q ∷ ps) {d = d} {d' = d'} x there before after =
    elim (Bool-cases (same_library q p)) [
      | inl same ↦
          let e = (same_library_iff q p).0 same in
          let b : is_known q d ≡ false = ap (λ r. is_known r d) e ∙ before in
          let a : is_known q d' ≡ true = ap (λ r. is_known r d') e ∙ after in
          ground (arith, a, b, missing-Extends ps x)
      | inr other ↦ ground (
        arith,
        is_known-Extends q x,
        missing-register_in p ps x (ground (arith, there, other)) before after,
      )
    ]

-- There is fuel for the texts that are split, and they lie within their string table.
abbrev pub AllShort : ℕ → List LoadCommand → Type 0
AllShort n [] = Unit
AllShort n (lc_rpath s ∷ cs) = (length s < n) × AllShort n cs
AllShort n (c ∷ cs) = AllShort n cs

abbrev pub IsShort : ℕ → BinObj → Type 0
IsShort n (elf strings none) = Unit
IsShort n (elf (some strings) (some es)) = (length strings < n) × AllInBounds strings es
IsShort n (elf none (some es)) = (1 < n) × AllInBounds (0 ∷ []) es
IsShort n (mach_o commands) = AllShort n commands
IsShort n other_object = Unit

module _ (sc : Scanner) (split_fuel : ℕ) (laws : IsSplit sc.fs.split) where
  handle_load_command-total :
      (c : LoadCommand) (cs : List LoadCommand) (t : DynTab)
      → AllShort split_fuel (c ∷ cs)
      → (t' : DynTab) × (handle_load_command sc split_fuel c t ≡ some t') × AllShort split_fuel cs
  unfolding handle_load_command
  handle_load_command-total (lc_load_dylib name) cs t short = (_, refl, short)
  handle_load_command-total (lc_rpath path) cs t (room, short) =
      let (b, r, run, e) = split_text sc.fs laws split_fuel 0 path t.rpath room in
      (record t { rpath = r.paths }, rw (handle_load_command, run) refl, short)
  handle_load_command-total lc_other cs t short = (_, refl, short)

  handle_load_commands-total :
      (cs : List LoadCommand) (t : DynTab)
      → AllShort split_fuel cs
      → (t' : DynTab) × (handle_load_commands sc split_fuel cs t ≡ some t')
  unfolding handle_load_commands
  handle_load_commands-total [] t short = (t, refl)
  handle_load_commands-total (c ∷ cs) t short =
      let (t1, run, short') = handle_load_command-total c cs t short in
      let (t2, run') = handle_load_commands-total cs t1 short' in
      (t2, rw (handle_load_commands, run) run')

  pub read_deps-total :
      (obj : BinObj)
      → IsShort split_fuel obj
      → (t : DynTab) × (read_deps sc split_fuel obj ≡ some t)
  unfolding read_deps handle_dyn_tab
  read_deps-total (elf none none) short = (_, refl)
  read_deps-total (elf none (some es)) (room, within) =
      (_, handle_dyn_tab_lem sc.fs laws split_fuel sc.df_1_pie (0 ∷ []) es no_deps room within)
  read_deps-total (elf (some strings) none) short = (_, refl)
  read_deps-total (elf (some strings) (some es)) (room, within) =
      (_, handle_dyn_tab_lem sc.fs laws split_fuel sc.df_1_pie strings es no_deps room within)
  read_deps-total (mach_o commands) short = handle_load_commands-total commands no_deps short
  read_deps-total other_object short = (_, refl)

-- An argument of every call of `for_each`.
abbrev pub Serves : Bool → (Str → Dyld → Option Dyld) → List Pointer → ℕ → Type 0
Serves search_system f files fuel =
    (file : Str) (d : Dyld) → IsSound d → missing files d < fuel → Ends search_system d (f file d)

pub then_Ends :
    {search_system : Bool} {d d' : Dyld} (o : Option Dyld)
    → Extends search_system d d'
    → Ends search_system d' o
    → Ends search_system d o
then_Ends o x (e, run, s, y) = (e, run, s, Extends-trans x y)

pub for_each-Ends :
    {search_system : Bool} (f : Str → Dyld → Option Dyld) (full : Str → Str) (files : List Pointer)
    (fuel : ℕ)
    → Serves search_system f files fuel
    → (deps : List Str) (d : Dyld) → IsSound d
    → missing files d < fuel
    → Ends search_system d (for_each f full deps d)
for_each-Ends f full files fuel serves [] d s room =
    (d, refl, s, Extends-same (refl, refl) (refl, refl) refl)
for_each-Ends f full files fuel serves (dep ∷ deps) d s room =
    let (d1, run, s1, x) = serves (full dep) d s room in
    rw (for_each, run)
      (then_Ends _ x (
        for_each-Ends f full files fuel serves deps d1 s1 (omega (arith, missing-Extends files x))))
