-- ===== src/Symbols/Dynamic/Tables.antt =====
-- Symbols/Dynamic: what is read of a dynamic table.
use mathlib.Core.List.{append_assoc, append-nil}
use cpp_inter_op.Common.{
  ℕ, ◌<◌, ◌≡◌, refl, sym, ap, ◌∙◌, Bool, true, false, ◌||◌, not, List, [], ◌∷◌, ◌++◌, some, ◌==◌,
  bit_and, if◌then◌else◌, Str, codes, drop, length, length-drop, arith,
}
use cpp_inter_op.Paths.Split.{Platform, Progress, allow_non_existent, split_paths}
use cpp_inter_op.Paths.Split.Pieces.{IsSplit, split_paths-pieces}
use cpp_inter_op.Symbols.Dynamic.{
  Dyn, dt_needed, dt_rpath, dt_runpath, dt_flags_1, dt_other, DynTab, until_zero, has_zero, text_at,
  handle_entry, handle_entries, handle_dyn_tab,
}
use cpp_inter_op.Symbols.Dynamic.Texts.{
  pieces, join-pieces, AllAbsent-pieces, length-pieces, kept-allow, length-until_zero, directories,
}

-- The text that begins at an offset of the string table.
abbrev pub name_at : Str → ℕ → Str
name_at strings v = until_zero (drop v strings)

-- The texts that the entries name lie within the string table: a zero byte ends them there.
abbrev pub AllInBounds : Str → List Dyn → Type 0
AllInBounds strings [] = Unit
AllInBounds strings (dt_needed v ∷ es) = (has_zero (drop v strings) ≡ true) × AllInBounds strings es
AllInBounds strings (dt_rpath v ∷ es) = (has_zero (drop v strings) ≡ true) × AllInBounds strings es
AllInBounds strings (dt_runpath v ∷ es) =
    (has_zero (drop v strings) ≡ true) × AllInBounds strings es
AllInBounds strings (e ∷ es) = AllInBounds strings es

text_at_lem :
    (strings : Str) (v : ℕ)
    → has_zero (drop v strings) ≡ true
    → text_at strings v ≡ some (name_at strings v)
unfolding text_at
text_at_lem strings v ends = rw (ends) refl

-- What the entries of a kind give, in the order of the table.
abbrev pub needed : Str → List Dyn → List Str
needed strings [] = []
needed strings (dt_needed v ∷ es) = name_at strings v ∷ needed strings es
needed strings (e ∷ es) = needed strings es

abbrev pub rpaths : Str → List Dyn → List Str
rpaths strings [] = []
rpaths strings (dt_rpath v ∷ es) = directories (name_at strings v) ++ rpaths strings es
rpaths strings (e ∷ es) = rpaths strings es

abbrev pub run_paths : Str → List Dyn → List Str
run_paths strings [] = []
run_paths strings (dt_runpath v ∷ es) = directories (name_at strings v) ++ run_paths strings es
run_paths strings (e ∷ es) = run_paths strings es

abbrev pub has_pie_flag : ℕ → List Dyn → Bool
has_pie_flag flag [] = false
has_pie_flag flag (dt_flags_1 v ∷ es) = not (bit_and v flag == 0) || has_pie_flag flag es
has_pie_flag flag (e ∷ es) = has_pie_flag flag es

or_false : (b : Bool) → (b || false) ≡ b
or_false b = ground arith

flag_or :
    (unset pie later : Bool)
    → ((if unset then pie else true) || later) ≡ (pie || (not unset || later))
flag_or unset pie later = ground arith

module _ (fs : Platform) (laws : IsSplit fs.split) (fuel flag : ℕ) where
  pub split_text :
      (s : Str) (paths : List Str)
      → length s < fuel
      → (b : Bool) × (r : Progress) × (split_paths fs allow_non_existent
            (codes ":")
            false
            fuel
            s
            paths
          ≡ some (b, r))
        × (r.paths ≡ paths ++ directories s)
  split_text s paths room =
      let p = (pieces b':' s).0 in
      let ps = (pieces b':' s).1 in
      let (r, run, e) =
        split_paths-pieces fs allow_non_existent b':' false laws (λ z. absurd (cc)) fuel p ps paths
          (AllAbsent-pieces b':' s) (omega (arith, length-pieces b':' s)) in
      (
        _,
        r,
        ap (λ t. split_paths fs allow_non_existent (codes ":") false fuel t paths)
              (sym (join-pieces b':' s))
            ∙ run,
        e ∙ ap (λ ks. paths ++ ks) (kept-allow fs.is_directory (p ∷ ps)),
      )

  name_at-room : (strings : Str) (v : ℕ) → length strings < fuel → length (name_at strings v) < fuel
  name_at-room strings v room =
      omega (arith, length-until_zero (drop v strings), length-drop v strings)

  handle_entries_lem :
      (strings : Str) (es : List Dyn) (t : DynTab)
      → length strings < fuel
      → AllInBounds strings es
      → handle_entries fs fuel flag strings es t
        ≡ some (record {
          rpath = t.rpath ++ rpaths strings es;
          run_path = t.run_path ++ run_paths strings es;
          deps = t.deps ++ needed strings es;
          is_pie_executable = t.is_pie_executable || has_pie_flag flag es;
        })
  unfolding handle_entries handle_entry
  handle_entries_lem strings [] t room within =
      rw
        (append-nil t.rpath, append-nil t.run_path, append-nil t.deps, or_false t.is_pie_executable)
        refl
  handle_entries_lem strings (dt_needed v ∷ es) t room (ends, within) =
      rw (handle_entries, handle_entry, text_at_lem strings v ends)
        (handle_entries_lem strings es (record t { deps = t.deps ++ name_at strings v ∷ [] }) room
            within
          ∙ ap
              (λ x. some (record {
                rpath = t.rpath ++ rpaths strings es;
                run_path = t.run_path ++ run_paths strings es;
                deps = x;
                is_pie_executable = t.is_pie_executable || has_pie_flag flag es;
              }))
              (append_assoc t.deps (name_at strings v ∷ []) (needed strings es)))
  handle_entries_lem strings (dt_rpath v ∷ es) t room (ends, within) =
      let (b, r, run, e) = split_text (name_at strings v) t.rpath (name_at-room strings v room) in
      rw (handle_entries, handle_entry, text_at_lem strings v ends, run)
        (handle_entries_lem strings es (record t { rpath = r.paths }) room within
          ∙ ap
              (λ x. some (record {
                rpath = x;
                run_path = t.run_path ++ run_paths strings es;
                deps = t.deps ++ needed strings es;
                is_pie_executable = t.is_pie_executable || has_pie_flag flag es;
              }))
              (ap (λ ps. ps ++ rpaths strings es) e
                ∙ append_assoc t.rpath (directories (name_at strings v)) (rpaths strings es)))
  handle_entries_lem strings (dt_runpath v ∷ es) t room (ends, within) =
      let (b, r, run, e) =
        split_text (name_at strings v) t.run_path (name_at-room strings v room) in
      rw (handle_entries, handle_entry, text_at_lem strings v ends, run)
        (handle_entries_lem strings es (record t { run_path = r.paths }) room within
          ∙ ap
              (λ x. some (record {
                rpath = t.rpath ++ rpaths strings es;
                run_path = x;
                deps = t.deps ++ needed strings es;
                is_pie_executable = t.is_pie_executable || has_pie_flag flag es;
              }))
              (ap (λ ps. ps ++ run_paths strings es) e
                ∙ append_assoc t.run_path (directories (name_at strings v)) (run_paths strings es)))
  handle_entries_lem strings (dt_flags_1 v ∷ es) t room within =
      handle_entries_lem strings es
        (record t { is_pie_executable = if bit_and v flag == 0 then t.is_pie_executable else true })
        room within
      ∙ ap
          (λ x. some (record {
            rpath = t.rpath ++ rpaths strings es;
            run_path = t.run_path ++ run_paths strings es;
            deps = t.deps ++ needed strings es;
            is_pie_executable = x;
          }))
          (flag_or (bit_and v flag == 0) t.is_pie_executable (has_pie_flag flag es))
  handle_entries_lem strings (dt_other v ∷ es) t room within =
      handle_entries_lem strings es t room within

  -- Of a file whose string table and dynamic entries can be read, where the texts that the entries
  -- name lie within the string table, with fuel for the table: the names of the needed libraries are appended in the order of the entries, RPATH and RUNPATH
  -- get the directories of their entries, the pieces between colons that are not empty, and the
  -- file is an independent executable exactly if some flags entry says so.
  pub handle_dyn_tab_lem :
      (strings : Str) (es : List Dyn) (t : DynTab)
      → length strings < fuel
      → AllInBounds strings es
      → handle_dyn_tab fs fuel flag (some strings) (some es) t
        ≡ some (record {
          rpath = t.rpath ++ rpaths strings es;
          run_path = t.run_path ++ run_paths strings es;
          deps = t.deps ++ needed strings es;
          is_pie_executable = has_pie_flag flag es;
        })
  unfolding handle_dyn_tab
  handle_dyn_tab_lem strings es t room within =
      handle_entries_lem strings es (record t { is_pie_executable = false }) room within
