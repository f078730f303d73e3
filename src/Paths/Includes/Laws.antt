-- ===== src/Paths/Includes/Laws.antt =====
-- Paths/Includes: which paths are copied, and which are added.
use mathlib.Core.List.{append-nil, append_assoc}
use cpp_inter_op.Common.{
  ℕ, ◌<◌, ◌≡◌, ◌∙◌, refl, ap, Bool, true, false, ◌&&◌, ◌||◌, not, List, [], ◌∷◌, ◌++◌, map, none,
  some, if◌then◌else◌, Str, codes, str_eq, str_eq_iff, str_eq_refl, contains, arith, length,
  Bool-cases, inl, inr,
}
use cpp_inter_op.Paths.Split.{Platform, allow_non_existent}
use cpp_inter_op.Paths.Split.Pieces.{IsSplit, join, AllAbsent, kept, split_paths-pieces}
use cpp_inter_op.Paths.Includes.{
  Group, angled, Entry, HeaderSearchOptions, flag, is_system_group, is_invalid, copy_entries,
  copy_options, copy_include_paths, has_path, paths_checked, add_all, add_include_paths,
}

-- The entries that are listed: all but those of the system groups, if these are not wanted.
abbrev pub selected : Bool → List Entry → List Entry
selected ws [] = []
selected ws (e ∷ es) =
    let rest = selected ws es in if is_system_group e.group && not ws then rest else e ∷ rest

-- Their paths, each behind its option if these are wanted.
abbrev pub listing : Bool → List Entry → List Str
listing wf [] = []
listing wf (e ∷ es) = (if wf then flag e ∷ e.path ∷ [] else e.path ∷ []) ++ listing wf es

abbrev pub any_invalid : List Entry → Bool
any_invalid [] = false
any_invalid (e ∷ es) = is_invalid e || any_invalid es

abbrev pub sysroot_paths : HeaderSearchOptions → Bool → List Str
sysroot_paths o wf =
    if wf && not (str_eq o.sysroot (codes "/")) then codes "-isysroot" ∷ o.sysroot ∷ [] else []

copy_entries_lem :
    (es : List Entry) (out : List Str) (ws wf : Bool)
    → copy_entries es out ws wf
      ≡ (if any_invalid es then none else some (out ++ listing wf (selected ws es)))
unfolding copy_entries
copy_entries_lem [] out ws wf = rw append-nil
copy_entries_lem (e ∷ es) out ws true = ground (
  arith,
  copy_entries_lem es out ws true,
  copy_entries_lem es ((out ++ flag e ∷ []) ++ e.path ∷ []) ws true,
  append_assoc (out ++ flag e ∷ []) (e.path ∷ []) (listing true (selected ws es)),
  append_assoc out (flag e ∷ []) (e.path ∷ listing true (selected ws es)),
)
copy_entries_lem (e ∷ es) out ws false = ground (
  arith,
  copy_entries_lem es out ws false,
  copy_entries_lem es (out ++ e.path ∷ []) ws false,
  append_assoc out (e.path ∷ []) (listing false (selected ws es)),
)

-- The copy fails exactly if some entry is a framework outside the angled and system groups, also
-- one that is not wanted. Otherwise it appends the sysroot, the listing of the selected entries in
-- their order, and the options behind them.
pub copy_include_paths_lem :
    (o : HeaderSearchOptions) (incpaths : List Str) (ws wf : Bool)
    → copy_include_paths o incpaths ws wf ≡ (
        if any_invalid o.user_entries
        then none
        else some (
            incpaths
            ++ sysroot_paths o wf
            ++ listing wf (selected ws o.user_entries)
            ++ copy_options o ws wf))
unfolding copy_include_paths
copy_include_paths_lem o incpaths ws wf =
    let start =
      if wf && not (str_eq o.sysroot (codes "/"))
      then incpaths ++ codes "-isysroot" ∷ o.sysroot ∷ []
      else incpaths in
    let sys : start ≡ incpaths ++ sysroot_paths o wf = ground (arith, append-nil incpaths) in
    rw (copy_entries_lem o.user_entries start ws wf, copy_include_paths)
      (elim (Bool-cases (any_invalid o.user_entries)) [
        | inl bad ↦ rw bad
        | inr fine ↦ rw fine (
            ap (λ x. some ((x ++ listing wf (selected ws o.user_entries)) ++ copy_options o ws wf))
              sys)
      ])

abbrev angled_entry : Str → Entry
angled_entry p = record { path = p; group = angled; is_framework = false }

has_path-append :
    (p : Str) (es fs : List Entry) → has_path p (es ++ fs) ≡ (has_path p es || has_path p fs)
unfolding has_path
has_path-append p [] fs = refl
has_path-append p (e ∷ es) fs = ground (arith, has_path-append p es fs)

-- After the new paths are added, exactly the old ones and those of the list are there.
has_path-checked :
    (q : Str) (es : List Entry) (ps : List Str)
    → (has_path q es || has_path q (map angled_entry (paths_checked es ps)))
      ≡ (has_path q es || contains q ps)
unfolding has_path paths_checked contains
has_path-checked q es [] = refl
has_path-checked q es (p ∷ ps) = ground (arith, has_path-checked q es ps, str_eq_iff p q)

paths_checked-known :
    (es : List Entry) (ps : List Str)
    → ((q : Str) → contains q ps ≡ true → has_path q es ≡ true)
    → paths_checked es ps ≡ []
unfolding paths_checked contains
paths_checked-known es [] h = refl
paths_checked-known es (p ∷ ps) h =
    ground (arith, h p, str_eq_refl p, paths_checked-known es ps (λ q c. h q (ground arith)))

-- The documented effect of AddPath: the entry is appended, and nothing else that is read changes.
pub record IsAddPath
    (add_path : Str → Group → Bool → Bool → HeaderSearchOptions → HeaderSearchOptions)
    : Type 0 where
  pub appends :
      (p : Str) (g : Group) (f i : Bool) (o : HeaderSearchOptions)
      → (add_path p g f i o).user_entries
        ≡ o.user_entries ++ record { path = p; group = g; is_framework = f } ∷ []

module _ (fs : Platform)
    (add_path : Str → Group → Bool → Bool → HeaderSearchOptions → HeaderSearchOptions)
    (laws : IsSplit fs.split) (adds : IsAddPath add_path) where
  entries-add_all :
      (ps : List Str) (o : HeaderSearchOptions)
      → (add_all fs add_path ps o).user_entries ≡ o.user_entries ++ map angled_entry ps
  unfolding add_all
  entries-add_all [] o = rw append-nil
  entries-add_all (p ∷ ps) o = ground (
    arith,
    entries-add_all ps (add_path p angled false true o),
    adds.appends p angled false true o,
    append_assoc o.user_entries (angled_entry p ∷ []) (map angled_entry ps),
  )

  -- The pieces that are not empty.
  abbrev pub wanted : List Str → List Str
  wanted = kept fs.is_directory allow_non_existent

  add_include_paths-runs :
      (fuel : ℕ) (d : ℕ) (p : Str) (ps : List Str) (o : HeaderSearchOptions)
      → AllAbsent d (p ∷ ps)
      → length ps < fuel
      → add_include_paths fs add_path fuel (join d p ps) o (some (d ∷ []))
        ≡ some (add_all fs add_path (paths_checked o.user_entries (wanted (p ∷ ps))) o)
  unfolding add_include_paths
  add_include_paths-runs fuel d p ps o h room =
      let (s, e, k) =
        split_paths-pieces fs allow_non_existent d o.verbose laws (λ c. absurd (cc)) fuel p ps [] h
          room in
      rw (e, add_include_paths)
        (ap (λ x. some (add_all fs add_path (paths_checked o.user_entries x) o)) k)

  -- Adding the paths of a text of pieces, with fuel for each: afterwards an entry has a path
  -- exactly if one had it before or the path is a piece that is not empty, and adding the same
  -- text again changes nothing.
  pub add_include_paths_idem :
      (fuel : ℕ) (d : ℕ) (p : Str) (ps : List Str) (o : HeaderSearchOptions)
      → AllAbsent d (p ∷ ps)
      → length ps < fuel
      → (o' : HeaderSearchOptions) × (add_include_paths fs add_path fuel
            (join d p ps)
            o
            (some (d ∷ []))
          ≡ some o')
        × ((q : Str)
            → has_path q o'.user_entries
              ≡ (has_path q o.user_entries || contains q (wanted (p ∷ ps))))
        × (add_include_paths fs add_path fuel (join d p ps) o' (some (d ∷ [])) ≡ some o')
  unfolding add_all
  add_include_paths_idem fuel d p ps o h room =
      let new = paths_checked o.user_entries (wanted (p ∷ ps)) in
      let o' = add_all fs add_path new o in
      let has = λ (q : Str).
        ap (has_path q) (entries-add_all new o)
        ∙ has_path-append q o.user_entries (map angled_entry new)
        ∙ has_path-checked q o.user_entries (wanted (p ∷ ps)) in
      let nothing : paths_checked o'.user_entries (wanted (p ∷ ps)) ≡ [] =
        paths_checked-known o'.user_entries (wanted (p ∷ ps)) (λ q c. ground (arith, has q)) in
      (
        o',
        add_include_paths-runs fuel d p ps o h room,
        has,
        add_include_paths-runs fuel d p ps o' h room
            ∙ ap (λ x. some (add_all fs add_path x o')) nothing,
      )
