-- ===== src/Paths/Includes/Options.antt =====
-- Paths/Includes: the list that CopyIncludePaths writes, read as the options of a command line.
use cpp_inter_op.Common.{
  ◌≡◌, ◌∙◌, refl, ap, Bool, true, false, ◌&&◌, not, List, [], ◌∷◌, ◌++◌, map, Option, none, some,
  if◌then◌else◌, Str, codes, str_eq, arith,
}
use mathlib.Core.List.{append_assoc, append-nil}
use cpp_inter_op.Paths.Includes.{
  Group, quoted, angled, system, c_system, extern_c_system, cxx_system, objc_system, objcxx_system,
  after, Entry, HeaderSearchOptions, flag, is_system_group, is_invalid,
}
use cpp_inter_op.Paths.Includes.Laws.{selected, listing, any_invalid}

-- The options of a command line that names none.
abbrev pub defaults : HeaderSearchOptions
defaults = record {
  sysroot = codes "/";
  user_entries = [];
  resource_dir = [];
  module_cache_path = [];
  use_standard_system_includes = true;
  use_standard_cxx_includes = true;
  use_libcxx = false;
  verbose = false;
}

-- The words of a command line: an option that stands alone, or one whose value is the next word.
abbrev pub option_entry : Str → Option (Group × Bool)
option_entry w =
    if str_eq w (codes "-I")
    then some (angled, false)
    else if str_eq w (codes "-F")
    then some (angled, true)
    else if str_eq w (codes "-iquote")
    then some (quoted, false)
    else if str_eq w (codes "-idirafter")
    then some (after, false)
    else if str_eq w (codes "-isystem")
    then some (system, false)
    else if str_eq w (codes "-c-isystem")
    then some (c_system, false)
    else if str_eq w (codes "-extern-c-isystem")
    then some (extern_c_system, false)
    else if str_eq w (codes "-cxx-isystem")
    then some (cxx_system, false)
    else if str_eq w (codes "-objc-isystem")
    then some (objc_system, false)
    else if str_eq w (codes "-objcxx-isystem")
    then some (objcxx_system, false)
    else none

abbrev pub with_entry : Str → Option (Group × Bool) → HeaderSearchOptions → HeaderSearchOptions
with_entry v none o = o
with_entry v (some (g, f)) o = record o {
  user_entries = o.user_entries ++ record { path = v; group = g; is_framework = f } ∷ [];
}

abbrev pub with_value : Str → Str → HeaderSearchOptions → HeaderSearchOptions
with_value w v o =
    if str_eq w (codes "-isysroot")
    then record o { sysroot = v }
    else if str_eq w (codes "-resource-dir")
    then record o { resource_dir = v }
    else if str_eq w (codes "-fmodule-cache-path")
    then record o { module_cache_path = v }
    else with_entry v (option_entry w) o

abbrev pub alone : Str → HeaderSearchOptions → Option HeaderSearchOptions
alone w o =
    if str_eq w (codes "-nostdinc")
    then some (record o { use_standard_system_includes = false })
    else if str_eq w (codes "-nostdinc++")
    then some (record o { use_standard_cxx_includes = false })
    else if str_eq w (codes "-stdlib=libc++")
    then some (record o { use_libcxx = true })
    else if str_eq w (codes "-v")
    then some (record o { verbose = true })
    else none

-- The options read so far, and the option that waits for its value.
abbrev pub Reading : Type 0
Reading = HeaderSearchOptions × Option Str

abbrev pub opened : Str → HeaderSearchOptions → Option HeaderSearchOptions → Reading
opened w o none = (o, some w)
opened w o (some o') = (o', none)

abbrev pub read_word : Str → Reading → Reading
read_word w (o, none) = opened w o (alone w o)
read_word w (o, some f) = (with_value f w o, none)

abbrev pub read_words : List Str → Reading → Reading
read_words [] r = r
read_words (w ∷ ws) r = read_words ws (read_word w r)

-- What an entry needs to be written: only angled and system entries may be frameworks.
abbrev pub is_writable : Group → Bool → Bool
is_writable angled f = true
is_writable system f = true
is_writable _ f = not f

abbrev pub are_writable : List Entry → Bool
are_writable [] = true
are_writable (e ∷ es) = is_writable e.group e.is_framework && are_writable es

-- The mark of a framework among the system entries is not written.
abbrev pub written_mark : Group → Bool → Bool
written_mark system f = false
written_mark _ f = f

abbrev pub written : Entry → Entry
written e = record e { is_framework = written_mark e.group e.is_framework }

-- The groups that are written without the system paths too.
abbrev pub is_own : Group → Bool
is_own quoted = true
is_own angled = true
is_own after = true
is_own _ = false

abbrev pub own : List Entry → List Entry
own [] = []
own (e ∷ es) = let rest = own es in if is_own e.group then e ∷ rest else rest

-- The options that are written, with or without those of the system.
abbrev pub seen : Bool → HeaderSearchOptions → HeaderSearchOptions
seen true o = record o { user_entries = map written o.user_entries }
seen false o = record defaults {
  sysroot = o.sysroot;
  user_entries = map written (own o.user_entries);
}

abbrev pub Reads : Bool → HeaderSearchOptions → Option (List Str) → Type 0
Reads ws o none = are_writable o.user_entries ≡ false
Reads ws o (some out) =
    (are_writable o.user_entries ≡ true) × (read_words out (defaults, none) ≡ (seen ws o, none))

pub read_words-append :
    (xs ys : List Str) (r : Reading) → read_words (xs ++ ys) r ≡ read_words ys (read_words xs r)
read_words-append [] ys r = refl
read_words-append (x ∷ xs) ys r = read_words-append xs ys (read_word x r)

read_entry :
    (p : Str) (g : Group) (f : Bool) (o : HeaderSearchOptions)
    → is_writable g f ≡ true
    → (let e : Entry = record { path = p; group = g; is_framework = f } in
        read_words (flag e ∷ p ∷ []) (o, none)
        ≡ (record o { user_entries = o.user_entries ++ written e ∷ [] }, none))
unfolding flag str_eq
read_entry p quoted false o h = refl
read_entry p quoted true o h = absurd (cc)
read_entry p angled false o h = refl
read_entry p angled true o h = refl
read_entry p system false o h = refl
read_entry p system true o h = refl
read_entry p c_system false o h = refl
read_entry p c_system true o h = absurd (cc)
read_entry p extern_c_system false o h = refl
read_entry p extern_c_system true o h = absurd (cc)
read_entry p cxx_system false o h = refl
read_entry p cxx_system true o h = absurd (cc)
read_entry p objc_system false o h = refl
read_entry p objc_system true o h = absurd (cc)
read_entry p objcxx_system false o h = refl
read_entry p objcxx_system true o h = absurd (cc)
read_entry p after false o h = refl
read_entry p after true o h = absurd (cc)

is_own_lem : (g : Group) → is_own g ≡ not (is_system_group g)
unfolding is_system_group
is_own_lem quoted = refl
is_own_lem angled = refl
is_own_lem system = refl
is_own_lem c_system = refl
is_own_lem extern_c_system = refl
is_own_lem cxx_system = refl
is_own_lem objc_system = refl
is_own_lem objcxx_system = refl
is_own_lem after = refl

is_writable_lem :
    (p : Str) (g : Group) (f : Bool)
    → is_writable g f ≡ not (is_invalid (record { path = p; group = g; is_framework = f }))
unfolding is_invalid
is_writable_lem p quoted f = ground arith
is_writable_lem p angled f = ground arith
is_writable_lem p system f = ground arith
is_writable_lem p c_system f = ground arith
is_writable_lem p extern_c_system f = ground arith
is_writable_lem p cxx_system f = ground arith
is_writable_lem p objc_system f = ground arith
is_writable_lem p objcxx_system f = ground arith
is_writable_lem p after f = ground arith

pub are_writable_lem : (es : List Entry) → are_writable es ≡ not (any_invalid es)
are_writable_lem [] = refl
are_writable_lem (e ∷ es) =
    ground (arith, is_writable_lem e.path e.group e.is_framework, are_writable_lem es)

-- The entries that are written.
abbrev pub chosen : Bool → List Entry → List Entry
chosen true es = es
chosen false es = own es

pub selected-chosen : (ws : Bool) (es : List Entry) → selected ws es ≡ chosen ws es
selected-chosen true [] = refl
selected-chosen true (e ∷ es) = ground (arith, selected-chosen true es)
selected-chosen false [] = refl
selected-chosen false (e ∷ es) = ground (arith, is_own_lem e.group, selected-chosen false es)

pub are_writable-own : (es : List Entry) → are_writable es ≡ true → are_writable (own es) ≡ true
are_writable-own [] h = refl
are_writable-own (e ∷ es) h = ground (arith, are_writable-own es)

pub read_listing :
    (es : List Entry) (o : HeaderSearchOptions)
    → are_writable es ≡ true
    → read_words (listing true es) (o, none)
      ≡ (record o { user_entries = o.user_entries ++ map written es }, none)
read_listing [] o h = rw (append-nil o.user_entries) refl
read_listing (e ∷ es) o h =
    let first : is_writable e.group e.is_framework ≡ true = ground (arith, h) in
    let others : are_writable es ≡ true = ground (arith, h) in
    let o1 : HeaderSearchOptions = record o { user_entries = o.user_entries ++ written e ∷ [] } in
    ap (read_words (listing true es)) (read_entry e.path e.group e.is_framework o first)
    ∙ read_listing es o1 others
    ∙ ap (λ x. (record o { user_entries = x }, none))
        (append_assoc o.user_entries (written e ∷ []) (map written es))
