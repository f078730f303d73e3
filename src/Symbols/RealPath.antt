-- ===== src/Symbols/RealPath.antt =====
-- lib/CppInterOp/DynamicLibraryManagerSymbol.cpp: cached_realpath with its caches, as built on Unix.
-- errno is left out.
pub mod Entries
pub mod Caching
use cpp_inter_op.Common.{
  ℕ, zero, suc, Bool, true, false, ◌&&◌, ◌||◌, List, [], ◌∷◌, ◌++◌, Option, none, some, ◌==◌,
  if◌then◌else◌, bit_and, Str, codes, is_empty, str_eq, take,
}

-- What is asked of the system and of LLVM: lstat's mode and the text of readlink, `none` on an
-- error; the path functions, StringRef::split without empty pieces and StringRef::rfind, `none` for
-- npos; and the home and current directories.
pub record Unix : Type 0 where
  pub lstat : Str → Option ℕ
  pub readlink : Str → Option Str
  pub is_relative : Str → Bool
  pub is_separator : ℕ → Bool
  pub get_separator : Str
  pub append : Str → Str → Str
  pub split : Str → Str → List Str
  pub rfind : Str → Str → Option ℕ
  pub home_directory : Str
  pub current_path : Str

-- StringMap: `insert` keeps an entry that is there.
unfoldable pub find_entry {ℓ} : {A : Type ℓ} → Str → List (Str × A) → Option A
find_entry key [] = none
find_entry key (e ∷ es) = let rest = find_entry key es in if str_eq e.0 key then some e.1 else rest

unfoldable pub insert_entry {ℓ} : {A : Type ℓ} → Str → A → List (Str × A) → List (Str × A)
insert_entry key value es = elim (find_entry key es) [
  | none ↦ es ++ (key, value) ∷ []
  | some v ↦ es
]

-- The static variables of the three functions.
pub record Caches : Type 0 where
  pub lstat_cache : List (Str × ℕ)
  pub readlink_cache : List (Str × Str)
  pub cache : List (Str × Str)
  pub home : Str
  pub current : Str

-- S_ISLNK
unfoldable pub is_link : ℕ → Bool
is_link mode = bit_and mode 61440 == 40960

abbrev pub mode_of : Option ℕ → ℕ
mode_of none = 0
mode_of (some mode) = mode

-- How the handling of an item ends: with the next, or with the early return.
pub data Item : Type 0 where
  continued : Str → Item
  not_there : Item

abbrev pub of_link : Str × Caches → Item × Caches
of_link (target, c) = (continued target, c)

abbrev pub go_on : (Str → Caches → Option Str × Caches) → Item × Caches → Option Str × Caches
go_on rest (continued result, c) = rest result c
go_on rest (not_there, c) = (none, c)

abbrev pub text_of : Option Str → Str
text_of none = []
text_of (some result) = result

-- Both ends of the function, of which the early one has an empty result.
abbrev pub remember : Str → Option Str × Caches → Str × Caches
remember path (o, c) = (text_of o, record c { cache = insert_entry path (text_of o) c.cache })

module _ (unix : Unix) where
  unfoldable pub cached_lstat : Str → Caches → ℕ × Caches
  cached_lstat path c = elim (find_entry path c.lstat_cache) [
    | some mode ↦ (mode, c)
    | none ↦ (
      mode_of (unix.lstat path),
      record c { lstat_cache = insert_entry path (mode_of (unix.lstat path)) c.lstat_cache },
    )
  ]

  unfoldable pub cached_readlink : Str → Caches → Str × Caches
  cached_readlink pathname c = elim (find_entry pathname c.readlink_cache) [
    | some text ↦ (text, c)
    | none ↦ elim (unix.readlink pathname) [
      | some text ↦
          (text, record c { readlink_cache = insert_entry pathname text c.readlink_cache })
      | none ↦ ([], c)
    ]
  ]

  -- `path[0] == '~' && (path.size() == 1 || is_separator(path[1]))`
  unfoldable pub is_home : Str → Bool
  is_home [] = false
  is_home (c ∷ []) = c == 126
  is_home (c ∷ d ∷ s) = (c == 126) && unix.is_separator d

  -- The two directories are asked for once.
  abbrev pub home_of : Caches → Str
  home_of c = if is_empty c.home then unix.home_directory else c.home

  abbrev pub current_of : Caches → Str
  current_of c = if is_empty c.current then unix.current_path else c.current

  -- What the list of items and the result start with.
  unfoldable pub start_items : Str → Str → Bool → Caches → (Str × List Str) × Caches
  start_items path base_path is_base_path_real c =
      let sep = unix.get_separator in
      if unix.is_relative path
      then if is_base_path_real
        then ((base_path, []), c)
        else if is_home path
        then ((sep, unix.split (home_of c) sep), record c { home = home_of c })
        else if is_empty base_path
        then ((sep, unix.split (current_of c) sep), record c { current = current_of c })
        else ((sep, unix.split base_path sep), c)
      else ((sep, []), c)

  -- The element "..".
  unfoldable pub collapse : Str → Str
  collapse result =
      let cut : Str = elim (unix.rfind result unix.get_separator) [
        | none ↦ result
        | some s ↦ take s result
      ] in
      if is_empty cut then unix.get_separator else cut

  -- An item behind a result; the nested call is an argument, of the path, the base path and whether
  -- that is real.
  abbrev pub follow : (Str → Str → Caches → Str × Caches) → Str → Str × Caches → Str × Caches
  follow nested result (symlink, c) =
      nested symlink (if unix.is_relative symlink then result else []) c

  abbrev pub by_mode : (Str → Str → Caches → Str × Caches) → Str → Str → ℕ × Caches → Item × Caches
  by_mode nested result longer (mode, c) =
      if is_link mode
      then of_link (follow nested result (cached_readlink longer c))
      else if mode == 0
      then (not_there, c)
      else (continued longer, c)

  unfoldable pub handle_item :
      (Str → Str → Caches → Str × Caches) → Str → Str → Caches → Item × Caches
  handle_item nested item result c =
      if str_eq item (codes ".")
      then (continued result, c)
      else if str_eq item (codes "..")
      then (continued (collapse result), c)
      else by_mode nested result (unix.append result item)
          (cached_lstat (unix.append result item) c)

  -- `none` is the early return.
  unfoldable pub handle_items :
      (Str → Str → Caches → Str × Caches) → List Str → Str → Caches → Option Str × Caches
  handle_items nested [] result c = (some result, c)
  handle_items nested (item ∷ items) result c =
      go_on (λ r. handle_items nested items r) (handle_item nested item result c)

  abbrev pub resolve_items :
      (Str → Str → Caches → Str × Caches) → Str → (Str × List Str) × Caches → Str × Caches
  resolve_items nested path ((result, items), c) =
      remember path (handle_items nested (items ++ unix.split path unix.get_separator) result c)

  abbrev pub cached_answer : Str → Caches → Option Str
  cached_answer path c = if unix.is_relative path then none else find_entry path c.cache

  unfoldable pub cached_realpath : ℕ → Str → Str → Bool → Caches → Str × Caches
  cached_realpath zero path base_path is_base_path_real c = ([], c)
  cached_realpath (suc level) path base_path is_base_path_real c =
      let nested = λ (p b : Str) (k : Caches). cached_realpath level p b true k in
      let resolved : Str × Caches =
        resolve_items nested path (start_items path base_path is_base_path_real c) in
      if is_empty path
      then ([], c)
      else elim (cached_answer path c) [ some answer ↦ (answer, c) | none ↦ resolved ]

  -- With the default arguments.
  unfoldable pub real_path_of : Str → Caches → Str × Caches
  real_path_of path c = cached_realpath 40 path [] false c
