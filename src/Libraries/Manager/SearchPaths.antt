-- ===== src/Libraries/Manager/SearchPaths.antt =====
-- Libraries/Manager: the order and the distinctness of the search paths.
use mathlib.Core.List.{append_assoc, append-nil}
use cpp_inter_op.Common.{
  ℕ, ◌<◌, ◌≡◌, refl, sym, ap, ◌∙◌, Bool, true, false, ◌||◌, List, [], ◌∷◌, ◌++◌, map, some,
  if◌then◌else◌, Str, codes, is_empty, str_eq, length, arith, contains,
}
use cpp_inter_op.Paths.Split.{Platform, prune_non_existent}
use cpp_inter_op.Paths.Split.Pieces.{IsSplit, AllAbsent, join, kept, split_paths-pieces}
use cpp_inter_op.Libraries.Manager.{
  SearchPathInfo, has_search_path, add_search_path, add_search_paths, initial_search_paths,
}

-- The paths of a list that are neither empty, seen before the list, nor earlier in it.
abbrev pub unseen : (Str → Bool) → List Str → List Str
unseen seen [] = []
unseen seen (p ∷ ps) =
    if is_empty p || seen p then unseen seen ps else p ∷ unseen (λ q. seen q || str_eq q p) ps

abbrev pub infos_of : Bool → List Str → List SearchPathInfo
infos_of is_user ps = map (λ p. record { path = p; is_user = is_user }) ps

abbrev pub AreDistinct : List Str → Type 0
AreDistinct [] = Unit
AreDistinct (p ∷ ps) = (is_empty p ≡ false) × (contains p ps ≡ false) × AreDistinct ps

has_search_path-append :
    (q : Str) (is js : List SearchPathInfo)
    → has_search_path q (is ++ js) ≡ (has_search_path q is || has_search_path q js)
unfolding has_search_path
has_search_path-append q [] js = refl
has_search_path-append q (i ∷ is) js = ground (arith, has_search_path-append q is js)

unseen-congr :
    (f g : Str → Bool) → ((q : Str) → f q ≡ g q) → (ps : List Str) → unseen f ps ≡ unseen g ps
unseen-congr f g e [] = refl
unseen-congr f g e (p ∷ ps) = ground (
  arith,
  e p,
  unseen-congr f g e ps,
  unseen-congr (λ q. f q || str_eq q p) (λ q. g q || str_eq q p)
      (λ q. ap (λ b. b || str_eq q p) (e q)) ps,
)

seen_after :
    (p : Str) (is_user : Bool) (infos : List SearchPathInfo) (q : Str)
    → has_search_path q (infos ++ record { path = p; is_user = is_user } ∷ [])
      ≡ (has_search_path q infos || str_eq q p)
unfolding has_search_path
seen_after p is_user infos q =
    ground (arith, has_search_path-append q infos (record { path = p; is_user = is_user } ∷ []))

-- Adding a list of paths appends those that are neither empty nor there yet, each once and in
-- order, and leaves the others where they are.
pub add_search_paths_lem :
    (ps : List Str) (is_user : Bool) (infos : List SearchPathInfo)
    → add_search_paths ps is_user infos
      ≡ infos ++ infos_of is_user (unseen (λ q. has_search_path q infos) ps)
unfolding add_search_paths add_search_path
add_search_paths_lem [] is_user infos = ground (arith, append-nil infos)
add_search_paths_lem (p ∷ ps) is_user infos =
    let added = infos ++ record { path = p; is_user = is_user } ∷ [] in
    ground (
      arith,
      add_search_paths_lem ps is_user infos,
      add_search_paths_lem ps is_user added,
      unseen-congr (λ q. has_search_path q added) (λ q. has_search_path q infos || str_eq q p)
          (seen_after p is_user infos) ps,
      append_assoc infos (record { path = p; is_user = is_user } ∷ [])
          (infos_of is_user (unseen (λ q. has_search_path q infos || str_eq q p) ps)),
    )

add_search_paths-append :
    (ps : List Str) (q : Str) (is_user : Bool) (infos : List SearchPathInfo)
    → add_search_paths (ps ++ q ∷ []) is_user infos
      ≡ add_search_path q is_user false (add_search_paths ps is_user infos)
unfolding add_search_paths
add_search_paths-append [] q is_user infos = refl
add_search_paths-append (p ∷ ps) q is_user infos =
    add_search_paths-append ps q is_user (add_search_path p is_user false infos)

-- The users' directories first, then the current directory, then the system's, each at its first
-- place only and none of them empty: what the constructor makes of an LD_LIBRARY_PATH, set to
-- directories joined by colons, of which those that do not exist are left out. Fuel for each
-- directory is enough.
pub initial_search_paths_lem :
    (fs : Platform) (fuel : ℕ) (p : Str) (ps sys_paths : List Str)
    → IsSplit fs.split
    → AllAbsent b':' (p ∷ ps)
    → length ps < fuel
    → let user = infos_of true (
        unseen (λ _. false) (kept fs.is_directory prune_non_existent (p ∷ ps) ++ codes "." ∷ [])) in
      initial_search_paths fs fuel (some (join b':' p ps)) sys_paths
      ≡ some (user ++ infos_of false (unseen (λ q. has_search_path q user) sys_paths))
unfolding initial_search_paths add_search_paths has_search_path
initial_search_paths_lem fs fuel p ps sys_paths laws absent room =
    let ks = kept fs.is_directory prune_non_existent (p ∷ ps) in
    let (s, run, k) =
      split_paths-pieces fs prune_non_existent b':' false laws (λ e. absurd (cc)) fuel p ps []
        absent room in
    let user = infos_of true (unseen (λ _. false) (ks ++ codes "." ∷ [])) in
    rw (initial_search_paths, run, k)
      (ap some (
        ap (add_search_paths sys_paths false) (
          sym (add_search_paths-append ks (codes ".") true [])
          ∙ add_search_paths_lem (ks ++ codes "." ∷ []) true []
          ∙ ap (infos_of true) (
              unseen-congr (λ q. has_search_path q []) (λ _. false) (λ q. refl)
                (ks ++ codes "." ∷ [])))
        ∙ add_search_paths_lem sys_paths false user))

str_eq_comm : (s t : Str) → str_eq s t ≡ str_eq t s
unfolding str_eq
str_eq_comm [] [] = refl
str_eq_comm [] (c ∷ t) = refl
str_eq_comm (b ∷ s) [] = refl
str_eq_comm (b ∷ s) (c ∷ t) = ground (arith, str_eq_comm s t)

has_search_path-contains :
    (dir : Str) (infos : List SearchPathInfo)
    → has_search_path dir infos ≡ contains dir (map (λ (i : SearchPathInfo). i.path) infos)
unfolding has_search_path contains
has_search_path-contains dir [] = refl
has_search_path-contains dir (i ∷ is) =
    ground (arith, has_search_path-contains dir is, str_eq_comm dir i.path)

contains-append :
    (p q : Str) (ps : List Str) → contains p (ps ++ q ∷ []) ≡ (contains p ps || str_eq q p)
unfolding contains
contains-append p q [] = ground arith
contains-append p q (r ∷ ps) = ground (arith, contains-append p q ps)

AreDistinct-append :
    (q : Str) (ps : List Str)
    → AreDistinct ps
    → is_empty q ≡ false
    → contains q ps ≡ false
    → AreDistinct (ps ++ q ∷ [])
unfolding contains
AreDistinct-append q [] h ne new = ground arith
AreDistinct-append q (p ∷ ps) h ne new =
    ground (arith, contains-append p q ps, str_eq_comm p q, AreDistinct-append q ps)

map-append_path :
    (infos : List SearchPathInfo) (i : SearchPathInfo)
    → map (λ (j : SearchPathInfo). j.path) (infos ++ i ∷ [])
      ≡ map (λ (j : SearchPathInfo). j.path) infos ++ i.path ∷ []
map-append_path [] i = refl
map-append_path (j ∷ infos) i = ap (λ r. j.path ∷ r) (map-append_path infos i)

-- If the names of the search paths are distinct and none of them is empty, then adding a path at
-- either end keeps it so.
pub add_search_path-AreDistinct :
    (dir : Str) (is_user prepend : Bool) (infos : List SearchPathInfo)
    → AreDistinct (map (λ (i : SearchPathInfo). i.path) infos)
    → AreDistinct (map (λ (i : SearchPathInfo). i.path) (add_search_path dir is_user prepend infos))
unfolding add_search_path has_search_path
add_search_path-AreDistinct dir is_user prepend infos h = ground (
  arith,
  has_search_path-contains dir infos,
  AreDistinct-append dir (map (λ (i : SearchPathInfo). i.path) infos) h,
  map-append_path infos (record { path = dir; is_user = is_user }),
)
