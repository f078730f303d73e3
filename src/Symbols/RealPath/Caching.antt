-- ===== src/Symbols/RealPath/Caching.antt =====
-- Symbols/RealPath: what is cached stays, and stays true.
use cpp_inter_op.Common.{
  ℕ, zero, suc, ◌≡◌, refl, Bool, true, false, List, [], ◌∷◌, ◌++◌, Option, some, ◌==◌, Str, codes,
  is_empty, str_eq, Option-cases, inl, inr, both-branches,
}
use cpp_inter_op.Symbols.RealPath.{
  Unix, find_entry, Caches, is_link, mode_of, cached_lstat, cached_readlink, is_home, start_items,
  Item, continued, not_there, by_mode, handle_item, go_on, handle_items, text_of, remember,
  resolve_items, cached_answer, cached_realpath, real_path_of,
}
use cpp_inter_op.Symbols.RealPath.Entries.{
  find_entry-insert_entry, insert_entry-there, IsTable, IsTable-insert_entry,
}

module _ (unix : Unix) where
  -- The caches of lstat and readlink hold what the system tells.
  pub record IsTrue (c : Caches) : Type 0 where
    pub modes : IsTable (λ p. some (mode_of (unix.lstat p))) c.lstat_cache
    pub links : IsTable unix.readlink c.readlink_cache

  -- What a call leaves of the caches: they are true, and the real paths found before are kept.
  pub record Follows (c c' : Caches) : Type 0 where
    pub true_after : IsTrue c'
    pub kept : (p r : Str) → find_entry p c.cache ≡ some r → find_entry p c'.cache ≡ some r

  Follows-refl : (c : Caches) → IsTrue c → Follows c c
  Follows-refl c t = record { true_after = t; kept = λ p r e. e }

  Follows-trans : {a b c : Caches} → Follows a b → Follows b c → Follows a c
  Follows-trans x y = record {
    true_after = y.true_after;
    kept = λ p r e. y.kept p r (x.kept p r e);
  }

  cached_lstat-Follows :
      (path : Str) (c : Caches) → IsTrue c → Follows c (cached_lstat unix path c).1
  unfolding cached_lstat
  cached_lstat-Follows path c t = elim (Option-cases (find_entry path c.lstat_cache)) [
    | inl new ↦
        rw (cached_lstat, new)
          (record {
            true_after = record {
              modes =
                  IsTable-insert_entry (λ p. some (mode_of (unix.lstat p))) path _ c.lstat_cache
                    refl t.modes;
              links = t.links;
            };
            kept = λ p r e. e;
          })
    | inr (mode, old) ↦ rw (cached_lstat, old) (Follows-refl c t)
  ]

  cached_readlink-Follows :
      (path : Str) (c : Caches) → IsTrue c → Follows c (cached_readlink unix path c).1
  unfolding cached_readlink
  cached_readlink-Follows path c t = elim (Option-cases (find_entry path c.readlink_cache)) [
    | inr (text, old) ↦ rw (cached_readlink, old) (Follows-refl c t)
    | inl new ↦ elim (Option-cases (unix.readlink path)) [
      | inl failed ↦ rw (cached_readlink, new, failed) (Follows-refl c t)
      | inr (text, read) ↦
          rw (cached_readlink, new, read)
            (record {
              true_after = record {
                modes = t.modes;
                links = IsTable-insert_entry unix.readlink path text c.readlink_cache read t.links;
              };
              kept = λ p r e. e;
            })
    ]
  ]

  start_items-Follows :
      (path base_path : Str) (real : Bool) (c : Caches)
      → IsTrue c
      → Follows c (start_items unix path base_path real c).1
  unfolding start_items
  start_items-Follows path base_path real c t =
      let same = Follows-refl c t in
      let P = λ (r : (Str × List Str) × Caches). Follows c r.1 in
      both-branches P (unix.is_relative path) _ _
        (both-branches P real _ _ same (
          both-branches P (is_home unix path) _ _
            (record { true_after = record { modes = t.modes; links = t.links }; kept = same.kept })
            (both-branches P (is_empty base_path) _ _
              (record {
                true_after = record { modes = t.modes; links = t.links };
                kept = same.kept;
              })
              same)))
        same

  -- A nested call, which is an argument.
  abbrev Behaves : (Str → Str → Caches → Str × Caches) → Type 0
  Behaves nested = (p b : Str) (c : Caches) → IsTrue c → Follows c (nested p b c).1

  by_mode-Follows :
      (nested : Str → Str → Caches → Str × Caches)
      → Behaves nested
      → (result longer : Str) (mode : ℕ) (c : Caches) → IsTrue c
      → Follows c (by_mode unix nested result longer (mode, c)).1
  by_mode-Follows nested behaves result longer mode c t =
      let x = cached_readlink-Follows longer c t in
      both-branches (λ (r : Item × Caches). Follows c r.1) (is_link mode) _ _
        (Follows-trans x (behaves _ _ _ x.true_after))
        (both-branches (λ (r : Item × Caches). Follows c r.1) (mode == 0) _ _ (Follows-refl c t)
          (Follows-refl c t))

  handle_item-Follows :
      (nested : Str → Str → Caches → Str × Caches)
      → Behaves nested
      → (item result : Str) (c : Caches) → IsTrue c
      → Follows c (handle_item unix nested item result c).1
  unfolding handle_item
  handle_item-Follows nested behaves item result c t =
      let x = cached_lstat-Follows (unix.append result item) c t in
      both-branches (λ (r : Item × Caches). Follows c r.1) (str_eq item (codes ".")) _ _
        (Follows-refl c t)
        (both-branches (λ (r : Item × Caches). Follows c r.1) (str_eq item (codes "..")) _ _
          (Follows-refl c t)
          (Follows-trans x
            (by_mode-Follows nested behaves result (unix.append result item) _ _ x.true_after)))

  go_on-Follows :
      (nested : Str → Str → Caches → Str × Caches) (items : List Str) (c : Caches)
      (r : Item × Caches)
      → ((result : Str) (c' : Caches)
          → IsTrue c'
          → Follows c' (handle_items unix nested items result c').1)
      → Follows c r.1
      → Follows c (go_on (λ s. handle_items unix nested items s) r).1
  go_on-Follows nested items c (continued result, c') rest x =
      Follows-trans x (rest result c' x.true_after)
  go_on-Follows nested items c (not_there, c') rest x = x

  handle_items-Follows :
      (nested : Str → Str → Caches → Str × Caches)
      → Behaves nested
      → (items : List Str) (result : Str) (c : Caches) → IsTrue c
      → Follows c (handle_items unix nested items result c).1
  unfolding handle_items
  handle_items-Follows nested behaves [] result c t = Follows-refl c t
  handle_items-Follows nested behaves (item ∷ items) result c t =
      go_on-Follows nested items c (handle_item unix nested item result c)
        (handle_items-Follows nested behaves items)
        (handle_item-Follows nested behaves item result c t)

  remember-Follows :
      (path : Str) (c : Caches) (r : Option Str × Caches)
      → Follows c r.1
      → Follows c (remember path r).1
  remember-Follows path c (o, c') x = record {
    true_after = record { modes = x.true_after.modes; links = x.true_after.links };
    kept = λ p r e. find_entry-insert_entry path (text_of o) c'.cache p r (x.kept p r e);
  }

  remember-there :
      (path : Str) (r : Option Str × Caches)
      → (v : Str) × (find_entry path (remember path r).1.cache ≡ some v)
  remember-there path (o, c) = insert_entry-there path (text_of o) c.cache

  resolve_items-Follows :
      (nested : Str → Str → Caches → Str × Caches)
      → Behaves nested
      → (path : Str) (c : Caches) (start : (Str × List Str) × Caches) → Follows c start.1
      → Follows c (resolve_items unix nested path start).1
  resolve_items-Follows nested behaves path c ((result, items), c') x =
      remember-Follows path c
        (handle_items unix nested (items ++ unix.split path unix.get_separator) result c')
        (Follows-trans x (
          handle_items-Follows nested behaves (items ++ unix.split path unix.get_separator) result
            c' x.true_after))

  cached_realpath-Follows :
      (level : ℕ) (path base_path : Str) (real : Bool) (c : Caches)
      → IsTrue c
      → Follows c (cached_realpath unix level path base_path real c).1
  unfolding cached_realpath
  cached_realpath-Follows zero path base_path real c t = Follows-refl c t
  cached_realpath-Follows (suc level) path base_path real c t =
      let x =
        resolve_items-Follows (λ p b k. cached_realpath unix level p b true k)
          (λ p b k. cached_realpath-Follows level p b true k) path c
          (start_items unix path base_path real c) (start_items-Follows path base_path real c t) in
      both-branches (λ (r : Str × Caches). Follows c r.1) (is_empty path) _ _ (Follows-refl c t)
        (elim (Option-cases (cached_answer unix path c)) [
          | inl new ↦ rw (new) x
          | inr (answer, old) ↦ rw (old) (Follows-refl c t)
        ])

  -- The answer for an absolute path is in the cache after the call.
  real_path_of-there :
      (path : Str) (c : Caches)
      → is_empty path ≡ false
      → unix.is_relative path ≡ false
      → (v : Str) × (find_entry path (real_path_of unix path c).1.cache ≡ some v)
  unfolding real_path_of cached_realpath
  real_path_of-there path c something absolute = elim (Option-cases (find_entry path c.cache)) [
    | inl new ↦
        rw (cached_realpath, something, absolute, new)
          (remember-there path (
            handle_items unix (λ p b k. cached_realpath unix 39 p b true k)
              ((start_items unix path [] false c).0.1 ++ unix.split path unix.get_separator)
              (start_items unix path [] false c).0.0 (start_items unix path [] false c).1))
    | inr (v, old) ↦ (v, rw (cached_realpath, something, absolute, old) old)
  ]

  real_path_of-cached :
      (path v : Str) (c : Caches)
      → is_empty path ≡ false
      → unix.is_relative path ≡ false
      → find_entry path c.cache ≡ some v
      → real_path_of unix path c ≡ (v, c)
  unfolding real_path_of cached_realpath
  real_path_of-cached path v c something absolute e =
      rw (cached_realpath, something, absolute, e) refl

  -- Calls one after the other.
  abbrev pub after_calls : List Str → Caches → Caches
  after_calls [] c = c
  after_calls (p ∷ ps) c = after_calls ps (real_path_of unix p c).1

  after_calls-Follows : (ps : List Str) (c : Caches) → IsTrue c → Follows c (after_calls ps c)
  unfolding real_path_of
  after_calls-Follows [] c t = Follows-refl c t
  after_calls-Follows (p ∷ ps) c t =
      let x = cached_realpath-Follows 40 p [] false c t in
      Follows-trans x (after_calls-Follows ps _ x.true_after)

  -- Once cached_realpath was asked for an absolute path that is not empty, it gives the path one
  -- answer ever after, whatever it is asked for in between and wherever links lead, and then
  -- leaves its caches as they are; and if its caches of lstat and readlink hold what the system
  -- tells, they do so after all these calls.
  pub real_path_of-stable :
      (path : Str) (calls : List Str) (c : Caches)
      → IsTrue c
      → is_empty path ≡ false
      → unix.is_relative path ≡ false
      → (answer : Str) × (real_path_of unix path (after_calls (path ∷ calls) c)
          ≡ (answer, after_calls (path ∷ calls) c))
        × (real_path_of unix path (after_calls (path ∷ []) c) ≡ (answer, after_calls (path ∷ []) c))
        × IsTrue (after_calls (path ∷ calls) c)
  real_path_of-stable path calls c t something absolute =
      let (v, there) = real_path_of-there path c something absolute in
      let first = (after_calls-Follows (path ∷ []) c t).true_after in
      let x = after_calls-Follows calls (real_path_of unix path c).1 first in
      (
        v,
        real_path_of-cached path v _ something absolute (x.kept path v there),
        real_path_of-cached path v _ something absolute there,
        x.true_after,
      )
