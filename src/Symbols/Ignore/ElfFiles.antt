-- ===== src/Symbols/Ignore/ElfFiles.antt =====
-- Symbols/Ignore: which ELF files are candidates for a symbol.
use cpp_inter_op.Common.{
  ℕ, ◌≡◌, ◌≢◌, ◌↔◌, ◌⊎◌, Bool, true, false, not, List, [], ◌∷◌, Option, some, ◌==◌, bit_and,
  if◌then◌else◌, Str, codes, str_eq, str_eq_iff, arith, Bool-cases, inl, inr,
}
use cpp_inter_op.Libraries.Manager.{DynamicLibraryManager}
use cpp_inter_op.Libraries.Lookup.{System, is_shared_library}
use cpp_inter_op.Libraries.Loading.{is_library_loaded}
use cpp_inter_op.Symbols.Ignore.{Section, SectionedFile, is_stripped, should_permanently_ignore}

-- Whether the first `.text` of a file is there, takes space in the file and is loaded.
abbrev pub HasCode : ℕ → List Section → Type 0
HasCode shf_alloc [] = ⊥
HasCode shf_alloc (s ∷ ss) =
    ((s.name ≡ codes ".text") × (s.is_nobits ≡ false) × (bit_and s.flags shf_alloc ≢ 0))
    ⊎ ((s.name ≢ codes ".text") × HasCode shf_alloc ss)

flags_of :
    (shf_alloc : ℕ) (s : Section)
    → ((if s.is_nobits then true else bit_and s.flags shf_alloc == 0) ≡ false)
      ↔ ((s.is_nobits ≡ false) × (bit_and s.flags shf_alloc ≢ 0))
flags_of shf_alloc s = ground arith

here :
    (shf_alloc : ℕ) (s : Section) (ss : List Section)
    → s.name ≡ codes ".text"
    → HasCode shf_alloc (s ∷ ss)
    → (s.is_nobits ≡ false) × (bit_and s.flags shf_alloc ≢ 0)
here shf_alloc s ss e (inl (name, nobits, flags)) = (nobits, flags)
here shf_alloc s ss e (inr (name, later)) = absurd (name e)

there :
    (shf_alloc : ℕ) (s : Section) (ss : List Section)
    → s.name ≢ codes ".text"
    → HasCode shf_alloc (s ∷ ss)
    → HasCode shf_alloc ss
there shf_alloc s ss ne (inl (name, nobits, flags)) = absurd (ne name)
there shf_alloc s ss ne (inr (name, later)) = later

rest :
    (shf_alloc : ℕ) (s : Section) (ss : List Section)
    → str_eq s.name (codes ".text") ≡ false
    → is_stripped shf_alloc (s ∷ ss) ≡ false
    → is_stripped shf_alloc ss ≡ false
unfolding is_stripped
rest shf_alloc s ss e h = ground (arith, e, h)

is_stripped-text :
    (shf_alloc : ℕ) (s : Section) (ss : List Section)
    → str_eq s.name (codes ".text") ≡ true
    → (is_stripped shf_alloc (s ∷ ss) ≡ false)
      ↔ ((s.is_nobits ≡ false) × (bit_and s.flags shf_alloc ≢ 0))
unfolding is_stripped
is_stripped-text shf_alloc s ss e = rw (is_stripped, e) (flags_of shf_alloc s)

is_stripped-HasCode :
    (shf_alloc : ℕ) (ss : List Section) → (is_stripped shf_alloc ss ≡ false) ↔ HasCode shf_alloc ss
unfolding is_stripped
is_stripped-HasCode shf_alloc [] = (λ e. absurd (ground (arith, e)), λ h. absurd h)
is_stripped-HasCode shf_alloc (s ∷ ss) =
    let (to, from) = is_stripped-HasCode shf_alloc ss in
    let (same, differs) = str_eq_iff s.name (codes ".text") in
    elim (Bool-cases (str_eq s.name (codes ".text"))) [
      | inl e ↦
          let (into, back) = is_stripped-text shf_alloc s ss e in
          (
            λ h. (let (nobits, flags) = into h in inl (same e, nobits, flags)),
            λ h. back (here shf_alloc s ss (same e) h),
          )
      | inr e ↦
          let other : s.name ≢ codes ".text" = λ z. absurd (ground (arith, e, differs z)) in
          (
            λ h. inr (other, to (rest shf_alloc s ss e h)),
            λ h. rw (is_stripped, e) (from (there shf_alloc s ss other h)),
          )
    ]

tests_of :
    (shared loaded same elf stripped other : Bool)
    → elf ≡ true
    → ((if not shared
          then true
          else (if loaded
              then true
              else (if not same then true else (if elf then stripped else other))))
        ≡ false)
      ↔ ((shared ≡ true) × (loaded ≡ false) × (same ≡ true) × (stripped ≡ false))
tests_of shared loaded same elf stripped other e = ground (arith, e)

-- An ELF file that is a shared library of the executable's format, readable and not loaded, is a
-- candidate exactly if its first `.text` section is there, takes space in the file and is
-- loaded, whatever the user's callback says of it; without one of these it is ignored.
pub should_permanently_ignore-HasCode :
    (sys : System) (object_of : Str → Option SectionedFile) (shf_alloc : ℕ) (callback : Str → Bool)
    → (m : DynamicLibraryManager) (executable_format file_name : Str) (file : SectionedFile)
    → object_of file_name ≡ some file
    → file.is_elf ≡ true
    → (should_permanently_ignore sys object_of shf_alloc callback m executable_format file_name
        ≡ false)
      ↔ (((is_shared_library sys file_name).0 ≡ true)
          × (is_library_loaded sys m file_name ≡ false)
          × (executable_format ≡ file.format)
          × HasCode shf_alloc file.sections)
unfolding should_permanently_ignore
should_permanently_ignore-HasCode sys object_of shf_alloc callback m executable_format file_name
      file read elf =
    let (to, from) = is_stripped-HasCode shf_alloc file.sections in
    let (same, differs) = str_eq_iff executable_format file.format in
    let (tests, passed) =
      tests_of (is_shared_library sys file_name).0 (is_library_loaded sys m file_name)
        (str_eq executable_format file.format) file.is_elf (is_stripped shf_alloc file.sections)
        (callback file_name) elf in
    rw (should_permanently_ignore, read)
      (
        λ h. (let (shared, new, format, code) = tests h in (shared, new, same format, to code)),
        λ h. passed (h.0, h.1, differs h.2, from h.3),
      )
