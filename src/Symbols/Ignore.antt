-- ===== src/Symbols/Ignore.antt =====
-- lib/CppInterOp/DynamicLibraryManagerSymbol.cpp: Dyld::ShouldPermanentlyIgnore.
pub mod ElfFiles
use cpp_inter_op.Common.{
  ℕ, Bool, true, false, ◌&&◌, ◌||◌, not, List, [], ◌∷◌, Option, none, some, ◌==◌, bit_and,
  if◌then◌else◌, Str, codes, str_eq,
}
use cpp_inter_op.Libraries.Manager.{DynamicLibraryManager}
use cpp_inter_op.Libraries.Lookup.{System, is_shared_library}
use cpp_inter_op.Libraries.Loading.{is_library_loaded}

-- What LLVM reads of a section and of an object file.
pub record Section : Type 0 where
  pub name : Str
  pub is_nobits : Bool
  pub flags : ℕ

pub record SectionedFile : Type 0 where
  pub format : Str
  pub is_elf : Bool
  pub sections : List Section

-- The loop over the sections, with the flag SHF_ALLOC.
unfoldable pub is_stripped : ℕ → List Section → Bool
is_stripped shf_alloc [] = true
is_stripped shf_alloc (s ∷ ss) =
    let rest = is_stripped shf_alloc ss in
    if str_eq s.name (codes ".text")
    then (if s.is_nobits then true else bit_and s.flags shf_alloc == 0)
    else rest

-- The file is read by `object_of`, which gives `none` on an error.
module _ (sys : System) (object_of : Str → Option SectionedFile) (shf_alloc : ℕ)
    (callback : Str → Bool) where
  unfoldable pub should_permanently_ignore : DynamicLibraryManager → Str → Str → Bool
  should_permanently_ignore m executable_format file_name =
      if not (is_shared_library sys file_name).0
      then true
      else if is_library_loaded sys m file_name
      then true
      else (elim (object_of file_name) [
        | none ↦ true
        | some file ↦
            if not (str_eq executable_format file.format)
            then true
            else if file.is_elf
            then is_stripped shf_alloc file.sections
            else callback file_name
      ])
