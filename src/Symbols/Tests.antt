-- ===== src/Symbols/Tests.antt =====
-- Runs of the filters, and their theorems at concrete data.
use cpp_inter_op.Common.{
  ℕ, ◌≡◌, refl, Bool, true, List, [], ◌∷◌, some, Str, codes, str_eq, contains, arith, inl,
}
use cpp_inter_op.Libraries.Manager.{DynamicLibraryManager}
use cpp_inter_op.Libraries.Lookup.{System, regular_file, is_shared_library}
use cpp_inter_op.Libraries.Loading.{is_library_loaded}
use cpp_inter_op.Symbols.Ignore.{SectionedFile, should_permanently_ignore}
use cpp_inter_op.Symbols.Ignore.ElfFiles.{HasCode, should_permanently_ignore-HasCode}
use cpp_inter_op.Common.{false, ◌↔◌, replicate, ◌++◌}
use cpp_inter_op.Paths.Split.{Platform}
use cpp_inter_op.Paths.Split.FirstAt.{split_any, split_any-IsSplit}
use cpp_inter_op.Symbols.Dynamic.{DynTab, dt_needed, dt_runpath, dt_flags_1, handle_dyn_tab}
use cpp_inter_op.Symbols.Dynamic.Tables.{handle_dyn_tab_lem}
use cpp_inter_op.Symbols.Filter.{
  BloomFilter, LibraryPath, empty_filter, test_hash, add_hash, gnu_hash, log2u, has_bloom_filter,
}
use cpp_inter_op.Symbols.Filter.Members.{IsTable, add_hash_lem}
use cpp_inter_op.Symbols.Registry.{
  address, same_library, LibraryPaths, has_registered_lib, get_libraries,
}
use cpp_inter_op.Symbols.Registry.Order.{
  register, unregister, run, run-ordered, has_pointer, IsConsistent,
}
use cpp_inter_op.Symbols.Contents.{
  ObjectFile, Settings, symbol_names, contains_symbol, collect_names, elf_filter,
  may_exist_in_elf_object_file,
}
use cpp_inter_op.Symbols.Contents.Answers.{IsReady, IsFresh, contains_symbol_lem}
use cpp_inter_op.Symbols.Contents.Linear.{plain, contains_symbol-plain}

-- The hash of "printf" that the ELF documentation lists.
hash_printf : gnu_hash (codes "printf") ≡ 0x156b2bb8
unfolding gnu_hash
hash_printf = refl

logs : log2u 64 ≡ 6
unfolding log2u
logs = refl

-- A filter with two empty words.
abbrev two_words : BloomFilter
two_words = record {
  is_initialized = true;
  symbols_count = 3;
  bloom_size = 2;
  bloom_shift = 1;
  bloom_table = 0 ∷ 0 ∷ [];
}

two_words-IsTable : IsTable two_words
two_words-IsTable = record { sized = refl; nonempty = λ e. absurd (ground arith) }

add_hash_lem_example :
    (f' : BloomFilter) × (add_hash 77 two_words ≡ some f')
    × IsTable f'
    × (f'.symbols_count ≡ 3)
    × (f'.is_initialized ≡ true)
    × (test_hash 77 f' ≡ some true)
    × ((g : ℕ) → test_hash g two_words ≡ some true → test_hash g f' ≡ some true)
add_hash_lem_example = add_hash_lem two_words 77 two_words-IsTable

abbrev settings : Settings
settings = record {
  use_bloom_filter = true;
  use_hash_table = true;
  sf_undefined = 1;
  table_size = λ n. n;
}

-- An ELF file without `.gnu.hash`, with a symbol `f`, an undefined `g`, and a dynamic symbol `h`.
abbrev file : ObjectFile
file = record {
  is_elf = true;
  bytes_in_address = 8;
  gnu_hash_section = [];
  symbols =
      record { flags = 0; name = some (codes "f") }
      ∷ record { flags = 1; name = some (codes "g") }
      ∷ [];
  dynamic_symbols = record { flags = 4; name = some (codes "h") } ∷ [];
}

abbrev library : LibraryPath
library = record { path = codes "/l"; lib_name = codes "x.so"; filter = empty_filter; symbols = [] }

library-IsFresh : IsFresh settings refl library
unfolding has_bloom_filter
library-IsFresh = record { without_filter = refl; without_symbols = refl }

abbrev names : List Str
names = codes "f" ∷ codes "h" ∷ []

contains_symbol_lem_example :
    (l' : LibraryPath) × (contains_symbol settings library (some file) (codes "h") 1
      ≡ some (true, l'))
    × IsReady settings refl (symbol_names settings file 1) l'
unfolding symbol_names contains str_eq elf_filter may_exist_in_elf_object_file collect_names
contains_symbol_lem_example =
    contains_symbol_lem settings refl refl (λ n h. h) library file (codes "h") 1 true (omega arith)
      refl (inl library-IsFresh)

contains_symbol-plain_example :
    (answer : Bool) × (l' : LibraryPath) × (contains_symbol settings library
        (some file)
        (codes "g")
        1
      ≡ some (answer, l'))
    × (contains_symbol (plain settings) library (some file) (codes "g") 1 ≡ some (answer, library))
unfolding symbol_names elf_filter may_exist_in_elf_object_file collect_names
contains_symbol-plain_example =
    contains_symbol-plain settings refl refl (λ n h. h) library file (codes "g") true (omega arith)
      refl (inl library-IsFresh)

abbrev other : LibraryPath
other = record { path = codes "/l"; lib_name = codes "y.so"; filter = empty_filter; symbols = [] }

abbrev no_libraries : LibraryPaths
no_libraries = record { libs = []; libs_h = [] }

no_libraries-IsConsistent : IsConsistent no_libraries
no_libraries-IsConsistent = record { distinct = ground arith; same = refl }

run-ordered_example :
    let cs =
      register library
      ∷ register other
      ∷ register library
      ∷ unregister library
      ∷ register library
      ∷ [] in
    IsConsistent (run cs no_libraries)
    × (get_libraries (run cs no_libraries) ≡ address other ∷ address library ∷ [])
    × ((lib : LibraryPath)
        → has_registered_lib lib (run cs no_libraries)
          ≡ has_pointer (address lib) (get_libraries (run cs no_libraries)))
unfolding same_library str_eq get_libraries
run-ordered_example =
    run-ordered
      (register library
        ∷ register other
        ∷ register library
        ∷ unregister library
        ∷ register library
        ∷ [])
      no_libraries no_libraries-IsConsistent

-- One library on the disk, and an ELF file with code.
abbrev disk : System
disk = record {
  file_type = λ p. regular_file;
  contents = λ p. some (replicate 1024 0);
  is_elf_shared_object = λ bytes. true;
  stat = λ p. true;
  real_path = λ p. some p;
  is_absolute = λ p. true;
  append = λ d f. d ++ f;
  filename = λ p. p;
  remove_filename = λ p. p;
  starts_with_insensitive = λ s p. false;
  main_executable = [];
}

abbrev manager : DynamicLibraryManager
manager = record { dy_libs = []; loaded_libraries = []; search_paths = [] }

abbrev with_code : SectionedFile
with_code = record {
  format = codes "elf64";
  is_elf = true;
  sections =
      record { name = codes ".init"; is_nobits = false; flags = 6 }
      ∷ record { name = codes ".text"; is_nobits = false; flags = 6 }
      ∷ [];
}

should_permanently_ignore-HasCode_example :
    (should_permanently_ignore disk
        (λ p. some with_code)
        2
        (λ p. true)
        manager
        (codes "elf64")
        (codes "/x.so")
      ≡ false)
    ↔ (((is_shared_library disk (codes "/x.so")).0 ≡ true)
        × (is_library_loaded disk manager (codes "/x.so") ≡ false)
        × (codes "elf64" ≡ codes "elf64")
        × HasCode 2 with_code.sections)
should_permanently_ignore-HasCode_example =
    should_permanently_ignore-HasCode disk (λ p. some with_code) 2 (λ p. true) manager
      (codes "elf64") (codes "/x.so") with_code refl refl

-- A string table with two texts, each with its zero byte.
abbrev strings : Str
strings = codes "c.so" ++ (0 ∷ (codes "/a::/b" ++ 0 ∷ []))

abbrev platform : Platform
platform = record { split = split_any; is_directory = λ p. false }

abbrev no_table : DynTab
no_table = record { rpath = []; run_path = codes "/r" ∷ []; deps = []; is_pie_executable = true }

handle_dyn_tab_lem_example :
    handle_dyn_tab platform 20 1
      (some strings)
      (some (dt_needed 0 ∷ dt_runpath 5 ∷ dt_flags_1 2 ∷ []))
      no_table
    ≡ some (record {
      rpath = [];
      run_path = codes "/r" ∷ codes "/a" ∷ codes "/b" ∷ [];
      deps = codes "c.so" ∷ [];
      is_pie_executable = false;
    })
handle_dyn_tab_lem_example =
    handle_dyn_tab_lem platform split_any-IsSplit 20 1 strings
      (dt_needed 0 ∷ dt_runpath 5 ∷ dt_flags_1 2 ∷ []) no_table (omega arith) (refl, (refl, tt))
