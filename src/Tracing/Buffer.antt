-- ===== src/Tracing/Buffer.antt =====
-- lib/CppInterOp/Tracing.h: ReproBuffer, which writes the arguments of a call.
use cpp_inter_op.Common.{
  ℕ, Bool, true, false, ◌||◌, List, [], ◌∷◌, ◌++◌, Option, none, some, ◌==◌, ltb, if◌then◌else◌,
  Str, codes,
}
use cpp_inter_op.Errors.Encoding.{Address}
use cpp_inter_op.Tracing.Names.{ℤ, signed, var, out, chars, refer, Line}
use cpp_inter_op.Tracing.Info.{TraceInfo, Found, unseen, null, known, lookup_handle}

-- A byte that a plain literal cannot hold.
unfoldable pub needs_raw : Str → Bool
needs_raw [] = false
needs_raw (c ∷ s) = (c == 34) || (c == 92) || ltb c 32 || (c == 127) || needs_raw s

unfoldable pub append_raw : Str → Str
unfolding needs_raw
append_raw s =
    if needs_raw s then codes "R\"CPPI(" ++ (s ++ codes ")CPPI\"") else 34 ∷ (s ++ 34 ∷ [])

-- The arguments by the overload of append that takes them. A handle is a pointer, a null C string is
-- `none`, and a floating-point number is the text that llvm::formatv makes of it.
mutual
  pub data Arg : Type 0 where
    pointer : Address → Arg
    text : Str → Arg
    c_string : Option Str → Arg
    boolean : Bool → Arg
    integer : ℤ → Arg
    floating : Str → Arg
    vector : Elements → Arg
    template_arg : Address → Option Str → Arg
    enumeration : Str → ℤ → Arg
    other : Arg

  pub data Elements : Type 0 where
    end : Elements
    element : Arg → Elements → Elements

abbrev pub written_handle : Found → Line
written_handle unseen = chars (codes "nullptr /*unknown*/") ∷ []
written_handle null = chars (codes "nullptr") ∷ []
written_handle (known n) = refer (var n) ∷ []

unfoldable pub append_pointer : Address → TraceInfo → Line
append_pointer p ti =
    if p == 0 then chars (codes "nullptr") ∷ [] else written_handle (lookup_handle p ti)

unfoldable mutual
  pub append : Arg → TraceInfo → Line
  append (pointer p) ti = append_pointer p ti
  append (text s) ti = chars (append_raw s) ∷ []
  append (c_string none) ti = chars (append_raw []) ∷ []
  append (c_string (some s)) ti = chars (append_raw s) ∷ []
  append (boolean b) ti = chars (if b then codes "true" else codes "false") ∷ []
  append (integer z) ti = chars (signed z) ∷ []
  append (floating s) ti = chars s ∷ []
  append (vector xs) ti = chars (codes "{") ∷ (append_elements true xs ti ++ chars (codes "}") ∷ [])
  append (template_arg p none) ti =
      chars (codes "Cpp::TemplateArgInfo{")
      ∷ (append_pointer p ti
          ++ chars (codes ", ") ∷ chars (codes "nullptr") ∷ chars (codes "}") ∷ [])
  append (template_arg p (some s)) ti =
      chars (codes "Cpp::TemplateArgInfo{")
      ∷ (append_pointer p ti ++ chars (codes ", ") ∷ chars (append_raw s) ∷ chars (codes "}") ∷ [])
  append (enumeration name v) ti =
      chars (codes "static_cast<")
      ∷ chars name
      ∷ chars (codes ">(")
      ∷ chars (signed v)
      ∷ chars (codes ")")
      ∷ []
  append other ti = chars (codes "?") ∷ []

  pub append_elements : Bool → Elements → TraceInfo → Line
  append_elements first end ti = []
  append_elements true (element x xs) ti = append x ti ++ append_elements false xs ti
  append_elements false (element x xs) ti =
      chars (codes ", ") ∷ (append x ti ++ append_elements false xs ti)

-- OutParam: a container is told by its address.
pub record OutParam : Type 0 where
  pub is_pointer_container : Bool
  pub is_scalar_pointer : Bool
  pub source_addr : Address

pub data Param : Type 0 where
  input : Arg → Param
  output : OutParam → Param

abbrev pub comma : Bool → Line
comma true = []
comma false = chars (codes ", ") ∷ []

-- The next of the indices; there is one for each container.
abbrev pub head_index : List ℕ → Line
head_index [] = []
head_index (n ∷ ns) = refer (out n) ∷ []

abbrev pub tail_indices : List ℕ → List ℕ
tail_indices [] = []
tail_indices (n ∷ ns) = ns

unfoldable pub format : Bool → List ℕ → List Param → TraceInfo → Line
unfolding append
format first indices [] ti = []
format first indices (input a ∷ ps) ti = comma first ++ (append a ti ++ format false indices ps ti)
format first indices (output o ∷ ps) ti =
    let container =
      comma first ++ (head_index indices ++ format false (tail_indices indices) ps ti) in
    let scalar = comma first ++ (chars (codes "nullptr") ∷ format false indices ps ti) in
    let skipped = format first indices ps ti in
    if o.is_pointer_container then container else if o.is_scalar_pointer then scalar else skipped
