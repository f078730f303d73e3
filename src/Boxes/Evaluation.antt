-- ===== src/Boxes/Evaluation.antt =====
-- lib/CppInterOp/CppInterOp.cpp: Evaluate, which boxes the value of an expression.
use cpp_inter_op.Common.{
  ℕ, suc, ◌≡◌, refl, ap, ◌∙◌, Bool, true, Option, none, some, ◌==◌, ==_iff, if◌then◌else◌, not,
  ◌||◌, both-branches, arith, if_true,
}
use cpp_inter_op.Boxes.{
  adopt_object, Builtin, bool, char, signed_char, unsigned_char, short, unsigned_short, int,
  unsigned_int, long, unsigned_long, long_long, unsigned_long_long, float, double, long_double,
  Kind, k_bool, k_char_s, k_s_char, k_u_char, k_short, k_u_short, k_int, k_u_int, k_long, k_u_long,
  k_long_long, k_u_long_long, k_float, k_double, k_long_double, k_ptr_or_obj, kind_of, builtin_of,
  kind_code, Box, Heap, new_box, create_box, unbox, visit_value, convert_to, get_object_ptr,
}
use cpp_inter_op.Boxes.Commands.{make_value}

-- clang's builtin types: those of the boxes, under clang's names, and others.
pub data BuiltinKind : Type 0 where
  of_builtin : Builtin → BuiltinKind
  char_u other_builtin : BuiltinKind

-- What Evaluate asks of the value that clang's interpreter leaves: whether there is one, the builtin
-- type that its type is, if it is one, the type as a pointer, the conversions to the fundamental
-- types, and the value to copy.
pub record Value : Type 0 where
  pub has_value : Bool
  pub builtin : Option BuiltinKind
  pub qual_type : ℕ
  pub convert : Builtin → ℕ
  pub contents : ℕ

-- The switch of classifyByQualType; `none` is unreachable code that is reached.
unfoldable pub classify_by_qual_type : Option BuiltinKind → Option Kind
classify_by_qual_type none = some k_ptr_or_obj
classify_by_qual_type (some (of_builtin bool)) = some k_bool
classify_by_qual_type (some (of_builtin char)) = some k_char_s
classify_by_qual_type (some (of_builtin signed_char)) = some k_s_char
classify_by_qual_type (some (of_builtin unsigned_char)) = some k_u_char
classify_by_qual_type (some (of_builtin short)) = some k_short
classify_by_qual_type (some (of_builtin unsigned_short)) = some k_u_short
classify_by_qual_type (some (of_builtin int)) = some k_int
classify_by_qual_type (some (of_builtin unsigned_int)) = some k_u_int
classify_by_qual_type (some (of_builtin long)) = some k_long
classify_by_qual_type (some (of_builtin unsigned_long)) = some k_u_long
classify_by_qual_type (some (of_builtin long_long)) = some k_long_long
classify_by_qual_type (some (of_builtin unsigned_long_long)) = some k_u_long_long
classify_by_qual_type (some (of_builtin float)) = some k_float
classify_by_qual_type (some (of_builtin double)) = some k_double
classify_by_qual_type (some (of_builtin long_double)) = some k_long_double
classify_by_qual_type (some char_u) = some k_u_char
classify_by_qual_type (some other_builtin) = none

-- The kinds that the macro does not list.
abbrev box_object : Kind → Value → ℕ → Heap → Option (Box × Heap)
box_object kind v address h =
    if kind_code kind == 17 then some (make_value address v.contents v.qual_type h) else none

unfoldable pub box_by_kind : Kind → Value → ℕ → Heap → Option (Box × Heap)
box_by_kind kind v address h = elim (builtin_of kind) [
  | some t ↦ some (create_box t (v.convert t) v.qual_type, h)
  | none ↦ box_object kind v address h
]

abbrev box_classified : Option Kind → Value → ℕ → Heap → Option (Box × Heap)
box_classified none v address h = none
box_classified (some kind) v address h = box_by_kind kind v address h

-- `res` is what the interpreter returns, and `address` where `new` puts a payload. The trace of the
-- call is left out.
unfoldable pub evaluate : ℕ → Value → ℕ → Heap → Option (Box × Heap)
evaluate res v address h =
    let boxed = box_classified (classify_by_qual_type v.builtin) v address h in
    if not (res == 0) || not v.has_value then some (new_box, h) else boxed

-- The fundamental type of a value in a box: that of the value, where clang's unsigned `char` is
-- `unsigned char`.
abbrev pub boxed_type : BuiltinKind → Option Builtin
boxed_type (of_builtin t) = some t
boxed_type char_u = some unsigned_char
boxed_type other_builtin = none

kind_of-builtin_of : (t : Builtin) → builtin_of (kind_of t) ≡ some t
unfolding kind_of builtin_of
kind_of-builtin_of bool = refl
kind_of-builtin_of char = refl
kind_of-builtin_of signed_char = refl
kind_of-builtin_of unsigned_char = refl
kind_of-builtin_of short = refl
kind_of-builtin_of unsigned_short = refl
kind_of-builtin_of int = refl
kind_of-builtin_of unsigned_int = refl
kind_of-builtin_of long = refl
kind_of-builtin_of unsigned_long = refl
kind_of-builtin_of long_long = refl
kind_of-builtin_of unsigned_long_long = refl
kind_of-builtin_of float = refl
kind_of-builtin_of double = refl
kind_of-builtin_of long_double = refl

classify-kind_of : (t : Builtin) → classify_by_qual_type (some (of_builtin t)) ≡ some (kind_of t)
unfolding kind_of classify_by_qual_type
classify-kind_of bool = refl
classify-kind_of char = refl
classify-kind_of signed_char = refl
classify-kind_of unsigned_char = refl
classify-kind_of short = refl
classify-kind_of unsigned_short = refl
classify-kind_of int = refl
classify-kind_of unsigned_int = refl
classify-kind_of long = refl
classify-kind_of unsigned_long = refl
classify-kind_of long_long = refl
classify-kind_of unsigned_long_long = refl
classify-kind_of float = refl
classify-kind_of double = refl
classify-kind_of long_double = refl

some_type : (s t : Builtin) → some s ≡ some t → s ≡ t
some_type s t e = cc

classify-boxed_type :
    (k : BuiltinKind) (t : Builtin)
    → boxed_type k ≡ some t
    → classify_by_qual_type (some k) ≡ some (kind_of t)
unfolding classify_by_qual_type
classify-boxed_type (of_builtin s) t e =
    classify-kind_of s ∙ ap (λ r. some (kind_of r)) (some_type s t e)
classify-boxed_type char_u t e =
    classify-kind_of unsigned_char ∙ ap (λ r. some (kind_of r)) (some_type unsigned_char t e)
classify-boxed_type other_builtin t e = absurd (cc)

unbox-create_box : (t : Builtin) (x qual_type : ℕ) → unbox t (create_box t x qual_type) ≡ some x
unfolding unbox create_box
unbox-create_box t x qual_type =
    rw ((==_iff (kind_code (kind_of t)) (kind_code (kind_of t))).1 refl) refl

visit_value-create_box :
    {R : Type 0} (vis : Builtin → ℕ → R) (t : Builtin) (x qual_type : ℕ)
    → visit_value vis (create_box t x qual_type) ≡ some (vis t x)
unfolding visit_value create_box
visit_value-create_box vis t x qual_type =
    rw (visit_value, kind_of-builtin_of t, unbox-create_box t x qual_type) refl

-- Where the interpreter succeeds with a value of a fundamental type, Evaluate boxes it, converted,
-- under the kind of that type, with its type and without a payload: to unbox it at that type, or
-- to visit it with any visitor, or to convert it by any cast gives that value, and the box has no
-- object. Where the interpreter fails, the box is the default one; and a value of no fundamental type
-- is copied into a payload, to which the box points.
pub evaluate-visit_value :
    {R : Type 0} (vis : Builtin → ℕ → R) (static_cast : Builtin → ℕ → ℕ) (v : Value)
    (k : BuiltinKind) (t : Builtin) (n address : ℕ) (h : Heap)
    → v.has_value ≡ true
    → v.builtin ≡ some k
    → boxed_type k ≡ some t
    → (b : Box) × (evaluate 0 v address h ≡ some (b, h))
      × (b.kind ≡ kind_of t)
      × (b.qual_type ≡ v.qual_type)
      × (unbox t b ≡ some (v.convert t))
      × (visit_value vis b ≡ some (vis t (v.convert t)))
      × (convert_to static_cast b ≡ some (static_cast t (v.convert t)))
      × (get_object_ptr b ≡ 0)
      × (evaluate (suc n) v address h ≡ some (new_box, h))
      × (evaluate 0 (record v { builtin = none }) address h
          ≡ some (make_value address v.contents v.qual_type h))
      × (get_object_ptr (make_value address v.contents v.qual_type h).0 ≡ address)
unfolding evaluate box_by_kind convert_to create_box get_object_ptr builtin_of classify_by_qual_type
    make_value adopt_object
evaluate-visit_value vis static_cast v k t n address h there is_k is_t =
    let x = v.convert t in
    (
      create_box t x v.qual_type,
      rw (evaluate, there, is_k, classify-boxed_type k t is_t, box_by_kind, kind_of-builtin_of t)
          refl,
      refl,
      refl,
      unbox-create_box t x v.qual_type,
      visit_value-create_box vis t x v.qual_type,
      visit_value-create_box static_cast t x v.qual_type,
      both-branches (λ n. n ≡ 0) (kind_code (kind_of t) == 17) 0 0 refl refl,
      if_true (not (suc n == 0) || not v.has_value) _ _ (ground arith),
      rw (there) refl,
      refl,
    )
