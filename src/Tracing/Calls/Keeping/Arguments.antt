-- ===== src/Tracing/Calls/Keeping/Arguments.antt =====
-- Tracing/Buffer: the names in the arguments of a call.
use cpp_inter_op.Common.{
  ℕ, ◌≡◌, refl, Bool, true, false, List, [], ◌∷◌, Option, none, some, inl, inr, Bool-cases, ◌==◌,
  both-branches,
}
use cpp_inter_op.Errors.Encoding.{Address}
use cpp_inter_op.Tracing.Names.{Name, var, out}
use cpp_inter_op.Tracing.Info.{TraceInfo, find, lookup_handle, as_found}
use cpp_inter_op.Tracing.Buffer.{
  Arg, Elements, pointer, text, c_string, boolean, integer, floating, vector, template_arg,
  enumeration, other, end, element, append_pointer, written_handle, append, append_elements, Param,
  input, output, comma, head_index, tail_indices, format,
}
use cpp_inter_op.Tracing.Calls.Lines.{Uses, Uses-append}

module _ (K : Name → Type 0) (ti : TraceInfo)
    (handles : (p : Address) (n : ℕ) → find p ti.handle_map ≡ some n → K (var n)) where
  as_found-Uses :
      (p : Address) (o : Option ℕ) → find p ti.handle_map ≡ o → Uses K (written_handle (as_found o))
  as_found-Uses p none e = tt
  as_found-Uses p (some n) e = (handles p n e, tt)

  append_pointer-Uses : (p : Address) → Uses K (append_pointer p ti)
  unfolding append_pointer lookup_handle
  append_pointer-Uses p = elim (Bool-cases (p == 0)) [
    | inl z ↦ rw (z) tt
    | inr nz ↦ rw (nz) (as_found-Uses p (find p ti.handle_map) refl)
  ]

  mutual
    unfolding append append_elements

    append-Uses : (a : Arg) → Uses K (append a ti)
    append-Uses (pointer p) = append_pointer-Uses p
    append-Uses (text s) = tt
    append-Uses (c_string none) = tt
    append-Uses (c_string (some s)) = tt
    append-Uses (boolean b) = tt
    append-Uses (integer z) = tt
    append-Uses (floating s) = tt
    append-Uses (vector xs) =
        Uses-append K (append_elements true xs ti) _ (append_elements-Uses true xs) tt
    append-Uses (template_arg p none) =
        Uses-append K (append_pointer p ti) _ (append_pointer-Uses p) tt
    append-Uses (template_arg p (some s)) =
        Uses-append K (append_pointer p ti) _ (append_pointer-Uses p) tt
    append-Uses (enumeration name v) = tt
    append-Uses other = tt

    append_elements-Uses : (first : Bool) (xs : Elements) → Uses K (append_elements first xs ti)
    append_elements-Uses first end = tt
    append_elements-Uses true (element x xs) =
        Uses-append K (append x ti) _ (append-Uses x) (append_elements-Uses false xs)
    append_elements-Uses false (element x xs) =
        Uses-append K (append x ti) _ (append-Uses x) (append_elements-Uses false xs)

  comma-Uses : (first : Bool) → Uses K (comma first)
  comma-Uses true = tt
  comma-Uses false = tt

  -- The containers' names.
  abbrev pub AllOut : List ℕ → Type 0
  AllOut [] = Unit
  AllOut (n ∷ ns) = K (out n) × AllOut ns

  head_index-Uses : (ns : List ℕ) → AllOut ns → Uses K (head_index ns)
  head_index-Uses [] a = tt
  head_index-Uses (n ∷ ns) (x, a) = (x, tt)

  tail_indices-AllOut : (ns : List ℕ) → AllOut ns → AllOut (tail_indices ns)
  tail_indices-AllOut [] a = tt
  tail_indices-AllOut (n ∷ ns) (x, a) = a

  pub format-Uses :
      (first : Bool) (ns : List ℕ) (ps : List Param) → AllOut ns → Uses K (format first ns ps ti)
  unfolding format
  format-Uses first ns [] a = tt
  format-Uses first ns (input x ∷ ps) a =
      Uses-append K (comma first) _ (comma-Uses first)
        (Uses-append K (append x ti) _ (append-Uses x) (format-Uses false ns ps a))
  format-Uses first ns (output o ∷ ps) a =
      let rest = format-Uses false (tail_indices ns) ps (tail_indices-AllOut ns a) in
      let skipped = format-Uses first ns ps a in
      let scalar =
        Uses-append K (comma first) (_ ∷ format false ns ps ti) (comma-Uses first)
          (format-Uses false ns ps a) in
      both-branches (Uses K) o.is_pointer_container _ _
        (Uses-append K (comma first) _ (comma-Uses first)
          (Uses-append K (head_index ns) _ (head_index-Uses ns a) rest))
        (both-branches (Uses K) o.is_scalar_pointer _ _ scalar skipped)
