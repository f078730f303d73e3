-- ===== src/Tracing/Names.antt =====
-- lib/CppInterOp/Tracing.h: the names of a reproducer's variables, and lines of its text.
use cpp_inter_op.Common.{
  ℕ, zero, suc, ◌+◌, ◌/◌, ◌%◌, List, [], ◌∷◌, ◌++◌, if◌then◌else◌, ltb, Str, codes,
}

-- std::to_string of an unsigned number; the number itself is fuel enough.
unfoldable pub digits : ℕ → ℕ → Str
digits zero n = []
digits (suc fuel) n =
    let rest = digits fuel (n / 10) in
    if ltb n 10 then (48 + n) ∷ [] else rest ++ (48 + n % 10) ∷ []

unfoldable pub decimal : ℕ → Str
unfolding digits
decimal n = digits (suc n) n

-- int64_t and the like.
pub data ℤ : Type 0 where
  pos negsuc : ℕ → ℤ

unfoldable pub signed : ℤ → Str
unfolding decimal
signed (pos n) = decimal n
signed (negsuc n) = codes "-" ++ decimal (suc n)

-- The variables: `vN` for a handle, `_outN` for a container that calls fill, `_retN` for a vector that
-- a call returns.
pub data Name : Type 0 where
  var out ret : ℕ → Name

unfoldable pub spell : Name → Str
unfolding decimal
spell (var n) = codes "v" ++ decimal n
spell (out n) = codes "_out" ++ decimal n
spell (ret n) = codes "_ret" ++ decimal n

-- What is written into a line: text, a name in a comment, a name that is used, and a name that is
-- declared there.
pub data Piece : Type 0 where
  chars : Str → Piece
  mention refer declare : Name → Piece

abbrev pub Line : Type 0
Line = List Piece

unfoldable pub render_piece : Piece → Str
unfolding spell
render_piece (chars s) = s
render_piece (mention n) = spell n
render_piece (refer n) = spell n
render_piece (declare n) = spell n

-- The line as the log holds it.
unfoldable pub render : Line → Str
unfolding render_piece
render [] = []
render (p ∷ ps) = render_piece p ++ render ps
