-- ===== src/Paths/Includes/RoundTrip.antt =====
-- Paths/Includes: the options that CopyIncludePaths writes against those that are read of its list.
use cpp_inter_op.Common.{Bool, List, [], if◌then◌else◌, Str}
use cpp_inter_op.Paths.Includes.{Entry}

module _ (s : Str) (es : List Entry) where
  -- The words that are written for one field, if it is not the default.
  abbrev written_if : Bool → List Str → List Str
  written_if b ws = if b then ws else []
