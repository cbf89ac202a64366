-- ===== src/Diff/Hunk.antt =====
-- The hunks of lib/src/diff.rs, which lib/src/files.rs reads too.
use jj.Prelude.{ℕ, List}

abbrev pub Bytes : Type 0
Bytes = List ℕ

pub data DiffHunk : Type 0 where
  matching : Bytes → DiffHunk
  different : List Bytes → DiffHunk
