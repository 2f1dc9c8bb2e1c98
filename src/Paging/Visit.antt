-- ===== src/Paging/Visit.antt =====
-- The callbacks of a walk are functions of what they are given, so that a walk is the list of their
-- calls (bits64.rs and bits32.rs).
use page_table_multiarch.Common.{ℕ}

-- A call of `pre_func` or of `post_func`.
pub data Visit : Type 0 where
  pre : (level index vaddr entry : ℕ) → Visit
  post : (level index vaddr entry : ℕ) → Visit
