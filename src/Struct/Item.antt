-- ===== src/Struct/Item.antt =====
-- `struct item_struct`, word by word. The unions of the source overlay these words.
use new_explorer_aios.Prelude.{ℕ}

-- Two words of links, the flags, and two unions of three words each: the `slice_ref` of the first
-- stands behind the two words of its `slice_head` and `slice_stat`.
pub record ItemStruct : Type 0 where
  pub node_prev : ℕ
  pub node_next : ℕ
  pub flags : ℕ
  pub word1_0 : ℕ
  pub word1_1 : ℕ
  pub slice_ref : ℕ
  pub word2_0 : ℕ
  pub word2_1 : ℕ
  pub word2_2 : ℕ

-- The size of a descriptor: nine words.
abbrev pub item_bytes : ℕ
item_bytes = 72
