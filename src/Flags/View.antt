-- ===== src/Flags/View.antt =====
-- What a flags word says: its nine fields.
use new_explorer_aios.Prelude.{ℕ, ◌/◌, ◌%◌, ◌^◌, ◌<◌}
use new_explorer_aios.Bits.Word.{word_mod}
use new_explorer_aios.Struct.Item.{ItemStruct}

pub record FlagsView : Type 0 where
  pub present : ℕ
  pub order : ℕ
  pub state : ℕ
  pub table : ℕ
  pub node : ℕ
  pub section : ℕ
  pub dim : ℕ
  pub func : ℕ
  pub freeidx : ℕ

unfoldable pub view : ℕ → FlagsView
view w = record {
  present = w % 2;
  order = w / 2 ^ 1 % 2 ^ 4;
  state = w / 2 ^ 5 % 2 ^ 4;
  table = w / 2 ^ 9 % 2 ^ 5;
  node = w / 2 ^ 14 % 2 ^ 5;
  section = w / 2 ^ 19 % 2 ^ 5;
  dim = w / 2 ^ 24 % 2 ^ 5;
  func = w / 2 ^ 29 % 2 ^ 3;
  freeidx = w / 2 ^ 32 % 2 ^ 32;
}

-- The fields of an item's flags, and that they are one word.
unfoldable pub fields : ItemStruct → FlagsView
unfolding view
fields item = view item.flags

abbrev pub IsWord : ItemStruct → Type 0
IsWord item = item.flags < word_mod
