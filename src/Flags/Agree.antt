-- ===== src/Flags/Agree.antt =====
-- Each accessor does to the fields of the flags word what its name says, and nothing else.
use new_explorer_aios.Prelude.{ℕ, ◌-◌, ◌/◌, ◌%◌, ◌^◌, ◌<◌, bit_and, ◌≡◌, not, ◌==◌, arith}
use new_explorer_aios.Bits.Split.{and-le}
use new_explorer_aios.Macros.{mask}
use new_explorer_aios.Macros.Laws.{Fits, gr_lem, mr_lem, zr_lem, cr_lem}
use new_explorer_aios.Macros.Single.{sb_lem, gb_lem, cb_lem}
use new_explorer_aios.Struct.Item.{ItemStruct}
use new_explorer_aios.Flags.{
  set_item_present, clear_item_present, item_is_present, set_item_section, clear_item_section,
  get_item_section, set_item_order, clear_item_order, get_item_order, set_item_state,
  clear_item_state, get_item_state, set_item_func, clear_item_func, get_item_func, set_item_freeidx,
  clear_item_freeidx, get_item_freeidx, set_item_table_no, clear_item_table_no, get_item_table_no,
  set_item_node, clear_item_node, get_item_node, set_item_dim, clear_item_dim, get_item_dim,
}
use new_explorer_aios.Flags.View.{view, IsWord, fields}

present-Fits : Fits 63 0 1
present-Fits = omega arith

section-Fits : Fits 40 19 5
section-Fits = omega arith

order-Fits : Fits 59 1 4
order-Fits = omega arith

state-Fits : Fits 55 5 4
state-Fits = omega arith

table-Fits : Fits 50 9 5
table-Fits = omega arith

node-Fits : Fits 45 14 5
node-Fits = omega arith

func-Fits : Fits 32 29 3
func-Fits = omega arith

freeidx-Fits : Fits 0 32 32
freeidx-Fits = omega arith

dim-Fits : Fits 35 24 5
dim-Fits = omega arith

-- What the getters return.
pub record Reads (item : ItemStruct) : Type 0 where
  pub present : item_is_present item ≡ not ((fields item).present == 0)
  pub section : get_item_section item ≡ (fields item).section
  pub order : get_item_order item ≡ (fields item).order
  pub state : get_item_state item ≡ (fields item).state
  pub table : get_item_table_no item ≡ (fields item).table
  pub node : get_item_node item ≡ (fields item).node
  pub func : get_item_func item ≡ (fields item).func
  pub freeidx : get_item_freeidx item ≡ (fields item).freeidx
  pub dim : get_item_dim item ≡ (fields item).dim

-- What the setters leave: one field is `v`, cut to its width, the others are as before, and the
-- flags stay one word.
pub record Writes (item : ItemStruct) (v : ℕ) : Type 0 where
  pub present :
      (fields (set_item_present item) ≡ record (fields item) { present = 1 })
      × IsWord (set_item_present item)
  pub section :
      (fields (set_item_section item v) ≡ record (fields item) { section = v % 32 })
      × IsWord (set_item_section item v)
  pub order :
      (fields (set_item_order item v) ≡ record (fields item) { order = v % 16 })
      × IsWord (set_item_order item v)
  pub state :
      (fields (set_item_state item v) ≡ record (fields item) { state = v % 16 })
      × IsWord (set_item_state item v)
  pub table :
      (fields (set_item_table_no item v) ≡ record (fields item) { table = v % 32 })
      × IsWord (set_item_table_no item v)
  pub node :
      (fields (set_item_node item v) ≡ record (fields item) { node = v % 32 })
      × IsWord (set_item_node item v)
  pub func :
      (fields (set_item_func item v) ≡ record (fields item) { func = v % 8 })
      × IsWord (set_item_func item v)
  pub freeidx :
      (fields (set_item_freeidx item v) ≡ record (fields item) { freeidx = v % 4294967296 })
      × IsWord (set_item_freeidx item v)
  pub dim :
      (fields (set_item_dim item v) ≡ record (fields item) { dim = v % 32 })
      × IsWord (set_item_dim item v)

-- What the functions that clear leave: the section all ones, of the dimension the digits of `v`
-- removed, and any other field 0. The flags stay one word.
pub record Clears (item : ItemStruct) (v : ℕ) : Type 0 where
  pub present :
      (fields (clear_item_present item) ≡ record (fields item) { present = 0 })
      × IsWord (clear_item_present item)
  pub section :
      (fields (clear_item_section item) ≡ record (fields item) { section = 31 })
      × IsWord (clear_item_section item)
  pub order :
      (fields (clear_item_order item) ≡ record (fields item) { order = 0 })
      × IsWord (clear_item_order item)
  pub state :
      (fields (clear_item_state item) ≡ record (fields item) { state = 0 })
      × IsWord (clear_item_state item)
  pub table :
      (fields (clear_item_table_no item) ≡ record (fields item) { table = 0 })
      × IsWord (clear_item_table_no item)
  pub node :
      (fields (clear_item_node item) ≡ record (fields item) { node = 0 })
      × IsWord (clear_item_node item)
  pub func :
      (fields (clear_item_func item) ≡ record (fields item) { func = 0 })
      × IsWord (clear_item_func item)
  pub freeidx :
      (fields (clear_item_freeidx item) ≡ record (fields item) { freeidx = 0 })
      × IsWord (clear_item_freeidx item)
  pub dim :
      (fields (clear_item_dim item v)
        ≡ record (fields item) { dim = bit_and (fields item).dim (31 - v % 32) })
      × IsWord (clear_item_dim item v)

and-lt : (f m : ℕ) → f < 32 → bit_and f m < 32
and-lt f m h = omega (arith, and-le f m)

-- Each getter returns its own field of the flags word.
pub reads_lem : (item : ItemStruct) → Reads item
unfolding view fields item_is_present get_item_section get_item_order get_item_state
    get_item_table_no get_item_node get_item_func get_item_freeidx get_item_dim
reads_lem item = record {
  present = rw (gb_lem present-Fits item.flags) (ground arith);
  section = gr_lem section-Fits item.flags;
  order = gr_lem order-Fits item.flags;
  state = gr_lem state-Fits item.flags;
  table = gr_lem table-Fits item.flags;
  node = gr_lem node-Fits item.flags;
  func = gr_lem func-Fits item.flags;
  freeidx = gr_lem freeidx-Fits item.flags;
  dim = gr_lem dim-Fits item.flags;
}

-- Each setter writes its own field, cut to the field's width, and changes no other field. The
-- flags stay one word.
pub writes_lem : (item : ItemStruct) (v : ℕ) → IsWord item → Writes item v
unfolding view fields set_item_present set_item_section set_item_order set_item_state
    set_item_table_no set_item_node set_item_func set_item_freeidx set_item_dim
writes_lem item v h = record {
  present = rw (sb_lem present-Fits item.flags) (ground arith, ground arith);
  section = rw (mr_lem section-Fits item.flags h v) (ground arith, ground arith);
  order = rw (mr_lem order-Fits item.flags h v) (ground arith, ground arith);
  state = rw (mr_lem state-Fits item.flags h v) (ground arith, ground arith);
  table = rw (mr_lem table-Fits item.flags h v) (ground arith, ground arith);
  node = rw (mr_lem node-Fits item.flags h v) (ground arith, ground arith);
  func = rw (mr_lem func-Fits item.flags h v) (ground arith, ground arith);
  freeidx = rw (mr_lem freeidx-Fits item.flags h v) (ground arith, ground arith);
  dim = rw (mr_lem dim-Fits item.flags h v) (ground arith, ground arith);
}

-- Each function that clears empties its own field and changes no other: the section becomes all
-- ones, and from the dimension the digits of the argument are removed. The flags stay one word.
pub clears_lem : (item : ItemStruct) (v : ℕ) → IsWord item → Clears item v
unfolding view fields mask clear_item_present clear_item_section clear_item_order clear_item_state
    clear_item_table_no clear_item_node clear_item_func clear_item_freeidx clear_item_dim
clears_lem item v h = record {
  present = rw (cb_lem present-Fits item.flags h) (ground arith, ground arith);
  section = rw (mr_lem section-Fits item.flags h (mask 5)) (ground arith, ground arith);
  order = rw (zr_lem order-Fits item.flags h) (ground arith, ground arith);
  state = rw (zr_lem state-Fits item.flags h) (ground arith, ground arith);
  table = rw (zr_lem table-Fits item.flags h) (ground arith, ground arith);
  node = rw (zr_lem node-Fits item.flags h) (ground arith, ground arith);
  func = rw (zr_lem func-Fits item.flags h) (ground arith, ground arith);
  freeidx = rw (zr_lem freeidx-Fits item.flags h) (ground arith, ground arith);
  dim = rw (cr_lem dim-Fits item.flags h v) (
    ground (arith, and-lt (item.flags / 2 ^ 24 % 2 ^ 5) (31 - v % 32)),
    ground (arith, and-lt (item.flags / 2 ^ 24 % 2 ^ 5) (31 - v % 32)),
  );
}
