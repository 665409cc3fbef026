-- ===== src/Group/World.antt =====
-- What the operations on groups change, and commands on it.
use new_explorer_aios.Prelude.{ℕ, ◌+◌, ◌-◌, ◌*◌, ◌^◌, ◌%◌, ltb, ◌==◌, ◌&&◌, if◌then◌else◌}
use new_explorer_aios.Bits.Word.{word_mod, add64, sub64}
use new_explorer_aios.Links.Memory.{Ptr, Memory, Run, done, fault, out_of_fuel, Cmd}
use new_explorer_aios.Struct.Item.{ItemStruct, item_bytes}
use new_explorer_aios.Struct.Node.{GroupAttr, SliceStruct}
use new_explorer_aios.Locate.{Arrays}

-- The links of every address are in `links`; they are the first two words of an item, which stand
-- at its address. `item` has the other words of the item at an address, and `free_count` the counts
-- of the groups by group, migration type and order. `attr` has the attributes of the nodes by their
-- addresses, `lru_count` the count of a node's LRU list of the running processor, `sparse_root` the
-- root item of a node's sparse items and `stream_id` its `sequeue_stream_id`, and `slice` the slices
-- by their addresses.
pub record World : Type 0 where
  pub links : Memory
  pub item : Ptr → ItemStruct
  pub free_count : ℕ → ℕ → ℕ → ℕ
  pub attr : Ptr → GroupAttr
  pub lru_count : Ptr → ℕ
  pub sparse_root : Ptr → Ptr
  pub slice : Ptr → SliceStruct
  pub stream_id : Ptr → ℕ

-- What stays fixed: the addresses of the heads of the free lists by group, migration type and
-- order, the node of a group with its dimension, the group at a level of a node, the head of a
-- node's LRU list, the global arrays, the first level and the orders in use there by node number,
-- and the node of the process by its number. `no_node` is what the source takes for the current
-- node of a dimension other than time and memory, for which it returns no value.
pub record Layout : Type 0 where
  pub free_cell : ℕ → ℕ → ℕ → Ptr
  pub node_id : ℕ → ℕ
  pub dim : ℕ → ℕ
  pub group_lvl : ℕ → ℕ → ℕ
  pub lru_cell : Ptr → Ptr
  pub arrays : Arrays
  pub phy_group_lvl : ℕ → ℕ
  pub phy_group_order : ℕ → ℕ
  pub vnode_num : ℕ → Ptr
  pub no_node : ℕ

pub data Outcome (A : Type 0) : Type 0 where
  returns : A → World → Outcome A
  faults : Outcome A
  exhausted : Outcome A

abbrev pub Command : Type 0 → Type 0
Command A = World → Outcome A

abbrev pub give : {A : Type 0} → A → Command A
give a w = returns a w

module _ {A B : Type 0} where
  abbrev pub continue : Outcome A → (A → Command B) → Outcome B
  continue (returns a w) k = k a w
  continue faults k = faults
  continue exhausted k = exhausted

  infixl 5 ◌>>=◌ ◌>>◌
  abbrev pub ◌>>=◌ : Command A → (A → Command B) → Command B
  c >>= k = λ w. continue (c w) k

  abbrev pub ◌>>◌ : Command A → Command B → Command B
  c >> d = c >>= λ _. d

abbrev pub settle : {A : Type 0} → Run A → World → Outcome A
settle (done a m) w = returns a (record w { links = m })
settle fault w = faults
settle out_of_fuel w = exhausted

-- A command on the links.
abbrev pub on_links : {A : Type 0} → Cmd A → Command A
on_links c w = settle (c w.links) w

abbrev pub edit : Ptr → (ItemStruct → ItemStruct) → Command (Unit {0})
edit p f w = returns tt (record w { item = λ q. if q == p then f (w.item q) else w.item q })

-- A count is a word.
abbrev pub count_up : ℕ → ℕ → ℕ → (ℕ → ℕ → ℕ → ℕ) → ℕ → ℕ → ℕ → ℕ
count_up group type order counts g t o =
    if g == group && t == type && o == order then add64 (counts g t o) 1 else counts g t o

abbrev pub count_down : ℕ → ℕ → ℕ → (ℕ → ℕ → ℕ → ℕ) → ℕ → ℕ → ℕ → ℕ
count_down group type order counts g t o =
    if g == group && t == type && o == order then sub64 (counts g t o) 1 else counts g t o

abbrev pub increment : ℕ → ℕ → ℕ → Command (Unit {0})
increment group type order w =
    returns tt (record w { free_count = count_up group type order w.free_count })

abbrev pub decrement : ℕ → ℕ → ℕ → Command (Unit {0})
decrement group type order w =
    returns tt (record w { free_count = count_down group type order w.free_count })

-- A value stored in an `int`, read back as the 64-bit number with that sign.
unfoldable pub as_int : ℕ → ℕ
as_int x = if ltb (x % 2 ^ 32) (2 ^ 31) then x % 2 ^ 32 else x % 2 ^ 32 + (word_mod - 2 ^ 32)

-- `&item[size]`, with an `int` for the index.
unfoldable pub item_at : Ptr → ℕ → Ptr
unfolding as_int
item_at item size = (item + item_bytes * as_int size) % word_mod
