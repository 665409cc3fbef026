-- ===== src/Locate.antt =====
-- Where nodes, groups and items stand, source/tensor_ops.h: the conversions between an index, an
-- item's address and a range that go through the global arrays. A pointer is its address.
pub mod Items
pub mod Sparse
pub mod Virtual
mod Example
use new_explorer_aios.Prelude.{
  ℕ, ◌+◌, ◌-◌, ◌*◌, ◌/◌, ◌%◌, Option, none, some, leb, ◌==◌, if◌then◌else◌,
}
use new_explorer_aios.Bits.Word.{word_mod, add64, sub64}
use new_explorer_aios.Struct.Sizes.{group_lvl_num}
use new_explorer_aios.Struct.Item.{ItemStruct, item_bytes}
use new_explorer_aios.Struct.Node.{GroupAttr}
use new_explorer_aios.Flags.{get_item_node}
use new_explorer_aios.Links.Memory.{Ptr, null}
use new_explorer_aios.Convert.{range_to_idx, idx_to_range, idx_to_rel_idx}

-- The global arrays: the addresses of the first node and of the first group, with the sizes that
-- the compiler gives to their elements, the attributes of the nodes, and `phy_item_struct`.
pub record Arrays : Type 0 where
  pub phy_node_struct : Ptr
  pub node_bytes : ℕ
  pub phy_group_struct : Ptr
  pub group_bytes : ℕ
  pub attr : ℕ → GroupAttr
  pub phy_item_struct : ℕ → Ptr

-- The difference of two pointers to elements of `bytes` bytes.
unfoldable pub elements_from : ℕ → Ptr → Ptr → ℕ
elements_from bytes a b = if leb b a then (a - b) / bytes else sub64 0 ((b - a) / bytes)

unfoldable pub get_pnode_num : Arrays → ℕ → Ptr
get_pnode_num arrays nu = (arrays.phy_node_struct + arrays.node_bytes * nu) % word_mod

-- `get_num_pnode`, `none` for -1.
unfoldable pub get_num_pnode : Arrays → Ptr → Option ℕ
get_num_pnode arrays pnode =
    if leb arrays.phy_node_struct pnode
    then some ((pnode - arrays.phy_node_struct) / arrays.node_bytes)
    else none

unfoldable pub get_group_lvl : Arrays → ℕ → ℕ → Ptr
get_group_lvl arrays lvl nu =
    (arrays.phy_group_struct + arrays.group_bytes * (nu * group_lvl_num + lvl)) % word_mod

unfoldable pub get_lvl_group : Arrays → Ptr → ℕ → ℕ
unfolding elements_from
get_lvl_group arrays group nu =
    sub64 (elements_from arrays.group_bytes group arrays.phy_group_struct) (nu * group_lvl_num)

unfoldable pub item_to_rel_idx : Arrays → Ptr → ℕ → ℕ
unfolding elements_from
item_to_rel_idx arrays item pnode_id =
    elements_from item_bytes item (arrays.phy_item_struct pnode_id)

unfoldable pub rel_idx_to_item : Arrays → ℕ → ℕ → Ptr
rel_idx_to_item arrays rel_idx pnode_id =
    (arrays.phy_item_struct pnode_id + item_bytes * rel_idx) % word_mod

-- `item_to_idx`, with the items in memory.
unfoldable pub item_to_idx : Arrays → (Ptr → ItemStruct) → Ptr → ℕ
unfolding item_to_rel_idx
item_to_idx arrays items item =
    let node_id = get_item_node (items item) in
    add64 (item_to_rel_idx arrays item node_id) (range_to_idx (arrays.attr node_id).offset)

-- NULL where `idx_to_rel_idx` finds no place, which is a relative index and a node.
abbrev pub or_null : (ℕ × ℕ → Ptr) → Option (ℕ × ℕ) → Ptr
or_null f none = null
or_null f (some place) = f place

unfoldable pub idx_to_item : Arrays → ℕ → ℕ → Ptr
unfolding rel_idx_to_item
idx_to_item arrays idx dim =
    or_null (λ place. rel_idx_to_item arrays place.0 place.1) (idx_to_rel_idx arrays.attr idx dim)

unfoldable pub item_to_range : Arrays → (Ptr → ItemStruct) → Ptr → ℕ
unfolding item_to_idx
item_to_range arrays items item = idx_to_range (item_to_idx arrays items item)

unfoldable pub range_to_item : Arrays → ℕ → ℕ → Ptr
unfolding idx_to_item
range_to_item arrays range_base dim = idx_to_item arrays (range_to_idx range_base) dim

unfoldable pub idx_to_pnode : Arrays → ℕ → ℕ → Ptr
unfolding get_pnode_num
idx_to_pnode arrays idx dim =
    or_null (λ place. get_pnode_num arrays place.1) (idx_to_rel_idx arrays.attr idx dim)

-- `range_base_transform` and `range_transform_base` only change the type of an address.
unfoldable pub range_base_transform : ℕ → Ptr
range_base_transform x = x

unfoldable pub range_transform_base : Ptr → ℕ
range_transform_base x = x

unfoldable pub item_to_range_transform : Arrays → (Ptr → ItemStruct) → Ptr → Ptr
unfolding item_to_range range_base_transform
item_to_range_transform arrays items item =
    if item == null then null else range_base_transform (item_to_range arrays items item)

unfoldable pub range_transform_to_item : Arrays → Ptr → ℕ → Ptr
unfolding range_to_item range_transform_base
range_transform_to_item arrays range_transform dim =
    range_to_item arrays (range_transform_base range_transform) dim
