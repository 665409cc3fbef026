-- ===== src/Locate/Items.antt =====
-- An index and the item that it leads to.
use native.Mathlib.Nat.{mod-eq_of_lt}
use new_explorer_aios.Prelude.{ℕ, zero, suc, ◌+◌, ◌*◌, ◌<◌, ◌≡◌, some, arith}
use new_explorer_aios.Bits.Word.{word_mod}
use new_explorer_aios.Struct.Item.{ItemStruct, item_bytes}
use new_explorer_aios.Struct.Node.{GroupAttr}
use new_explorer_aios.Flags.{get_item_node}
use new_explorer_aios.Links.Memory.{Ptr}
use new_explorer_aios.Convert.{range_to_idx, rel_idx_loop, idx_to_rel_idx}
use new_explorer_aios.Locate.{Arrays, item_to_idx, idx_to_item, rel_idx_to_item}

-- A relative index and the first index of its node add up to the index.
rel_idx_loop_lem :
    (rounds : ℕ) (attr : ℕ → GroupAttr) (idx i rel node : ℕ)
    → rel_idx_loop rounds attr idx i ≡ some (rel, node)
    → rel + range_to_idx (attr node).offset ≡ idx
unfolding rel_idx_loop
rel_idx_loop_lem zero attr idx i rel node e = cc
rel_idx_loop_lem (suc rounds) attr idx i rel node e =
    ground (arith, rel_idx_loop_lem rounds attr idx (i + 1) rel node)

at_item :
    (arrays : Arrays) (idx dim rel node : ℕ)
    → idx_to_rel_idx arrays.attr idx dim ≡ some (rel, node)
    → arrays.phy_item_struct node + item_bytes * rel < word_mod
    → idx_to_item arrays idx dim ≡ arrays.phy_item_struct node + item_bytes * rel
unfolding idx_to_item rel_idx_to_item
at_item arrays idx dim rel node e fits = rw e (mod-eq_of_lt fits)

total :
    (attr : ℕ → GroupAttr) (idx dim rel node : ℕ)
    → idx_to_rel_idx attr idx dim ≡ some (rel, node)
    → rel + range_to_idx (attr node).offset ≡ idx
unfolding idx_to_rel_idx
total attr idx dim rel node e = rel_idx_loop_lem 16 attr idx (dim * 16) rel node e

-- For an index that `idx_to_rel_idx` places in a node, where the item that it leads to is marked
-- with that node and lies in memory, `item_to_idx` leads from that item back to the index.
pub idx_to_item-item_to_idx :
    (arrays : Arrays) (items : Ptr → ItemStruct) (idx dim rel node : ℕ)
    → idx < word_mod
    → idx_to_rel_idx arrays.attr idx dim ≡ some (rel, node)
    → arrays.phy_item_struct node + item_bytes * rel < word_mod
    → get_item_node (items (idx_to_item arrays idx dim)) ≡ node
    → item_to_idx arrays items (idx_to_item arrays idx dim) ≡ idx
unfolding item_to_idx
idx_to_item-item_to_idx arrays items idx dim rel node word e fits mark =
    rw (mark, at_item arrays idx dim rel node e fits)
      (ground (arith, total arrays.attr idx dim rel node e))
