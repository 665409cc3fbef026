-- ===== src/Node/Shared.antt =====
-- What the operations of a node share: the arrays, what the source leaves open, the operations on
-- sparse items, and the table of operations by which a node calls its own.
use new_explorer_aios.Prelude.{ℕ, Bool, false, none, some, ◌==◌, if◌then◌else◌}
use new_explorer_aios.Struct.Item.{ItemStruct}
use new_explorer_aios.Struct.Node.{AllocPara}
use new_explorer_aios.Init.{get_current_vnode_num}
use new_explorer_aios.Locate.{get_pnode_num}
use new_explorer_aios.Request.State.{compound_item}
use new_explorer_aios.Links.Memory.{Ptr, null}
use new_explorer_aios.Group.World.{Layout, Command, returns, edit}
use new_explorer_aios.Group.Compound.{fetch, compound_append}
use new_explorer_aios.Group.Remove.{current_node}
use new_explorer_aios.Group.Free.{Missing}
use new_explorer_aios.Node.Replies.{Fallible, lift, ◌>>=◌, ◌>>◌, succeed}

-- The operations on sparse items that a node calls, with the arguments in the order in which their
-- parameters are declared.
pub record SparseOps : Type 0 where
  pub forward_remove_group_stream : (migration_type order lvl dim : ℕ) → AllocPara → Command Ptr
  pub forward_remove_group_prior : (lvl migration_type order : ℕ) → Ptr → Command Ptr
  pub forward_remove_group_sparse : (lvl migration_type order dim : ℕ) → Bool → Command Ptr
  pub dequeue_group_sparse : Ptr → ℕ → Command (Unit {0})

-- `fuel` bounds the walks along lists. `unset` is the content of a local pointer in which nothing was
-- stored, and `clzl` the compiler's `__builtin_clzl`. `minload_cell` is the head of the list in which
-- `get_minload_pnode` looks, by migration type, and `no_vnode` the number of the current virtual
-- node of a dimension for which the source returns none.
pub record Setting : Type 0 where
  pub layout : Layout
  pub missing : Missing
  pub sparse : SparseOps
  pub clzl : ℕ → ℕ
  pub unset : Ptr
  pub fuel : ℕ
  pub minload_cell : ℕ → Ptr
  pub no_vnode : ℕ

-- The entries of `struct node_struct_vtable` that the operations call through a node. The pointer that
-- `dispatch` is given is what its result variable holds before.
pub record Vtable : Type 0 where
  pub dispatch : (node old : Ptr) → (lvl migration_type order : ℕ) → AllocPara → Fallible Ptr
  pub migrate : (node : Ptr) → (order lvl migration_type : ℕ) → Bool → Fallible Ptr
  pub lend : (migration_type lvl lvl_order : ℕ) → Bool → Fallible Ptr

-- The calls that give `is_combined` and `false` in place of a parameter block.
abbrev pub para_of : Bool → AllocPara
para_of is_combined = record {
  is_combined = is_combined;
  is_virtual = false;
  is_stream = false;
  is_entry = false;
  max_prior = 0;
  affinity = 0;
}

-- The count of the LRU list of a node.
unfoldable pub lru_changed : Ptr → (ℕ → ℕ) → Command (Unit {0})
lru_changed node f w =
    returns tt
      (record w { lru_count = λ p. if p == node then f (w.lru_count p) else w.lru_count p })

-- The state of an item, through its pointer.
unfoldable pub put_state : Ptr → (ItemStruct → ItemStruct) → Fallible (Unit {0})
unfolding fetch
put_state item f = do lift (fetch item); lift (edit item f)

-- The tail of the loops that gather items: a new item joins the compound item of the first one.
unfoldable pub join_items : ℕ → Bool → (item_ptr tmp_item_ptr : Ptr) → Fallible Ptr
unfolding fetch compound_append compound_item
join_items fuel is_combined item_ptr tmp_item_ptr =
    let head = if item_ptr == null then tmp_item_ptr else item_ptr in
    let joined = (do lift (compound_append fuel tmp_item_ptr head); succeed head) in
    let when_same = (do
      item ← lift (fetch head)
      (if compound_item item then succeed head else joined)) in
    if is_combined then if head == tmp_item_ptr then when_same else joined else succeed head

-- `get_current_pnode` and `get_recent_vnode`.
unfoldable pub get_current_pnode : Setting → ℕ → Ptr
unfolding get_pnode_num current_node
get_current_pnode setting dim =
    get_pnode_num setting.layout.arrays (current_node setting.layout dim)

unfoldable pub current_vnode : Setting → ℕ → ℕ
current_vnode setting dim = elim (get_current_vnode_num dim) [
  | some n ↦ n
  | none ↦ setting.no_vnode
]

unfoldable pub get_recent_vnode : Setting → ℕ → Ptr
unfolding current_vnode
get_recent_vnode setting dim = setting.layout.vnode_num (current_vnode setting dim)
