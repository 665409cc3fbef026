-- ===== src/Struct/Sizes.antt =====
-- The sizes of source/tensor_struct.h: ranges of the nodes, and the levels and orders of the groups.
use new_explorer_aios.Prelude.{ℕ, ◌+◌, ◌-◌, ◌*◌, ◌^◌}

abbrev pub node_fixed_range_size : ℕ
node_fixed_range_size = 0x4000_0000

abbrev pub node_fixed_range_base : ℕ
node_fixed_range_base = 0x8000_0000

abbrev pub vnode_fixed_range_base : ℕ
vnode_fixed_range_base = 0

abbrev pub lru_cache_max_items : ℕ
lru_cache_max_items = 1024

abbrev pub unmov_max_items : ℕ
unmov_max_items = 1024

abbrev pub node_super_period_window_base : ℕ
node_super_period_window_base = 0

abbrev pub node_super_period_window_size : ℕ
node_super_period_window_size = 0x4000_0000

abbrev pub vnode_super_period_window_base : ℕ
vnode_super_period_window_base = 0

abbrev pub vnode_super_period_window_size : ℕ
vnode_super_period_window_size = 0x4000_0000

abbrev pub node_reserved_range_base : ℕ
node_reserved_range_base = 0

abbrev pub node_reserved_range_size : ℕ
node_reserved_range_size = 0x10_0000

abbrev pub fixed_item_size_shift : ℕ
fixed_item_size_shift = 12

abbrev pub fixed_item_size : ℕ
fixed_item_size = 2 ^ fixed_item_size_shift

-- `NODE_LVL_NUM` is BIT(NODE_LVL_NUM_SHIFT), and `NODE_DIM_NUM` likewise.
abbrev pub node_lvl_num : ℕ
node_lvl_num = 2 ^ 4

abbrev pub node_dim_num : ℕ
node_dim_num = 2 ^ 4

abbrev pub pnode_num : ℕ
pnode_num = 2 ^ (node_dim_num + node_lvl_num)

abbrev pub vnode_num : ℕ
vnode_num = 2 ^ (node_dim_num + node_lvl_num)

abbrev pub group_lvl_num : ℕ
group_lvl_num = 4

abbrev pub group_order_num_shift : ℕ
group_order_num_shift = 12

abbrev pub group_range_num_shift : ℕ
group_range_num_shift = 12

abbrev pub group_prior_num_shift : ℕ
group_prior_num_shift = 3

-- `FUNCTION_ITEM`: the orders of a group.
abbrev pub function_item : ℕ → ℕ
function_item item_shift = item_shift - 3

abbrev pub max_item_order : ℕ
max_item_order = function_item group_order_num_shift - 1

abbrev pub max_item_range : ℕ
max_item_range = function_item group_range_num_shift - 1

abbrev pub max_item_prior : ℕ
max_item_prior = 2 ^ group_prior_num_shift - 1

abbrev pub group_idx_num_shift : ℕ
group_idx_num_shift = 12

abbrev pub max_idx_num : ℕ
max_idx_num = function_item group_idx_num_shift - 1

abbrev pub max_group_lvls : ℕ
max_group_lvls = group_lvl_num - 1

-- The three level macros. Levels run from 0 to 3, where no difference falls below 0.
abbrev pub function_item_lvl_prior : ℕ → ℕ → ℕ
function_item_lvl_prior item_shift level = (group_lvl_num - level - 1) * item_shift

abbrev pub function_item_lvl : ℕ → ℕ → ℕ
function_item_lvl item_shift level = (group_lvl_num - level) * (item_shift - 3) + 3 - item_shift

abbrev pub function_range_lvl : ℕ → ℕ → ℕ
function_range_lvl item_shift level = (group_lvl_num - level) * (item_shift - 3) + 3
