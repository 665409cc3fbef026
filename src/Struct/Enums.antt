-- ===== src/Struct/Enums.antt =====
-- The enumerations of source/tensor_struct.h, whose members are C integers.
use new_explorer_aios.Prelude.{ℕ}

-- `enum item_state`.
abbrev pub state_item_movable_normal : ℕ
state_item_movable_normal = 0

abbrev pub state_item_movable_comp : ℕ
state_item_movable_comp = 1

abbrev pub state_item_movable_node : ℕ
state_item_movable_node = 2

abbrev pub state_item_slub_types : ℕ
state_item_slub_types = 3

abbrev pub state_item_sparse_types : ℕ
state_item_sparse_types = 4

abbrev pub state_item_sparse_prior : ℕ
state_item_sparse_prior = 5

abbrev pub state_item_sparse_virtual_stream : ℕ
state_item_sparse_virtual_stream = 6

abbrev pub state_item_sparse_physical_stream : ℕ
state_item_sparse_physical_stream = 7

abbrev pub state_item_nomovable_types : ℕ
state_item_nomovable_types = 8

abbrev pub state_item_reclaim_types : ℕ
state_item_reclaim_types = 9

abbrev pub state_item_lru_cache_types : ℕ
state_item_lru_cache_types = 10

abbrev pub state_item_count : ℕ
state_item_count = 11

-- `enum item_func`.
abbrev pub func_virtual : ℕ
func_virtual = 0

abbrev pub func_virtual_graps : ℕ
func_virtual_graps = 1

abbrev pub func_virtual_normal : ℕ
func_virtual_normal = 2

abbrev pub func_virtual_dma : ℕ
func_virtual_dma = 3

abbrev pub func_virtual_mmio : ℕ
func_virtual_mmio = 4

abbrev pub func_virtual_mmio_emul : ℕ
func_virtual_mmio_emul = 5

abbrev pub func_virtual_share : ℕ
func_virtual_share = 6

abbrev pub func_virtual_cache : ℕ
func_virtual_cache = 7

abbrev pub func_virtual_stream : ℕ
func_virtual_stream = 8

abbrev pub func_physical : ℕ
func_physical = 9

abbrev pub func_physical_undefined : ℕ
func_physical_undefined = 10

abbrev pub func_physical_cont : ℕ
func_physical_cont = 11

abbrev pub func_physical_dcont : ℕ
func_physical_dcont = 12

abbrev pub func_physical_mmu : ℕ
func_physical_mmu = 13

abbrev pub func_physical_object : ℕ
func_physical_object = 14

abbrev pub func_physical_debug : ℕ
func_physical_debug = 15

abbrev pub func_physical_device : ℕ
func_physical_device = 16

abbrev pub func_physical_reserved : ℕ
func_physical_reserved = 17

abbrev pub func_physical_stream : ℕ
func_physical_stream = 18

abbrev pub func_entity : ℕ
func_entity = 19

abbrev pub func_item_count : ℕ
func_item_count = 20

-- `enum assets_dim_type`.
abbrev pub dim_time : ℕ
dim_time = 0

abbrev pub dim_memory : ℕ
dim_memory = 1

abbrev pub dim_irq : ℕ
dim_irq = 2

abbrev pub dim_block : ℕ
dim_block = 3

abbrev pub dim_net : ℕ
dim_net = 4

abbrev pub dim_num : ℕ
dim_num = 5

-- `enum group_status`.
abbrev pub group_idle : ℕ
group_idle = 0

abbrev pub group_forward : ℕ
group_forward = 1

abbrev pub group_only_forward : ℕ
group_only_forward = 2

abbrev pub group_backward : ℕ
group_backward = 3

-- `enum item_migration_type`: the first two members have one value.
abbrev pub migration_movable : ℕ
migration_movable = 0

abbrev pub migration_sparse_movable : ℕ
migration_sparse_movable = 0

abbrev pub migration_unmovable : ℕ
migration_unmovable = 1

abbrev pub migration_reclaimable : ℕ
migration_reclaimable = 2

abbrev pub migration_lrutype : ℕ
migration_lrutype = 3

abbrev pub migration_types : ℕ
migration_types = 4
