-- ===== src/Sparse/Stream/Request.antt =====
-- A new stream.
use new_explorer_aios.Prelude.{ℕ, ◌≡◌, refl}
use new_explorer_aios.Struct.Node.{AllocPara}
use new_explorer_aios.Group.World.{World, Layout, faults}
use new_explorer_aios.Group.Compound.{fetch}
use new_explorer_aios.Sparse.{Tables}
use new_explorer_aios.Sparse.Stream.{
  Places, subscribe_at, subscribe_group_sparse, forward_remove_group_stream,
}

-- A request for a stream goes through NULL, whatever is asked for: `forward_remove_group_stream` subscribes
-- without an item, and the subscription reads the dimension of the item.
pub forward_remove_group_stream-faults :
    (layout : Layout) (tables : Tables) (places : Places)
    (fuel nid migration_type order lvl dim : ℕ) (para : AllocPara) (w : World)
    → forward_remove_group_stream layout tables places fuel nid migration_type order lvl dim para w
      ≡ faults
unfolding forward_remove_group_stream subscribe_group_sparse subscribe_at fetch
forward_remove_group_stream-faults layout tables places fuel nid migration_type order lvl dim para
      w =
    refl
