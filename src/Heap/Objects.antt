-- ===== src/Heap/Objects.antt =====
-- `kmalloc` and `kfree` of source/tensor_util.c. `dump_item` only prints.
use new_explorer_aios.Prelude.{ℕ, false, none, ◌==◌, if◌then◌else◌}
use new_explorer_aios.Errors.{err_invalid_args}
use new_explorer_aios.Struct.Enums
use new_explorer_aios.Convert.{size_to_item}
use new_explorer_aios.Request.{Class}
use new_explorer_aios.Locate.{item_to_range, range_base_transform, range_transform_to_item}
use new_explorer_aios.Links.Memory.{Ptr, null}
use new_explorer_aios.Group.Compound.{fetch}
use new_explorer_aios.Group.Remove.{live_arrays}
use new_explorer_aios.Node.Replies.{Fallible, succeed, fail, lift, look, handle, ◌>>=◌, ◌>>◌}
use new_explorer_aios.Node.Shared.{Setting, Vtable, get_current_pnode}
use new_explorer_aios.Node.Post.{dim_memory}
use new_explorer_aios.Node.Alloc.{node_struct_alloc, node_struct_free}

module _ (setting : Setting) where
  -- `kmalloc`: NULL for no bytes, and where the node refuses.
  unfoldable pub kmalloc : Vtable → Class → (size : ℕ) → Fallible Ptr
  unfolding node_struct_alloc get_current_pnode size_to_item range_base_transform
  kmalloc vtable before size =
      let allocated =
        handle
          (node_struct_alloc setting vtable before (get_current_pnode setting dim_memory)
            (size_to_item size) Enums.func_physical_object none)
          (λ range_base. succeed (range_base_transform range_base)) (λ e. succeed null) in
      if size == 0 then succeed null else allocated

  -- `kfree`.
  unfoldable pub kfree : (object : Ptr) → Fallible (Unit {0})
  unfolding node_struct_free live_arrays fetch
  kfree object =
      let freed = (do
        page ← look (λ w. range_transform_to_item (live_arrays setting.layout w) object dim_memory)
        lift (fetch page)
        range_base ← look (λ w. item_to_range (live_arrays setting.layout w) w.item page)
        node_struct_free setting range_base false dim_memory) in
      if object == null then fail err_invalid_args else freed
