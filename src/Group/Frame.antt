-- ===== src/Group/Frame.antt =====
-- One split step on the free lists: `split2_group_migration` on rings.
use new_explorer_aios.Prelude.{ℕ, ◌≡◌, ◌≢◌, refl, List, ◌∷◌, false, arith, ◌==◌, if◌then◌else◌}
use new_explorer_aios.Links.Memory.{Ptr, null}
use new_explorer_aios.Links.Chain.{◌∈◌, ◌∉◌, Ring}
use new_explorer_aios.Links.Insert.{list_add_head-frame}
use new_explorer_aios.Group.World.{World, Layout, returns, item_at, count_up}
use new_explorer_aios.Group.{split2_group_migration, freed}

module _ (layout : Layout) (group : ℕ) (item : Ptr) (size order type lvl : ℕ) (w : World)
    (xs : List Ptr) where
  -- What one step leaves.
  pub record Stepped (w' : World) : Type 0 where
    pub run : split2_group_migration layout group item size order type lvl w ≡ returns tt w'
    pub ring : Ring w'.links (layout.free_cell group type order) (item_at item size ∷ xs)
    pub kept :
        (other : Ptr) (ys : List Ptr)
        → Ring w.links other ys
        → ((a : Ptr) → a ∈ layout.free_cell group type order ∷ xs → a ∉ other ∷ ys)
        → item_at item size ∉ other ∷ ys
        → Ring w'.links other ys
    pub counts : w'.free_count ≡ count_up group type order w.free_count
    pub marked :
        w'.item (item_at item size)
        ≡ freed (layout.node_id group) order lvl (w.item (item_at item size))
    pub unmarked : (q : Ptr) → (q == item_at item size) ≡ false → w'.item q ≡ w.item q

  pub split2-Stepped :
      Ring w.links (layout.free_cell group type order) xs
      → item_at item size ∉ layout.free_cell group type order ∷ xs
      → item_at item size ≢ null
      → (w' : World) × Stepped w'
  unfolding split2_group_migration
  split2-Stepped ring new ok =
      let (m', run, ring', kept) =
        list_add_head-frame w.links (layout.free_cell group type order) (item_at item size) xs ring
          new ok in
      (
        record w {
          links = m';
          item = λ q.
              if q == item_at item size
              then freed (layout.node_id group) order lvl (w.item q)
              else w.item q;
          free_count = count_up group type order w.free_count;
        },
        record {
          run = rw run refl;
          ring = ring';
          kept = kept;
          counts = refl;
          marked = ground arith;
          unmarked = λ q ne. rw ne refl;
        },
      )
