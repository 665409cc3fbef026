-- ===== src/Init/Entity/Faults.antt =====
-- The first node that the entities get.
use new_explorer_aios.Prelude.{
  ℕ, zero, suc, ◌≡◌, refl, true, false, ◌+◌, ◌*◌, ◌≤◌, arith, ◌==◌, Bool-cases, inl, inr,
  if◌then◌else◌, ==_self,
}
use new_explorer_aios.Macros.{bit}
use new_explorer_aios.Struct.Sizes
use new_explorer_aios.Struct.Enums
use new_explorer_aios.Struct.Item.{item_bytes}
use new_explorer_aios.Struct.Node.{SliceStruct}
use new_explorer_aios.Links.Memory.{
  Ptr, null, Memory, Run, done, fault, out_of_fuel, Cmd, follow, put_next, put_prev, write,
}
use new_explorer_aios.Links.{init_list_node}
use new_explorer_aios.Group.World.{
  World, Layout, Outcome, returns, faults, exhausted, Command, continue, settle,
}
use new_explorer_aios.Init.{init_cells, init_free_lists, init_free_group_list, init_slice}
use new_explorer_aios.Types.{store}
use new_explorer_aios.Links.Loose.{list_add_tail-null}
use new_explorer_aios.Init.Entity.{
  init_slice_at, init_group, init_groups, add_nodes, join_nodes, init_entity_node,
}

init_list_node-null : (q : Ptr) (m : Memory) → (q == null) ≡ true → init_list_node q m ≡ fault
unfolding init_list_node put_next
init_list_node-null q m hit = rw hit refl

put_next-done :
    (q v : Ptr) (m : Memory)
    → (q == null) ≡ false
    → put_next q v m ≡ done tt (record m { next = write m.next q v })
unfolding put_next
put_next-done q v m miss = rw miss refl

put_prev-done :
    (q v : Ptr) (m : Memory)
    → (q == null) ≡ false
    → put_prev q v m ≡ done tt (record m { prev = write m.prev q v })
unfolding put_prev
put_prev-done q v m miss = rw miss refl

init_list_node-done :
    (q : Ptr) (m : Memory)
    → (q == null) ≡ false
    → init_list_node q m
      ≡ done tt (record { prev = write m.prev q null; next = write m.next q null })
unfolding init_list_node
init_list_node-done q m miss =
    rw
      (
        put_next-done q null m miss,
        put_prev-done q null (record m { next = write m.next q null }) miss,
      )
      refl

module _ (p : Ptr) where
  -- A run that faults, or ends with the link before `p` NULL.
  Unlinked : {A : Type 0} → Run A → Type 0
  Unlinked (done a m) = m.prev p ≡ null
  Unlinked fault = Unit {0}
  Unlinked out_of_fuel = ⊥

  follow-Unlinked :
      {A B : Type 0} (r : Run A) (k : A → Cmd B)
      → Unlinked r
      → ((a : A) (m : Memory) → m.prev p ≡ null → Unlinked (k a m))
      → Unlinked (follow r k)
  unfolding Unlinked
  follow-Unlinked (done a m) k first next = next a m first
  follow-Unlinked fault k first next = tt
  follow-Unlinked out_of_fuel k first next = absurd first

  written : (f : Ptr → Ptr) (q : Ptr) → f p ≡ null → write f q null p ≡ null
  unfolding write
  written f q h = elim (Bool-cases (p == q)) [ inl same ↦ rw same refl | inr other ↦ rw other h ]

  init_list_node-Unlinked : (q : Ptr) (m : Memory) → m.prev p ≡ null → Unlinked (init_list_node q m)
  unfolding Unlinked
  init_list_node-Unlinked q m h = elim (Bool-cases (q == null)) [
    | inl hit ↦ rw (init_list_node-null q m hit) tt
    | inr miss ↦ rw (init_list_node-done q m miss) (written m.prev q h)
  ]

  init_list_node-Unlinked_self : (m : Memory) → Unlinked (init_list_node p m)
  unfolding Unlinked write
  init_list_node-Unlinked_self m = elim (Bool-cases (p == null)) [
    | inl hit ↦ rw (init_list_node-null p m hit) tt
    | inr miss ↦ rw (init_list_node-done p m miss, ==_self p) refl
  ]

  init_cells-Unlinked :
      (rounds : ℕ) (cell : ℕ → Ptr) (order : ℕ) (counts : ℕ → ℕ) (m : Memory)
      → m.prev p ≡ null
      → Unlinked (init_cells rounds cell order counts m)
  unfolding init_cells Unlinked
  init_cells-Unlinked zero cell order counts m h = h
  init_cells-Unlinked (suc rounds) cell order counts m h =
      follow-Unlinked (init_list_node (cell order) m)
        (λ a. init_cells rounds cell (order + 1) (store counts order 0))
        (init_list_node-Unlinked (cell order) m h)
        (λ a m' h'. init_cells-Unlinked rounds cell (order + 1) (store counts order 0) m' h')

  init_free_lists-Unlinked :
      (rounds : ℕ) (cell : ℕ → ℕ → Ptr) (index : ℕ) (counts : ℕ → ℕ → ℕ) (m : Memory)
      → m.prev p ≡ null
      → Unlinked (init_free_lists rounds cell index counts m)
  unfolding init_free_lists Unlinked
  init_free_lists-Unlinked zero cell index counts m h = h
  init_free_lists-Unlinked (suc rounds) cell index counts m h =
      follow-Unlinked (init_cells Sizes.max_idx_num (cell index) 0 (counts index) m)
        (λ row. init_free_lists rounds cell (index + 1) (λ i. if i == index then row else counts i))
        (init_cells-Unlinked Sizes.max_idx_num (cell index) 0 (counts index) m h)
        (λ row m' h'.
          init_free_lists-Unlinked rounds cell (index + 1)
            (λ i. if i == index then row else counts i) m' h')

  init_slice-Unlinked :
      (slice : SliceStruct) (bsize th : ℕ) (m : Memory)
      → m.prev p ≡ null
      → Unlinked (init_slice slice bsize th m)
  unfolding init_slice Unlinked
  init_slice-Unlinked slice bsize th m h =
      follow-Unlinked (init_list_node slice.empty_list m) _
        (init_list_node-Unlinked slice.empty_list m h)
        (λ a m1 h1.
          follow-Unlinked (init_list_node slice.full_list m1) _
            (init_list_node-Unlinked slice.full_list m1 h1)
            (λ b m2 h2.
              follow-Unlinked (init_list_node slice.free_list m2) _
                (init_list_node-Unlinked slice.free_list m2 h2) (λ c m3 h3. h3)))

-- The first head is set up first, and the others keep the link before it NULL.
init_cells_first :
    (rounds : ℕ) (cell : ℕ → Ptr) (counts : ℕ → ℕ) (m : Memory)
    → Unlinked (cell 0) (init_cells (suc rounds) cell 0 counts m)
unfolding init_cells
init_cells_first rounds cell counts m =
    follow-Unlinked (cell 0) (init_list_node (cell 0) m) _ (init_list_node-Unlinked_self (cell 0) m)
      (λ a m' h. init_cells-Unlinked (cell 0) rounds cell 1 (store counts 0 0) m' h)

init_free_lists_first :
    (rounds : ℕ) (cell : ℕ → ℕ → Ptr) (counts : ℕ → ℕ → ℕ) (m : Memory)
    → Unlinked (cell 0 0) (init_free_lists (suc rounds) cell 0 counts m)
unfolding init_free_lists
init_free_lists_first rounds cell counts m =
    follow-Unlinked (cell 0 0) (init_cells Sizes.max_idx_num (cell 0) 0 (counts 0) m) _
      (init_cells_first 7 (cell 0) (counts 0) m)
      (λ row m' h.
        init_free_lists-Unlinked (cell 0 0) rounds cell 1 (λ i. if i == 0 then row else counts i) m'
          h)

module _ (p : Ptr) where
  -- The same of a command on the world.
  UnlinkedIn : {A : Type 0} → Outcome A → Type 0
  UnlinkedIn (returns a w) = w.links.prev p ≡ null
  UnlinkedIn faults = Unit {0}
  UnlinkedIn exhausted = ⊥

  continue-UnlinkedIn :
      {A B : Type 0} (r : Outcome A) (k : A → Command B)
      → UnlinkedIn r
      → ((a : A) (w : World) → w.links.prev p ≡ null → UnlinkedIn (k a w))
      → UnlinkedIn (continue r k)
  unfolding UnlinkedIn
  continue-UnlinkedIn (returns a w) k first next = next a w first
  continue-UnlinkedIn faults k first next = tt
  continue-UnlinkedIn exhausted k first next = absurd first

  settle-UnlinkedIn : {A : Type 0} (r : Run A) (w : World) → Unlinked p r → UnlinkedIn (settle r w)
  unfolding UnlinkedIn Unlinked
  settle-UnlinkedIn (done a m) w h = h
  settle-UnlinkedIn fault w h = tt
  settle-UnlinkedIn out_of_fuel w h = absurd h

  -- What goes through NULL wherever the link before `p` is NULL does so behind such a command.
  continue-faults :
      {A B : Type 0} (r : Outcome A) (k : A → Command B)
      → UnlinkedIn r
      → ((a : A) (w : World) → w.links.prev p ≡ null → k a w ≡ faults)
      → continue r k ≡ faults
  unfolding UnlinkedIn
  continue-faults (returns a w) k first next = next a w first
  continue-faults faults k first next = refl
  continue-faults exhausted k first next = absurd first

init_slice_at-UnlinkedIn :
    (p slice_at : Ptr) (w : World) → w.links.prev p ≡ null → UnlinkedIn p (init_slice_at slice_at w)
unfolding init_slice_at UnlinkedIn
init_slice_at-UnlinkedIn p slice_at w h =
    let size = item_bytes * bit (Sizes.max_item_range + 1) in
    continue-UnlinkedIn p _ _
      (settle-UnlinkedIn p (init_slice (w.slice slice_at) size 64 w.links) w
        (init_slice-Unlinked p (w.slice slice_at) size 64 w.links h))
      (λ slice v g. g)

module _ (layout : Layout) where
  init_group-UnlinkedIn :
      (p group : ℕ) (w : World) → w.links.prev p ≡ null → UnlinkedIn p (init_group layout group w)
  unfolding init_group init_free_group_list UnlinkedIn
  init_group-UnlinkedIn p group w h =
      continue-UnlinkedIn p _ _
        (settle-UnlinkedIn p
          (init_free_group_list (layout.free_cell group) (w.free_count group) w.links) w
          (init_free_lists-Unlinked p Enums.migration_types (layout.free_cell group) 0
            (w.free_count group) w.links h))
        (λ rows v g. g)

  init_group_first :
      (group : ℕ) (w : World) → UnlinkedIn (layout.free_cell group 0 0) (init_group layout group w)
  unfolding init_group init_free_group_list UnlinkedIn
  init_group_first group w =
      let p = layout.free_cell group 0 0 in
      continue-UnlinkedIn p _ _
        (settle-UnlinkedIn p
          (init_free_group_list (layout.free_cell group) (w.free_count group) w.links) w
          (init_free_lists_first 3 (layout.free_cell group) (w.free_count group) w.links))
        (λ rows v g. g)

  init_groups-UnlinkedIn :
      (rounds p : ℕ) (entity_group : ℕ → ℕ) (lvl : ℕ) (w : World)
      → w.links.prev p ≡ null
      → UnlinkedIn p (init_groups layout rounds entity_group lvl w)
  unfolding init_groups UnlinkedIn
  init_groups-UnlinkedIn zero p entity_group lvl w h = h
  init_groups-UnlinkedIn (suc rounds) p entity_group lvl w h =
      continue-UnlinkedIn p (init_group layout (entity_group lvl) w) _
        (init_group-UnlinkedIn p (entity_group lvl) w h)
        (λ a v g. init_groups-UnlinkedIn rounds p entity_group (lvl + 1) v g)

  init_groups_first :
      (entity_group : ℕ → ℕ) (w : World)
      → UnlinkedIn (layout.free_cell (entity_group 0) 0 0) (init_groups layout 4 entity_group 0 w)
  unfolding init_groups
  init_groups_first entity_group w =
      continue-UnlinkedIn (layout.free_cell (entity_group 0) 0 0)
        (init_group layout (entity_group 0) w) _ (init_group_first (entity_group 0) w)
        (λ a v g.
          init_groups-UnlinkedIn 3 (layout.free_cell (entity_group 0) 0 0) entity_group 1 v g)

  add_nodes-faults :
      (rounds group : ℕ) (pnode_link : ℕ → Ptr) (i : ℕ) (w : World)
      → 1 ≤ rounds
      → w.links.prev (layout.free_cell group 0 0) ≡ null
      → add_nodes layout rounds group pnode_link i w ≡ faults
  unfolding add_nodes
  add_nodes-faults zero group pnode_link i w some_nodes h = absurd (omega arith)
  add_nodes-faults (suc rounds) group pnode_link i w some_nodes h =
      rw (list_add_tail-null w.links (layout.free_cell group 0 0) (pnode_link i) h) refl

  join_nodes-faults :
      (group : ℕ) (pnode_link : ℕ → Ptr) (w : World)
      → w.links.prev (layout.free_cell group 0 0) ≡ null
      → join_nodes layout group pnode_link w ≡ faults
  unfolding join_nodes
  join_nodes-faults group pnode_link w h =
      add_nodes-faults Sizes.pnode_num group pnode_link 0 w (omega arith) h

-- The set-up of the entities always goes through NULL, in every world and for every layout: the heads of
-- its lists are set up as unlinked nodes, and the first node cannot be added to one.
pub init_entity_node-faults :
    (layout : Layout) (entity_group : ℕ → ℕ) (slice_at : Ptr) (pnode_link : ℕ → Ptr) (w : World)
    → init_entity_node layout entity_group slice_at pnode_link w ≡ faults
unfolding init_entity_node
init_entity_node-faults layout entity_group slice_at pnode_link w =
    let p = layout.free_cell (entity_group 0) 0 0 in
    continue-faults p (init_groups layout 4 entity_group 0 w)
      (λ a v.
        continue (init_slice_at slice_at v) (λ b. join_nodes layout (entity_group 0) pnode_link))
      (init_groups_first layout entity_group w)
      (λ a v h.
        continue-faults p (init_slice_at slice_at v)
          (λ b. join_nodes layout (entity_group 0) pnode_link)
          (init_slice_at-UnlinkedIn p slice_at v h)
          (λ b u g. join_nodes-faults layout (entity_group 0) pnode_link u g))
