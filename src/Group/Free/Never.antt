-- ===== src/Group/Free/Never.antt =====
-- A block in no list cannot be freed, however far it merges.
use mathlib.Core.Path.{fun_ext}
use new_explorer_aios.Prelude.{
  ap, ℕ, zero, suc, ◌+◌, ◌≡◌, refl, arith, leb, inl, inr, Bool, ltb, Bool-cases, bit_and, ◌==◌,
  ◌&&◌, not, false, if◌then◌else◌,
}
use new_explorer_aios.Bits.Word.{sub64}
use new_explorer_aios.Struct.Sizes
use new_explorer_aios.Struct.Enums
use new_explorer_aios.Flags.{get_item_section, get_item_node, get_item_order}
use new_explorer_aios.Convert.{next_buddy_idx, item_is_buddy}
use new_explorer_aios.Links.Memory.{Ptr, null, Memory, write}
use new_explorer_aios.Links.Writes.{put_prev-ok}
use new_explorer_aios.Links.{list_add_tail}
use new_explorer_aios.Links.Loose.{list_add_head-null, list_add_tail-null}
use new_explorer_aios.Group.World.{World, Layout, Command, continue, settle, give}
use new_explorer_aios.Group.Ensures.{
  Ensures, returned, faulted, endless, Ensures-continue, Ensures-if, Ensures-fetch,
}
use new_explorer_aios.Group.Remove.{max_order_of, live_arrays}
use new_explorer_aios.Locate.{item_to_rel_idx}
use new_explorer_aios.Group.Compound.{fetch, is_compound, compound_remove_head}
use new_explorer_aios.Group.Free.{
  buddy_is_valid, Missing, Search, Exit, direct, merged, item_plus, merge_loop, put_direct,
  free_loop, free_group_migration, higher_is_buddy, dequeue_round, dequeue_group_migration,
}
use new_explorer_aios.Group.Free.Merge.{
  IsFree, IsFree-links, buddy_is_valid-same, Ends, merge_loop-IsFree,
}

-- No result is given.
abbrev pub Never : {A : Type 0} → A → World → Type 0
Never a w = ⊥

put_direct-Never :
    (layout : Layout) (group lvl migration_type : ℕ) (s : Search) (w : World)
    → IsFree s.item w
    → Ensures Never (put_direct layout group lvl migration_type s w)
unfolding put_direct
put_direct-Never layout group lvl migration_type s w free =
    rw
      (list_add_head-null w.links s.item (layout.free_cell group migration_type s.order)
        free.loose.0)
      faulted

-- An insertion behind a block in no list.
tail-Never :
    (item cell : Ptr) (k : Unit {0} → Command Ptr) (w : World)
    → IsFree item w
    → Ensures Never (continue (settle (list_add_tail item cell w.links) w) k)
tail-Never item cell k w free = rw (list_add_tail-null w.links item cell free.loose.1) faulted

higher_is_buddy-same :
    (missing : Missing) (max_order migration_type : ℕ) (s : Search) (w : World)
    → Ensures (λ _ v. v.links ≡ w.links) (higher_is_buddy missing max_order migration_type s w)
unfolding higher_is_buddy
higher_is_buddy-same missing max_order migration_type s w =
    let Same : Bool → World → Type 0 = λ _ v. v.links ≡ w.links in
    let combined_idx = bit_and s.buddy_idx s.idx in
    let higher =
      item_plus (item_plus s.item (sub64 combined_idx s.idx))
        (sub64 (next_buddy_idx combined_idx (s.order_index + 1)) combined_idx) in
    Ensures-continue Same Same
      ((if ltb s.order (sub64 max_order 2)
          then buddy_is_valid missing migration_type s.buddy_page
          else give false)
        w)
      _
      (Ensures-if Same (ltb s.order (sub64 max_order 2))
        (buddy_is_valid missing migration_type s.buddy_page) (give false) w
        (buddy_is_valid-same missing migration_type s.buddy_page w) (returned refl))
      (λ valid v same.
        Ensures-if Same valid _ _ v
          (Ensures-fetch Same higher (λ page. give (item_is_buddy page (s.order + 1))) v
            (returned same))
          (returned same))

-- The two ends of a search over the orders.
exit-Never :
    (exit : Exit) (w : World) (c d : Search → Command Ptr)
    → Ends exit w
    → ((s : Search) (v : World) → IsFree s.item v → Ensures Never (c s v))
    → ((s : Search) (v : World) → IsFree s.item v → Ensures Never (d s v))
    → Ensures Never ((elim exit as (λ _. Command Ptr) [ direct s ↦ c s | merged s ↦ d s ]) w)
exit-Never (direct s) w c d free at_direct at_merged = at_direct s w free
exit-Never (merged s) w c d free at_direct at_merged = at_merged s w free

free_loop-Never :
    (fuel : ℕ) (missing : Missing) (layout : Layout) (origin pid group lvl migration_type : ℕ)
    (s : Search) (w : World)
    → IsFree s.item w
    → Ensures Never (free_loop fuel missing layout origin pid group lvl migration_type s w)
unfolding free_loop
free_loop-Never zero missing layout origin pid group lvl migration_type s w free = endless
free_loop-Never (suc fuel) missing layout origin pid group lvl migration_type s w free =
    Ensures-continue Ends Never
      (merge_loop (suc fuel) missing layout origin group lvl
        (max_order_of layout origin lvl migration_type) migration_type
        (record s { idx = item_to_rel_idx (live_arrays layout w) s.item pid }) w)
      _
      (merge_loop-IsFree (suc fuel) missing layout origin group lvl
        (max_order_of layout origin lvl migration_type) migration_type
        (record s { idx = item_to_rel_idx (live_arrays layout w) s.item pid }) w
        (IsFree-links w w refl free))
      (λ exit v ends.
        exit-Never exit v (put_direct layout group lvl migration_type) _ ends
          (put_direct-Never layout group lvl migration_type)
          (λ t u left.
            Ensures-continue (λ _ x. x.links ≡ u.links) Never
              (higher_is_buddy missing (max_order_of layout origin lvl migration_type)
                migration_type t u)
              _
              (higher_is_buddy-same missing (max_order_of layout origin lvl migration_type)
                migration_type t u)
              (λ higher x same.
                Ensures-if Never higher _ _ x
                  (tail-Never t.item (layout.free_cell group migration_type t.order) _ x
                    (IsFree-links u x same left))
                  (Ensures-if Never
                    (leb Sizes.max_item_order t.order
                      && not (migration_type == Enums.migration_sparse_movable))
                    _ _ x
                    (free_loop-Never fuel missing layout origin pid
                      (layout.group_lvl (sub64 lvl 1) pid) (sub64 lvl 1) migration_type
                      (record t { order = 0 }) x (IsFree-links u x same left))
                    (put_direct-Never layout group lvl migration_type t x
                      (IsFree-links u x same left))))))

-- In a memory where each link has its counterpart, a block in no list, at an address that fits a word,
-- is never freed, with any fuel: however far it merges with its buddies, the block that is left has
-- NULL links, and no way to insert it returns.
pub free_group_migration-Never :
    (fuel : ℕ) (missing : Missing) (layout : Layout) (item : Ptr)
    (group lvl order migration_type : ℕ) (w : World)
    → IsFree item w
    → Ensures Never (free_group_migration fuel missing layout item group lvl order migration_type w)
unfolding free_group_migration
free_group_migration-Never fuel missing layout item group lvl order migration_type w free =
    free_loop-Never fuel missing layout group _ group lvl migration_type _ w free

-- NULL written where it stands.
prev_again :
    (m : Memory) (item : Ptr) → m.prev item ≡ null → record m { prev = write m.prev item null } ≡ m
unfolding write
prev_again m item empty = ap (λ (f : Ptr → Ptr). record m { prev = f }) (fun_ext λ q. ground arith)

-- The head of a compound item is the item itself.
compound_remove_head-IsFree :
    (item : Ptr) (w : World)
    → IsFree item w
    → Ensures
        (λ removed v. ((if removed == null then item else removed) ≡ item) × IsFree item v)
        (compound_remove_head item w)
unfolding compound_remove_head is_compound fetch
compound_remove_head-IsFree item w free = elim (Bool-cases (item == null)) [
  | inl none_given ↦ rw none_given faulted
  | inr given ↦ elim (Bool-cases (bit_and (w.item item).word1_0 1 == 1)) [
    | inl compound ↦
        rw (given, compound, put_prev-ok item given w.links null)
          (returned (rw given refl, IsFree-links w _ (prev_again w.links item free.loose.1) free))
    | inr single ↦ rw (given, single) (returned (refl, free))
  ]
]

dequeue_round-Never :
    (fuel : ℕ) (missing : Missing) (layout : Layout) (item : Ptr) (migration_type : ℕ) (w : World)
    → IsFree item w
    → Ensures Never (dequeue_round fuel missing layout item migration_type w)
unfolding dequeue_round fetch
dequeue_round-Never fuel missing layout item migration_type w free =
    Ensures-continue
      (λ removed v. ((if removed == null then item else removed) ≡ item) × IsFree item v) Never
      (compound_remove_head item w) _ (compound_remove_head-IsFree item w free)
      (λ removed v head. rw head.0 (elim (Bool-cases (item == null)) [
        | inl none_given ↦ rw none_given faulted
        | inr given ↦
            let page = v.item item in
            let lvl =
              if ltb Sizes.max_group_lvls (get_item_section page)
              then Sizes.max_group_lvls
              else get_item_section page in
            let node = if leb Sizes.pnode_num (get_item_node page) then 0 else get_item_node page in
            rw given (
              Ensures-continue Never Never
                (free_group_migration fuel missing layout item (layout.group_lvl lvl node) lvl
                  (get_item_order page) migration_type v)
                _
                (free_group_migration-Never fuel missing layout item (layout.group_lvl lvl node) lvl
                  (get_item_order page) migration_type v head.1)
                (λ a u never. absurd never))
      ]))

-- Nor is an item in no list, compound or not.
pub dequeue_group_migration-Never :
    (fuel : ℕ) (missing : Missing) (layout : Layout) (item : Ptr) (migration_type : ℕ) (w : World)
    → IsFree item w
    → Ensures Never (dequeue_group_migration fuel missing layout item migration_type w)
unfolding dequeue_group_migration
dequeue_group_migration-Never zero missing layout item migration_type w free = endless
dequeue_group_migration-Never (suc fuel) missing layout item migration_type w free =
    Ensures-continue Never Never (dequeue_round (suc fuel) missing layout item migration_type w) _
      (dequeue_round-Never (suc fuel) missing layout item migration_type w free)
      (λ a v never. absurd never)
