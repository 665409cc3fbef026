-- ===== src/Group/Free/Merge.antt =====
-- What the search over the orders leaves of a block in no list.
use new_explorer_aios.Prelude.{
  ℕ, zero, suc, ◌<◌, ◌≡◌, refl, arith, leb, inl, inr, Bool-cases, ==_self, bit_and, ◌==◌, false,
  if◌then◌else◌,
}
use new_explorer_aios.Bits.Word.{word_mod, sub64}
use new_explorer_aios.Flags.{clear_item_present}
use new_explorer_aios.Convert.{next_buddy_idx, item_is_buddy}
use new_explorer_aios.Convert.Combine.{combined_idx_cases}
use new_explorer_aios.Links.Memory.{Ptr, null, Memory, get_next, get_prev}
use new_explorer_aios.Links.Writes.{get_next-ok}
use new_explorer_aios.Links.{list_in_list, list_del}
use new_explorer_aios.Links.Loose.{Linked, Loose, Deleted, list_del-Deleted}
use new_explorer_aios.Group.World.{World, Layout, settle, give}
use new_explorer_aios.Group.Ensures.{
  Ensures, returned, faulted, endless, Leaves, Ensures-continue, Ensures-settle, Ensures-if,
  Ensures-fetch,
}
use new_explorer_aios.Group.Free.{
  stays_alone, buddy_is_valid, Missing, Search, Exit, direct, merged, item_plus, combined,
  merge_buddy, merge_loop,
}

-- A block at an address that fits a word, in no list, in a memory where each link has its counterpart.
pub record IsFree (item : Ptr) (w : World) : Type 0 where
  pub linked : Linked w.links
  pub loose : Loose item w.links
  pub small : item < word_mod

-- What a world has besides the links does not matter.
pub IsFree-links : {item : Ptr} (w v : World) → v.links ≡ w.links → IsFree item w → IsFree item v
IsFree-links w v same free = record {
  linked = rw same free.linked;
  loose = rw same free.loose;
  small = free.small;
}

-- The buddy in a search is the one of the block.
abbrev HasBuddy : Search → Type 0
HasBuddy s =
    (s.buddy_idx ≡ next_buddy_idx s.idx s.order_index)
    × (s.buddy_page ≡ item_plus s.item (sub64 s.buddy_idx s.idx))

pub item_plus_small : (item distance : ℕ) → item_plus item distance < word_mod
unfolding item_plus
item_plus_small item distance = omega arith

item_plus_self : (item idx : ℕ) → item < word_mod → item_plus item (sub64 idx idx) ≡ item
unfolding item_plus
item_plus_self item idx small = omega arith

combined_small : (s : Search) → (combined s).item < word_mod
unfolding combined
combined_small s = item_plus_small s.item (sub64 (bit_and s.buddy_idx s.idx) s.idx)

-- The block that two buddies make starts where one of them does.
combined-Loose :
    (s : Search) (m m' : Memory)
    → HasBuddy s
    → s.item < word_mod
    → Loose s.item m
    → Deleted m s.buddy_page m'
    → Loose (combined s).item m'
unfolding combined
combined-Loose s m m' has_buddy small loose d =
    rw (has_buddy.0) (elim (combined_idx_cases s.idx s.order_index) [
      | inl own ↦ rw (own, item_plus_self s.item s.idx small) (d.others s.item loose)
      | inr other ↦
          let at_buddy = rw has_buddy.1 at d.loose in
          let at_buddy_idx = rw has_buddy.0 at at_buddy in rw other at_buddy_idx
    ])

merge_buddy-IsFree :
    (missing : Missing) (layout : Layout) (group migration_type : ℕ) (s : Search) (w : World)
    → HasBuddy s
    → IsFree s.item w
    → Ensures (λ t. IsFree t.item) (merge_buddy missing layout group migration_type s w)
unfolding merge_buddy
merge_buddy-IsFree missing layout group migration_type s w has_buddy free =
    Ensures-continue (λ _ v. Deleted w.links s.buddy_page v.links) (λ t. IsFree t.item)
      (settle (list_del s.buddy_page w.links) w) _
      (Ensures-settle (λ _ m. Deleted w.links s.buddy_page m)
        (λ _ v. Deleted w.links s.buddy_page v.links) (list_del s.buddy_page w.links) w
        (list_del-Deleted w.links s.buddy_page free.linked) (λ a m d. d))
      (λ a v d. returned (record {
        linked = d.linked;
        loose = combined-Loose s w.links v.links has_buddy free.small free.loose d;
        small = combined_small s;
      }))

-- Looking at a buddy changes nothing.
same_links : (p : Ptr) (m : Memory) → Leaves (λ _ m'. m' ≡ m) (list_in_list p m)
unfolding list_in_list get_next get_prev
same_links p m = elim (Bool-cases (p == null)) [
  | inl hit ↦ rw hit tt
  | inr miss ↦ elim (Bool-cases (m.prev p == null)) [
    | inl no_prev ↦ rw (miss, no_prev, get_next-ok p miss m) refl
    | inr some_prev ↦ rw (miss, some_prev) refl
  ]
]

pub buddy_is_valid-same :
    (missing : Missing) (migration_type : ℕ) (p : Ptr) (w : World)
    → Ensures (λ _ v. v.links ≡ w.links) (buddy_is_valid missing migration_type p w)
unfolding buddy_is_valid
buddy_is_valid-same missing migration_type p w =
    Ensures-continue Same Same (settle (list_in_list p w.links) w) _
      (Ensures-settle (λ _ m. m ≡ w.links) Same (list_in_list p w.links) w (same_links p w.links)
        (λ a m e. e))
      (λ a v e. Ensures-fetch Same p _ v (returned e))
  where
    Same : {A : Type 0} → A → World → Type 0
    Same a v = v.links ≡ w.links

-- The block that a search over the orders ends with.
abbrev pub block_of : Exit → Search
block_of (direct s) = s
block_of (merged s) = s

abbrev pub Ends : Exit → World → Type 0
Ends e = IsFree (block_of e).item

pub merge_loop-IsFree :
    (fuel : ℕ) (missing : Missing) (layout : Layout) (origin group lvl max_order migration_type : ℕ)
    (s : Search) (w : World)
    → IsFree s.item w
    → Ensures Ends (merge_loop fuel missing layout origin group lvl max_order migration_type s w)
unfolding merge_loop
merge_loop-IsFree zero missing layout origin group lvl max_order migration_type s w free = endless
merge_loop-IsFree (suc fuel) missing layout origin group lvl max_order migration_type s w free =
    let buddy_idx = next_buddy_idx s.idx s.order_index in
    let t : Search = record s {
      buddy_idx = buddy_idx;
      buddy_page = item_plus s.item (sub64 buddy_idx s.idx);
    } in
    let p = item_plus s.item (sub64 buddy_idx s.idx) in
    let v : World = record w {
      item = λ q. if q == s.item then clear_item_present (w.item q) else w.item q;
    } in
    let free' : IsFree s.item v = IsFree-links w v refl free in
    elim (Bool-cases (leb s.order (sub64 max_order 1))) [
      | inr above ↦ rw above (returned free)
      | inl within ↦ elim (Bool-cases (s.item == null)) [
        | inl no_item ↦ rw (within, no_item) faulted
        | inr some_item ↦
            elim (Bool-cases (
              stays_alone layout origin lvl max_order migration_type s.order
                (clear_item_present (w.item s.item)))) [
                  | inl alone ↦ rw (within, some_item, ==_self s.item, alone) (returned free')
                  | inr merges ↦ elim (Bool-cases (p == null)) [
                    | inl no_buddy ↦
                        rw (within, some_item, ==_self s.item, merges, no_buddy) faulted
                    | inr some_buddy ↦
                        rw (within, some_item, ==_self s.item, merges, some_buddy)
                          (Ensures-continue (λ _ u. u.links ≡ w.links) Ends
                            ((if item_is_buddy (v.item p) s.order
                                then buddy_is_valid missing migration_type p
                                else give false)
                              v)
                            _
                            (Ensures-if (λ _ u. u.links ≡ w.links)
                              (item_is_buddy (v.item p) s.order)
                              (buddy_is_valid missing migration_type p) (give false) v
                              (buddy_is_valid-same missing migration_type p v) (returned refl))
                            (λ valid u same.
                              Ensures-if Ends valid _ _ u
                                (Ensures-continue (λ x. IsFree x.item) Ends
                                  (merge_buddy missing layout group migration_type t u) _
                                  (merge_buddy-IsFree missing layout group migration_type t u
                                    (refl, refl) (IsFree-links w u same free))
                                  (λ x y.
                                    merge_loop-IsFree fuel missing layout origin group lvl max_order
                                      migration_type x y))
                                (returned (IsFree-links w u same free))))
                  ]
                ]
      ]
    ]
