-- ===== src/Locate/Virtual.antt =====
-- The virtual nodes of a process group and their groups, source/tensor_ops.h, and the levels of groups,
-- physical and virtual. The differences of pointers fit an `int`.
use native.Mathlib.Nat.{mul-div_cancel_left, mul-le-mul_right}
use new_explorer_aios.Prelude.{ℕ, ◌+◌, ◌-◌, ◌*◌, ◌%◌, ◌<◌, ◌≡◌, refl, arith, leb, true}
use new_explorer_aios.Bits.Word.{word_mod}
use new_explorer_aios.Struct.Sizes.{group_lvl_num}
use new_explorer_aios.Links.Memory.{Ptr}
use new_explorer_aios.Locate.{Arrays, elements_from, get_group_lvl, get_lvl_group}

-- The process group that runs: its nodes by number, and the groups of a node by its address.
pub record ProcessGroup : Type 0 where
  pub node : ℕ → Ptr
  pub group : Ptr → Ptr

unfoldable pub get_vnode_num : ProcessGroup → ℕ → Ptr
get_vnode_num process nu = process.node nu

unfoldable pub get_num_vnode : Arrays → ProcessGroup → Ptr → ℕ
unfolding elements_from
get_num_vnode arrays process vnode = elements_from arrays.node_bytes vnode (process.node 0)

unfoldable pub get_vgroup_lvl : Arrays → ProcessGroup → ℕ → ℕ → Ptr
get_vgroup_lvl arrays process lvl nu =
    (process.group (process.node nu) + arrays.group_bytes * lvl) % word_mod

unfoldable pub get_lvl_vgroup : Arrays → ProcessGroup → Ptr → ℕ → ℕ
unfolding elements_from
get_lvl_vgroup arrays process group nu =
    elements_from arrays.group_bytes group (process.group (process.node nu))

elements_from-element :
    (bytes base k : ℕ)
    → 0 < bytes
    → base + bytes * k < word_mod
    → elements_from bytes ((base + bytes * k) % word_mod) base ≡ k
unfolding elements_from
elements_from-element bytes base k some_bytes fits =
    let inside : (base + bytes * k) % word_mod ≡ base + bytes * k = omega arith in
    let behind : leb base (base + bytes * k) ≡ true = ground arith in
    let apart : base + bytes * k - base ≡ bytes * k = omega arith in
    rw (inside, behind, apart, mul-div_cancel_left k some_bytes) refl

-- The level of a group comes back from its address, for a physical and for a virtual node, where a group
-- has some bytes and the arrays of groups end below 2^64.
pub get_lvl_group-get_group_lvl :
    (arrays : Arrays) (process : ProcessGroup) (lvl nu : ℕ)
    → 0 < arrays.group_bytes
    → arrays.phy_group_struct + arrays.group_bytes * (nu * group_lvl_num + lvl) < word_mod
    → process.group (process.node nu) + arrays.group_bytes * lvl < word_mod
    → (get_lvl_group arrays (get_group_lvl arrays lvl nu) nu ≡ lvl)
      × (get_lvl_vgroup arrays process (get_vgroup_lvl arrays process lvl nu) nu ≡ lvl)
unfolding get_group_lvl get_lvl_group get_lvl_vgroup get_vgroup_lvl
get_lvl_group-get_group_lvl arrays process lvl nu some_bytes fits fits' =
    let place = nu * group_lvl_num + lvl in
    let at_least = mul-le-mul_right {m = 1} {n = arrays.group_bytes} place some_bytes in
    let small : place < word_mod = omega (arith, at_least) in
    (
      rw
          (elements_from-element arrays.group_bytes arrays.phy_group_struct
            (nu * group_lvl_num + lvl) some_bytes fits)
          (omega (arith, small)),
      elements_from-element arrays.group_bytes (process.group (process.node nu)) lvl some_bytes
          fits',
    )
