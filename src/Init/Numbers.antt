-- ===== src/Init/Numbers.antt =====
-- The numbers of nodes.
use new_explorer_aios.Prelude.{
  ℕ, ◌+◌, ◌*◌, ◌/◌, ◌%◌, ◌^◌, ◌≤◌, ◌<◌, ◌≡◌, ◌≢◌, ◌∙◌, arith, refl, zero, suc,
}
use new_explorer_aios.Bits.Digit.{or-IsDigitwise}
use new_explorer_aios.Bits.Split.{split_at, zero-or, or-zero}
use new_explorer_aios.Bits.Word.{shl_lem}
use new_explorer_aios.Struct.Sizes
use new_explorer_aios.Struct.Node.{GroupAttr}
use new_explorer_aios.Convert.{idx_to_rel_idx, rel_idx_loop}
use new_explorer_aios.Init.{init_node_id}

init_node_id_lem : (i j : ℕ) → i < 16 → j < 16 → init_node_id i j ≡ i * 65536 + j
unfolding init_node_id
init_node_id_lem i j hi hj = rw (shl_lem i 16 (omega arith)) (
    split_at or-IsDigitwise 16 0 i j 0 {a = j} {b = i * 2 ^ 16} (omega arith) (omega arith)
      (omega arith) (omega arith)
    ∙ rw (zero-or i, or-zero j) (omega arith))

-- `init_node` numbers the nodes of the 16 dimensions below the number of nodes, and the dimension
-- and the node can be read off the number.
pub init_node_id-range :
    (i j : ℕ)
    → i < 16
    → j < 16
    → (init_node_id i j < Sizes.pnode_num)
      × (init_node_id i j / 65536 ≡ i)
      × (init_node_id i j % 65536 ≡ j)
init_node_id-range i j hi hj =
    rw (init_node_id_lem i j hi hj) (omega arith, omega arith, omega arith)

-- The search looks at the nodes from `i` on, as many as it has rounds.
rel_idx_loop-same :
    (attr attr' : ℕ → GroupAttr) (rounds idx i : ℕ)
    → ((n : ℕ) → i ≤ n → n < i + rounds → attr n ≡ attr' n)
    → rel_idx_loop rounds attr idx i ≡ rel_idx_loop rounds attr' idx i
unfolding rel_idx_loop
rel_idx_loop-same attr attr' zero idx i same = refl
rel_idx_loop-same attr attr' (suc rounds) idx i same =
    rw
      (
        same i (omega arith) (omega arith),
        rel_idx_loop-same attr attr' rounds idx (i + 1)
            (λ n low high. same n (omega arith) (omega arith)),
      )
      refl

-- Beyond dimension 0, `idx_to_rel_idx` gives the same for any two settings of the attributes that differ
-- only in the nodes that `init_node` numbers for that dimension: it looks at none of them.
pub idx_to_rel_idx-init_node_id :
    (attr attr' : ℕ → GroupAttr) (idx i : ℕ)
    → 1 ≤ i
    → i < 16
    → ((n : ℕ) → ((j : ℕ) → j < 16 → n ≢ init_node_id i j) → attr n ≡ attr' n)
    → idx_to_rel_idx attr idx i ≡ idx_to_rel_idx attr' idx i
unfolding idx_to_rel_idx
idx_to_rel_idx-init_node_id attr attr' idx i pos small others =
    rel_idx_loop-same attr attr' Sizes.node_lvl_num idx (i * Sizes.node_lvl_num)
      (λ n low high. others n (λ j hj e. omega (arith, e, init_node_id_lem i j small hj)))
