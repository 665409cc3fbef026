-- ===== src/Node/Post.antt =====
-- `postprocess_node_struct` of source/tensor.c: the parameters of a request that its item keeps. All names
-- for the last three words of an item stand in nested unions, so each of them is the first word.
use new_explorer_aios.Prelude.{ℕ, ◌≡◌, Bool, bit_and, bit_or, arith, ◌==◌, if◌then◌else◌}
use new_explorer_aios.Bits.Word.{◌<<<◌, add64}
use new_explorer_aios.Struct.Item.{ItemStruct}
use new_explorer_aios.Struct.Node.{InParas}

-- The places of `enum assets_dim_type` that have a case.
abbrev pub dim_time : ℕ
dim_time = 0

abbrev pub dim_memory : ℕ
dim_memory = 1

-- An assignment to one of the names of the first word.
abbrev pub put : ItemStruct → ℕ → ItemStruct
put item value = record item { word2_0 = value }

unfoldable pub postprocess_node_struct : (dim_type : ℕ) → InParas → Bool → ItemStruct → ItemStruct
postprocess_node_struct dim_type paras is_virtual item =
    let map_right = bit_or (bit_and paras.word0 0xffff <<< 16) (bit_and paras.word1 0xffff) in
    let mapped = put (put item map_right) paras.word2 in
    if is_virtual
    then if dim_type == dim_time
      then put (put (put item paras.word2) paras.word1) paras.word0
      else if dim_type == dim_memory
      then put mapped (add64 mapped.word2_0 1)
      else item
    else if dim_type == dim_time
    then put (put (put (put item paras.word1) paras.word0) paras.word2) paras.word1
    else item

-- Two blocks of parameters leave the same item where they agree in one word: for a physical item that of
-- `max_prior`, for a virtual item of time that of `sporadic_period`, for any other virtual item that of
-- `ownership`. The other parameters, such as the deadline, the delay and the mapping rights, have
-- no effect.
pub postprocess_node_struct-agree :
    (dim_type : ℕ) (paras paras' : InParas) (is_virtual : Bool) (item : ItemStruct)
    → (if is_virtual
        then if dim_type == dim_time then paras.word0 else paras.word2
        else paras.word1)
      ≡ (if is_virtual
          then if dim_type == dim_time then paras'.word0 else paras'.word2
          else paras'.word1)
    → postprocess_node_struct dim_type paras is_virtual item
      ≡ postprocess_node_struct dim_type paras' is_virtual item
unfolding postprocess_node_struct
postprocess_node_struct-agree dim_type paras paras' is_virtual item same = ground arith
