-- ===== src/Struct/Node.antt =====
-- `struct group_attr`, `struct slice_struct` and `struct alloc_para` of source/tensor_struct.h.
use new_explorer_aios.Prelude.{ℕ, Bool}

pub record GroupAttr : Type 0 where
  pub dim : ℕ
  pub offset : ℕ
  pub size : ℕ
  pub status : ℕ
  pub nr_freeitems : ℕ

-- `struct slice_struct`, by the addresses of the heads of its three lists and by their counts.
pub record SliceStruct : Type 0 where
  pub free_list : ℕ
  pub free_count : ℕ
  pub full_list : ℕ
  pub full_count : ℕ
  pub empty_list : ℕ
  pub empty_count : ℕ
  pub bsize : ℕ
  pub threshold_freeitems : ℕ

-- `struct alloc_para`.
pub record AllocPara : Type 0 where
  pub is_combined : Bool
  pub is_virtual : Bool
  pub is_stream : Bool
  pub is_entry : Bool
  pub max_prior : ℕ
  pub affinity : ℕ

-- `struct in_paras`: four words, which its unions give several names. `word0` is `sporadic_period`,
-- `switch_time`, `base_prior` and `map_prot`; `word1` is `delay_time`, `arrive_time`, `max_prior` and
-- `memory_attr`; `word2` is `deadline_time`, `yield_time`, `affinity` and `ownership`.
pub record InParas : Type 0 where
  pub word0 : ℕ
  pub word1 : ℕ
  pub word2 : ℕ
  pub word3 : ℕ
