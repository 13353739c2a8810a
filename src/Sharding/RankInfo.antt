-- ===== src/Sharding/RankInfo.antt =====
-- awex/sharding/rank_info.py: `RankInfo`.
use awex.Prelude.{ℕ, String, Bool}

pub record RankInfo : Type 0 where
  pub tp_rank : ℕ
  pub tp_size : ℕ
  pub pp_rank : ℕ
  pub pp_size : ℕ
  pub dp_size : ℕ
  pub dp_rank : ℕ
  pub ep_rank : ℕ
  pub ep_size : ℕ
  pub ep_tp_rank : ℕ
  pub ep_tp_size : ℕ
  pub attn_tp_rank : ℕ
  pub attn_tp_size : ℕ
  pub attn_dp_rank : ℕ
  pub world_size : ℕ
  pub global_rank : ℕ
  pub local_rank : ℕ
  pub engine_rank : ℕ
  pub is_infer : Bool
  pub cp_rank : ℕ
  pub cp_size : ℕ
  pub cp_mode : String
