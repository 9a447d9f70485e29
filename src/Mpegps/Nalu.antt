-- ===== src/Mpegps/Nalu.antt =====
-- What gb28181/mpegps uses of lal's packages avc and hevc: the NALU type in a first byte, and the
-- types' constants. They are a parameter of the model.
use lalmax.Base.{ℕ}

pub record NaluTypes : Type 0 where
  pub parse_avc : ℕ → ℕ
  pub avc_slice : ℕ
  pub avc_idr_slice : ℕ
  pub avc_aud : ℕ
  pub parse_hevc : ℕ → ℕ
  pub hevc_slice_trail_n : ℕ
  pub hevc_slice_rasl_r : ℕ
  pub hevc_slice_bla_wlp : ℕ
  pub hevc_slice_rsv_irap_vcl23 : ℕ
  pub hevc_aud : ℕ
