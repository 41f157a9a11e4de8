-- ===== src/Scream/Floats.antt =====
-- What tokio_kcp/src/scream.rs uses of `f32`. The type is a parameter; nothing is assumed of it here.
use kcp_scream_testspace.Common.{ℕ, Bool}

-- `lit n d` is the constant n / d, `of_u32` is `as f32`, `secs` is `Duration::as_secs_f32` on a
-- duration in nanoseconds. `nanos` is `Duration::from_secs_f32`, and `to_int` rounds towards 0 as
-- `as` does, where what is negative or no number is 0.
pub record Float (F : Type 0) : Type 0 where
  pub lit : ℕ → ℕ → F
  pub of_u32 : ℕ → F
  pub secs : ℕ → F
  pub add : F → F → F
  pub sub : F → F → F
  pub mul : F → F → F
  pub div : F → F → F
  pub fmax : F → F → F
  pub fmin : F → F → F
  pub abs : F → F
  pub powi : F → ℕ → F
  pub clamp : F → F → F → F
  pub gt : F → F → Bool
  pub le : F → F → Bool
  pub nanos : F → ℕ
  pub to_int : F → ℕ
