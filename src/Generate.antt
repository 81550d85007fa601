-- ===== src/Generate.antt =====
-- src/model/inkling_generate.c: the sampler and the loop that generates tokens. Numbers of type
-- `double` are a parameter with the operations that the source uses; a `float` is one of them.
pub mod Sample
pub mod Loop
pub mod Choice
pub mod Ranking
pub mod Kept
pub mod Vocabulary
pub mod Total
pub mod Complete
pub mod Incremental
pub mod Stop
mod Tests
use inkling_in_c.Prelude.{ℕ, Bool, ◌^◌, ◌-◌}

-- The operations on `double`. `unit w` is `(double)w * 0x1p-53`, and `largest` is DBL_MAX.
pub record Floats (F : Type 0) : Type 0 where
  pub is_finite : F → Bool
  pub less : F → F → Bool
  pub nought : F
  pub one : F
  pub largest : F
  pub negate_float : F → F
  pub add : F → F → F
  pub subtract : F → F → F
  pub multiply : F → F → F
  pub divide : F → F → F
  pub exponential : F → F
  pub unit : ℕ → F

-- `InklingGenerateOptions`
pub record Options (F : Type 0) : Type 0 where
  pub max_new_tokens : ℕ
  pub temperature : F
  pub top_k : ℕ
  pub top_p : F
  pub seed : ℕ

-- `InklingCandidate`
pub record Candidate (F : Type 0) : Type 0 where
  pub logit : F
  pub id : ℕ
  pub mass : F

abbrev pub u32_max : ℕ
u32_max = 2 ^ 32 - 1
