-- ===== src/Common/Writes.antt =====
-- C arrays that are indexed only below their length, as functions of the index.
use Prim.Native.Nat.{ℕ}
use mathlib.Core.Path.{◌≡◌}
use mathlib.Core.Logic.{◌≢◌}
use actf.Common.Tests.{◌==◌, if◌then◌else◌}
use native.Mathlib.Omega.{arith}

module _ {ℓ} {A : Type ℓ} where
  abbrev pub write : (ℕ → A) → ℕ → A → ℕ → A
  write f i v j = if i == j then v else f j

  pub write_same : (f : ℕ → A) (i : ℕ) (v : A) → write f i v i ≡ v
  write_same f i v = ground arith

  pub write_other : (f : ℕ → A) (i j : ℕ) (v : A) → i ≢ j → write f i v j ≡ f j
  write_other f i j v h = ground (arith, h)
