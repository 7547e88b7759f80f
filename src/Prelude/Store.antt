-- ===== src/Prelude/Store.antt =====
-- A store of objects is a function of the address.
use Prim.Native.Nat.{ℕ}
use lona_mvm.Prelude.Tests.{◌==◌, if◌then◌else◌}

abbrev pub update {ℓ} : {A : Type ℓ} → (ℕ → A) → ℕ → A → ℕ → A
update f p v q = if p == q then v else f q
