-- ===== src/Sql/Stabilization/Laws.antt =====
-- Bounds of the wait.
use postgres_mapepire_proxy.Prelude.{ℕ, zero, suc, ◌≤◌, ◌*◌, arith}
use postgres_mapepire_proxy.Sql.Stabilization.{stabilization_delay}

-- A wait takes between 50 and 800 milliseconds, and is as long as the one before or twice as long.
pub stabilization_delay_bounds :
    (attempt : ℕ)
    → (50 ≤ stabilization_delay attempt)
      × (stabilization_delay attempt ≤ 800)
      × (stabilization_delay attempt ≤ stabilization_delay (suc attempt))
      × (stabilization_delay (suc attempt) ≤ 2 * stabilization_delay attempt)
unfolding stabilization_delay
stabilization_delay_bounds zero = omega arith
stabilization_delay_bounds (suc zero) = omega arith
stabilization_delay_bounds (suc (suc zero)) = omega arith
stabilization_delay_bounds (suc (suc (suc zero))) = omega arith
stabilization_delay_bounds (suc (suc (suc (suc zero)))) = omega arith
stabilization_delay_bounds (suc (suc (suc (suc (suc n))))) = ground arith
