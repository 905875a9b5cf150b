-- ===== src/Pipeline/Retry/Backoff.antt =====
-- The values of the backoff.
use Prim.Native.Nat.{min}
use halley.Common.{ℕ, zero, suc, ◌*◌, ◌^◌, ◌≤◌, ◌≡◌, arith}
use halley.Pipeline.Retry.{transient_backoff_ms}

pow_bounds : (m : ℕ) → m ≤ 7 → (1 ≤ 2 ^ m) × (2 ^ m ≤ 128)
pow_bounds zero h = omega arith
pow_bounds (suc zero) h = omega arith
pow_bounds (suc (suc zero)) h = omega arith
pow_bounds (suc (suc (suc zero))) h = omega arith
pow_bounds (suc (suc (suc (suc zero)))) h = omega arith
pow_bounds (suc (suc (suc (suc (suc zero))))) h = omega arith
pow_bounds (suc (suc (suc (suc (suc (suc zero)))))) h = omega arith
pow_bounds (suc (suc (suc (suc (suc (suc (suc zero))))))) h = omega arith
pow_bounds (suc (suc (suc (suc (suc (suc (suc (suc m)))))))) h = absurd (omega arith)

-- The backoff is 200 ms doubled for each attempt up to the seventh, never above 25 600 ms: neither
-- the saturation of the product nor the cap of 30 000 ms is ever reached.
pub transient_backoff_ms_lem :
    (attempt : ℕ)
    → (transient_backoff_ms attempt ≡ 200 * 2 ^ min attempt 7)
      × (200 ≤ transient_backoff_ms attempt)
      × (transient_backoff_ms attempt ≤ 25600)
unfolding transient_backoff_ms
transient_backoff_ms_lem attempt =
    let bounds = pow_bounds (min attempt 7) (omega arith) in omega arith
