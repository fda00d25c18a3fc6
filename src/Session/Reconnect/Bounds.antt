-- ===== src/Session/Reconnect/Bounds.antt =====
-- The delays that a validated policy gives.
use remote_desktop_tool.Prelude.{
  ℕ, zero, suc, ◌*◌, ◌/◌, ◌%◌, ◌^◌, ◌≤◌, ◌<◌, ◌≡◌, ◌⊎◌, arith, true, some, refl, false, min, ◌-◌,
  not, ◌||◌, ◌&&◌, ltb, ◌==◌,
}
use remote_desktop_tool.Session.Reconnect.{
  ReconnectPolicy, base_delay, with_jitter, delay_for, validate,
}

le_mul : (a k : ℕ) → 1 ≤ k → a ≤ a * k
le_mul a zero h = absurd (omega arith)
le_mul a (suc k) h = omega arith

mul_three : (q m : ℕ) → m ≤ 3 → q * m ≤ q * 3
mul_three q zero h = omega arith
mul_three q (suc zero) h = omega arith
mul_three q (suc (suc zero)) h = omega arith
mul_three q (suc (suc (suc zero))) h = omega arith
mul_three q (suc (suc (suc (suc m)))) h = absurd (omega arith)

power_pos : (n : ℕ) → 1 ≤ 2 ^ n
power_pos zero = omega arith
power_pos (suc n) = omega (arith, power_pos n)

base_delay-bounds :
    (p : ReconnectPolicy) (attempt : ℕ)
    → p.initial_backoff_secs ≤ p.max_backoff_secs
    → p.max_backoff_secs < 2 ^ 63
    → (p.initial_backoff_secs ≤ base_delay p attempt) × (base_delay p attempt ≤ p.max_backoff_secs)
base_delay-bounds p attempt h small =
    let grows = le_mul p.initial_backoff_secs _ (power_pos (min (attempt - 1) 6)) in
    (omega (arith, grows), omega arith)

with_jitter-bounds :
    (p : ReconnectPolicy) (attempt base : ℕ)
    → base ≤ p.max_backoff_secs
    → p.max_backoff_secs < 2 ^ 63
    → (base ≤ with_jitter p attempt base) × (with_jitter p attempt base ≤ p.max_backoff_secs)
with_jitter-bounds p attempt base h small =
    let part = mul_three (base / 4) (attempt % 4) (omega arith) in
    (omega (arith, part), omega (arith, part))

-- With an accepted and enabled policy whose longest delay is below 2^63 seconds, every attempt from
-- the first to the last that the policy allows is given a delay, between the initial delay and the
-- longest one.
pub delay_for-bounds :
    (p : ReconnectPolicy) (attempt : ℕ)
    → validate p ≡ true
    → p.max_backoff_secs < 2 ^ 63
    → p.enabled ≡ true
    → 1 ≤ attempt
    → (p.max_attempts ≡ 0) ⊎ (attempt ≤ p.max_attempts)
    → (d : ℕ) × (delay_for p attempt ≡ some d)
      × (p.initial_backoff_secs ≤ d)
      × (d ≤ p.max_backoff_secs)
unfolding delay_for validate
delay_for-bounds p attempt ok small on first allowed =
    let some_try : (not p.enabled || attempt == 0) ≡ false = rw on (ground arith) in
    let within_last : (ltb 0 p.max_attempts && ltb p.max_attempts attempt) ≡ false = ground arith in
    let base = base_delay-bounds p attempt (ground arith) small in
    let d = with_jitter-bounds p attempt (base_delay p attempt) base.1 small in
    (
      with_jitter p attempt (base_delay p attempt),
      rw (some_try, within_last) refl,
      omega (arith, base.0, d.0),
      d.1,
    )
