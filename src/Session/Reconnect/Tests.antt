-- ===== src/Session/Reconnect/Tests.antt =====
-- The delays of the default policy.
use remote_desktop_tool.Prelude.{ℕ, ◌≡◌, ◌≤◌, refl, some, none, inr, arith}
use remote_desktop_tool.Session.Reconnect.{default, delay_for, validate}
use remote_desktop_tool.Session.Reconnect.Bounds.{delay_for-bounds}

-- Three quarters of the base delay of 8 seconds are added.
third_delay : delay_for default 3 ≡ some 14
unfolding delay_for
third_delay = refl

last_delay : delay_for default 6 ≡ none
unfolding delay_for
last_delay = refl

delay_for-bounds_example : (d : ℕ) × (delay_for default 3 ≡ some d) × (2 ≤ d) × (d ≤ 60)
unfolding validate
delay_for-bounds_example =
    delay_for-bounds default 3 refl (omega arith) refl (omega arith) (inr (omega arith))
