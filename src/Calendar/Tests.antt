-- ===== src/Calendar/Tests.antt =====
-- The calendar and the printed timestamps at concrete days.
use remote_desktop_tool.Prelude.{ℕ, ◌+◌, ◌≡◌, refl, List, [], ◌∷◌}
use remote_desktop_tool.Text.{digits}
use remote_desktop_tool.Calendar.{civil_from_days}
use remote_desktop_tool.Calendar.Laws.{tomorrow, civil_from_days-tomorrow}
use remote_desktop_tool.Calendar.Format.{format_rfc3339, format_uptime}

-- The day after 2024-02-28.
leap_day : civil_from_days 19782 ≡ record { year = 2024; month = 2; day = 29 }
unfolding civil_from_days
leap_day = refl

no_leap_day : civil_from_days 47541 ≡ record { year = 2100; month = 3; day = 1 }
unfolding civil_from_days
no_leap_day = refl

civil_from_days-tomorrow_example :
    (civil_from_days (19782 + 1) ≡ tomorrow (civil_from_days 19782))
    × (civil_from_days 0 ≡ record { year = 1970; month = 1; day = 1 })
civil_from_days-tomorrow_example = civil_from_days-tomorrow 19782

-- "2024-02-29T23:59:59.500Z".
abbrev before_midnight : List ℕ
before_midnight =
    b'2' ∷ b'0' ∷ b'2' ∷ b'4' ∷ b'-' ∷ b'0' ∷ b'2' ∷ b'-' ∷ b'2' ∷ b'9' ∷ b'T' ∷ b'2' ∷ b'3' ∷ b':'
    ∷ b'5' ∷ b'9' ∷ b':' ∷ b'5' ∷ b'9' ∷ b'.' ∷ b'5' ∷ b'0' ∷ b'0' ∷ b'Z' ∷ []

prints_timestamp : format_rfc3339 1709251199500 ≡ before_midnight
unfolding format_rfc3339 civil_from_days digits
prints_timestamp = refl

-- "1d 02:03:04".
prints_uptime :
    format_uptime 93784
    ≡ b'1' ∷ b'd' ∷ b' ' ∷ b'0' ∷ b'2' ∷ b':' ∷ b'0' ∷ b'3' ∷ b':' ∷ b'0' ∷ b'4' ∷ []
unfolding format_uptime digits
prints_uptime = refl
