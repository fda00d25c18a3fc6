-- ===== src/Calendar/Format.antt =====
-- How crates/rdt-types/src/timeutil.rs prints a timestamp and an uptime.
use remote_desktop_tool.Prelude.{
  ℕ, ◌-◌, ◌/◌, ◌%◌, List, [], ◌∷◌, ◌++◌, ltb, if◌then◌else◌, length, replicate,
}
use remote_desktop_tool.Text.{decimal}
use remote_desktop_tool.Calendar.{Date, civil_from_days}

-- `{n:0width}` of the standard library's `format!`.
abbrev pub padded : ℕ → ℕ → List ℕ
padded width n = replicate (width - length (decimal n)) b'0' ++ decimal n

abbrev pub date_text : Date → List ℕ
date_text d = padded 4 d.year ++ (b'-' ∷ padded 2 d.month) ++ (b'-' ∷ padded 2 d.day)

unfoldable pub format_rfc3339 : ℕ → List ℕ
format_rfc3339 millis =
    let date = civil_from_days (millis / 86400000) in
    let remainder = millis % 86400000 in
    let hour = remainder / 3600000 in
    let minute = remainder % 3600000 / 60000 in
    let second = remainder % 60000 / 1000 in
    let milli = remainder % 1000 in
    date_text date
    ++ (b'T' ∷ padded 2 hour)
    ++ (b':' ∷ padded 2 minute)
    ++ (b':' ∷ padded 2 second)
    ++ (b'.' ∷ padded 3 milli)
    ++ (b'Z' ∷ [])

unfoldable pub format_uptime : ℕ → List ℕ
format_uptime total_seconds =
    let days = total_seconds / 86400 in
    let hours = total_seconds % 86400 / 3600 in
    let minutes = total_seconds % 3600 / 60 in
    let seconds = total_seconds % 60 in
    let clock = padded 2 hours ++ (b':' ∷ padded 2 minutes) ++ (b':' ∷ padded 2 seconds) in
    if ltb 0 days then decimal days ++ (b'd' ∷ b' ' ∷ clock) else clock
