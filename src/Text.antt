-- ===== src/Text.antt =====
-- What the program uses of the standard library's strings. A string is the list of its characters.
pub mod Numbers
pub mod Splits
pub mod Trims
pub mod Words
use remote_desktop_tool.Prelude.{
  ℕ, zero, suc, ◌+◌, ◌-◌, ◌*◌, ◌/◌, ◌%◌, Bool, true, false, ◌&&◌, ◌||◌, List, [], ◌∷◌, ◌++◌, Option,
  none, some, ◌>>=◌, ◌==◌, ltb, within, if◌then◌else◌, map, drop, length,
}

-- `==` on strings.
abbrev pub same_text : List ℕ → List ℕ → Bool
same_text [] [] = true
same_text (a ∷ s) (b ∷ t) = a == b && same_text s t
same_text _ _ = false

-- `str::is_empty`.
abbrev pub is_nil : List ℕ → Bool
is_nil [] = true
is_nil (c ∷ s) = false

-- `str::contains` of a character.
abbrev pub has_char : ℕ → List ℕ → Bool
has_char c [] = false
has_char c (d ∷ s) = d == c || has_char c s

-- `str::strip_prefix` of a character.
abbrev pub strip_char : ℕ → List ℕ → Option (List ℕ)
strip_char c [] = none
strip_char c (d ∷ s) = if d == c then some s else none

-- `str::split_once` of a character: around its first occurrence.
unfoldable pub split_once : ℕ → List ℕ → Option (List ℕ × List ℕ)
split_once c [] = none
split_once c (d ∷ s) =
    let rest = split_once c s in if d == c then some ([], s) else rest >>= λ r. some (d ∷ r.0, r.1)

-- The split of `d ∷ s` after that of `s`.
abbrev pub rsplit_next : ℕ → ℕ → List ℕ → Option (List ℕ × List ℕ) → Option (List ℕ × List ℕ)
rsplit_next c d s none = if d == c then some ([], s) else none
rsplit_next c d s (some (before, after)) = some (d ∷ before, after)

-- `str::rsplit_once` of a character: around its last occurrence.
unfoldable pub rsplit_once : ℕ → List ℕ → Option (List ℕ × List ℕ)
rsplit_once c [] = none
rsplit_once c (d ∷ s) = rsplit_next c d s (rsplit_once c s)

-- `Display` of an unsigned number, on fuel: twenty digits are enough for a `u64`.
unfoldable pub digits : ℕ → ℕ → List ℕ
digits zero n = []
digits (suc f) n =
    let front = digits f (n / 10) in
    if ltb n 10 then (b'0' + n) ∷ [] else front ++ ((b'0' + n % 10) ∷ [])

abbrev pub decimal : ℕ → List ℕ
decimal n = digits 20 n

-- One digit of a checked number: `none` is an error.
abbrev pub push_digit : ℕ → ℕ → ℕ → Option ℕ
push_digit top n c =
    if within b'0' b'9' c && ltb (n * 10 + (c - b'0')) (top + 1)
    then some (n * 10 + (c - b'0'))
    else none

unfoldable pub read_digits : ℕ → ℕ → List ℕ → Option ℕ
read_digits top n [] = some n
read_digits top n (c ∷ s) = push_digit top n c >>= λ m. read_digits top m s

-- `str::parse` of an unsigned type whose largest number is `top`: a `+` may stand in front.
unfoldable pub parse_unsigned : ℕ → List ℕ → Option ℕ
parse_unsigned top [] = none
parse_unsigned top (c ∷ []) = read_digits top 0 (c ∷ [])
parse_unsigned top (c ∷ d ∷ s) =
    if c == b'+' then read_digits top 0 (d ∷ s) else read_digits top 0 (c ∷ d ∷ s)

abbrev pub parse_u16 : List ℕ → Option ℕ
parse_u16 s = parse_unsigned 65535 s

-- `str::to_ascii_lowercase`.
abbrev pub lower_ascii : List ℕ → List ℕ
lower_ascii s = map (λ c. if within b'A' b'Z' c then c + 32 else c) s

abbrev pub starts_with : List ℕ → List ℕ → Bool
starts_with [] t = true
starts_with (c ∷ s) [] = false
starts_with (c ∷ s) (d ∷ t) = c == d && starts_with s t

-- `str::contains` of a string: whether `needle` stands somewhere in the text.
abbrev pub contains : List ℕ → List ℕ → Bool
contains needle [] = starts_with needle []
contains needle (c ∷ s) = starts_with needle (c ∷ s) || contains needle s

-- The first piece grows by a character in front.
abbrev pub prepend_head : ℕ → List (List ℕ) → List (List ℕ)
prepend_head c [] = (c ∷ []) ∷ []
prepend_head c (w ∷ ws) = (c ∷ w) ∷ ws

-- `str::split` of a character, collected.
unfoldable pub split_all : ℕ → List ℕ → List (List ℕ)
split_all c [] = [] ∷ []
split_all c (d ∷ s) = let rest = split_all c s in if d == c then [] ∷ rest else prepend_head d rest

-- `join` with a character between the pieces.
abbrev pub join : ℕ → List (List ℕ) → List ℕ
join c [] = []
join c (w ∷ []) = w
join c (w ∷ v ∷ ws) = w ++ (c ∷ join c (v ∷ ws))

-- `str::lines`: a line ends with a line feed, or a carriage return and a line feed.
unfoldable pub lines : List ℕ → List (List ℕ)
lines [] = []
lines (c ∷ s) =
    let rest = lines s in
    if c == b'\n'
    then [] ∷ rest
    else if c == b'\r' && starts_with (b'\n' ∷ []) s
    then rest
    else prepend_head c rest

-- `str::replace` of a text that is not empty, from left to right, on fuel: a round for each character
-- is enough.
unfoldable pub replace_from : ℕ → List ℕ → List ℕ → List ℕ → List ℕ
replace_from zero needle new s = s
replace_from (suc f) needle new [] = []
replace_from (suc f) needle new (c ∷ s) =
    let found = replace_from f needle new (drop (length needle) (c ∷ s)) in
    let onward = replace_from f needle new s in
    if starts_with needle (c ∷ s) then new ++ found else c ∷ onward

abbrev pub replace : List ℕ → List ℕ → List ℕ → List ℕ
replace needle new s = replace_from (length s) needle new s

-- `white` is `char::is_whitespace`.
module _ (white : ℕ → Bool) where
  abbrev pub trim_start : List ℕ → List ℕ
  trim_start [] = []
  trim_start (c ∷ s) = let rest = trim_start s in if white c then rest else c ∷ s

  -- The end of `c ∷ s`, after that of `s`.
  abbrev pub trim_next : ℕ → List ℕ → List ℕ
  trim_next c [] = if white c then [] else c ∷ []
  trim_next c (d ∷ s) = c ∷ d ∷ s

  abbrev pub trim_end : List ℕ → List ℕ
  trim_end [] = []
  trim_end (c ∷ s) = trim_next c (trim_end s)

  -- `str::trim`.
  abbrev pub trim : List ℕ → List ℕ
  trim s = trim_end (trim_start s)

  -- The end of the text, or white space at its start.
  abbrev pub starts_white : List ℕ → Bool
  starts_white [] = true
  starts_white (c ∷ s) = white c

  -- `str::split_whitespace`.
  unfoldable pub words : List ℕ → List (List ℕ)
  words [] = []
  words (c ∷ s) =
      let rest = words s in
      if white c then rest else if starts_white s then (c ∷ []) ∷ rest else prepend_head c rest
