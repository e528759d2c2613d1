-- ===== src/Imap/Sequence.antt =====
-- `SequenceSet` of imap/src/imap_parser.cpp. A number is an `uint32_t`: what `std::stoul` reads is
-- cut to 32 bits, and `none` is its exception.
pub mod Bounds
pub mod Print
use email_server.Base.{
  ℕ, suc, ◌+◌, ◌-◌, ◌%◌, ◌^◌, Bool, true, false, not, ◌&&◌, ◌||◌, List, [], ◌∷◌, Option, none, some,
  ltb, leb, ◌==◌, if◌then◌else◌, is_empty, take, drop,
}
use email_server.Text.Stream.{stoul, cons_head}
use email_server.Text.{Text, codes, text_eq, find_char, find_if}

-- An `end` of 0 stands for "*".
pub record Range : Type 0 where
  pub start : ℕ
  pub end : ℕ

abbrev pub u32_max : ℕ
u32_max = 4294967295

-- The end of a range as a number.
abbrev pub last_of : Range → ℕ
last_of r = if r.end == 0 then u32_max else r.end

-- `SequenceSet::contains`.
unfoldable pub contains : List Range → ℕ → Bool
contains [] num = false
contains (r ∷ rs) num = (leb r.start num && leb num (last_of r)) || contains rs num

-- A number or "*", which is the value at hand.
unfoldable pub number_or : ℕ → Text → Option ℕ
number_or star s =
    if text_eq s (b'*' ∷ [])
    then some star
    else elim (stoul s) [ none ↦ none | some n ↦ some (n % 2 ^ 32) ]

-- "start should be <= end"
unfoldable pub normalize : ℕ → ℕ → Range
normalize start end =
    if not (end == 0) && ltb end start
    then record { start = end; end = start }
    else record { start = start; end = end }

-- One side of a colon, then the other: the first that throws ends it.
unfoldable pub range_from : Option ℕ → Option ℕ → Option Range
unfolding normalize
range_from (some start) (some end) = some (normalize start end)
range_from _ _ = none

-- A range without a colon.
unfoldable pub single : Text → Option Range
single token =
    if text_eq token (b'*' ∷ [])
    then some (record { start = u32_max; end = 0 })
    else elim (stoul token) [
      | none ↦ none
      | some n ↦ some (record { start = n % 2 ^ 32; end = n % 2 ^ 32 })
    ]

unfoldable pub parse_range : Text → Option Range
unfolding number_or range_from single find_if
parse_range token = elim (find_char b':' token) [
  | none ↦ single token
  | some colon ↦
      range_from (number_or u32_max (take colon token)) (number_or 0 (drop (suc colon) token))
]

-- `while (std::getline(iss, token, ','))`: no token follows a comma at the end.
unfoldable pub tokens : Text → List Text
unfolding cons_head
tokens [] = []
tokens (c ∷ s) = if c == b',' then [] ∷ tokens s else cons_head c (tokens s)

-- A range in front of the others, where neither threw.
unfoldable pub cons_range : Option Range → Option (List Range) → Option (List Range)
cons_range (some r) (some rs) = some (r ∷ rs)
cons_range _ _ = none

unfoldable pub ranges : List Text → Option (List Range)
unfolding parse_range cons_range
ranges [] = some []
ranges (token ∷ rest) = cons_range (parse_range token) (ranges rest)

-- `SequenceSet::parse`.
unfoldable pub parse : Text → Option (List Range)
unfolding tokens ranges
parse s = ranges (tokens s)
