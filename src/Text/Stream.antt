-- ===== src/Text/Stream.antt =====
-- `std::istringstream`: `>>`, `std::ws` and `std::getline` over the bytes that are left, and
-- `std::stoul`, which skips white space as `>>` does.
use email_server.Base.{
  ℕ, Bool, true, not, ◌≡◌, refl, List, [], ◌∷◌, Option, none, some, ◌==◌, if◌then◌else◌,
}
use email_server.Text.{Text, codes, is_space}
use email_server.Text.Numbers.{signed}

unfoldable pub take_while : (ℕ → Bool) → Text → Text
take_while p [] = []
take_while p (c ∷ s) = if p c then c ∷ take_while p s else []

unfoldable pub drop_while : (ℕ → Bool) → Text → Text
drop_while p [] = []
drop_while p (c ∷ s) = if p c then drop_while p s else c ∷ s

-- `iss >> std::ws`.
abbrev pub skip_ws : Text → Text
skip_ws = drop_while is_space

-- `iss >> word`: the word, and what is left. At the end of the text the word is empty.
abbrev pub next_word : Text → Text × Text
next_word s =
    let r = skip_ws s in
    (take_while (λ c. not (is_space c)) r, drop_while (λ c. not (is_space c)) r)

-- `std::getline` once: the bytes in front of the first newline.
abbrev pub first_line : Text → Text
first_line = take_while (λ c. not (c == b'\n'))

unfoldable pub cons_head : ℕ → List Text → List Text
cons_head c [] = (c ∷ []) ∷ []
cons_head c (l ∷ ls) = (c ∷ l) ∷ ls

-- `while (std::getline(iss, line))`: no line follows a newline at the end.
unfoldable pub lines : Text → List Text
unfolding cons_head
lines [] = []
lines (c ∷ s) = if c == b'\n' then [] ∷ lines s else cons_head c (lines s)

unfoldable pub at_word_end : Text → Bool
at_word_end [] = true
at_word_end (c ∷ s) = is_space c

-- `while (iss >> word)`.
unfoldable pub words : Text → List Text
unfolding cons_head at_word_end
words [] = []
words (c ∷ s) =
    let rest = words s in
    if is_space c then rest else if at_word_end s then (c ∷ []) ∷ rest else cons_head c rest

-- `std::stoul`; `none` stands for the exception, `std::invalid_argument` or `std::out_of_range`.
unfoldable pub stoul : Text → Option ℕ
unfolding signed drop_while is_space
stoul s = signed (skip_ws s)

lines_test : lines (codes "a\n\nbc") ≡ codes "a" ∷ codes "" ∷ codes "bc" ∷ []
unfolding lines codes
lines_test = refl

words_test : words (codes " ab  c ") ≡ codes "ab" ∷ codes "c" ∷ []
unfolding words codes is_space
words_test = refl

stoul_test : (stoul (codes " 12x") ≡ some 12) × (stoul (codes "x1") ≡ none)
unfolding stoul codes
stoul_test = (refl, refl)

stoul_negative : stoul (codes "-1") ≡ some 18446744073709551615
unfolding stoul codes
stoul_negative = refl

stoul_overflow : stoul (codes "18446744073709551616") ≡ none
unfolding stoul codes
stoul_overflow = refl
