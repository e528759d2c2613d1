-- ===== src/Text.antt =====
-- `std::string` as a list of bytes, with the operations that the servers call on it. A position
-- that the source compares with `npos` is an `Option`.
pub mod Numbers
pub mod Sets
pub mod Stream
pub mod Laws
pub mod Decimal
use Prim.Native.Char.{code}
use Prim.Native.String.{String}
use email_server.Base.{
  ℕ, zero, suc, ◌+◌, ◌-◌, Bool, true, false, not, ◌&&◌, ◌||◌, List, [], ◌∷◌, ◌++◌, map, Option,
  none, some, leb, ◌==◌, if◌then◌else◌, get_elem?, length, take, drop,
}

abbrev pub Text : Type 0
Text = List ℕ

-- The bytes of an ASCII literal.
unfoldable pub codes : String → Text
codes String.[] = []
codes (String.◌∷◌ c s) = code c ∷ codes s

-- `operator==`.
unfoldable pub text_eq : Text → Text → Bool
text_eq [] [] = true
text_eq [] (d ∷ t) = false
text_eq (c ∷ s) [] = false
text_eq (c ∷ s) (d ∷ t) = c == d && text_eq s t

-- `toupper` in the C locale.
unfoldable pub to_upper : ℕ → ℕ
to_upper c = if leb b'a' c && leb c b'z' then c - 32 else c

abbrev pub upper : Text → Text
upper = map to_upper

-- `isspace` in the C locale: tab, newline, vertical tab, form feed, return and space.
unfoldable pub is_space : ℕ → Bool
is_space c = c == 32 || (leb 9 c && leb c 13)

-- `find_first_of` from the start: the first place where the test holds.
unfoldable pub find_if : (ℕ → Bool) → Text → Option ℕ
find_if p [] = none
find_if p (c ∷ s) =
    if p c then some 0 else elim (find_if p s) [ none ↦ none | some i ↦ some (suc i) ]

-- `find(c, from)`; a start behind the end finds nothing.
unfoldable pub find_from : ℕ → Text → ℕ → Option ℕ
unfolding find_if
find_from c s from = elim (find_if (λ d. d == c) (drop from s)) [
  | none ↦ none
  | some i ↦ some (from + i)
]

abbrev pub find_char : ℕ → Text → Option ℕ
find_char c = find_if (λ d. d == c)

-- `find_last_of`.
unfoldable pub find_last_if : (ℕ → Bool) → Text → Option ℕ
find_last_if p [] = none
find_last_if p (c ∷ s) = elim (find_last_if p s) [
  | none ↦ if p c then some 0 else none
  | some i ↦ some (suc i)
]

unfoldable pub starts_with : Text → Text → Bool
starts_with [] s = true
starts_with (c ∷ p) [] = false
starts_with (c ∷ p) (d ∷ s) = c == d && starts_with p s

-- `find(pattern)`.
unfoldable pub find_text : Text → Text → Option ℕ
unfolding starts_with
find_text p [] = if starts_with p [] then some 0 else none
find_text p (c ∷ s) =
    if starts_with p (c ∷ s)
    then some 0
    else elim (find_text p s) [ none ↦ none | some i ↦ some (suc i) ]

-- Whether `s[i]` is the byte.
unfoldable pub byte_at_is : ℕ → Text → ℕ → Bool
byte_at_is c s i = elim (get_elem? s i) [ none ↦ false | some d ↦ d == c ]

-- `substr(pos, n)` at a position that is not behind the end.
abbrev pub substr : Text → ℕ → ℕ → Text
substr s pos n = take n (drop pos s)

-- `back()` of a text that is not empty, and whether it is the byte.
unfoldable pub ends_with_byte : ℕ → Text → Bool
ends_with_byte c [] = false
ends_with_byte c (d ∷ []) = d == c
ends_with_byte c (d ∷ e ∷ s) = ends_with_byte c (e ∷ s)

-- `pop_back()`.
unfoldable pub pop_back : Text → Text
pop_back [] = []
pop_back (c ∷ []) = []
pop_back (c ∷ d ∷ s) = c ∷ pop_back (d ∷ s)

-- `if (!line.empty() && line.back() == '\r') line.pop_back();`
unfoldable pub strip_cr : Text → Text
unfolding ends_with_byte pop_back
strip_cr s = if ends_with_byte b'\r' s then pop_back s else s

abbrev pub crlf : Text
crlf = b'\r' ∷ b'\n' ∷ []
