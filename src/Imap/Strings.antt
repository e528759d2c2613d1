-- ===== src/Imap/Strings.antt =====
-- `parse_string`, `parse_atom`, `quote_string` and the lists of flags of imap/src/imap_parser.cpp. A
-- position in a text is what is left of the text from there on.
use email_server.Base.{
  ℕ, Bool, false, not, ◌&&◌, ◌||◌, List, [], ◌∷◌, ◌++◌, Option, none, some, ltb, ◌==◌,
  if◌then◌else◌, is_empty,
}
use email_server.Text.Sets.{text_less, insert}
use email_server.Text.Stream.{take_while, drop_while, skip_ws, words}
use email_server.Text.{Text, is_space, ends_with_byte, pop_back}

-- `iscntrl` in the C locale.
unfoldable pub is_cntrl : ℕ → Bool
is_cntrl c = ltb c 32 || c == 127

-- `IMAPParser::is_atom_char`.
unfoldable pub is_atom_char : ℕ → Bool
unfolding is_cntrl is_space
is_atom_char c =
    if is_space c || is_cntrl c
    then false
    else if c == b'(' || c == b')' || c == b'{'
    then false
    else if c == b'"' || c == b'\\'
    then false
    else if c == b'%' || c == b'*'
    then false
    else not (c == b'[' || c == b']')

-- `IMAPParser::parse_atom` behind white space.
unfoldable pub atom_from : Text → Option Text × Text
atom_from s =
    let atom = take_while is_atom_char s in
    (if is_empty atom then none else some atom, drop_while is_atom_char s)

unfoldable pub parse_atom : Text → Option Text × Text
unfolding atom_from
parse_atom s = atom_from (skip_ws s)

-- The loop over a quoted string, behind the opening quote: a backslash takes the next byte as it
-- is, except at the very end.
unfoldable pub quoted : Text → Text × Text
quoted [] = ([], [])
quoted (c ∷ []) = if c == b'"' then ([], []) else (c ∷ [], [])
quoted (c ∷ d ∷ s) =
    let (escaped, behind) = quoted s in
    let (text, rest) = quoted (d ∷ s) in
    if c == b'"'
    then ([], d ∷ s)
    else if c == b'\\'
    then (d ∷ escaped, behind)
    else (c ∷ text, rest)

-- `IMAPParser::parse_string` behind white space.
unfoldable pub string_from : Text → Option Text × Text
unfolding quoted atom_from
string_from [] = (none, [])
string_from (c ∷ s) =
    let (text, rest) = quoted s in
    if c == b'"' then (some text, rest) else if c == b'{' then (none, c ∷ s) else atom_from (c ∷ s)

unfoldable pub parse_string : Text → Option Text × Text
unfolding string_from
parse_string s = string_from (skip_ws s)

-- The test of `quote_string`: whether a byte is no part of an atom.
unfoldable pub needs_quotes : Text → Bool
needs_quotes [] = false
needs_quotes (c ∷ s) = not (is_atom_char c) || needs_quotes s

-- The bytes between the quotes.
unfoldable pub escape : Text → Text
escape [] = []
escape (c ∷ s) = if c == b'"' || c == b'\\' then b'\\' ∷ c ∷ escape s else c ∷ escape s

-- `IMAPParser::quote_string`.
unfoldable pub quote_string : Text → Text
unfolding needs_quotes escape
quote_string s =
    if not (needs_quotes s) && not (is_empty s) then s else b'"' ∷ (escape s ++ b'"' ∷ [])

-- `IMAPParser::format_flags`: the flags with a space in front of all but the first.
unfoldable pub spaced : List Text → Text
spaced [] = []
spaced (flag ∷ flags) = b' ' ∷ (flag ++ spaced flags)

unfoldable pub separated : List Text → Text
unfolding spaced
separated [] = []
separated (flag ∷ flags) = flag ++ spaced flags

unfoldable pub format_flags : List Text → Text
unfolding separated
format_flags flags = b'(' ∷ (separated flags ++ b')' ∷ [])

-- The parenthesis in front, and then the one at the end, are taken off.
unfoldable pub without_parentheses : Text → Text
without_parentheses [] = []
without_parentheses (c ∷ s) =
    if c == b'(' then (if ends_with_byte b')' s then pop_back s else s) else c ∷ s

-- The words of a text as a set.
unfoldable pub collect : List Text → List Text → List Text
collect [] flags = flags
collect (flag ∷ rest) flags = collect rest (insert text_less flag flags)

-- `IMAPParser::parse_flag_list`.
unfoldable pub parse_flag_list : Text → List Text
unfolding without_parentheses collect
parse_flag_list s = collect (words (without_parentheses s)) []
