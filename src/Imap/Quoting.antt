-- ===== src/Imap/Quoting.antt =====
-- About strings that are quoted and read again.
use email_server.Base.{
  ℕ, ◌≡◌, ◌≢◌, refl, true, false, [], ◌∷◌, ◌++◌, some, arith, ◌==◌, append_assoc, Bool-cases, inl,
  inr, ◌||◌,
}
use email_server.Imap.Strings.{
  is_atom_char, atom_from, quoted, string_from, parse_string, needs_quotes, escape, quote_string,
}
use email_server.Text.Stream.{take_while, drop_while}
use email_server.Text.{Text, is_space}

quoted-plain :
    (c : ℕ) (s : Text)
    → (c == b'"') ≡ false
    → (c == b'\\') ≡ false
    → s ≢ []
    → quoted (c ∷ s) ≡ (c ∷ (quoted s).0, (quoted s).1)
unfolding quoted
quoted-plain c [] q b n = absurd (n refl)
quoted-plain c (d ∷ s) q b n = ground arith

append_quote : (s rest : Text) → s ++ b'"' ∷ rest ≢ []
append_quote [] rest e = cc
append_quote (c ∷ s) rest e = cc

quoted-escape : (s rest : Text) → quoted (escape s ++ b'"' ∷ rest) ≡ (s, rest)
unfolding quoted escape
quoted-escape [] [] = refl
quoted-escape [] (d ∷ rest) = refl
quoted-escape (c ∷ s) rest =
    let next = quoted-escape s rest in
    let plain = quoted-plain c (escape s ++ b'"' ∷ rest) in
    let more = append_quote (escape s) rest in
    elim (Bool-cases (c == b'"' || c == b'\\')) [
      | inl special ↦ ground (arith, next)
      | inr other ↦ ground (arith, next, plain, more)
    ]

-- What may stand behind an atom: nothing, or a byte that ends it.
abbrev pub EndsAtom : Text → Type 0
EndsAtom [] = Unit
EndsAtom (c ∷ s) = is_atom_char c ≡ false

atom-append :
    (s rest : Text)
    → needs_quotes s ≡ false
    → EndsAtom rest
    → (take_while is_atom_char (s ++ rest) ≡ s) × (drop_while is_atom_char (s ++ rest) ≡ rest)
unfolding needs_quotes take_while drop_while
atom-append [] [] h e = (refl, refl)
atom-append [] (c ∷ rest) h e = ground arith
atom-append (c ∷ s) rest h e = ground (arith, atom-append s rest)

is_space-atom :
    (c : ℕ)
    → is_atom_char c ≡ true
    → (is_space c ≡ false) × ((c == b'"') ≡ false) × ((c == b'{') ≡ false)
unfolding is_atom_char
is_space-atom c h = ground arith

parse_string-quoted :
    (s rest : Text) → parse_string (b'"' ∷ ((escape s ++ b'"' ∷ []) ++ rest)) ≡ (some s, rest)
unfolding parse_string string_from drop_while is_space
parse_string-quoted s rest =
    let regrouped : (escape s ++ b'"' ∷ []) ++ rest ≡ escape s ++ b'"' ∷ rest =
      append_assoc (escape s) (b'"' ∷ []) rest in
    rw (regrouped, quoted-escape s rest) refl

parse_string-atom :
    (c : ℕ) (s rest : Text)
    → needs_quotes (c ∷ s) ≡ false
    → EndsAtom rest
    → parse_string (c ∷ (s ++ rest)) ≡ (some (c ∷ s), rest)
unfolding parse_string string_from atom_from drop_while needs_quotes
parse_string-atom c s rest h e =
    let (front, behind) = atom-append (c ∷ s) rest h e in
    let (space, quote, brace) = is_space-atom c (ground arith) in
    ground (arith, front, behind, space, quote, brace)

-- A string that `quote_string` has written is read again by `parse_string` as it was, whatever bytes
-- it has, if what follows it is nothing or begins with a byte that ends an atom; and that is what is
-- left.
pub parse_string-quote_string :
    (s rest : Text) → EndsAtom rest → parse_string (quote_string s ++ rest) ≡ (some s, rest)
unfolding quote_string
parse_string-quote_string [] rest e = parse_string-quoted [] rest
parse_string-quote_string (c ∷ s) rest e = elim (Bool-cases (needs_quotes (c ∷ s))) [
  | inl quotes ↦ rw (quotes) (parse_string-quoted (c ∷ s) rest)
  | inr plain ↦ rw (plain) (parse_string-atom c s rest plain e)
]
