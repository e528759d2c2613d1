-- ===== src/Smtp/Address.antt =====
-- `EmailAddress` of smtp/include/smtp_commands.hpp and `EmailAddress::parse` of
-- smtp/src/smtp_commands.cpp.
use email_server.Base.{
  ℕ, suc, ◌+◌, ◌-◌, Bool, not, ◌||◌, [], Option, none, some, ltb, ◌==◌, if◌then◌else◌, is_empty,
  length, take, drop,
}
use email_server.Text.{Text, find_if, find_last_if, find_char, substr}

pub record EmailAddress : Type 0 where
  pub local_part : Text
  pub domain : Text
  pub full_address : Text

-- The text between the first `<` and the first `>` behind it, or all of it.
unfoldable pub inside_brackets : Text → Text
unfolding find_if
inside_brackets s = elim (find_char b'<' s) [
  | none ↦ s
  | some start ↦ elim (find_char b'>' s) [
    | none ↦ s
    | some end ↦ if ltb start end then substr s (start + 1) (end - start - 1) else s
  ]
]

abbrev is_blank : ℕ → Bool
is_blank c = c == b' ' || c == b'\t'

-- Without the blanks at both ends; a text of blanks alone stays as it is.
unfoldable pub trim : Text → Text
unfolding find_if find_last_if
trim s = elim (find_if (λ c. not (is_blank c)) s) [
  | none ↦ s
  | some start ↦ elim (find_last_if (λ c. not (is_blank c)) s) [
    | none ↦ s
    | some end ↦ substr s start (end - start + 1)
  ]
]

-- The null sender is an address with nothing in it.
abbrev pub null_address : EmailAddress
null_address = record { local_part = []; domain = []; full_address = [] }

-- What is returned where no `@` stands between two parts.
unfoldable pub null_or_none : Text → Option EmailAddress
null_or_none email = if is_empty email then some null_address else none

unfoldable pub split_at : Text → Option EmailAddress
unfolding null_or_none find_if
split_at email = elim (find_char b'@' email) [
  | none ↦ null_or_none email
  | some at ↦
      if at == 0 || at == length email - 1
      then null_or_none email
      else some (record {
        local_part = take at email;
        domain = drop (suc at) email;
        full_address = email;
      })
]

unfoldable pub parse : Text → Option EmailAddress
unfolding inside_brackets trim split_at
parse s = split_at (trim (inside_brackets s))
