-- ===== src/Smtp/Command.antt =====
-- `Command::parse` and its tables, of smtp/src/smtp_commands.cpp.
use email_server.Base.{
  ℕ, ◌+◌, ◌-◌, ◌≡◌, refl, Bool, ◌||◌, [], ◌∷◌, ◌++◌, none, some, ◌==◌, if◌then◌else◌, length, take,
  drop,
}
use email_server.Text.Stream.{drop_while}
use email_server.Text.{
  Text, codes, text_eq, to_upper, upper, find_if, find_from, byte_at_is, substr,
}

pub data CommandType : Type 0 where
  helo ehlo mail rcpt data_command rset noop quit vrfy auth starttls help unknown : CommandType

pub record Command : Type 0 where
  pub type : CommandType
  pub name : Text
  pub argument : Text

-- `Command::string_to_type`.
unfoldable pub string_to_type : Text → CommandType
string_to_type name =
    if text_eq name (codes "HELO")
    then helo
    else if text_eq name (codes "EHLO")
    then ehlo
    else if text_eq name (codes "MAIL FROM:") || text_eq name (codes "MAIL")
    then mail
    else if text_eq name (codes "RCPT TO:") || text_eq name (codes "RCPT")
    then rcpt
    else if text_eq name (codes "DATA")
    then data_command
    else if text_eq name (codes "RSET")
    then rset
    else if text_eq name (codes "NOOP")
    then noop
    else if text_eq name (codes "QUIT")
    then quit
    else if text_eq name (codes "VRFY")
    then vrfy
    else if text_eq name (codes "AUTH")
    then auth
    else if text_eq name (codes "STARTTLS")
    then starttls
    else if text_eq name (codes "HELP")
    then help
    else unknown

-- `Command::type_to_string`.
unfoldable pub type_to_string : CommandType → Text
type_to_string helo = codes "HELO"
type_to_string ehlo = codes "EHLO"
type_to_string mail = codes "MAIL"
type_to_string rcpt = codes "RCPT"
type_to_string data_command = codes "DATA"
type_to_string rset = codes "RSET"
type_to_string noop = codes "NOOP"
type_to_string quit = codes "QUIT"
type_to_string vrfy = codes "VRFY"
type_to_string auth = codes "AUTH"
type_to_string starttls = codes "STARTTLS"
type_to_string help = codes "HELP"
type_to_string unknown = codes "UNKNOWN"

abbrev is_separator : ℕ → Bool
is_separator c = c == b' ' || c == b':'

abbrev is_qualifier : Text → Bool
is_qualifier q = text_eq q (codes "FROM:") || text_eq q (codes "TO:")

-- The name and the separator's place, once the word behind a space is known, and the place where
-- that word ends.
unfoldable pub qualify : Text → ℕ → Text → ℕ → Text × ℕ
qualify name sep word end =
    if is_qualifier (upper word) then (name ++ (b' ' ∷ upper word), end) else (name, sep)

-- The name in front of the separator, with the qualifier of "MAIL FROM:" and "RCPT TO:" where a
-- space stands in front of it and behind it, or at its end.
unfoldable pub split_name : Text → Text × ℕ
unfolding qualify find_if find_from byte_at_is
split_name line = elim (find_if is_separator line) [
  | none ↦ (line, length line)
  | some sep ↦
      if byte_at_is b' ' line sep
      then elim (find_from b' ' line (sep + 1)) [
        | some space ↦ qualify (take sep line) sep (substr line (sep + 1) (space - sep - 1)) space
        | none ↦ qualify (take sep line) sep (drop (sep + 1) line) (length line)
      ]
      else (take sep line, sep)
]

-- The text behind the separator, without the separators in front.
unfoldable pub argument_from : ℕ → Text → Text
unfolding drop_while
argument_from sep line = drop_while is_separator (drop sep line)

unfoldable pub parse : Text → Command
unfolding split_name argument_from string_to_type
parse [] = record { type = unknown; name = []; argument = [] }
parse (c ∷ s) =
    let (name, sep) = split_name (c ∷ s) in
    record {
      type = string_to_type (upper name);
      name = upper name;
      argument = argument_from sep (c ∷ s);
    }

-- The cases of smtp/tests/test_smtp.cpp.
parse_mail :
    parse (codes "MAIL FROM:<sender@example.com>")
    ≡ record { type = mail; name = codes "MAIL"; argument = codes "FROM:<sender@example.com>" }
unfolding parse codes text_eq to_upper
parse_mail = refl

parse_mail_space :
    parse (codes "mail from: <a@b>")
    ≡ record { type = mail; name = codes "MAIL FROM:"; argument = codes "<a@b>" }
unfolding parse codes text_eq to_upper
parse_mail_space = refl

parse_lower_case :
    parse (codes "helo x") ≡ record { type = helo; name = codes "HELO"; argument = codes "x" }
unfolding parse codes text_eq to_upper
parse_lower_case = refl

parse_invalid : (parse (codes "INVALID")).type ≡ unknown
unfolding parse codes text_eq to_upper
parse_invalid = refl
