-- ===== src/Pop3/Command.antt =====
-- `Command::parse` and its tables, of pop3/src/pop3_commands.cpp.
use email_server.Base.{◌≡◌, refl, List, [], ◌∷◌, if◌then◌else◌}
use email_server.Text.Stream.{skip_ws, next_word, first_line, words, take_while, drop_while}
use email_server.Text.{Text, codes, is_space, text_eq, to_upper, upper}

pub data CommandType : Type 0 where
  user pass stat list retr dele noop rset quit top uidl capa stls auth apop unknown : CommandType

pub record Command : Type 0 where
  pub type : CommandType
  pub name : Text
  pub argument : Text
  pub args : List Text

-- `Command::string_to_type`.
unfoldable pub string_to_type : Text → CommandType
string_to_type name =
    if text_eq name (codes "USER")
    then user
    else if text_eq name (codes "PASS")
    then pass
    else if text_eq name (codes "STAT")
    then stat
    else if text_eq name (codes "LIST")
    then list
    else if text_eq name (codes "RETR")
    then retr
    else if text_eq name (codes "DELE")
    then dele
    else if text_eq name (codes "NOOP")
    then noop
    else if text_eq name (codes "RSET")
    then rset
    else if text_eq name (codes "QUIT")
    then quit
    else if text_eq name (codes "TOP")
    then top
    else if text_eq name (codes "UIDL")
    then uidl
    else if text_eq name (codes "CAPA")
    then capa
    else if text_eq name (codes "STLS")
    then stls
    else if text_eq name (codes "AUTH")
    then auth
    else if text_eq name (codes "APOP")
    then apop
    else unknown

-- `Command::type_to_string`.
unfoldable pub type_to_string : CommandType → Text
type_to_string user = codes "USER"
type_to_string pass = codes "PASS"
type_to_string stat = codes "STAT"
type_to_string list = codes "LIST"
type_to_string retr = codes "RETR"
type_to_string dele = codes "DELE"
type_to_string noop = codes "NOOP"
type_to_string rset = codes "RSET"
type_to_string quit = codes "QUIT"
type_to_string top = codes "TOP"
type_to_string uidl = codes "UIDL"
type_to_string capa = codes "CAPA"
type_to_string stls = codes "STLS"
type_to_string auth = codes "AUTH"
type_to_string apop = codes "APOP"
type_to_string unknown = codes "UNKNOWN"

unfoldable pub parse : Text → Command
unfolding string_to_type words take_while drop_while
parse [] = record { type = unknown; name = []; argument = []; args = [] }
parse (c ∷ s) =
    let (word, rest) = next_word (c ∷ s) in
    let argument = first_line (skip_ws rest) in
    record {
      type = string_to_type (upper word);
      name = upper word;
      argument = argument;
      args = words argument;
    }

parse_top : parse (codes "top 1 10") ≡ record {
  type = top;
  name = codes "TOP";
  argument = codes "1 10";
  args = codes "1" ∷ codes "10" ∷ [];
}
unfolding parse codes text_eq to_upper is_space
parse_top = refl
