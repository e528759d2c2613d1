-- ===== src/Imap/Command.antt =====
-- `Command` of imap/include/imap_commands.hpp, `Command::parse` and its tables of imap/src/imap_commands.cpp, and `parse_command` of imap/src/imap_parser.cpp.
use email_server.Base.{[], Option, ◌||◌, none, some, if◌then◌else◌, is_empty, ◌≡◌, refl}
use email_server.Text.Stream.{skip_ws, next_word, first_line, take_while, drop_while}
use email_server.Text.{Text, codes, text_eq, upper, to_upper, is_space}

pub data CommandType : Type 0 where
  capability noop logout starttls authenticate login select examine create delete rename subscribe
        unsubscribe list lsub status append check close expunge search fetch store copy uid
        unknown :
      CommandType

pub record Command : Type 0 where
  pub tag : Text
  pub type : CommandType
  pub name : Text
  pub arguments : Text

-- `Command::string_to_type`.
unfoldable pub string_to_type : Text → CommandType
string_to_type name =
    if text_eq name (codes "CAPABILITY")
    then capability
    else if text_eq name (codes "NOOP")
    then noop
    else if text_eq name (codes "LOGOUT")
    then logout
    else if text_eq name (codes "STARTTLS")
    then starttls
    else if text_eq name (codes "AUTHENTICATE")
    then authenticate
    else if text_eq name (codes "LOGIN")
    then login
    else if text_eq name (codes "SELECT")
    then select
    else if text_eq name (codes "EXAMINE")
    then examine
    else if text_eq name (codes "CREATE")
    then create
    else if text_eq name (codes "DELETE")
    then delete
    else if text_eq name (codes "RENAME")
    then rename
    else if text_eq name (codes "SUBSCRIBE")
    then subscribe
    else if text_eq name (codes "UNSUBSCRIBE")
    then unsubscribe
    else if text_eq name (codes "LIST")
    then list
    else if text_eq name (codes "LSUB")
    then lsub
    else if text_eq name (codes "STATUS")
    then status
    else if text_eq name (codes "APPEND")
    then append
    else if text_eq name (codes "CHECK")
    then check
    else if text_eq name (codes "CLOSE")
    then close
    else if text_eq name (codes "EXPUNGE")
    then expunge
    else if text_eq name (codes "SEARCH")
    then search
    else if text_eq name (codes "FETCH")
    then fetch
    else if text_eq name (codes "STORE")
    then store
    else if text_eq name (codes "COPY")
    then copy
    else if text_eq name (codes "UID")
    then uid
    else unknown

-- `Command::type_to_string`.
unfoldable pub type_to_string : CommandType → Text
type_to_string capability = codes "CAPABILITY"
type_to_string noop = codes "NOOP"
type_to_string logout = codes "LOGOUT"
type_to_string starttls = codes "STARTTLS"
type_to_string authenticate = codes "AUTHENTICATE"
type_to_string login = codes "LOGIN"
type_to_string select = codes "SELECT"
type_to_string examine = codes "EXAMINE"
type_to_string create = codes "CREATE"
type_to_string delete = codes "DELETE"
type_to_string rename = codes "RENAME"
type_to_string subscribe = codes "SUBSCRIBE"
type_to_string unsubscribe = codes "UNSUBSCRIBE"
type_to_string list = codes "LIST"
type_to_string lsub = codes "LSUB"
type_to_string status = codes "STATUS"
type_to_string append = codes "APPEND"
type_to_string check = codes "CHECK"
type_to_string close = codes "CLOSE"
type_to_string expunge = codes "EXPUNGE"
type_to_string search = codes "SEARCH"
type_to_string fetch = codes "FETCH"
type_to_string store = codes "STORE"
type_to_string copy = codes "COPY"
type_to_string uid = codes "UID"
type_to_string unknown = codes "UNKNOWN"

-- `IMAPParser::parse_command`: the tag, the command in upper case and the arguments.
unfoldable pub parse_command : Text → Option (Text × Text × Text)
parse_command line =
    let (tag, behind) = next_word line in
    let (command, rest) = next_word behind in
    if is_empty tag || is_empty command
    then none
    else some (tag, upper command, first_line (skip_ws rest))

-- `Command::parse`; the tag of a line that has no command is not kept.
unfoldable pub parse : Text → Command
unfolding parse_command string_to_type take_while drop_while
parse line = elim (parse_command line) [
  | none ↦ record { tag = []; type = unknown; name = []; arguments = [] }
  | some (tag, command, arguments) ↦ record {
    tag = tag;
    type = string_to_type command;
    name = command;
    arguments = arguments;
  }
]

parse_test : parse (codes " a1 login ann secret ") ≡ record {
  tag = codes "a1";
  type = login;
  name = codes "LOGIN";
  arguments = codes "ann secret ";
}
unfolding parse codes text_eq to_upper is_space
parse_test = refl
