-- ===== src/Imap.antt =====
-- imap/include/imap_session.hpp: the state of an IMAP connection. `IMAPSession` extends the connection
-- of common/include/net/session.hpp, here the field `base`.
pub mod Strings
pub mod Sequence
pub mod Quoting
pub mod Fetch
pub mod Search
pub mod Action
pub mod Command
pub mod Response
pub mod Storage
pub mod Flags
pub mod Mailbox
pub mod Messages
pub mod Handlers
pub mod Protocol
pub mod Invariant
pub mod Strangers
pub mod Returns
pub mod Agreement
pub mod Counts
mod Tests
use email_server.Base.{
  ℕ, suc, ◌+◌, ◌-◌, ◌%◌, ◌^◌, Bool, true, false, not, ◌&&◌, List, [], ◌∷◌, Option, none, some, ◌==◌,
  if◌then◌else◌,
}
use email_server.Net.{Session, connect}
use email_server.Net
use email_server.Text.{Text, codes}

pub data SessionState : Type 0 where
  not_authenticated authenticated_state selected_state logout : SessionState

pub record SelectedMailbox : Type 0 where
  pub name : Text
  pub read_only : Bool
  pub uid_validity : ℕ
  pub uid_next : ℕ
  pub exists : ℕ
  pub recent : ℕ
  pub unseen : ℕ

-- The flags are a `std::set` of texts, in ascending order.
pub record CachedMessage : Type 0 where
  pub sequence_number : ℕ
  pub uid : ℕ
  pub unique_id : Text
  pub size : ℕ
  pub flags : List Text
  pub internal_date : ℕ

-- `maildir` is the domain and the user of the open mail directory. The maps of numbers hold the entry
-- written last in front.
pub record ImapSession : Type 0 where
  pub base : Session
  pub open base use *
  pub state : SessionState
  pub maildir : Option (Text × Text)
  pub hostname : Text
  pub selected : Option SelectedMailbox
  pub messages : List CachedMessage
  pub starttls_offered : Bool
  pub has_ssl_context : Bool
  pub seq_to_uid : List (ℕ × ℕ)
  pub uid_to_seq : List (ℕ × ℕ)
  pub next_uid : ℕ

-- `IMAPSession::IMAPSession`.
unfoldable pub open_session : Bool → Text → Bool → ImapSession
open_session over_tls hostname has_ssl_context = record {
  base = connect over_tls;
  state = not_authenticated;
  maildir = none;
  hostname = hostname;
  selected = none;
  messages = [];
  starttls_offered = not over_tls;
  has_ssl_context = has_ssl_context;
  seq_to_uid = [];
  uid_to_seq = [];
  next_uid = 1;
}

-- `IMAPSession::starttls_available`.
abbrev pub starttls_available : ImapSession → Bool
starttls_available s = s.starttls_offered && not s.is_tls

abbrev pub set_state : SessionState → ImapSession → ImapSession
set_state state s = record s { state = state }

unfoldable pub send_line : Text → ImapSession → ImapSession
send_line line s = record s { base = Net.send_line line s.base }

-- `++` on an `uint32_t`.
abbrev pub next_u32 : ℕ → ℕ
next_u32 n = (n + 1) % 2 ^ 32

-- `find` on a map of numbers, where a missing key stands for 0.
unfoldable pub find_or_zero : ℕ → List (ℕ × ℕ) → ℕ
find_or_zero key [] = 0
find_or_zero key ((k, v) ∷ rest) = if k == key then v else find_or_zero key rest
