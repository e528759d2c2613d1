-- ===== src/Pop3.antt =====
-- pop3/include/pop3_session.hpp and pop3/src/pop3_session.cpp: the state of a POP3 connection, and
-- its operations on the messages. `POP3Session` extends the connection of
-- common/include/net/session.hpp, here the field `base`.
pub mod Storage
pub mod Response
pub mod Command
pub mod Answers
pub mod Handlers
pub mod Protocol
pub mod Marks
pub mod Access
pub mod Retrieval
pub mod Numbers
pub mod Quit
pub mod Order
mod Tests
use email_server.Base.{
  ℕ, suc, ◌+◌, ◌-◌, Bool, true, false, not, ◌&&◌, ◌||◌, List, [], ◌∷◌, ◌++◌, Option, none, some,
  ltb, ◌==◌, if◌then◌else◌, get_elem?, is_empty, length,
}
use email_server.Net.{Session, connect}
use email_server.Net
use email_server.Text.{Text, codes}
use Storage.{Store, Entry}

pub data SessionState : Type 0 where
  authorization transaction update : SessionState

pub record MessageInfo : Type 0 where
  pub number : ℕ
  pub unique_id : Text
  pub size : ℕ
  pub deleted : Bool

-- `maildir` is the domain and the user of the open mail directory; `deleted_messages` is a
-- `std::set`, in ascending order.
pub record Pop3Session : Type 0 where
  pub base : Session
  pub open base use *
  pub state : SessionState
  pub pending_username : Text
  pub maildir : Option (Text × Text)
  pub hostname : Text
  pub messages : List MessageInfo
  pub deleted_messages : List ℕ
  pub starttls_offered : Bool
  pub has_ssl_context : Bool

-- `POP3Session::POP3Session`.
unfoldable pub open_session : Bool → Text → Bool → Pop3Session
open_session over_tls hostname has_ssl_context = record {
  base = connect over_tls;
  state = authorization;
  pending_username = [];
  maildir = none;
  hostname = hostname;
  messages = [];
  deleted_messages = [];
  starttls_offered = not over_tls;
  has_ssl_context = has_ssl_context;
}

-- `POP3Session::starttls_available`.
abbrev pub starttls_available : Pop3Session → Bool
starttls_available s = s.starttls_offered && not s.is_tls

-- `std::set::count` and `std::set::insert`.
unfoldable pub member : ℕ → List ℕ → Bool
member n [] = false
member n (m ∷ ms) = n == m || member n ms

unfoldable pub insert : ℕ → List ℕ → List ℕ
insert n [] = n ∷ []
insert n (m ∷ ms) = if ltb n m then n ∷ m ∷ ms else if n == m then m ∷ ms else m ∷ insert n ms

-- The loop of `load_messages`, from a message number on.
unfoldable pub number_from : ℕ → List Entry → List MessageInfo
number_from n [] = []
number_from n (e ∷ es) =
    record { number = n; unique_id = e.unique_id; size = e.size; deleted = false }
    ∷ number_from (suc n) es

unfoldable pub in_range : ℕ → List MessageInfo → Bool
in_range number messages = not (ltb number 1 || ltb (length messages) number)

-- `POP3Session::get_message`.
unfoldable pub get_message : ℕ → Pop3Session → Option MessageInfo
unfolding in_range
get_message number s =
    if in_range number s.messages
    then elim (get_elem? s.messages (number - 1)) [
      | none ↦ none
      | some info ↦ some (record info { deleted = member number s.deleted_messages })
    ]
    else none

-- `POP3Session::mark_deleted`.
unfoldable pub mark_deleted : ℕ → Pop3Session → Pop3Session × Bool
unfolding in_range
mark_deleted number s =
    if in_range number s.messages
    then (record s { deleted_messages = insert number s.deleted_messages }, true)
    else (s, false)

-- `POP3Session::reset_deleted`.
unfoldable pub reset_deleted : Pop3Session → Pop3Session
reset_deleted s = record s { deleted_messages = [] }

-- The loops of `total_messages` and `total_size`; the number is that of the first message.
unfoldable pub count_from : ℕ → List MessageInfo → List ℕ → ℕ
count_from n [] deleted = 0
count_from n (m ∷ ms) deleted = (if member n deleted then 0 else 1) + count_from (suc n) ms deleted

unfoldable pub size_from : ℕ → List MessageInfo → List ℕ → ℕ
size_from n [] deleted = 0
size_from n (m ∷ ms) deleted =
    (if member n deleted then 0 else m.size) + size_from (suc n) ms deleted

abbrev pub total_messages : Pop3Session → ℕ
total_messages s = count_from 1 s.messages s.deleted_messages

abbrev pub total_size : Pop3Session → ℕ
total_size s = size_from 1 s.messages s.deleted_messages

module _ {W : Type 0} (store : Store W) where
  -- `POP3Session::load_messages`.
  unfoldable pub load_messages : W → Pop3Session → Pop3Session
  load_messages w s = elim s.maildir [
    | none ↦ record s { messages = []; deleted_messages = [] }
    | some (domain, user) ↦ record s {
      messages = number_from 1 (store.list_messages w domain user);
      deleted_messages = [];
    }
  ]

  -- `POP3Session::open_maildir`; the object is kept also where it cannot be initialised.
  unfoldable pub open_maildir : W → Pop3Session → W × Pop3Session × Bool
  open_maildir w s =
      let opened = record s { maildir = some (s.domain, s.username) } in
      let (w', made) = store.initialize w s.domain s.username in
      if is_empty s.username || is_empty s.domain
      then (w, s, false)
      else if store.exists w s.domain s.username
      then (w, load_messages w opened, true)
      else if made
      then (w', load_messages w' opened, true)
      else (w', opened, false)

  -- `POP3Session::get_message_content`.
  unfoldable pub get_message_content : W → ℕ → Pop3Session → Option Text
  get_message_content w number s = elim (get_message number s) [
    | none ↦ none
    | some info ↦ elim s.maildir [
      | none ↦ none
      | some (domain, user) ↦ store.get_message_content w domain user info.unique_id
    ]
  ]

  -- One number of the loop of `expunge`; one behind the messages is passed over.
  unfoldable pub delete_one : Option MessageInfo → Text → Text → W → ℕ → W × ℕ
  delete_one none domain user w count = (w, count)
  delete_one (some info) domain user w count =
      let (w', done) = store.delete_message w domain user info.unique_id in
      (w', if done then count + 1 else count)

  -- The loop of `expunge`: the world after the deletions, and how many were done.
  unfoldable pub expunge_all : List ℕ → List MessageInfo → Text → Text → W → ℕ → W × ℕ
  expunge_all [] messages domain user w count = (w, count)
  expunge_all (number ∷ rest) messages domain user w count =
      let (w', count') = delete_one (get_elem? messages (number - 1)) domain user w count in
      expunge_all rest messages domain user w' count'

  -- `POP3Session::expunge`.
  unfoldable pub expunge : W → Pop3Session → W × ℕ
  expunge w s = elim s.maildir [
    | none ↦ (w, 0)
    | some (domain, user) ↦ expunge_all s.deleted_messages s.messages domain user w 0
  ]
