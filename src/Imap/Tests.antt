-- ===== src/Imap/Tests.antt =====
-- The properties of an IMAP session at concrete sessions.
use email_server.Auth.{Authenticator}
use email_server.Base.{
  ℕ, ◌+◌, List, arith, ◌≡◌, refl, true, false, ◌&&◌, [], ◌∷◌, ◌++◌, none, some, All,
}
use email_server.Imap.Command
use email_server.Imap.Command.{Command, CommandType}
use email_server.Imap.Counts.{load_messages-get_message_by_sequence}
use email_server.Imap.Flags.Laws.{stored_flags-roundtrip, is_kept}
use email_server.Imap.Flags.{maildir_to_imap_flags, imap_to_maildir_flags, seen, deleted}
use email_server.Imap.Handlers.Selected.{handle_close}
use email_server.Imap.Invariant.Parts.{IsReady}
use email_server.Imap.Invariant.{run_lines-IsReady}
use email_server.Imap.Mailbox.{expunge, load_messages, cache_message}
use email_server.Imap.Messages.{get_message_by_sequence}
use email_server.Imap.Protocol.{run_lines, handle_read}
use email_server.Imap.Quoting.{parse_string-quote_string}
use email_server.Imap.Returns.{run_lines-thrown}
use email_server.Imap.Sequence
use email_server.Imap.Sequence.Bounds.{InBounds, parse-InBounds}
use email_server.Imap.Sequence.Print.{Item, number, greatest, one, span}
use email_server.Imap.Sequence.{Range}
use email_server.Imap.Storage.{Store}
use email_server.Imap.Strangers.{NoLogin, run_lines-NoLogin}
use email_server.Imap.Strings.{is_atom_char, quote_string, parse_string}
use email_server.Imap.{
  ImapSession, SelectedMailbox, open_session, selected_state, authenticated_state, send_line,
}
use email_server.Maildir.Names.{parse_flags, flags_to_info}
use email_server.Maildir.{Message}
use email_server.Text.Sets.{text_less, member}
use email_server.Text.Stream.{stoul, take_while}
use email_server.Text.{Text, codes, text_eq, is_space, to_upper}

abbrev refusing : Authenticator
refusing = record {
  authenticate = λ username password. false;
  has_user = λ username. false;
  is_local_domain = λ domain. false;
}

abbrev unread : Message
unread = record {
  unique_id = codes "u";
  filename = codes "u";
  size = 3;
  timestamp = 9;
  flags = [];
  is_new = true;
}

abbrev read_before : Message
read_before = record {
  unique_id = codes "r";
  filename = codes "r:2,S";
  size = 4;
  timestamp = 8;
  flags = b'S' ∷ [];
  is_new = false;
}

-- A directory of two messages; the world counts the deletions.
abbrev two_messages : Store ℕ
two_messages = record {
  exists = λ w domain user. some true;
  initialize = λ w domain user. (w, true);
  create_mailbox = λ w domain user name. (w, true);
  delete_mailbox = λ w domain user name. (w, true);
  rename_mailbox = λ w domain user old_name new_name. (w, true);
  list_mailboxes = λ w domain user pattern. [];
  get_mailbox_info = λ w domain user name. some (w, none);
  list_messages = λ w domain user mailbox. some (read_before ∷ unread ∷ []);
  get_message_content = λ w domain user id mailbox. some none;
  get_message_headers = λ w domain user id mailbox. some none;
  delete_message = λ w domain user id mailbox. some (w + 1, true);
  copy_message = λ w domain user id from to. some (w, true);
  set_flags = λ w domain user id flags mailbox. some (w, true);
}

abbrev opened : ImapSession
opened = open_session false (codes "h") false

abbrev chosen : SelectedMailbox
chosen = record {
  name = codes "INBOX";
  read_only = false;
  uid_validity = 5;
  uid_next = 6;
  exists = 0;
  recent = 0;
  unseen = 0;
}

abbrev reading : ImapSession
reading = record opened {
  state = selected_state;
  maildir = some (codes "d", codes "u");
  selected = some chosen;
}

abbrev closed : ImapSession
closed =
    send_line (codes "a OK CLOSE completed")
      (record reading { state = authenticated_state; selected = none; next_uid = 3 })

abbrev undated : ℕ → Text
undated time = []

run_lines-IsReady_example : IsReady closed
unfolding run_lines handle_read codes open_session Command.parse text_eq is_space to_upper send_line
    handle_close expunge
run_lines-IsReady_example =
    run_lines-IsReady refusing two_messages undated (codes "a CLOSE" ∷ []) 0 0 reading closed refl
      refl

run_lines-NoLogin_example : NoLogin 0 (
    run_lines refusing two_messages undated
      (codes "a LOGIN u p" ∷ codes "b SELECT INBOX" ∷ [])
      0
      opened)
unfolding open_session
run_lines-NoLogin_example =
    run_lines-NoLogin refusing two_messages undated
      (codes "a LOGIN u p" ∷ codes "b SELECT INBOX" ∷ []) 0 opened (λ username password. refl) refl

abbrev asking : CommandType → Text → Command
asking type arguments = record { tag = codes "a"; type = type; name = []; arguments = arguments }

run_lines-thrown_example :
    run_lines refusing two_messages undated
      (codes "a FETCH x FLAGS" ∷ codes "b NOOP" ∷ [])
      0
      reading
    ≡ none
unfolding open_session codes Command.parse text_eq is_space to_upper take_while
run_lines-thrown_example =
    run_lines-thrown refusing two_messages undated (codes "a FETCH x FLAGS") (codes "b NOOP" ∷ []) 0
      reading b'x' [] refl refl refl refl (omega arith)

parse_string-quote_string_example :
    parse_string (quote_string (codes "a \"b") ++ codes " c") ≡ (some (codes "a \"b"), codes " c")
unfolding codes is_atom_char
parse_string-quote_string_example = parse_string-quote_string (codes "a \"b") (codes " c") refl

abbrev swapped : List Range
swapped = record { start = 2; end = 7 } ∷ record { start = 4; end = 0 } ∷ []

parse-InBounds_example : All InBounds swapped
unfolding codes Sequence.parse stoul text_eq is_space
parse-InBounds_example = parse-InBounds (codes "7:2,4:*") swapped refl

abbrev items : List Item
items = one (number 7) ∷ span (number 9) (number 2) ∷ span greatest (number 4) ∷ one greatest ∷ []

stored_flags-roundtrip_example :
    member text_less seen (
      maildir_to_imap_flags
        (parse_flags (codes "1.M2" ++ flags_to_info (imap_to_maildir_flags (deleted ∷ seen ∷ [])))))
    ≡ (is_kept seen && member text_less seen (deleted ∷ seen ∷ []))
unfolding codes
stored_flags-roundtrip_example =
    stored_flags-roundtrip (codes "1.M2") seen (deleted ∷ seen ∷ [])
      (refl, (refl, (refl, (refl, tt))))

load_messages-get_message_by_sequence_example :
    (t : ImapSession) × (load_messages two_messages 0 reading ≡ some t)
    × (get_message_by_sequence (1 + 1) t ≡ some (cache_message (1 + 1) (1 + 1) unread))
unfolding open_session
load_messages-get_message_by_sequence_example =
    load_messages-get_message_by_sequence two_messages 0 reading (codes "d") (codes "u") chosen
      (read_before ∷ unread ∷ []) 1 unread refl refl refl (omega arith) (omega arith) refl
