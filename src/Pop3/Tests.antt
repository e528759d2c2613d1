-- ===== src/Pop3/Tests.antt =====
-- The properties of a POP3 session at concrete sessions.
use email_server.Auth.{Authenticator}
use email_server.Base.{
  not, ◌==◌, List, arith, ◌+◌, ℕ, ◌≡◌, refl, true, false, [], ◌∷◌, ◌++◌, map, none, some, length,
  ◌+◌,
}
use email_server.Net
use email_server.Pop3.Access.{LeftOutside, run_lines-transaction, run_lines-LeftOutside}
use email_server.Pop3.Command
use email_server.Pop3.Answers.{present, uidl_all, list_all, shown_size, shown_id, no_such_message}
use email_server.Pop3.Handlers.{handle_dele, handle_quit, retrieve, handle_one}
use email_server.Pop3.Numbers.{Holds, line_of, run_lines-throws, listing-mark_deleted}
use email_server.Pop3.Protocol.{execute, handle_read, run_lines}
use email_server.Pop3.Order.{LeftInOrder, run_lines-LeftInOrder}
use email_server.Pop3.Quit.{delete_each, marked_ids, handle_quit-marked_ids}
use email_server.Pop3.Response.{okay}
use email_server.Pop3.Retrieval.{octets, read_reply, retrieve-read_reply}
use email_server.Pop3.Storage.{Store}
use email_server.Pop3.{
  Pop3Session, MessageInfo, transaction, open_session, get_message, mark_deleted, total_messages,
  expunge, get_message_content, member, insert,
}
use email_server.Text.Stream.{lines, stoul}
use email_server.Text.{Text, codes, crlf, strip_cr, text_eq, is_space, to_upper, find_text}
use email_server.Text.Numbers.{to_string}

abbrev refusing : Authenticator
refusing = record {
  authenticate = λ username password. false;
  has_user = λ username. false;
  is_local_domain = λ domain. false;
}

-- A body with a line that is a single dot.
abbrev dotted : Text
dotted = b'.' ∷ b'\r' ∷ b'\n' ∷ b'a' ∷ b'\n' ∷ []

-- The world counts the deletions.
abbrev counting : Store ℕ
counting = record {
  exists = λ w domain user. true;
  initialize = λ w domain user. (w, true);
  list_messages = λ w domain user. [];
  get_message_content = λ w domain user id. some dotted;
  delete_message = λ w domain user id. (w + 1, true);
}

abbrev opened : Pop3Session
opened = open_session false (codes "c") false

abbrev first : MessageInfo
first = record { number = 1; unique_id = b'x' ∷ []; size = 5; deleted = false }

abbrev second : MessageInfo
second = record { number = 2; unique_id = b'y' ∷ []; size = 7; deleted = false }

abbrev reading : Pop3Session
reading = record opened {
  state = transaction;
  maildir = some (b'c' ∷ [], b'a' ∷ []);
  messages = first ∷ second ∷ [];
}

abbrev marked : Pop3Session
marked = record reading {
  deleted_messages = 1 ∷ [];
  base = Net.send_line (okay (codes "Message 1 deleted")) reading.base;
}

abbrev start : ℕ
start = 0

run_lines-transaction_example : (start ≡ start) × (marked.state ≡ transaction)
unfolding run_lines codes open_session Command.parse text_eq is_space to_upper stoul member insert
    get_message mark_deleted handle_read execute handle_dele okay find_text to_string
run_lines-transaction_example =
    run_lines-transaction refusing counting (codes "DELE 1" ∷ []) start start reading marked
      ((λ e. cc), tt) refl refl

run_lines-LeftOutside_example :
    LeftOutside 0
      (run_lines refusing counting (codes "USER a" ∷ codes "PASS b" ∷ codes "QUIT" ∷ []) 0 opened)
unfolding open_session
run_lines-LeftOutside_example =
    run_lines-LeftOutside refusing counting (codes "USER a" ∷ codes "PASS b" ∷ codes "QUIT" ∷ []) 0
      opened (λ username password. refl) refl

retrieve-read_reply_example :
    (text : Text) × (retrieve counting 0 (some 1) reading ≡ some (reading, text))
    × (read_reply (map strip_cr (lines (text ++ crlf)))
        ≡ some (okay (octets dotted), map strip_cr (lines dotted)))
unfolding present get_message get_message_content open_session member
retrieve-read_reply_example = retrieve-read_reply counting 0 1 reading first dotted refl refl

run_lines-throws_example :
    run_lines refusing counting (codes "RETR x" ∷ codes "NOOP" ∷ []) 0 reading ≡ none
unfolding codes open_session Command.parse text_eq is_space to_upper stoul
run_lines-throws_example =
    run_lines-throws refusing counting (codes "RETR x") (codes "NOOP" ∷ []) 0 reading refl refl refl
      refl refl

listing-mark_deleted_example :
    let t = (mark_deleted 1 reading).0 in
    Holds (line_of shown_size first) (list_all t)
    × Holds (line_of shown_id first) (uidl_all t)
    × (handle_one shown_size (some 1) t ≡ some (t, no_such_message))
    × (handle_one shown_id (some 1) t ≡ some (t, no_such_message))
unfolding get_message open_session member
listing-mark_deleted_example = listing-mark_deleted 1 reading first refl refl (refl, (refl, tt))

-- The world is the list of the identifiers whose deletion was asked for; those of one byte fail.
abbrev noting : Store (List Text)
noting = record {
  exists = λ w domain user. true;
  initialize = λ w domain user. (w, true);
  list_messages = λ w domain user. [];
  get_message_content = λ w domain user id. some dotted;
  delete_message = λ w domain user id. (w ++ id ∷ [], not (length id == 1));
}

abbrev leaving : Pop3Session
leaving = record reading { deleted_messages = 1 ∷ 2 ∷ [] }

handle_quit-marked_ids_example :
    let ids = marked_ids 1 leaving.messages leaving.deleted_messages in
    ((handle_quit noting [] leaving).0 ≡ (delete_each noting (b'c' ∷ []) (b'a' ∷ []) ids []).0)
    × ((expunge noting [] leaving).1 ≡ (delete_each noting (b'c' ∷ []) (b'a' ∷ []) ids []).1)
    × (total_messages leaving + length ids ≡ length leaving.messages)
unfolding open_session
handle_quit-marked_ids_example =
    handle_quit-marked_ids noting [] leaving (b'c' ∷ []) (b'a' ∷ []) refl refl
      (omega arith, omega arith, (omega arith, omega arith, tt))

run_lines-LeftInOrder_example :
    LeftInOrder (run_lines refusing counting (codes "DELE 2" ∷ codes "DELE 1" ∷ []) 0 reading)
unfolding open_session
run_lines-LeftInOrder_example =
    run_lines-LeftInOrder refusing counting (codes "DELE 2" ∷ codes "DELE 1" ∷ []) 0 reading tt
