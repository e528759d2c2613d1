-- ===== src/Lib.antt =====
-- The mail server of this repository: SMTP, POP3 and IMAP servers in C++ over Boost.Asio, which
-- share the connection of common/ and keep mail in mail directories. This library models the
-- connection, the SMTP, POP3 and IMAP sessions that extend it, and the mail directories, for a
-- build with TLS.
--
-- The parts, and where they are modelled (paths from the root of the repository):
-- - Base, Base/Lists, Base/Tests: names of the libraries passed on, Boolean tests on native
--   numbers, the conditional, and lists over native numbers.
-- - Text, Text/Stream, Text/Numbers: `std::string` as a list of bytes, with `find`, `substr` and
--   the others that the sources call; `std::istringstream` with `>>` and `std::getline`; and
--   `std::to_string` and `std::stoul`. Text/Laws has the laws of lines and their ends.
-- - Net: `Session` of common/include/net/session.hpp and common/src/net/session.cpp. The record
--   holds the write queue, the lambdas that `send` posted to Asio, the number of writes under way
--   and what was handed to `async_write`, with the socket that it went to. Net/Events has what can
--   happen to a connection, as events in any order; Net/Order and Net/Stopped are about runs.
--   Net/Server is common/include/net/server.hpp, with its accepts and its set of sessions;
--   Net/Server/Limits is about its runs.
-- - Auth: `parse_email` of common/src/auth/authenticator.cpp, and the three questions that the sessions
--   ask as an interface. Auth/Password is how passwords are hashed and verified, Auth/Accounts the
--   operations on users and domains, over the SQL statements. Proofs are in Auth/Password/Laws and
--   Auth/Accounts/Laws.
-- - Smtp: the state of `SMTPSession` (smtp/include/smtp_session.hpp). Smtp/Command and Smtp/Address
--   are the parsers, Smtp/Reply the replies, Smtp/Login AUTH in both places where it is handled,
--   Smtp/Handlers the other handlers of smtp/src/smtp_commands.cpp, Smtp/Delivery and Smtp/Protocol
--   the operations of smtp/src/smtp_session.cpp. Smtp/Host and Smtp/Relay are what a session calls
--   outside of its state, and what smtp/src/smtp_relay.cpp sends; Smtp/Dialogue is its dialogue with
--   another server, and the choice among servers. Proofs are in Smtp/Invariant, Smtp/Logins,
--   Smtp/Strangers, Smtp/Message, Smtp/Farewell, Smtp/Dialogue/Sent and Smtp/Dialogue/Remote.
-- - Pop3: the state and the operations of `POP3Session` (pop3/src/pop3_session.cpp). Pop3/Command,
--   Pop3/Response, Pop3/Answers and Pop3/Handlers are pop3/src/pop3_commands.cpp, Pop3/Protocol the
--   lines of a session, Pop3/Storage what it asks of the mail directory. Proofs are in Pop3/Marks,
--   Pop3/Access, Pop3/Order, Pop3/Quit, Pop3/Numbers and Pop3/Retrieval.
-- - Maildir: `Message` and `MailboxInfo` of common/include/storage/maildir.hpp, and the operations of
--   common/src/storage/maildir.cpp: Maildir/Names what is written into names, Maildir/Disk the file
--   system under it, Maildir/Mailbox the messages of one mailbox, Maildir/Account the mailboxes of one
--   user, Maildir/Service all users, as the sessions of IMAP ask for them. Proofs are in
--   Maildir/Names/Laws, Maildir/Named, Maildir/Files and Maildir/Delivery.
-- - Imap: the state of `IMAPSession` (imap/include/imap_session.hpp). Imap/Strings, Imap/Sequence,
--   Imap/Fetch, Imap/Search and Imap/Action are imap/src/imap_parser.cpp; Imap/Flags, Imap/Mailbox and
--   Imap/Messages the operations of imap/src/imap_session.cpp; Imap/Command, Imap/Response and the
--   files under Imap/Handlers are imap/src/imap_commands.cpp, and Imap/Protocol the lines of a session.
--   Imap/Storage is what a session asks of the mail directory. Proofs are in Imap/Quoting,
--   Imap/Sequence/Bounds, Imap/Sequence/Print, Imap/Flags/Laws, Imap/Invariant, Imap/Strangers,
--   Imap/Returns, Imap/Counts and Imap/Agreement.
--
-- How they interact: a session is a record around the connection's; each line that the connection
-- reads is given to the session (`handle_read`), which answers by `send`, and `run_lines` gives it
-- the lines of a client one after the other. A handler of a session runs as a whole there,
-- as with one thread. Net/Events leaves room for the other threads of a server: each call of a
-- handler is an event of its own, and a posted lambda may run as a whole or in two parts, with other
-- events between. What is
-- outside of the sessions (mail directories, other servers, the clock) is a world of any type, which
-- the operations of an interface change; Maildir/Service fills the one of IMAP. `none` in POP3, IMAP and
-- the mail directories is an exception that leaves the operation, or a null pointer that is followed.
--
-- Bounds: a `size_t` is a natural number where the code only adds sizes of texts in memory, and 64
-- bits where `std::stoul` reads it; a `uint32_t` wraps around at 32 bits. The functions recur on lists or on accessibility, none on fuel.
--
-- Names of files are texts without a NUL: the operating system would end them there, and with a NUL in
-- the name of a mailbox the paths below its directory would all end there too. Maildir/Names/Laws says
-- what becomes of the name of the directory itself.
--
-- Not modelled: two threads in one list at the same moment, failures of the file system that its state does not explain, the mail directories
-- behind POP3 and SMTP (each has an interface of its own), the opening of the database and its tables, the look-up of mail exchangers, the settings file and the
-- classes that make the servers of it, the log, the handshake of TLS, the
-- tools and the web client. base64 and PBKDF2, of OpenSSL,
-- and the statements of SQLite are parameters.
pub mod Base
pub mod Text
pub mod Net
pub mod Auth
pub mod Smtp
pub mod Pop3
pub mod Maildir
pub mod Imap
