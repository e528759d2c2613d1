-- ===== src/Imap/Handlers.antt =====
-- The handlers of imap/src/imap_commands.cpp: what they share. A handler returns the world, the
-- session and the lines of its reply. `none` stands for an exception that leaves the handler, or for a
-- null pointer that it follows: both end the server. The build has TLS.
pub mod Entry
pub mod Mailboxes
pub mod Selected
pub mod Fetching
use email_server.Base.{Bool, true, false, List, [], ◌∷◌, Option, none, some, if◌then◌else◌, ◌==◌}
use email_server.Imap.Response
use email_server.Imap.Strings.{parse_string}
use email_server.Imap.{
  ImapSession, SessionState, not_authenticated, authenticated_state, selected_state,
}
use email_server.Text.{Text, codes}

abbrev pub Outcome : Type 0 → Type 0
Outcome W = Option (W × ImapSession × List Text)

-- The reply of one line.
abbrev pub reply {ℓ} : {W : Type ℓ} → W → ImapSession → Text → Option (W × ImapSession × List Text)
reply w s line = some (w, s, line ∷ [])

abbrev pub is_not_authenticated : SessionState → Bool
is_not_authenticated not_authenticated = true
is_not_authenticated _ = false

-- AUTHENTICATED or SELECTED.
abbrev pub has_login : SessionState → Bool
has_login authenticated_state = true
has_login selected_state = true
has_login _ = false

abbrev pub is_selected : SessionState → Bool
is_selected selected_state = true
is_selected _ = false

-- The name of a mailbox, with its quotes taken off if it begins with one.
unfoldable pub mailbox_argument : Text → Text
unfolding parse_string
mailbox_argument [] = []
mailbox_argument (c ∷ s) =
    if c == b'"'
    then elim ((parse_string (c ∷ s)).0) [ none ↦ c ∷ s | some parsed ↦ parsed ]
    else c ∷ s
