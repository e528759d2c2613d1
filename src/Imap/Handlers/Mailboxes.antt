-- ===== src/Imap/Handlers/Mailboxes.antt =====
-- The handlers of imap/src/imap_commands.cpp for mailboxes.
use email_server.Base.{
  ℕ, Bool, true, false, not, List, [], ◌∷◌, ◌++◌, Option, none, some, ltb, if◌then◌else◌, is_empty,
}
use email_server.Imap.Command.{Command}
use email_server.Imap.Handlers.{Outcome, reply, has_login, mailbox_argument}
use email_server.Imap.Mailbox.{select_mailbox, list_mailboxes, inbox}
use email_server.Imap.Response
use email_server.Imap.Storage.{Store}
use email_server.Imap.Strings.{parse_string, quote_string}
use email_server.Imap.{ImapSession, SelectedMailbox}
use email_server.Maildir.{MailboxInfo}
use email_server.Text.Numbers.{to_string}
use email_server.Text.{Text, codes, text_eq}

abbrev not_logged_in : {W : Type 0} → Command → W → ImapSession → Outcome W
not_logged_in cmd w s = reply w s (Response.bad cmd.tag (codes "Not authenticated"))

abbrev system_flags : Text
system_flags = codes "FLAGS (\\Answered \\Flagged \\Deleted \\Seen \\Draft)"

-- The line for UNSEEN, where there are unseen messages.
unfoldable pub unseen_line : ℕ → List Text
unseen_line unseen =
    if ltb 0 unseen
    then Response.untagged (codes "OK [UNSEEN " ++ (to_string unseen ++ codes "]")) ∷ []
    else []

unfoldable pub describe : SelectedMailbox → Text → List Text
unfolding unseen_line
describe selected tag =
    Response.untagged (to_string selected.exists ++ codes " EXISTS")
    ∷ Response.untagged (to_string selected.recent ++ codes " RECENT")
    ∷ (unseen_line selected.unseen
        ++ (Response.untagged
              (codes "OK [UIDVALIDITY " ++ (to_string selected.uid_validity ++ codes "]"))
            ∷ Response.untagged (codes "OK [UIDNEXT " ++ (to_string selected.uid_next ++ codes "]"))
            ∷ Response.untagged system_flags
            ∷ Response.untagged
                (codes "OK [PERMANENTFLAGS (\\Answered \\Flagged \\Deleted \\Seen \\Draft \\*)]")
            ∷ Response.ok tag (codes "[READ-WRITE] SELECT completed")
            ∷ []))

unfoldable pub describe_read_only : SelectedMailbox → Text → List Text
describe_read_only selected tag =
    Response.untagged (to_string selected.exists ++ codes " EXISTS")
    ∷ Response.untagged (to_string selected.recent ++ codes " RECENT")
    ∷ Response.untagged system_flags
    ∷ Response.ok tag (codes "[READ-ONLY] EXAMINE completed")
    ∷ []

-- One line of LIST for each mailbox.
unfoldable pub list_lines : List Text → List Text
list_lines [] = []
list_lines (mbox ∷ rest) =
    let flags = if text_eq mbox inbox then codes "(\\HasNoChildren)" else codes "()" in
    Response.untagged (codes "LIST " ++ (flags ++ (codes " \"/\" " ++ quote_string mbox)))
    ∷ list_lines rest

-- `value_or`.
abbrev value_or : Text → Option Text → Text
value_or other none = other
value_or other (some text) = text

unfoldable pub status_line : Text → MailboxInfo → Text
status_line mailbox info =
    codes "STATUS "
    ++ (quote_string mailbox
        ++ (codes " (MESSAGES "
            ++ (to_string info.total_messages
                ++ (codes " RECENT "
                    ++ (to_string info.recent_messages
                        ++ (codes " UNSEEN "
                            ++ (to_string info.unseen_messages
                                ++ (codes " UIDVALIDITY "
                                    ++ (to_string info.uid_validity
                                        ++ (codes " UIDNEXT "
                                            ++ (to_string info.uid_next ++ codes ")")))))))))))

-- The end of SELECT and of EXAMINE, once a mailbox is asked for.
unfoldable pub select_reply : {W : Type 0} → Text → Option (W × ImapSession × Bool) → Outcome W
unfolding describe
select_reply tag none = none
select_reply tag (some (w, s, false)) =
    reply w s (Response.refused tag (codes "Mailbox does not exist"))
select_reply tag (some (w, s, true)) = elim s.selected [
  | none ↦ reply w s (Response.refused tag (codes "Failed to select mailbox"))
  | some selected ↦ some (w, s, describe selected tag)
]

unfoldable pub examine_reply : {W : Type 0} → Text → Option (W × ImapSession × Bool) → Outcome W
unfolding describe_read_only
examine_reply tag none = none
examine_reply tag (some (w, s, false)) =
    reply w s (Response.refused tag (codes "Mailbox does not exist"))
examine_reply tag (some (w, s, true)) = elim s.selected [
  | none ↦ none
  | some selected ↦ some (w, s, describe_read_only selected tag)
]

module _ {W : Type 0} (store : Store W) where
  unfoldable pub handle_select : Command → W → ImapSession → Outcome W
  unfolding select_reply mailbox_argument
  handle_select cmd w s =
      let mailbox = mailbox_argument cmd.arguments in
      if not (has_login s.state)
      then not_logged_in cmd w s
      else if is_empty mailbox
      then reply w s (Response.bad cmd.tag (codes "Mailbox name required"))
      else select_reply cmd.tag (select_mailbox store mailbox false w s)

  unfoldable pub handle_examine : Command → W → ImapSession → Outcome W
  unfolding examine_reply mailbox_argument
  handle_examine cmd w s =
      let mailbox = mailbox_argument cmd.arguments in
      if not (has_login s.state)
      then not_logged_in cmd w s
      else examine_reply cmd.tag (select_mailbox store mailbox true w s)

  -- The reply to an operation of the directory that is done or not.
  unfoldable pub done_or_not : Text → Text → ImapSession → W × Bool → Outcome W
  done_or_not completed failed s (w, done) = reply w s (if done then completed else failed)

  unfoldable pub handle_create : Command → W → ImapSession → Outcome W
  unfolding mailbox_argument done_or_not
  handle_create cmd w s =
      let mailbox = mailbox_argument cmd.arguments in
      if not (has_login s.state) then not_logged_in cmd w s else elim s.maildir [
        | none ↦ none
        | some (domain, user) ↦
            done_or_not (Response.ok cmd.tag (codes "CREATE completed"))
              (Response.refused cmd.tag (codes "Failed to create mailbox")) s
              (store.create_mailbox w domain user mailbox)
      ]

  unfoldable pub handle_delete : Command → W → ImapSession → Outcome W
  unfolding mailbox_argument done_or_not
  handle_delete cmd w s =
      let mailbox = mailbox_argument cmd.arguments in
      if not (has_login s.state) then not_logged_in cmd w s else elim s.maildir [
        | none ↦ none
        | some (domain, user) ↦
            done_or_not (Response.ok cmd.tag (codes "DELETE completed"))
              (Response.refused cmd.tag (codes "Failed to delete mailbox")) s
              (store.delete_mailbox w domain user mailbox)
      ]

  -- The two names of RENAME, if both are there.
  unfoldable pub rename_parsed : Option Text → Option Text → Command → W → ImapSession → Outcome W
  unfolding done_or_not
  rename_parsed (some old_name) (some new_name) cmd w s = elim s.maildir [
    | none ↦ none
    | some (domain, user) ↦
        done_or_not (Response.ok cmd.tag (codes "RENAME completed"))
          (Response.refused cmd.tag (codes "Failed to rename mailbox")) s
          (store.rename_mailbox w domain user old_name new_name)
  ]
  rename_parsed _ _ cmd w s =
      reply w s (Response.bad cmd.tag (codes "Usage: RENAME old-name new-name"))

  unfoldable pub handle_rename : Command → W → ImapSession → Outcome W
  unfolding rename_parsed
  handle_rename cmd w s =
      let (old_name, behind) = parse_string cmd.arguments in
      let (new_name, rest) = parse_string behind in
      if not (has_login s.state)
      then not_logged_in cmd w s
      else rename_parsed old_name new_name cmd w s

  -- `handle_list`, and `handle_lsub`, which calls it.
  unfoldable pub handle_list : Command → W → ImapSession → Outcome W
  unfolding list_lines list_mailboxes
  handle_list cmd w s =
      let (reference, behind) = parse_string cmd.arguments in
      let (pattern, rest) = parse_string behind in
      let mailboxes = list_mailboxes store (value_or (codes "*") pattern) w s in
      if not (has_login s.state)
      then not_logged_in cmd w s
      else some (w, s, list_lines mailboxes ++ Response.ok cmd.tag (codes "LIST completed") ∷ [])

  -- The reply to STATUS for a mailbox that is there or not.
  unfoldable pub status_reply :
      Text → Command → ImapSession → Option (W × Option MailboxInfo) → Outcome W
  unfolding status_line
  status_reply mailbox cmd s none = none
  status_reply mailbox cmd s (some (w, none)) =
      reply w s (Response.refused cmd.tag (codes "Mailbox does not exist"))
  status_reply mailbox cmd s (some (w, some info)) = some (
    w,
    s,
    Response.untagged (status_line mailbox info)
        ∷ Response.ok cmd.tag (codes "STATUS completed")
        ∷ [],
  )

  unfoldable pub handle_status : Command → W → ImapSession → Outcome W
  unfolding status_reply
  handle_status cmd w s =
      if not (has_login s.state)
      then not_logged_in cmd w s
      else elim ((parse_string cmd.arguments).0) [
        | none ↦ reply w s (Response.bad cmd.tag (codes "Mailbox name required"))
        | some mailbox ↦ elim s.maildir [
          | none ↦ none
          | some (domain, user) ↦
              status_reply mailbox cmd s (store.get_mailbox_info w domain user mailbox)
        ]
      ]

unfoldable pub handle_append : {W : Type 0} → Command → W → ImapSession → Outcome W
handle_append cmd w s =
    if not (has_login s.state)
    then not_logged_in cmd w s
    else reply w s (Response.refused cmd.tag (codes "APPEND not yet implemented"))
