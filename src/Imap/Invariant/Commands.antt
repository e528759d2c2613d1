-- ===== src/Imap/Invariant/Commands.antt =====
-- What each command of IMAP leaves of the directory and the mailbox.
use email_server.Auth.{Authenticator}
use email_server.Base.{
  ℕ, ◌≡◌, refl, not, is_empty, Bool, true, false, inl, inr, List, [], ◌∷◌, Option, none, some,
  arith, Option-cases, if-both,
}
use email_server.Imap.Action.{StoreAction}
use email_server.Imap.Command
use email_server.Imap.Command.{Command, CommandType}
use email_server.Imap.Fetch.{FetchItem, parse_fetch_items}
use email_server.Imap.Handlers.Entry.{
  handle_capability, handle_noop, handle_logout, handle_starttls, handle_login, enter, log_in,
  upgrade,
}
use email_server.Imap.Handlers.Fetching.{handle_fetch, with_set, fetch_reply}
use email_server.Imap.Handlers.Mailboxes.{
  handle_select, handle_examine, select_reply, examine_reply, handle_create, handle_delete,
  handle_rename, handle_list, handle_status, handle_append, rename_parsed, done_or_not,
  status_reply,
}
use email_server.Imap.Handlers.Selected.{
  handle_search, handle_check, handle_close, handle_expunge, handle_store, handle_copy,
  search_reply, store_each, store_reply, copy_reply, copy_parsed,
}
use email_server.Imap.Handlers.{Outcome, has_login, mailbox_argument}
use email_server.Imap.Mailbox.{select_mailbox, clear_messages, close_mailbox, expunge}
use email_server.Imap.Protocol.{handle_uid}
use email_server.Imap.Sequence
use email_server.Imap.Sequence.{Range, contains}
use email_server.Imap.Storage.{Store}
use email_server.Imap.{ImapSession, send_line}
use email_server.Text.Stream.{next_word, first_line, skip_ws}
use email_server.Text.{Text, upper}
use email_server.Imap.Invariant.Parts.{
  IsReady, select_mailbox-IsReady, open_maildir-opened, open_maildir-state, expunge-Kept,
  store_each-SameParts,
}

-- What holds of the session of an outcome that returned.
unfoldable pub Left : {W : Type 0} → Outcome W → Type 0
Left none = Unit
Left (some (w, s, lines)) = IsReady s

pub Left-returned :
    {W : Type 0} (w : W) (s : ImapSession) (lines : List Text)
    → IsReady s
    → Left (some (w, s, lines))
unfolding Left
Left-returned w s lines h = h

pub with_set-Left :
    {W : Type 0} (str : Text) (w : W) (s : ImapSession) (line : Text) (go : List Range → Outcome W)
    → IsReady s
    → ((set : List Range) → Left (go set))
    → Left (with_set str (w, s, line ∷ []) go)
unfolding Left with_set
with_set-Left str w s line go h each = elim (Option-cases (Sequence.parse str)) [
  | inl thrown ↦ ground (arith, thrown)
  | inr (set, e) ↦ ground (arith, e, each set)
]

pub copy_parsed-Left :
    {W : Type 0} (seq_str mailbox : Option Text) (w : W) (s : ImapSession) (line : Text)
    (go : Text → Text → Outcome W)
    → IsReady s
    → ((str target : Text) → Left (go str target))
    → Left (copy_parsed seq_str mailbox (w, s, line ∷ []) go)
unfolding Left copy_parsed
copy_parsed-Left (some str) (some target) w s line go h each = each str target
copy_parsed-Left _ _ w s line go h each = h

-- The replies to SELECT and EXAMINE, where what was selected left the session ready.
replies-Left :
    {W : Type 0} (tag : Text) (o : Option (W × ImapSession × Bool))
    → ((w : W) (s : ImapSession) (done : Bool) → o ≡ some (w, s, done) → IsReady s)
    → Left (select_reply tag o) × Left (examine_reply tag o)
unfolding Left select_reply examine_reply
replies-Left tag none h = (tt, tt)
replies-Left tag (some (w, s, false)) h = (h w s false refl, h w s false refl)
replies-Left tag (some (w, s, true)) h = let ready = h w s true refl in (ground arith, ground arith)

module _ {W : Type 0} (auth : Authenticator) (store : Store W) where
  pub login-Left :
      (cmd : Command) (w : W) (s : ImapSession) → IsReady s → Left (handle_login auth store cmd w s)
  unfolding Left handle_login enter log_in
  login-Left cmd w s h = grind (arith, open_maildir-opened, open_maildir-state)

module _ {W : Type 0} (store : Store W) where
  pub handle_close-Left :
      (cmd : Command) (w : W) (s : ImapSession) → IsReady s → Left (handle_close store cmd w s)
  unfolding Left handle_close close_mailbox clear_messages
  handle_close-Left cmd w s h = elim (Option-cases (expunge store w s)) [
    | inl thrown ↦ ground (arith, thrown)
    | inr ((v, u, numbers), done) ↦ ground (arith, expunge-Kept store w v s u numbers done)
  ]

  pub handle_expunge-Left :
      (cmd : Command) (w : W) (s : ImapSession) → IsReady s → Left (handle_expunge store cmd w s)
  unfolding Left handle_expunge
  handle_expunge-Left cmd w s h = elim (Option-cases (expunge store w s)) [
    | inl thrown ↦ ground (arith, thrown)
    | inr ((v, u, numbers), done) ↦ ground (arith, expunge-Kept store w v s u numbers done)
  ]

  pub store_reply-Left :
      (action : Option StoreAction) (tag : Text) (w : W) (s : ImapSession)
      → IsReady s
      → (set : List Range) → Left (store_reply store action tag w s set)
  unfolding Left store_reply
  store_reply-Left none tag w s h set = h
  store_reply-Left (some action) tag w s h set =
      elim (Option-cases (store_each store action set s.messages w s [])) [
        | inl thrown ↦ ground (arith, thrown)
        | inr ((v, u, lines), done) ↦
            ground (arith, store_each-SameParts store action set s.messages w v s u [] lines done)
      ]

  pub copy_reply-Left :
      (target tag : Text) (w : W) (s : ImapSession)
      → IsReady s
      → (set : List Range) → Left (copy_reply store target tag w s set)
  unfolding Left copy_reply
  copy_reply-Left target tag w s h set = ground arith

  pub handle_store-Left :
      (cmd : Command) (w : W) (s : ImapSession) → IsReady s → Left (handle_store store cmd w s)
  unfolding handle_store
  handle_store-Left cmd w s h =
      if-both Left _ (Left-returned w s _ h)
        (with_set-Left _ w s _ _ h (store_reply-Left _ cmd.tag w s h))

  pub handle_copy-Left :
      (cmd : Command) (w : W) (s : ImapSession) → IsReady s → Left (handle_copy store cmd w s)
  unfolding handle_copy
  handle_copy-Left cmd w s h = if-both Left _ (Left-returned w s _ h) (
      copy_parsed-Left _ _ w s _ _ h
        (λ str target. with_set-Left str w s _ _ h (copy_reply-Left target cmd.tag w s h)))

  select-Left :
      (cmd : Command) (w : W) (s : ImapSession) → IsReady s → Left (handle_select store cmd w s)
  unfolding handle_select
  select-Left cmd w s h =
      let mailbox = mailbox_argument cmd.arguments in
      if-both Left (not (has_login s.state)) (Left-returned w s _ h) (
        if-both Left (is_empty mailbox) (Left-returned w s _ h)
          (replies-Left cmd.tag (select_mailbox store mailbox false w s)
            (λ w' t done. select_mailbox-IsReady store mailbox false w w' s t done h)).0)

  examine-Left :
      (cmd : Command) (w : W) (s : ImapSession) → IsReady s → Left (handle_examine store cmd w s)
  unfolding handle_examine
  examine-Left cmd w s h =
      let mailbox = mailbox_argument cmd.arguments in
      if-both Left (not (has_login s.state)) (Left-returned w s _ h)
        (replies-Left cmd.tag (select_mailbox store mailbox true w s)
          (λ w' t done. select_mailbox-IsReady store mailbox true w w' s t done h)).1

  pub mailboxes-Left :
      (cmd : Command) (w : W) (s : ImapSession)
      → IsReady s
      → Left (handle_select store cmd w s)
        × Left (handle_examine store cmd w s)
        × Left (handle_create store cmd w s)
        × Left (handle_delete store cmd w s)
        × Left (handle_rename store cmd w s)
        × Left (handle_list store cmd w s)
        × Left (handle_status store cmd w s)
        × Left (handle_append cmd w s)
  unfolding Left handle_create handle_delete handle_rename rename_parsed done_or_not handle_list
      handle_status status_reply handle_append
  mailboxes-Left cmd w s h = (
    select-Left cmd w s h,
    examine-Left cmd w s h,
    ground arith,
    ground arith,
    ground arith,
    ground arith,
    ground arith,
    ground arith,
  )

module _ {W : Type 0} (store : Store W) (put_time : ℕ → Text) where
  pub fetch_reply-Left :
      (tag : Text) (items : List FetchItem) (w : W) (s : ImapSession)
      → IsReady s
      → (set : List Range) → Left (fetch_reply store put_time tag items w s set)
  unfolding Left fetch_reply
  fetch_reply-Left tag items w s h set = ground arith

  pub handle_fetch-Left :
      (cmd : Command) (w : W) (s : ImapSession)
      → IsReady s
      → Left (handle_fetch store put_time cmd w s)
  unfolding handle_fetch
  handle_fetch-Left cmd w s h = if-both Left _ (Left-returned w s _ h) (
      with_set-Left _ w s _ _ h (
        fetch_reply-Left cmd.tag
          (parse_fetch_items (first_line (skip_ws (next_word cmd.arguments).1))) w s h))

  pub handle_uid-Left :
      (cmd : Command) (w : W) (s : ImapSession)
      → IsReady s
      → Left (handle_uid store put_time cmd w s)
  unfolding Left handle_uid search_reply
  handle_uid-Left cmd w s h =
      let (word, rest) = next_word cmd.arguments in
      let sub_cmd = upper word in
      let wrapped = record cmd {
        name = sub_cmd;
        arguments = first_line (skip_ws rest);
        type = Command.string_to_type sub_cmd;
      } in
      ground (
        arith,
        handle_fetch-Left wrapped w s h,
        handle_store-Left store wrapped w s h,
        handle_copy-Left store wrapped w s h,
      )

module _ {W : Type 0} where
  pub simple-Left :
      (cmd : Command) (w : W) (s : ImapSession)
      → IsReady s
      → Left (handle_capability cmd w s)
        × Left (handle_noop cmd w s)
        × Left (handle_logout cmd w s)
        × Left (handle_check cmd w s)
  unfolding Left handle_capability handle_noop handle_logout handle_check
  simple-Left cmd w s h = ground arith

  pub handle_search-Left :
      (cmd : Command) (w : W) (s : ImapSession) → IsReady s → Left (handle_search cmd w s)
  unfolding Left handle_search search_reply
  handle_search-Left cmd w s h = ground arith

  pub handle_starttls-Left :
      (cmd : Command) (w : W) (s : ImapSession) → IsReady s → Left (handle_starttls cmd w s)
  unfolding Left handle_starttls upgrade send_line
  handle_starttls-Left cmd w s h = ground arith
