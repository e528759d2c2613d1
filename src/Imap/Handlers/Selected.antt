-- ===== src/Imap/Handlers/Selected.antt =====
-- The handlers of imap/src/imap_commands.cpp for a selected mailbox, but for FETCH.
use email_server.Base.{
  ℕ, Bool, true, false, not, List, [], ◌∷◌, ◌++◌, Option, none, some, if◌then◌else◌,
}
use email_server.Imap.Action.{StoreType, StoreAction, parse_store_action}
use email_server.Imap.Command.{Command}
use email_server.Imap.Handlers.Fetching.{with_set}
use email_server.Imap.Handlers.{Outcome, reply, is_selected}
use email_server.Imap.Mailbox.{expunge, close_mailbox}
use email_server.Imap.Messages.{search, set_flags, add_flags, remove_flags, get_message_by_sequence}
use email_server.Imap.Response
use email_server.Imap.Search.{parse_search_criteria}
use email_server.Imap.Sequence.{Range, contains}
use email_server.Imap.Storage.{Store}
use email_server.Imap.Strings.{parse_atom, parse_string, format_flags}
use email_server.Imap.{ImapSession, CachedMessage}
use email_server.Text.Numbers.{to_string}
use email_server.Text.Stream.{next_word, skip_ws, first_line}
use email_server.Text.{Text, codes}

abbrev none_selected : {W : Type 0} → Command → W → ImapSession → Outcome W
none_selected cmd w s = reply w s (Response.bad cmd.tag (codes "No mailbox selected"))

unfoldable pub expunge_lines : List ℕ → List Text
expunge_lines [] = []
expunge_lines (seq ∷ rest) =
    Response.untagged (to_string seq ++ codes " EXPUNGE") ∷ expunge_lines rest

-- The numbers that a search found.
unfoldable pub search_numbers : List ℕ → Text
search_numbers [] = []
search_numbers (n ∷ rest) = b' ' ∷ (to_string n ++ search_numbers rest)

-- The search of SEARCH and of UID SEARCH, with the text that ends it.
unfoldable pub search_reply : {W : Type 0} → Bool → Text → Text → Text → W → ImapSession → Outcome W
unfolding search search_numbers parse_search_criteria
search_reply use_uid completed tag arguments w s =
    elim (search (parse_search_criteria arguments) use_uid s.messages) [
      | none ↦ none
      | some results ↦ some (
        w,
        s,
        Response.untagged (codes "SEARCH" ++ search_numbers results)
            ∷ Response.ok tag completed
            ∷ [],
      )
    ]

unfoldable pub handle_search : {W : Type 0} → Command → W → ImapSession → Outcome W
unfolding search_reply
handle_search cmd w s =
    if not (is_selected s.state)
    then none_selected cmd w s
    else search_reply false (codes "SEARCH completed") cmd.tag cmd.arguments w s

unfoldable pub handle_check : {W : Type 0} → Command → W → ImapSession → Outcome W
handle_check cmd w s =
    if not (is_selected s.state)
    then none_selected cmd w s
    else reply w s (Response.ok cmd.tag (codes "CHECK completed"))

-- The types of STORE that send no flags back.
abbrev pub silent : StoreType → Bool
silent StoreType.flags_silent = true
silent StoreType.plus_flags_silent = true
silent StoreType.minus_flags_silent = true
silent _ = false

-- The line that STORE sends back for a message.
unfoldable pub updated_line : ℕ → ImapSession → List Text
updated_line seq s = elim (get_message_by_sequence seq s) [
  | none ↦ []
  | some updated ↦
      Response.untagged
        (to_string seq ++ (codes " FETCH (FLAGS " ++ (format_flags updated.flags ++ codes ")")))
      ∷ []
]

-- Whether the command may go on to a set of messages: both arguments of COPY are there.
unfoldable pub copy_parsed {ℓ} :
    {A : Type ℓ} → Option Text → Option Text → A → (Text → Text → Option A) → Option A
copy_parsed (some seq_str) (some mailbox) usage go = go seq_str mailbox
copy_parsed _ _ usage go = some usage

module _ {W : Type 0} (store : Store W) where
  unfoldable pub handle_close : Command → W → ImapSession → Outcome W
  unfolding close_mailbox
  handle_close cmd w s =
      if not (is_selected s.state) then none_selected cmd w s else elim (expunge store w s) [
        | none ↦ none
        | some (w', expunged, numbers) ↦
            reply w' (close_mailbox expunged) (Response.ok cmd.tag (codes "CLOSE completed"))
      ]

  unfoldable pub handle_expunge : Command → W → ImapSession → Outcome W
  unfolding expunge_lines
  handle_expunge cmd w s =
      if not (is_selected s.state) then none_selected cmd w s else elim (expunge store w s) [
        | none ↦ none
        | some (w', expunged, numbers) ↦ some (
          w',
          expunged,
          expunge_lines numbers ++ Response.ok cmd.tag (codes "EXPUNGE completed") ∷ [],
        )
      ]

  -- The switch of STORE over its type.
  unfoldable pub change_flags :
      StoreType → ℕ → List Text → W → ImapSession → Option (W × ImapSession × Bool)
  unfolding set_flags add_flags remove_flags
  change_flags StoreType.flags = set_flags store
  change_flags StoreType.flags_silent = set_flags store
  change_flags StoreType.plus_flags = add_flags store
  change_flags StoreType.plus_flags_silent = add_flags store
  change_flags StoreType.minus_flags = remove_flags store
  change_flags StoreType.minus_flags_silent = remove_flags store

  -- The loop of STORE over the messages that there were, with the lines sent so far.
  unfoldable pub store_each :
      StoreAction → List Range → List CachedMessage → W → ImapSession → List Text → Outcome W
  unfolding change_flags updated_line
  store_each action set [] w s responses = some (w, s, responses)
  store_each action set (msg ∷ rest) w s responses = elim (contains set msg.sequence_number) [
    | false ↦ store_each action set rest w s responses
    | true ↦ elim (change_flags action.type msg.sequence_number action.flags w s) [
      | none ↦ none
      | some (w', s', done) ↦
          store_each action set rest w' s'
            (responses ++ (if silent action.type then [] else updated_line msg.sequence_number s'))
    ]
  ]

  unfoldable pub store_reply : Option StoreAction → Text → W → ImapSession → List Range → Outcome W
  unfolding store_each
  store_reply none tag w s set = reply w s (Response.bad tag (codes "Invalid STORE action"))
  store_reply (some action) tag w s set = elim (store_each action set s.messages w s []) [
    | none ↦ none
    | some (w', s', responses) ↦
        some (w', s', responses ++ Response.ok tag (codes "STORE completed") ∷ [])
  ]

  unfoldable pub handle_store : Command → W → ImapSession → Outcome W
  unfolding store_reply with_set
  handle_store cmd w s =
      let (seq_str, rest) = next_word cmd.arguments in
      let action = parse_store_action (first_line (skip_ws rest)) in
      if not (is_selected s.state)
      then none_selected cmd w s
      else with_set seq_str (w, s, Response.bad cmd.tag (codes "Invalid sequence set") ∷ [])
          (store_reply action cmd.tag w s)

  -- The loop of COPY; the open directory is asked for only at a message of the set.
  unfoldable pub copy_each :
      Option (Text × Text) → Text → Text → List Range → List CachedMessage → W → Option W
  copy_each home from to set [] w = some w
  copy_each home from to set (msg ∷ rest) w = elim (contains set msg.sequence_number) [
    | false ↦ copy_each home from to set rest w
    | true ↦ elim home [
      | none ↦ none
      | some (domain, user) ↦ elim (store.copy_message w domain user msg.unique_id from to) [
        | none ↦ none
        | some (w', done) ↦ copy_each (some (domain, user)) from to set rest w'
      ]
    ]
  ]

  unfoldable pub copy_reply : Text → Text → W → ImapSession → List Range → Outcome W
  unfolding copy_each
  copy_reply mailbox tag w s set = elim s.selected [
    | none ↦ reply w s (Response.refused tag (codes "No mailbox selected"))
    | some selected ↦ elim (copy_each s.maildir selected.name mailbox set s.messages w) [
      | none ↦ none
      | some w' ↦ reply w' s (Response.ok tag (codes "COPY completed"))
    ]
  ]

  unfoldable pub handle_copy : Command → W → ImapSession → Outcome W
  unfolding copy_parsed copy_reply with_set
  handle_copy cmd w s =
      let (seq_str_opt, behind) = parse_atom cmd.arguments in
      let (mailbox, rest) = parse_string behind in
      if not (is_selected s.state)
      then none_selected cmd w s
      else copy_parsed seq_str_opt mailbox
          (w, s, Response.bad cmd.tag (codes "Usage: COPY sequence mailbox") ∷ [])
          (λ seq_str target.
            with_set seq_str (w, s, Response.bad cmd.tag (codes "Invalid sequence set") ∷ [])
              (copy_reply target cmd.tag w s))
