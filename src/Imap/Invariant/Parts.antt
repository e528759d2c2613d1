-- ===== src/Imap/Invariant/Parts.antt =====
-- How the operations of a session keep its directory and its mailbox.
use email_server.Base.{
  ℕ, ◌≡◌, refl, Bool, true, false, inl, inr, List, [], ◌∷◌, ◌++◌, Option, none, some, arith,
  Option-cases, if◌then◌else◌,
}
use email_server.Imap.Action.{StoreAction, StoreType}
use email_server.Imap.Handlers.Selected.{silent, updated_line, store_each, change_flags}
use email_server.Imap.Mailbox.{
  add_messages, update_mailbox_counts, clear_messages, load_messages, open_maildir, select_mailbox,
  expunge, choose,
}
use email_server.Imap.Messages.{set_flags, add_flags, remove_flags}
use email_server.Imap.Protocol.{send_lines}
use email_server.Imap.Sequence.{Range}
use email_server.Imap.Storage.{Store}
use email_server.Imap.{
  ImapSession, CachedMessage, SessionState, next_u32, authenticated_state, selected_state,
  send_line,
}
use email_server.Maildir.{Message, MailboxInfo}
use email_server.Text.{Text}

abbrev pub is_some {ℓ} : {A : Type ℓ} → Option A → Bool
is_some none = false
is_some (some a) = true

-- With a login the directory is open, and in SELECTED a mailbox is there.
abbrev pub ready_state : SessionState → Bool → Bool → Bool
ready_state authenticated_state opened chosen = opened
ready_state selected_state true chosen = chosen
ready_state selected_state false chosen = false
ready_state _ opened chosen = true

abbrev pub IsReady : ImapSession → Type 0
IsReady s = ready_state s.state (is_some s.maildir) (is_some s.selected) ≡ true

-- The parts of a session that the invariant speaks of are the same in another one.
abbrev pub SameParts : ImapSession → ImapSession → Type 0
SameParts t s =
    (t.state ≡ s.state) × (t.maildir ≡ s.maildir) × (is_some t.selected ≡ is_some s.selected)

pub add_messages-state :
    (seq : ℕ) (ms : List Message) (s : ImapSession) → (add_messages seq ms s).state ≡ s.state
unfolding add_messages
add_messages-state seq [] s = refl
add_messages-state seq (msg ∷ rest) s = add_messages-state (next_u32 seq) rest _

pub add_messages-maildir :
    (seq : ℕ) (ms : List Message) (s : ImapSession) → (add_messages seq ms s).maildir ≡ s.maildir
unfolding add_messages
add_messages-maildir seq [] s = refl
add_messages-maildir seq (msg ∷ rest) s = add_messages-maildir (next_u32 seq) rest _

pub add_messages-selected :
    (seq : ℕ) (ms : List Message) (s : ImapSession) → (add_messages seq ms s).selected ≡ s.selected
unfolding add_messages
add_messages-selected seq [] s = refl
add_messages-selected seq (msg ∷ rest) s = add_messages-selected (next_u32 seq) rest _

pub send_lines-SameParts : (ls : List Text) (s : ImapSession) → SameParts (send_lines ls s) s
unfolding send_lines send_line
send_lines-SameParts [] s = (refl, refl, refl)
send_lines-SameParts (l ∷ ls) s = send_lines-SameParts ls (send_line l s)

module _ {W : Type 0} (store : Store W) where
  pub load_messages-SameParts :
      (w : W) (s t : ImapSession) → load_messages store w s ≡ some t → SameParts t s
  unfolding load_messages clear_messages update_mailbox_counts
  load_messages-SameParts w s t e =
      grind (arith, add_messages-state, add_messages-maildir, add_messages-selected)

module _ {W : Type 0} (store : Store W) where
  pub choose-chosen :
      (name : Text) (read_only : Bool) (info : MailboxInfo) (w : W) (s t : ImapSession)
      → choose store name read_only info w s ≡ some t
      → t.state ≡ selected_state × t.maildir ≡ s.maildir × is_some (t.selected) ≡ true
  unfolding choose
  choose-chosen name read_only info w s t e =
      let chosen = record s {
        selected = some (record {
          name = name;
          read_only = read_only;
          uid_validity = info.uid_validity;
          uid_next = info.uid_next;
          exists = info.total_messages;
          recent = info.recent_messages;
          unseen = info.unseen_messages;
        });
      } in
      elim (Option-cases (load_messages store w chosen)) [
        | inl thrown ↦ ground (arith, thrown)
        | inr (u, loaded) ↦ ground (arith, loaded, load_messages-SameParts store w chosen u loaded)
      ]

  pub select_mailbox-IsReady :
      (name : Text) (read_only : Bool) (w w' : W) (s t : ImapSession) (done : Bool)
      → IsReady s
      → select_mailbox store name read_only w s ≡ some (w', t, done)
      → IsReady t
  unfolding select_mailbox
  select_mailbox-IsReady name read_only w w' s t done h e = grind (arith, choose-chosen)

  pub open_maildir-opened :
      (w w' : W) (s t : ImapSession)
      → open_maildir store w s ≡ some (w', t, true)
      → is_some (t.maildir) ≡ true
  unfolding open_maildir
  open_maildir-opened w w' s t e = ground arith

  pub open_maildir-state :
      (w w' : W) (s t : ImapSession) (is_open : Bool)
      → open_maildir store w s ≡ some (w', t, is_open)
      → t.state ≡ s.state
  unfolding open_maildir
  open_maildir-state w w' s t is_open e = ground arith

  pub expunge-Kept :
      (w w' : W) (s t : ImapSession) (numbers : List ℕ)
      → expunge store w s ≡ some (w', t, numbers)
      → SameParts t s
  unfolding expunge
  expunge-Kept w w' s t numbers e = elim (Option-cases (load_messages store w' s)) [
    | inl thrown ↦ ground (arith, thrown)
    | inr (u, loaded) ↦ ground (arith, loaded, load_messages-SameParts store w' s u loaded)
  ]

  pub set_flags-SameParts :
      (seq : ℕ) (flags : List Text) (w w' : W) (s t : ImapSession) (done : Bool)
      → set_flags store seq flags w s ≡ some (w', t, done)
      → SameParts t s
  unfolding set_flags
  set_flags-SameParts seq flags w w' s t done e = ground arith

  pub change_flags-SameParts :
      (type : StoreType) (seq : ℕ) (flags : List Text) (w w' : W) (s t : ImapSession) (done : Bool)
      → change_flags store type seq flags w s ≡ some (w', t, done)
      → SameParts t s
  unfolding change_flags add_flags remove_flags
  change_flags-SameParts type seq flags w w' s t done e = grind (arith, set_flags-SameParts)

  pub store_each-SameParts :
      (action : StoreAction) (set : List Range) (ms : List CachedMessage) (w w' : W)
      (s t : ImapSession) (lines out : List Text)
      → store_each store action set ms w s lines ≡ some (w', t, out)
      → SameParts t s
  unfolding store_each
  store_each-SameParts action set [] w w' s t lines out e = ground arith
  store_each-SameParts action set (msg ∷ rest) w w' s t lines out e =
      elim (Option-cases (change_flags store action.type msg.sequence_number action.flags w s)) [
        | inl thrown ↦ ground (arith, store_each-SameParts action set rest w w' s t lines out)
        | inr ((v, u, done), next) ↦
            let same =
              change_flags-SameParts action.type msg.sequence_number action.flags w v s u done
                next in
            ground (
              arith,
              same,
              store_each-SameParts action set rest w w' s t lines out,
              store_each-SameParts action set rest v w' u t
                  (lines ++ (if silent action.type then [] else updated_line msg.sequence_number u))
                  out,
            )
      ]
