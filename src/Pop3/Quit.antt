-- ===== src/Pop3/Quit.antt =====
-- About what QUIT deletes.
use email_server.Base.{
  ℕ, suc, ◌+◌, ◌-◌, ◌≤◌, ◌<◌, ◌≡◌, refl, sym, ◌∙◌, false, inl, inr, List, [], ◌∷◌, ◌++◌, Option,
  none, some, arith, ltb, if◌then◌else◌, get_elem?, length, Bool-cases, ltb→lt, subst,
}
use email_server.Pop3.Handlers.{handle_quit}
use email_server.Pop3.Storage.{Store}
use email_server.Pop3.{
  Pop3Session, MessageInfo, transaction, member, insert, delete_one, expunge_all, expunge,
  count_from, total_messages,
}
use email_server.Text.{Text}

-- Ascending, from the first number on and below the second.
abbrev pub Between : ℕ → ℕ → List ℕ → Type 0
Between low high [] = Unit
Between low high (d ∷ ds) = (low ≤ d) × (d < high) × Between (suc d) high ds

-- The marks of a session.
abbrev pub MarksInOrder : Pop3Session → Type 0
MarksInOrder s = Between 1 (1 + length s.messages) s.deleted_messages

pub Between-insert :
    (n low high : ℕ) (ds : List ℕ)
    → low ≤ n
    → n < high
    → Between low high ds
    → Between low high (insert n ds)
unfolding insert
Between-insert n low high [] h k b = (h, k, tt)
Between-insert n low high (d ∷ ds) h k (p, q, r) = ground (arith, Between-insert n (suc d) high ds)

-- The identifiers of the messages whose number is marked, from a number on.
abbrev pub marked_ids : ℕ → List MessageInfo → List ℕ → List Text
marked_ids k [] ds = []
marked_ids k (m ∷ ms) ds =
    if member k ds then m.unique_id ∷ marked_ids (suc k) ms ds else marked_ids (suc k) ms ds

-- The identifiers that the marks lead to, one after the other.
abbrev id_of : Option MessageInfo → List Text
id_of none = []
id_of (some m) = m.unique_id ∷ []

abbrev targets : ℕ → List MessageInfo → List ℕ → List Text
targets k ms [] = []
targets k ms (d ∷ ds) = id_of (get_elem? ms (d - k)) ++ targets k ms ds

member-Between :
    (k high : ℕ) (ds : List ℕ) (low : ℕ) → k < low → Between low high ds → member k ds ≡ false
unfolding member
member-Between k high [] low h b = refl
member-Between k high (d ∷ ds) low h (p, q, r) =
    ground (arith, member-Between k high ds (suc d) (omega arith) r)

targets-shift :
    (k low high : ℕ) (m : MessageInfo) (ms : List MessageInfo) (ds : List ℕ)
    → k < low
    → Between low high ds
    → targets k (m ∷ ms) ds ≡ targets (suc k) ms ds
targets-shift k low high m ms [] h b = refl
targets-shift k low high m ms (d ∷ ds) h (p, q, r) =
    let place : d - k ≡ suc (d - suc k) = omega arith in
    rw (place, targets-shift k (suc d) high m ms ds (omega arith) r) refl

marked_ids-below :
    (k d : ℕ) (ms : List MessageInfo) (ds : List ℕ)
    → d < k
    → marked_ids k ms (d ∷ ds) ≡ marked_ids k ms ds
unfolding member
marked_ids-below k d [] ds h = refl
marked_ids-below k d (m ∷ ms) ds h = ground (arith, marked_ids-below (suc k) d ms ds (omega arith))

-- Marks in order lead to the messages that are marked, each once.
targets-marked_ids :
    (k : ℕ) (ms : List MessageInfo) (ds : List ℕ)
    → Between k (k + length ms) ds
    → targets k ms ds ≡ marked_ids k ms ds
unfolding member
targets-marked_ids k [] [] b = refl
targets-marked_ids k [] (d ∷ ds) (p, q, r) = absurd (omega arith)
targets-marked_ids k (m ∷ ms) [] b = targets-marked_ids (suc k) ms [] tt
targets-marked_ids k (m ∷ ms) (d ∷ ds) (p, q, r) =
    let high : ℕ = k + suc (length ms) in
    let same : high ≡ suc k + length ms = omega arith in
    elim (Bool-cases (ltb k d)) [
      | inl later ↦
          let above : k < d = ltb→lt k d later in
          let b : Between (suc k) high (d ∷ ds) = (above, q, r) in
          targets-shift k (suc k) high m ms (d ∷ ds) (omega arith) b
          ∙ targets-marked_ids (suc k) ms (d ∷ ds) (subst (λ h. Between (suc k) h (d ∷ ds)) same b)
          ∙ ground (arith, member-Between k high (d ∷ ds) (suc k) (omega arith) b)
      | inr now ↦
          let here : d ≡ k = ground arith in
          let b : Between (suc k) high ds = subst (λ e. Between (suc e) high ds) here r in
          let onward : targets k (m ∷ ms) ds ≡ marked_ids (suc k) ms (d ∷ ds) =
            targets-shift k (suc k) high m ms ds (omega arith) b
            ∙ targets-marked_ids (suc k) ms ds (subst (λ h. Between (suc k) h ds) same b)
            ∙ sym (marked_ids-below (suc k) d ms ds (omega (arith, here))) in
          let none_before : d - k ≡ 0 = omega (arith, here) in
          rw (none_before, onward) (ground (arith, here))
    ]

-- The messages that are counted, and those that are marked.
count_from-marked_ids :
    (k : ℕ) (ms : List MessageInfo) (ds : List ℕ)
    → count_from k ms ds + length (marked_ids k ms ds) ≡ length ms
unfolding count_from
count_from-marked_ids k [] ds = refl
count_from-marked_ids k (m ∷ ms) ds = ground (arith, count_from-marked_ids (suc k) ms ds)

-- The messages with these identifiers are deleted one after the other, whatever becomes of each; the
-- number is that of the deletions that were done.
unfoldable pub delete_each : {W : Type 0} → Store W → Text → Text → List Text → W → W × ℕ
delete_each store domain user [] w = (w, 0)
delete_each store domain user (id ∷ ids) w =
    let (w1, gone) = store.delete_message w domain user id in
    let (w2, count) = delete_each store domain user ids w1 in
    (w2, if gone then suc count else count)

module _ {W : Type 0} (store : Store W) where
  -- The loop behind one message, from what holds of it behind that.
  behind_one :
      (o : Option MessageInfo) (ds : List ℕ) (ms : List MessageInfo) (domain user : Text) (w : W)
      (count : ℕ)
      → ((v : W) (n : ℕ)
          → ((expunge_all store ds ms domain user v n).0
              ≡ (delete_each store domain user (targets 1 ms ds) v).0)
            × ((expunge_all store ds ms domain user v n).1
                ≡ n + (delete_each store domain user (targets 1 ms ds) v).1))
      → let (v, n) = delete_one store o domain user w count in
        ((expunge_all store ds ms domain user v n).0
          ≡ (delete_each store domain user (id_of o ++ targets 1 ms ds) w).0)
        × ((expunge_all store ds ms domain user v n).1
            ≡ count + (delete_each store domain user (id_of o ++ targets 1 ms ds) w).1)
  unfolding delete_one delete_each
  behind_one none ds ms domain user w count h = h w count
  behind_one (some m) ds ms domain user w count h =
      let (v, gone) = store.delete_message w domain user m.unique_id in
      let there = h v (if gone then count + 1 else count) in (there.0, ground (arith, there.1))

  expunge_all-delete_each :
      (ds : List ℕ) (ms : List MessageInfo) (domain user : Text) (w : W) (count : ℕ)
      → ((expunge_all store ds ms domain user w count).0
          ≡ (delete_each store domain user (targets 1 ms ds) w).0)
        × ((expunge_all store ds ms domain user w count).1
            ≡ count + (delete_each store domain user (targets 1 ms ds) w).1)
  unfolding expunge_all delete_each delete_one
  expunge_all-delete_each [] ms domain user w count = (refl, omega arith)
  expunge_all-delete_each (d ∷ ds) ms domain user w count =
      behind_one (get_elem? ms (d - 1)) ds ms domain user w count
        (expunge_all-delete_each ds ms domain user)

  expunge-some :
      (w : W) (s : Pop3Session) (domain user : Text)
      → s.maildir ≡ some (domain, user)
      → expunge store w s ≡ expunge_all store s.deleted_messages s.messages domain user w 0
  unfolding expunge
  expunge-some w s domain user o = rw (o, expunge) refl

  handle_quit-transaction :
      (w : W) (s : Pop3Session)
      → s.state ≡ transaction
      → (handle_quit store w s).0 ≡ (expunge store w s).0
  unfolding handle_quit expunge
  handle_quit-transaction w s q = ground arith

  -- QUIT in a transaction with an open mail directory and marks in order asks for the deletion of the
  -- messages that are marked, each once and in their order, and of no other, also behind a deletion
  -- that is not done; `expunge` counts those that are done, and the marked messages are those that
  -- STAT does not count.
  pub handle_quit-marked_ids :
      (w : W) (s : Pop3Session) (domain user : Text)
      → s.state ≡ transaction
      → s.maildir ≡ some (domain, user)
      → MarksInOrder s
      → let ids = marked_ids 1 s.messages s.deleted_messages in
        ((handle_quit store w s).0 ≡ (delete_each store domain user ids w).0)
        × ((expunge store w s).1 ≡ (delete_each store domain user ids w).1)
        × (total_messages s + length ids ≡ length s.messages)
  handle_quit-marked_ids w s domain user q o b =
      let (l, c) = expunge_all-delete_each s.deleted_messages s.messages domain user w 0 in
      let same = targets-marked_ids 1 s.messages s.deleted_messages b in
      (
        rw (handle_quit-transaction w s q, expunge-some w s domain user o, sym same) l,
        rw (expunge-some w s domain user o, sym same) (omega (arith, c)),
        count_from-marked_ids 1 s.messages s.deleted_messages,
      )
