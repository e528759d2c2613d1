-- ===== src/Pop3/Marks.antt =====
-- The deletion marks: what they do to the counts, and to a message's own entry.
use email_server.Base.{
  ℕ, zero, suc, inl, inr, Option-cases, ◌+◌, ◌-◌, ◌≤◌, ◌<◌, ◌≡◌, refl, true, false, ◌||◌, List, [],
  ◌∷◌, some, arith, ◌==◌, get_elem?, length,
}
use email_server.Pop3.{
  Pop3Session, MessageInfo, member, insert, count_from, size_from, in_range, get_message,
  mark_deleted, reset_deleted, total_messages, total_size,
}

pub member-insert : (n m : ℕ) (ds : List ℕ) → member n (insert m ds) ≡ (n == m || member n ds)
unfolding member insert
member-insert n m [] = refl
member-insert n m (d ∷ ds) = ground (arith, member-insert n m ds)

-- A number outside of those that are counted changes nothing.
count_from-insert_below :
    (k : ℕ) (ms : List MessageInfo) (n : ℕ) (ds : List ℕ)
    → n < k
    → count_from k ms (insert n ds) ≡ count_from k ms ds
unfolding count_from
count_from-insert_below k [] n ds h = refl
count_from-insert_below k (m ∷ ms) n ds h =
    ground (arith, member-insert k n ds, count_from-insert_below (suc k) ms n ds (omega arith))

size_from-insert_below :
    (k : ℕ) (ms : List MessageInfo) (n : ℕ) (ds : List ℕ)
    → n < k
    → size_from k ms (insert n ds) ≡ size_from k ms ds
unfolding size_from
size_from-insert_below k [] n ds h = refl
size_from-insert_below k (m ∷ ms) n ds h =
    ground (arith, member-insert k n ds, size_from-insert_below (suc k) ms n ds (omega arith))

-- Marking the message at a place takes it out of the count.
count_from-insert :
    (k : ℕ) (ms : List MessageInfo) (i n : ℕ) (ds : List ℕ) {info : MessageInfo}
    → get_elem? ms i ≡ some info
    → n ≡ k + i
    → member n ds ≡ false
    → count_from k ms (insert n ds) + 1 ≡ count_from k ms ds
unfolding count_from
count_from-insert k [] i n ds g e q = cc
count_from-insert k (m ∷ ms) zero n ds g e q =
    let same : n ≡ k = omega arith in
    ground (arith, member-insert k n ds, count_from-insert_below (suc k) ms n ds)
count_from-insert k (m ∷ ms) (suc i) n ds g e q =
    ground (arith, member-insert k n ds, count_from-insert (suc k) ms i n ds g)

-- And its size out of the sum.
size_from-insert :
    (k : ℕ) (ms : List MessageInfo) (i n : ℕ) (ds : List ℕ) {info : MessageInfo}
    → get_elem? ms i ≡ some info
    → n ≡ k + i
    → member n ds ≡ false
    → size_from k ms (insert n ds) + info.size ≡ size_from k ms ds
unfolding size_from
size_from-insert k [] i n ds g e q = cc
size_from-insert k (m ∷ ms) zero n ds g e q =
    let same : n ≡ k = omega arith in
    ground (arith, member-insert k n ds, size_from-insert_below (suc k) ms n ds)
size_from-insert k (m ∷ ms) (suc i) n ds g e q =
    ground (arith, member-insert k n ds, size_from-insert (suc k) ms i n ds g)

count_from-nil : (k : ℕ) (ms : List MessageInfo) → count_from k ms [] ≡ length ms
unfolding count_from member
count_from-nil k [] = refl
count_from-nil k (m ∷ ms) = omega (arith, count_from-nil (suc k) ms)

-- What a message that is found tells of its place and its mark.
pub get_message-inversion :
    (number : ℕ) (s : Pop3Session) {info : MessageInfo}
    → get_message number s ≡ some info
    → (stored : MessageInfo) × (in_range number s.messages ≡ true)
      × (1 ≤ number)
      × (get_elem? s.messages (number - 1) ≡ some stored)
      × (info ≡ record stored { deleted = member number s.deleted_messages })
unfolding get_message
get_message-inversion number s e = elim (Option-cases (get_elem? s.messages (number - 1))) [
  | inl missing ↦ absurd (ground arith)
  | inr (stored, found) ↦ (stored, ground arith, ground arith, found, ground arith)
]

abbrev marked : ℕ → Pop3Session → Pop3Session
marked number s = record s { deleted_messages = insert number s.deleted_messages }

mark_deleted-in_range :
    (number : ℕ) (s : Pop3Session)
    → in_range number s.messages ≡ true
    → mark_deleted number s ≡ (marked number s, true)
unfolding mark_deleted
mark_deleted-in_range number s range = ground arith

get_message-marked :
    (number : ℕ) (s : Pop3Session) (stored : MessageInfo)
    → in_range number s.messages ≡ true
    → get_elem? s.messages (number - 1) ≡ some stored
    → get_message number (marked number s) ≡ some (record stored { deleted = true })
unfolding get_message
get_message-marked number s stored range at =
    ground (arith, member-insert number number s.deleted_messages)

-- DELE of a message that is there and not marked: STAT counts one message less and its size less,
-- and the message is there with its mark, at its number, identifier and size.
pub mark_deleted-totals :
    (number : ℕ) (s : Pop3Session) (info : MessageInfo)
    → get_message number s ≡ some info
    → info.deleted ≡ false
    → ((mark_deleted number s).1 ≡ true)
      × (total_messages (mark_deleted number s).0 + 1 ≡ total_messages s)
      × (total_size (mark_deleted number s).0 + info.size ≡ total_size s)
      × (get_message number (mark_deleted number s).0 ≡ some (record info { deleted = true }))
mark_deleted-totals number s info found unmarked =
    let (stored, range, positive, at, e) = get_message-inversion number s found in
    let fresh : member number s.deleted_messages ≡ false = cc in
    let place : number ≡ 1 + (number - 1) = omega arith in
    let size : info.size ≡ stored.size = cc in
    rw (mark_deleted-in_range number s range) (
      refl,
      count_from-insert 1 s.messages (number - 1) number s.deleted_messages at place fresh,
      rw size (size_from-insert 1 s.messages (number - 1) number s.deleted_messages at place fresh),
      rw (get_message-marked number s stored range at) (ground arith),
    )

abbrev pub octets_of : List MessageInfo → ℕ
octets_of [] = 0
octets_of (m ∷ ms) = m.size + octets_of ms

size_from-nil : (k : ℕ) (ms : List MessageInfo) → size_from k ms [] ≡ octets_of ms
unfolding size_from member
size_from-nil k [] = refl
size_from-nil k (m ∷ ms) = omega (arith, size_from-nil (suc k) ms)

-- RSET: all messages count again, with all of their sizes, and each message in range is there
-- without a mark.
reset_deleted-totals :
    (number : ℕ) (s : Pop3Session) (stored : MessageInfo)
    → in_range number s.messages ≡ true
    → get_elem? s.messages (number - 1) ≡ some stored
    → (total_messages (reset_deleted s) ≡ length s.messages)
      × (total_size (reset_deleted s) ≡ octets_of s.messages)
      × (get_message number (reset_deleted s) ≡ some (record stored { deleted = false }))
unfolding reset_deleted get_message member
reset_deleted-totals number s stored range at =
    (count_from-nil 1 s.messages, size_from-nil 1 s.messages, ground arith)
