-- ===== src/Maildir/Names/Laws.antt =====
-- What can be read again of the name of a file, and where a mailbox's directory lies.
use email_server.Base.{
  ℕ, ◌+◌, ◌≡◌, ◌≢◌, ◌<◌, refl, ap, ◌∙◌, false, List, [], ◌∷◌, ◌++◌, none, some, ltb, ◌==◌, All,
  arith, length, drop, take-append_length, ◌↔◌, ◌⊎◌, if◌then◌else◌, append-nil, append_assoc, sym,
  subst, suc,
}
use email_server.Maildir.Names.{
  flags_to_info, parse_flags, unique_id_of, mailbox_folder, replace, is_inbox,
}
use email_server.Text.Sets.{insert, insert_all}
use email_server.Text.{Text, codes, find_if, find_char, find_text, starts_with}

abbrev pub NoColon : Text → Type 0
NoColon = All (λ c. (c == b':') ≡ false)

-- In ascending order, each flag once: what a `std::set` holds.
abbrev pub Ascending : List ℕ → Type 0
Ascending [] = Unit
Ascending (c ∷ s) = All (λ d. c < d) s × Ascending s

find_text-append :
    (id rest : Text)
    → NoColon id
    → find_text (b':' ∷ b'2' ∷ b',' ∷ []) (id ++ (b':' ∷ b'2' ∷ b',' ∷ rest)) ≡ some (length id)
unfolding find_text starts_with
find_text-append [] rest h = ground arith
find_text-append (c ∷ id) rest h = ground (arith, find_text-append id rest h.1)

pub find_text-none : (id : Text) → NoColon id → find_text (b':' ∷ b'2' ∷ b',' ∷ []) id ≡ none
unfolding find_text starts_with
find_text-none [] h = refl
find_text-none (c ∷ id) h = ground (arith, find_text-none id h.1)

find_char-append :
    (id rest : Text) → NoColon id → find_char b':' (id ++ (b':' ∷ rest)) ≡ some (length id)
unfolding find_if
find_char-append [] rest h = ground arith
find_char-append (c ∷ id) rest h = ground (arith, find_char-append id rest h.1)

find_char-none : (id : Text) → NoColon id → find_char b':' id ≡ none
unfolding find_if
find_char-none [] h = refl
find_char-none (c ∷ id) h = ground (arith, find_char-none id h.1)

drop-marker : (id rest : Text) → drop (length id + 3) (id ++ (b':' ∷ b'2' ∷ b',' ∷ rest)) ≡ rest
drop-marker [] rest = refl
drop-marker (c ∷ id) rest =
    let more : suc (length id) + 3 ≡ suc (length id + 3) = omega arith in
    rw more (drop-marker id rest)

All_last : (P : ℕ → Type 0) (xs : List ℕ) (x : ℕ) → All P (xs ++ x ∷ []) → P x
All_last P [] x h = h.0
All_last P (y ∷ xs) x h = All_last P xs x h.1

All-front :
    (P : ℕ → Type 0) (xs : List ℕ) (x : ℕ) (ys : List ℕ)
    → All P (xs ++ x ∷ ys)
    → All P (xs ++ x ∷ [])
All-front P [] x ys h = (h.0, tt)
All-front P (y ∷ xs) x ys h = (h.0, All-front P xs x ys h.1)

Ascending-front :
    (xs : List ℕ) (x : ℕ) (ys : List ℕ) → Ascending (xs ++ x ∷ ys) → Ascending (xs ++ x ∷ [])
Ascending-front [] x ys h = (tt, tt)
Ascending-front (y ∷ xs) x ys h = (All-front (λ d. y < d) xs x ys h.0, Ascending-front xs x ys h.1)

insert_last : (x : ℕ) (xs : List ℕ) → Ascending (xs ++ x ∷ []) → insert ltb x xs ≡ xs ++ x ∷ []
unfolding insert
insert_last x [] h = refl
insert_last x (y ∷ xs) h = ground (arith, All_last (λ d. y < d) xs x h.0, insert_last x xs h.1)

insert_all-Ascending : (xs ys : List ℕ) → Ascending (ys ++ xs) → insert_all ltb xs ys ≡ ys ++ xs
unfolding insert_all
insert_all-Ascending [] ys h = sym (append-nil ys)
insert_all-Ascending (x ∷ xs) ys h =
    let regrouped : (ys ++ x ∷ []) ++ xs ≡ ys ++ x ∷ xs = append_assoc ys (x ∷ []) xs in
    let last = insert_last x ys (Ascending-front ys x xs h) in
    rw last (insert_all-Ascending xs (ys ++ x ∷ []) (subst Ascending (sym regrouped) h) ∙ regrouped)

pub unique_id_of-colon : (id rest : Text) → NoColon id → unique_id_of (id ++ (b':' ∷ rest)) ≡ id
unfolding unique_id_of
unique_id_of-colon id rest h =
    rw (find_char-append id rest h, unique_id_of) (take-append_length id (b':' ∷ rest))

-- From the name of a file that is made of an identifier without a colon and of a set of flags, the
-- same identifier and the same flags are read.
pub names-roundtrip :
    (id : Text) (flags : List ℕ)
    → NoColon id
    → Ascending flags
    → (unique_id_of (id ++ flags_to_info flags) ≡ id)
      × (parse_flags (id ++ flags_to_info flags) ≡ flags)
unfolding unique_id_of parse_flags flags_to_info
names-roundtrip id [] h a =
    let same = append-nil id in
    rw (same)
      (rw (find_char-none id h, unique_id_of) refl, rw (find_text-none id h, parse_flags) refl)
names-roundtrip id (flag ∷ flags) h a =
    let marker = find_text-append id (flag ∷ flags) h in
    let colon = find_char-append id (b'2' ∷ b',' ∷ flag ∷ flags) h in
    let front = take-append_length id (b':' ∷ b'2' ∷ b',' ∷ flag ∷ flags) in
    let behind = drop-marker id (flag ∷ flags) in
    (
      rw (colon, unique_id_of) front,
      rw (marker, parse_flags)
          (ap (λ s. insert_all ltb s []) behind ∙ insert_all-Ascending (flag ∷ flags) [] a),
    )

replace-NoSlash : (s : Text) → All (λ c. c ≢ b'/') (replace b'/' b'.' s)
unfolding replace
replace-NoSlash [] = tt
replace-NoSlash (c ∷ s) = (ground arith, replace-NoSlash s)

folder_lem :
    (mailbox : Text)
    → is_inbox mailbox ≡ false
    → mailbox_folder mailbox ≡ b'.' ∷ replace b'/' b'.' mailbox
unfolding mailbox_folder replace
folder_lem mailbox h = ground arith

replaced_point :
    (s : Text) → (replace b'/' b'.' s ≡ b'.' ∷ []) ↔ ((s ≡ b'.' ∷ []) ⊎ (s ≡ b'/' ∷ []))
unfolding replace
replaced_point [] = ground arith
replaced_point (c ∷ []) = ground arith
replaced_point (c ∷ d ∷ s) = ground arith

-- The name that the operating system reads: the bytes in front of the first NUL.
unfoldable pub os_name : Text → Text
os_name [] = []
os_name (c ∷ s) = let rest = os_name s in if c == 0 then [] else c ∷ rest

-- No byte becomes a NUL, and none that is one changes.
os_name-replace : (s : Text) → os_name (replace b'/' b'.' s) ≡ replace b'/' b'.' (os_name s)
unfolding os_name replace
os_name-replace [] = refl
os_name-replace (c ∷ s) = ground (arith, os_name-replace s)

replaced_nil : (s : Text) → (replace b'/' b'.' s ≡ []) ↔ (s ≡ [])
unfolding replace
replaced_nil [] = ground arith
replaced_nil (c ∷ s) = ground arith

-- The name of the directory of a mailbox, neither INBOX nor without a name, as the operating system
-- reads it up to the first NUL, has a point in front and no slash, so that it stands in the user's mail
-- directory, but for two cases: it is "..", which leads out of there, exactly where the mailbox up to
-- its first NUL is "." or "/", and ".", the mail directory itself, exactly where nothing is in front
-- of that NUL.
pub mailbox_folder-Contained :
    (mailbox : Text)
    → is_inbox mailbox ≡ false
    → (rest : Text) × (os_name (mailbox_folder mailbox) ≡ b'.' ∷ rest)
      × All (λ c. c ≢ b'/') rest
      × ((rest ≡ codes ".") ↔ ((os_name mailbox ≡ codes ".") ⊎ (os_name mailbox ≡ codes "/")))
      × ((rest ≡ []) ↔ (os_name mailbox ≡ []))
unfolding codes
mailbox_folder-Contained mailbox h =
    let same = os_name-replace mailbox in
    let whole : os_name (mailbox_folder mailbox) ≡ b'.' ∷ os_name (replace b'/' b'.' mailbox) =
      rw (folder_lem mailbox h) (unfold os_name in refl) in
    (
      replace b'/' b'.' (os_name mailbox),
      whole ∙ ap (◌∷◌ b'.') same,
      replace-NoSlash (os_name mailbox),
      replaced_point (os_name mailbox),
      replaced_nil (os_name mailbox),
    )
