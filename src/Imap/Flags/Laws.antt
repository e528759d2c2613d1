-- ===== src/Imap/Flags/Laws.antt =====
-- What comes back of the flags of IMAP that are stored as flags of Maildir.
use email_server.Base.{
  ℕ, ◌≡◌, refl, ap, ◌∙◌, sym, subst, Bool, true, false, ◌&&◌, ◌||◌, List, [], ◌∷◌, ◌++◌, Option,
  none, some, ltb, ◌==◌, arith, inl, inr, Option-cases, if-both, if-each, ltb→lt, All, ◌<◌,
}
use email_server.Imap.Flags.{
  seen, answered, flagged, deleted, draft, imap_flag, imap_flags, maildir_to_imap_flags,
  maildir_flag, maildir_flags, imap_to_maildir_flags,
}
use email_server.Maildir.Names.Laws.{Ascending, NoColon, names-roundtrip}
use email_server.Maildir.Names.{flags_to_info, parse_flags}
use email_server.Text.Laws.{text_eq_iff}
use email_server.Text.Sets.Laws.{
  member-insert_text, member-insert_byte, member_cons_text, member_cons_byte,
}
use email_server.Text.Sets.{text_less, member, insert}
use email_server.Text.{Text, codes, text_eq}

abbrev is_text : Option Text → Text → Bool
is_text none f = false
is_text (some g) f = text_eq f g

abbrev is_byte : Option ℕ → ℕ → Bool
is_byte none c = false
is_byte (some b) c = b == c

abbrev is_some : Option ℕ → Bool
is_some none = false
is_some (some b) = true

-- Whether Maildir has a byte for a flag.
abbrev pub is_kept : Text → Bool
is_kept f = is_some (maildir_flag f)

-- A text is not equal to two that differ.
text_eq_apart : (s t f : Text) → text_eq s t ≡ false → text_eq f s ≡ true → text_eq f t ≡ false
text_eq_apart s t f differs e = ap (λ u. text_eq u t) (text_eq_iff f s e) ∙ differs

seen_apart :
    (text_eq answered seen ≡ false)
    × (text_eq flagged seen ≡ false)
    × (text_eq deleted seen ≡ false)
    × (text_eq draft seen ≡ false)
unfolding text_eq codes
seen_apart = (refl, refl, refl, refl)

answered_apart :
    (text_eq flagged answered ≡ false)
    × (text_eq deleted answered ≡ false)
    × (text_eq draft answered ≡ false)
unfolding text_eq codes
answered_apart = (refl, refl, refl)

flagged_apart :
    (text_eq deleted flagged ≡ false)
    × (text_eq draft flagged ≡ false)
    × (text_eq draft deleted ≡ false)
unfolding text_eq codes
flagged_apart = (refl, refl, refl)

-- A byte stands for a flag exactly where the flag stands for the byte.
codes_agree : (f : Text) (c : ℕ) → is_text (imap_flag c) f ≡ is_byte (maildir_flag f) c
unfolding imap_flag maildir_flag
codes_agree f c = ground (
  arith,
  text_eq_apart answered seen f seen_apart.0,
  text_eq_apart flagged seen f seen_apart.1,
  text_eq_apart deleted seen f seen_apart.2,
  text_eq_apart draft seen f seen_apart.3,
  text_eq_apart flagged answered f answered_apart.0,
  text_eq_apart deleted answered f answered_apart.1,
  text_eq_apart draft answered f answered_apart.2,
  text_eq_apart deleted flagged f flagged_apart.0,
  text_eq_apart draft flagged f flagged_apart.1,
  text_eq_apart draft deleted f flagged_apart.2,
)

-- Whether one of the bytes stands for the flag.
abbrev pub any_byte : Option ℕ → List ℕ → Bool
any_byte none bs = false
any_byte (some b) bs = member ltb b bs

any_byte_nil : (o : Option ℕ) → any_byte o [] ≡ false
unfolding member
any_byte_nil none = refl
any_byte_nil (some b) = refl

any_byte_cons :
    (o : Option ℕ) (c : ℕ) (bs : List ℕ) → any_byte o (c ∷ bs) ≡ (is_byte o c || any_byte o bs)
any_byte_cons none c bs = refl
any_byte_cons (some b) c bs = member_cons_byte b c bs

any_byte-insert :
    (o : Option ℕ) (c : ℕ) (bs : List ℕ)
    → any_byte o (insert ltb c bs) ≡ (is_byte o c || any_byte o bs)
any_byte-insert none c bs = refl
any_byte-insert (some b) c bs = member-insert_byte b c bs

member-imap_flags :
    (f : Text) (bs : List ℕ) (out : List Text)
    → member text_less f (imap_flags bs out)
      ≡ (any_byte (maildir_flag f) bs || member text_less f out)
unfolding imap_flags
member-imap_flags f [] out = ground (arith, any_byte_nil (maildir_flag f))
member-imap_flags f (c ∷ bs) out = elim (Option-cases (imap_flag c)) [
  | inl e ↦
      ground
        (arith, e, codes_agree f c, any_byte_cons (maildir_flag f) c bs, member-imap_flags f bs out)
  | inr (g, e) ↦ ground (
    arith,
    e,
    codes_agree f c,
    any_byte_cons (maildir_flag f) c bs,
    member-imap_flags f bs (insert text_less g out),
    member-insert_text f g out,
  )
]

-- Where a byte stands for a flag, it stands for no other.
is_byte-text_eq :
    (f g : Text) (b : ℕ) → maildir_flag g ≡ some b → is_byte (maildir_flag f) b ≡ text_eq f g
is_byte-text_eq f g b e =
    let own : is_text (imap_flag b) g ≡ true =
      codes_agree g b ∙ (ap (λ o. is_byte o b) e ∙ ground arith) in
    elim (Option-cases (imap_flag b)) [
      | inl n ↦ cc (own, ap (λ o. is_text o g) n)
      | inr (h, n) ↦
          let named : text_eq g h ≡ true = sym (ap (λ o. is_text o g) n) ∙ own in
          sym (codes_agree f b)
          ∙ (ap (λ o. is_text o f) n ∙ ap (text_eq f) (sym (text_eq_iff g h named)))
    ]

maildir_flags-none :
    (g : Text) (flags : List Text) (out : List ℕ)
    → maildir_flag g ≡ none
    → maildir_flags (g ∷ flags) out ≡ maildir_flags flags out
unfolding maildir_flags
maildir_flags-none g flags out e = rw (e, maildir_flags) refl

maildir_flags-some :
    (g : Text) (b : ℕ) (flags : List Text) (out : List ℕ)
    → maildir_flag g ≡ some b
    → maildir_flags (g ∷ flags) out ≡ maildir_flags flags (insert ltb b out)
unfolding maildir_flags
maildir_flags-some g b flags out e = rw (e, maildir_flags) refl

step_none :
    (o : Option ℕ) (same rest there : Bool)
    → (same ≡ true → o ≡ none)
    → ((is_some o && rest) || there) ≡ ((is_some o && (same || rest)) || there)
step_none none same rest there h = refl
step_none (some b) same rest there h = ground (arith, h)

step_some :
    (o : Option ℕ) (b : ℕ) (same rest there : Bool)
    → is_byte o b ≡ same
    → ((is_some o && rest) || (is_byte o b || there)) ≡ ((is_some o && (same || rest)) || there)
step_some none b same rest there h = ground arith
step_some (some c) b same rest there h = ground arith

any_byte_lem :
    (o : Option ℕ) (out : List ℕ) → any_byte o out ≡ ((is_some o && false) || any_byte o out)
any_byte_lem none out = refl
any_byte_lem (some b) out = refl

any_byte-maildir_flags :
    (f : Text) (flags : List Text) (out : List ℕ)
    → any_byte (maildir_flag f) (maildir_flags flags out)
      ≡ ((is_some (maildir_flag f) && member text_less f flags) || any_byte (maildir_flag f) out)
any_byte-maildir_flags f [] out = unfold maildir_flags member in any_byte_lem (maildir_flag f) out
any_byte-maildir_flags f (g ∷ flags) out = elim (Option-cases (maildir_flag g)) [
  | inl e ↦
      let skip = ap (any_byte (maildir_flag f)) (maildir_flags-none g flags out e) in
      let rest = any_byte-maildir_flags f flags out in
      let grown =
        step_none (maildir_flag f) (text_eq f g) (member text_less f flags)
          (any_byte (maildir_flag f) out) (λ s. ap maildir_flag (text_eq_iff f g s) ∙ e) in
      skip
      ∙ (rest
          ∙ (grown
              ∙ ap (λ m. (is_some (maildir_flag f) && m) || any_byte (maildir_flag f) out)
                  (sym (member_cons_text f g flags))))
  | inr (b, e) ↦
      let take = ap (any_byte (maildir_flag f)) (maildir_flags-some g b flags out e) in
      let rest = any_byte-maildir_flags f flags (insert ltb b out) in
      let front =
        ap (λ m. (is_some (maildir_flag f) && member text_less f flags) || m)
          (any_byte-insert (maildir_flag f) b out) in
      let grown =
        step_some (maildir_flag f) b (text_eq f g) (member text_less f flags)
          (any_byte (maildir_flag f) out) (is_byte-text_eq f g b e) in
      take
      ∙ (rest
          ∙ (front
              ∙ (grown
                  ∙ ap (λ m. (is_some (maildir_flag f) && m) || any_byte (maildir_flag f) out)
                      (sym (member_cons_text f g flags)))))
]

insert-All : (P : ℕ → Type 0) (x : ℕ) (xs : List ℕ) → P x → All P xs → All P (insert ltb x xs)
unfolding insert
insert-All P x [] p h = (p, tt)
insert-All P x (y ∷ ys) p h =
    if-both (All P) (ltb x y) (p, h) (if-both (All P) (ltb y x) (h.0, insert-All P x ys p h.1) h)

All-above : (x y : ℕ) (ys : List ℕ) → x < y → All (λ d. y < d) ys → All (λ d. x < d) ys
All-above x y [] h k = tt
All-above x y (z ∷ zs) h k = (omega (arith, h, k.0), All-above x y zs h k.1)

insert-Ascending : (x : ℕ) (xs : List ℕ) → Ascending xs → Ascending (insert ltb x xs)
unfolding insert
insert-Ascending x [] h = (tt, tt)
insert-Ascending x (y ∷ ys) h =
    if-each Ascending (ltb x y) (λ e. ((ltb→lt x y e, All-above x y ys (ltb→lt x y e) h.0), h))
      (λ n.
        if-each Ascending (ltb y x)
          (λ e. (insert-All (λ d. y < d) x ys (ltb→lt y x e) h.0, insert-Ascending x ys h.1))
          (λ m. h))

maildir_flags-Ascending :
    (flags : List Text) (out : List ℕ) → Ascending out → Ascending (maildir_flags flags out)
maildir_flags-Ascending [] out h = unfold maildir_flags in h
maildir_flags-Ascending (g ∷ flags) out h = elim (Option-cases (maildir_flag g)) [
  | inl e ↦
      subst Ascending (sym (maildir_flags-none g flags out e)) (maildir_flags-Ascending flags out h)
  | inr (b, e) ↦
      subst Ascending (sym (maildir_flags-some g b flags out e))
        (maildir_flags-Ascending flags (insert ltb b out) (insert-Ascending b out h))
]

or_false : (b : Bool) → (b || false) ≡ b
or_false true = refl
or_false false = refl

pub member-maildir_to_imap_bytes :
    (f : Text) (bs : List ℕ)
    → member text_less f (maildir_to_imap_flags bs) ≡ any_byte (maildir_flag f) bs
unfolding maildir_to_imap_flags member
member-maildir_to_imap_bytes f bs =
    member-imap_flags f bs [] ∙ or_false (any_byte (maildir_flag f) bs)

member-maildir_to_imap_flags :
    (f : Text) (flags : List Text)
    → member text_less f (maildir_to_imap_flags (imap_to_maildir_flags flags))
      ≡ (is_kept f && member text_less f flags)
unfolding maildir_to_imap_flags imap_to_maildir_flags member
member-maildir_to_imap_flags f flags =
    member-imap_flags f (maildir_flags flags []) []
    ∙ (or_false (any_byte (maildir_flag f) (maildir_flags flags []))
        ∙ (any_byte-maildir_flags f flags []
            ∙ (ap (λ b. (is_kept f && member text_less f flags) || b)
                  (any_byte_nil (maildir_flag f))
                ∙ or_false (is_kept f && member text_less f flags))))

-- The flags that STORE gives to a message are written into the name of its file, behind an identifier
-- without a colon; what is read from
-- that name again is every one of them that Maildir has a byte for, and no other: `\Seen`,
-- `\Answered`, `\Flagged`, `\Deleted` and `\Draft` come back, and any other flag is lost.
pub stored_flags-roundtrip :
    (id f : Text) (flags : List Text)
    → NoColon id
    → member text_less f
        (maildir_to_imap_flags (parse_flags (id ++ flags_to_info (imap_to_maildir_flags flags))))
      ≡ (is_kept f && member text_less f flags)
unfolding imap_to_maildir_flags
stored_flags-roundtrip id f flags h =
    let read =
      (names-roundtrip id (imap_to_maildir_flags flags) h
        (maildir_flags-Ascending flags [] tt)).1 in
    ap (λ bs. member text_less f (maildir_to_imap_flags bs)) read
    ∙ member-maildir_to_imap_flags f flags
