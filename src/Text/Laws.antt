-- ===== src/Text/Laws.antt =====
-- Laws of lines and of their ends.
use email_server.Base.{
  ℕ, ◌≡◌, ◌≢◌, refl, ap, true, List, [], ◌∷◌, ◌++◌, arith, All, All-append, append_assoc, map,
}
use email_server.Text.{Text, ends_with_byte, pop_back, strip_cr, crlf, text_eq}
use email_server.Text.Stream.{lines}

pub ends_with_byte-concat : (c : ℕ) (s : Text) → ends_with_byte c (s ++ c ∷ []) ≡ true
unfolding ends_with_byte
ends_with_byte-concat c [] = ground arith
ends_with_byte-concat c (d ∷ []) = ground arith
ends_with_byte-concat c (d ∷ e ∷ s) = ends_with_byte-concat c (e ∷ s)

pub pop_back-concat : (c : ℕ) (s : Text) → pop_back (s ++ c ∷ []) ≡ s
unfolding pop_back
pop_back-concat c [] = refl
pop_back-concat c (d ∷ []) = refl
pop_back-concat c (d ∷ e ∷ s) = ap (◌∷◌ d) (pop_back-concat c (e ∷ s))

-- The return that a line ends in is taken off.
pub strip_cr-concat : (s : Text) → strip_cr (s ++ b'\r' ∷ []) ≡ s
strip_cr-concat s = unfold strip_cr in rw (ends_with_byte-concat b'\r' s) (pop_back-concat b'\r' s)

abbrev pub NoNewline : Text → Type 0
NoNewline = All (λ c. c ≢ b'\n')

-- A line is cut off at its newline.
pub lines-append : (l rest : Text) → NoNewline l → lines (l ++ (b'\n' ∷ rest)) ≡ l ∷ lines rest
unfolding lines
lines-append [] rest h = refl
lines-append (c ∷ l) rest h = ground (arith, lines-append l rest h.1)

-- Every line with its end.
abbrev pub join : List Text → Text
join [] = []
join (l ∷ ls) = (l ++ crlf) ++ join ls

NoNewline-return : (l : Text) → NoNewline l → NoNewline (l ++ b'\r' ∷ [])
NoNewline-return l h = All-append (λ c. c ≢ b'\n') l (b'\r' ∷ []) h (omega arith, tt)

-- The lines of a text that is made of lines.
pub map-strip_cr-lines : (ls : List Text) → All NoNewline ls → map strip_cr (lines (join ls)) ≡ ls
map-strip_cr-lines [] h = unfold lines in refl
map-strip_cr-lines (l ∷ ls) h =
    let regrouped : (l ++ crlf) ++ join ls ≡ (l ++ b'\r' ∷ []) ++ (b'\n' ∷ join ls) =
      simp append_assoc in
    rw (regrouped, lines-append (l ++ b'\r' ∷ []) (join ls) (NoNewline-return l h.0))
      (rw (strip_cr-concat l) (ap (◌∷◌ l) (map-strip_cr-lines ls h.1)))

pub text_eq_iff : (s t : Text) → text_eq s t ≡ true → s ≡ t
unfolding text_eq
text_eq_iff [] [] h = refl
text_eq_iff [] (d ∷ t) h = cc
text_eq_iff (c ∷ s) [] h = cc
text_eq_iff (c ∷ s) (d ∷ t) h = ground (arith, text_eq_iff s t)

pub text_eq_refl : (s : Text) → text_eq s s ≡ true
unfolding text_eq
text_eq_refl [] = refl
text_eq_refl (c ∷ s) = ground (arith, text_eq_refl s)
