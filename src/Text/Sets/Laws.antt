-- ===== src/Text/Sets/Laws.antt =====
-- What a set holds after an insertion, where elements that neither test puts first are the same.
use email_server.Base.{
  ℕ, ◌≡◌, refl, ap, ◌∙◌, sym, Bool, true, not, ◌&&◌, ◌||◌, List, [], ◌∷◌, ltb, ◌==◌, arith, inl,
  inr, Bool-cases,
}
use email_server.Text.Laws.{text_eq_iff}
use email_server.Text.Sets.{text_less, member, insert}
use email_server.Text.{Text, text_eq}

module _ {ℓ} {A : Type ℓ} (less : A → A → Bool) where
  abbrev pub same : A → A → Bool
  same x y = not (less x y) && not (less y x)

  abbrev pub Separates : Type ℓ
  Separates = (x y : A) → same x y ≡ true → x ≡ y

  pub member-insert :
      (x y : A) (ys : List A)
      → Separates
      → member less x (insert less y ys) ≡ (same x y || member less x ys)
  unfolding member insert
  member-insert x y [] apart = ground arith
  member-insert x y (z ∷ ys) apart = elim (Bool-cases (same y z)) [
    | inl e ↦ ground (arith, e, ap (same x) (apart y z e))
    | inr e ↦ ground (arith, e, member-insert x y ys apart)
  ]

text_less-same : (s t : Text) → same text_less s t ≡ text_eq s t
unfolding text_less text_eq
text_less-same [] [] = refl
text_less-same [] (d ∷ t) = refl
text_less-same (c ∷ s) [] = refl
text_less-same (c ∷ s) (d ∷ t) = ground (arith, text_less-same s t)

text_less-Separates : Separates text_less
text_less-Separates s t e = text_eq_iff s t (sym (text_less-same s t) ∙ e)

ltb-Separates : Separates ltb
ltb-Separates a b e = ground arith

pub member-insert_text :
    (s t : Text) (ts : List Text)
    → member text_less s (insert text_less t ts) ≡ (text_eq s t || member text_less s ts)
member-insert_text s t ts =
    member-insert text_less s t ts text_less-Separates
    ∙ ap (λ b. b || member text_less s ts) (text_less-same s t)

pub member-insert_byte :
    (a b : ℕ) (bs : List ℕ) → member ltb a (insert ltb b bs) ≡ ((a == b) || member ltb a bs)
member-insert_byte a b bs =
    let e : same ltb a b ≡ (a == b) = ground arith in
    member-insert ltb a b bs ltb-Separates ∙ ap (λ c. c || member ltb a bs) e

-- `member` of texts, element by element.
pub member_cons_text :
    (s t : Text) (ts : List Text)
    → member text_less s (t ∷ ts) ≡ (text_eq s t || member text_less s ts)
unfolding member
member_cons_text s t ts = ap (λ b. b || member text_less s ts) (text_less-same s t)

pub member_cons_byte :
    (a b : ℕ) (bs : List ℕ) → member ltb a (b ∷ bs) ≡ ((a == b) || member ltb a bs)
unfolding member
member_cons_byte a b bs = ground arith
