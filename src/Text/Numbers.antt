-- ===== src/Text/Numbers.antt =====
-- `std::to_string` and `std::stoul` on a 64-bit `unsigned long`.
use Prim.Native.Nat.{zero, suc, ◌*◌, ◌/◌, ◌%◌, ◌^◌, ◌<◌}
use mathlib.Core.Logic.{dite}
use mathlib.Core.WellFounded.{Acc, WellFounded}
use native.Mathlib.Decide.{dec_lt}
use email_server.Base.{
  ℕ, ◌+◌, ◌-◌, ◌≢◌, All, Bool, true, false, ◌&&◌, ◌≡◌, refl, ap, ◌∙◌, List, [], ◌∷◌, Option, none,
  some, arith, leb, ltb, ◌==◌, if◌then◌else◌,
}

Acc-below : (k n : ℕ) → n < k → Acc ◌<◌ n
Acc-below zero n h = absurd (omega arith)
Acc-below (suc k) n h = Acc.intro n (λ m hm. Acc-below k m (omega arith))

lt_wf : WellFounded ◌<◌
unfolding Acc-below
lt_wf = record { apply = λ n. Acc-below (suc n) n (omega arith) }

-- The digits of a number in front of those already written.
digits : (n : ℕ) → Acc ◌<◌ n → List ℕ → List ℕ
digits n (Acc.intro _ smaller) out =
    dite (dec_lt 9 n)
      (λ h. digits (n / 10) (smaller (n / 10) (omega arith)) ((b'0' + n % 10) ∷ out))
      (λ _. (b'0' + n) ∷ out)

unfoldable pub to_string : ℕ → List ℕ
unfolding digits lt_wf dec_lt
to_string n = digits n (lt_wf.apply n) []

-- What holds of both branches of a decision.
dite-both {ℓ κ μ} :
    {Q : Type ℓ} {A : Type κ} (P : A → Type μ) (d : Dec Q) {f : Q → A} {g : ¬ Q → A}
    → ((h : Q) → P (f h))
    → ((h : ¬ Q) → P (g h))
    → P (dite d f g)
dite-both P (yes h) p q = p h
dite-both P (no h) p q = q h

digits-All :
    (P : ℕ → Type 0) (n : ℕ) (a : Acc ◌<◌ n) (out : List ℕ)
    → ((d : ℕ) → d < 10 → P (b'0' + d))
    → All P out
    → All P (digits n a out)
unfolding digits
digits-All P n (Acc.intro _ smaller) out digit h =
    dite-both (All P) (dec_lt 9 n)
      (λ many.
        digits-All P (n / 10) (smaller (n / 10) (omega arith)) ((b'0' + n % 10) ∷ out) digit
          (digit (n % 10) (omega arith), h))
      (λ few. (digit n (omega arith), h))

-- No digit is a newline.
pub to_string-NoNewline : (n : ℕ) → All (λ c. c ≢ b'\n') (to_string n)
unfolding to_string
to_string-NoNewline n = digits-All (λ c. c ≢ b'\n') n (lt_wf.apply n) [] (λ d below. omega arith) tt

to_string_test : to_string 2050 ≡ b'2' ∷ b'0' ∷ b'5' ∷ b'0' ∷ []
unfolding to_string
to_string_test = refl

abbrev pub is_digit : ℕ → Bool
is_digit c = leb b'0' c && leb c b'9'

-- The value of the longest run of digits in front, after a value read so far.
unfoldable pub scan_digits : ℕ → List ℕ → ℕ
scan_digits n [] = n
scan_digits n (c ∷ s) = elim (is_digit c) [ true ↦ scan_digits (n * 10 + (c - b'0')) s | false ↦ n ]

-- Digits are needed, and a value that does not fit in 64 bits is out of range: `none` is the throw.
unfoldable pub magnitude : List ℕ → Option ℕ
unfolding scan_digits
magnitude [] = none
magnitude (c ∷ s) =
    let n = scan_digits 0 (c ∷ s) in
    if is_digit c then (if ltb n (2 ^ 64) then some n else none) else none

-- `strtoul` negates a value that stands behind a minus sign, modulo 2 ^ 64.
unfoldable pub signed : List ℕ → Option ℕ
unfolding magnitude
signed [] = none
signed (c ∷ s) =
    if c == b'-'
    then elim (magnitude s) [ none ↦ none | some n ↦ some ((2 ^ 64 - n) % 2 ^ 64) ]
    else if c == b'+'
    then magnitude s
    else magnitude (c ∷ s)

scan_digits-step :
    (m d : ℕ) (out : List ℕ)
    → d < 10
    → scan_digits m ((b'0' + d) ∷ out) ≡ scan_digits (m * 10 + d) out
unfolding scan_digits
scan_digits-step m d out h = let same : b'0' + d - b'0' ≡ d = omega arith in ground (arith, same)

scan_digits-digits :
    (n : ℕ) (a : Acc ◌<◌ n) (out : List ℕ) → scan_digits 0 (digits n a out) ≡ scan_digits n out
unfolding digits
scan_digits-digits n (Acc.intro _ smaller) out =
    dite-both (λ s. scan_digits 0 s ≡ scan_digits n out) (dec_lt 9 n)
      (λ many.
        let front =
          scan_digits-digits (n / 10) (smaller (n / 10) (omega arith)) ((b'0' + n % 10) ∷ out) in
        let next = scan_digits-step (n / 10) (n % 10) out (omega arith) in
        let whole : n / 10 * 10 + n % 10 ≡ n = omega arith in
        front ∙ (next ∙ ap (λ k. scan_digits k out) whole))
      (λ few.
        let plain : 0 * 10 + n ≡ n = omega arith in
        scan_digits-step 0 n out (omega arith) ∙ ap (λ k. scan_digits k out) plain)

-- What is written of a number is digits.
pub to_string-All : (n : ℕ) → All (λ c. is_digit c ≡ true) (to_string n)
unfolding to_string
to_string-All n =
    digits-All (λ c. is_digit c ≡ true) n (lt_wf.apply n) [] (λ d below. ground arith) tt

-- What is written of a number is not empty.
digits-nonempty :
    (n : ℕ) (a : Acc ◌<◌ n) (out : List ℕ) → (c : ℕ) × (s : List ℕ) × (digits n a out ≡ c ∷ s)
unfolding digits
digits-nonempty n (Acc.intro _ smaller) out =
    dite-both (λ t. (c : ℕ) × (s : List ℕ) × (t ≡ c ∷ s)) (dec_lt 9 n)
      (λ many. digits-nonempty (n / 10) (smaller (n / 10) (omega arith)) ((b'0' + n % 10) ∷ out))
      (λ few. (b'0' + n, out, refl))

pub to_string-cons : (n : ℕ) → (c : ℕ) × (s : List ℕ) × (to_string n ≡ c ∷ s)
unfolding to_string
to_string-cons n = digits-nonempty n (lt_wf.apply n) []

pub scan_digits-to_string : (n : ℕ) → scan_digits 0 (to_string n) ≡ n
unfolding to_string scan_digits
scan_digits-to_string n = scan_digits-digits n (lt_wf.apply n) []
