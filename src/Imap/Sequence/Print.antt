-- ===== src/Imap/Sequence/Print.antt =====
-- Sequence sets as a client writes them, and what is read of them.
use email_server.Base.{ℕ, ◌≡◌, ◌≤◌, false, ltb, List, [], ◌∷◌, ◌++◌, All, if◌then◌else◌, ◌==◌}
use email_server.Imap.Sequence.{Range, u32_max}
use email_server.Text.Numbers.{to_string}
use email_server.Text.{Text}

-- A number, or "*", which is the greatest one.
pub data Point : Type 0 where
  number : ℕ → Point
  greatest : Point

-- One point, or two with a colon, in either order.
pub data Item : Type 0 where
  one : Point → Item
  span : Point → Point → Item

unfoldable pub show_point : Point → Text
show_point (number n) = to_string n
show_point greatest = b'*' ∷ []

unfoldable pub show_item : Item → Text
unfolding show_point
show_item (one p) = show_point p
show_item (span p q) = show_point p ++ (b':' ∷ show_point q)

-- The items with a comma between each two.
unfoldable pub show : List Item → Text
unfolding show_item
show [] = []
show (i ∷ []) = show_item i
show (i ∷ j ∷ rest) = show_item i ++ (b',' ∷ show (j ∷ rest))

-- What an item means: the points between its two ends, the lower one first; 0 at the end stands for "*".
abbrev pub first_of : Point → ℕ
first_of (number n) = n
first_of greatest = u32_max

unfoldable pub meaning : Item → Range
meaning (one (number n)) = record { start = n; end = n }
meaning (one greatest) = record { start = u32_max; end = 0 }
meaning (span p greatest) = record { start = first_of p; end = 0 }
meaning (span p (number n)) =
    if ltb n (first_of p)
    then record { start = n; end = first_of p }
    else record { start = first_of p; end = n }

-- The numbers are those that the protocol allows: from 1 on, with 32 bits.
abbrev pub IsPoint : Point → Type 0
IsPoint (number n) = (1 ≤ n) × (n ≤ u32_max)
IsPoint greatest = Unit

abbrev pub IsItem : Item → Type 0
IsItem (one p) = IsPoint p
IsItem (span p q) = IsPoint p × IsPoint q

abbrev Without : ℕ → Text → Type 0
Without c = All (λ d. (d == c) ≡ false)
