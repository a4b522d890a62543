-- ===== src/Broker/Deadlines.antt =====
-- The min-heaps of deadlines, `BinaryHeap<Reverse<(i64, String)>>`: a list in ascending order, whose
-- head is what `peek` shows and `pop` takes.
use herdr_a2a.Base.{ℕ, Bool, ◌&&◌, ◌||◌, List, [], ◌∷◌, ltb, ◌==◌, if◌then◌else◌, Text, text_lt}

abbrev pub Deadlines : Type 0
Deadlines = List (ℕ × Text)

-- `(d, i) < (e, j)`
abbrev pub deadline_lt : ℕ × Text → ℕ × Text → Bool
deadline_lt (d, i) (e, j) = ltb d e || ((d == e) && text_lt i j)

unfoldable pub push : Deadlines → ℕ × Text → Deadlines
push [] x = x ∷ []
push (y ∷ ys) x = if deadline_lt y x then y ∷ push ys x else x ∷ y ∷ ys
