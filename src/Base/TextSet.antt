-- ===== src/Base/TextSet.antt =====
-- A `HashSet<String>`: no element twice, in no particular order.
use Prim.Native.Nat.{◌+◌, ◌≤◌}
use mathlib.Core.Path.{◌≡◌}
use mathlib.Core.Bool.{Bool, true, false, ◌||◌, not}
use mathlib.Core.List.{List, [], ◌∷◌}
use native.Mathlib.Omega.{arith}
use herdr_a2a.Base.Tests.{if◌then◌else◌}
use herdr_a2a.Base.Lists.{length, retain}
use herdr_a2a.Base.Strings.{Text, text_eq, text_eq_iff}

abbrev pub TextSet : Type 0
TextSet = List Text

unfoldable pub contains : TextSet → Text → Bool
contains [] a = false
contains (b ∷ s) a = text_eq b a || contains s a

unfoldable pub insert : TextSet → Text → TextSet
insert s a = if contains s a then s else a ∷ s

unfoldable pub remove : TextSet → Text → TextSet
remove s a = retain (λ b. not (text_eq b a)) s

pub contains-remove :
    (s : TextSet) (a b : Text)
    → contains (remove s a) b ≡ (if text_eq a b then false else contains s b)
unfolding contains remove retain
contains-remove [] a b = ground arith
contains-remove (c ∷ s) a b =
    ground (arith, text_eq_iff c a, text_eq_iff c b, text_eq_iff a b, contains-remove s a b)

pub contains-insert :
    (s : TextSet) (a b : Text)
    → contains (insert s a) b ≡ (if text_eq a b then true else contains s b)
unfolding contains insert
contains-insert s a b = ground (arith, text_eq_iff a b)

pub length-insert-le : (s : TextSet) (a : Text) → length (insert s a) ≤ length s + 1
unfolding insert
length-insert-le s a = ground arith
