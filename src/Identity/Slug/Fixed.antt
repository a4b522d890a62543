-- ===== src/Identity/Slug/Fixed.antt =====
-- `canonical_slug` leaves a slug as it is.
use herdr_a2a.Base.{
  ℕ, ◌+◌, ◌≤◌, ◌<◌, ◌≡◌, refl, sym, ap, ◌∙◌, Bool, true, false, ◌&&◌, not, none, some, [], ◌∷◌,
  ◌++◌, inl, inr, ◌==◌, length, length-append, is_empty, Text, Bool-cases, lt→ltb, arith,
}
use herdr_a2a.Core.Model.{is_ascii_alphanumeric, is_ascii_lowercase}
use herdr_a2a.Identity.Slug.{
  to_ascii_lowercase, push_separator, push_character, gather, trim_dashes, canonical_slug,
}
use herdr_a2a.Identity.Slug.Shape.{is_slug_letter, read_slug, IsSlug}

-- What is left of a slug, after a dash that is due or not.
abbrev dashed : Bool → Text → Text
dashed true rest = b'-' ∷ rest
dashed false rest = rest

letter-kept : (b : ℕ) → is_slug_letter b ≡ true → to_ascii_lowercase b ≡ b
unfolding to_ascii_lowercase
letter-kept b h = ground arith

letter-alphanumeric : (b : ℕ) → is_slug_letter b ≡ true → is_ascii_alphanumeric b ≡ true
letter-alphanumeric b h = ground arith

dash-alphanumeric :
    (dash : Bool) (b : ℕ)
    → (b == b'-' && not dash) ≡ true
    → (is_ascii_alphanumeric b ≡ false) × (b ≡ b'-') × (dash ≡ false)
dash-alphanumeric dash b h = ground arith

append-empty : (xs : Text) → xs ++ [] ≡ xs
append-empty [] = refl
append-empty (x ∷ xs) = ap (λ ys. x ∷ ys) (append-empty xs)

append_assoc : (xs ys zs : Text) → (xs ++ ys) ++ zs ≡ xs ++ (ys ++ zs)
append_assoc [] ys zs = refl
append_assoc (x ∷ xs) ys zs = ap (λ y. x ∷ y) (append_assoc xs ys zs)

append_more : (xs ys : Text) → is_empty xs ≡ false → is_empty (xs ++ ys) ≡ false
append_more [] ys h = cc
append_more (x ∷ xs) ys h = refl

length-dashed :
    (separator : Bool) (xs : Text)
    → length (dashed separator xs) ≡ length (dashed separator []) + length xs
length-dashed true xs = omega arith
length-dashed false xs = omega arith

dashed-append :
    (separator : Bool) (b : ℕ) (bs : Text)
    → dashed separator (b ∷ []) ++ bs ≡ dashed separator (b ∷ bs)
dashed-append true b bs = refl
dashed-append false b bs = refl

dashed-rest :
    (separator : Bool) (b : ℕ) (bs : Text)
    → separator ≡ false
    → b ≡ b'-'
    → dashed true bs ≡ dashed separator (b ∷ bs)
dashed-rest true b bs s e = cc
dashed-rest false b bs s e = ap (λ x. x ∷ bs) (sym e)

-- A letter with the dash that is due, where there is room.
push-letter :
    (slug : Text) (separator : Bool) (b : ℕ)
    → is_empty slug ≡ false
    → length slug + length (dashed separator []) < 25
    → is_slug_letter b ≡ true
    → push_character (push_separator slug separator) b ≡ slug ++ dashed separator (b ∷ [])
unfolding push_character push_separator
push-letter slug true b more room letter =
    rw
      (
        push_separator,
        more,
        lt→ltb (length slug) 25 (omega arith),
        lt→ltb (length (slug ++ (b'-' ∷ []))) 25 (omega (arith, length-append slug (b'-' ∷ []))),
        letter-kept b letter,
      )
      (append_assoc slug (b'-' ∷ []) (b ∷ []))
push-letter slug false b more room letter =
    rw (lt→ltb (length slug) 25 (omega arith), letter-kept b letter) refl

-- The loop appends the rest of a slug as it is.
gather-rest :
    (slug : Text) (separator : Bool) (rest : Text)
    → is_empty slug ≡ false
    → length slug + length (dashed separator rest) ≤ 25
    → read_slug separator rest ≡ some false
    → gather slug separator rest ≡ slug ++ dashed separator rest
unfolding gather read_slug
gather-rest slug true [] more fits r = cc
gather-rest slug false [] more fits r = sym (append-empty slug)
gather-rest slug separator (b ∷ bs) more fits r =
    let size = length-dashed separator (b ∷ bs) in
    elim (Bool-cases (is_slug_letter b)) [
      | inl e ↦
          let next = slug ++ dashed separator (b ∷ []) in
          let next_size = length-append slug (dashed separator (b ∷ [])) in
          let one_size = length-dashed separator (b ∷ []) in
          let pushed = push-letter slug separator b more (omega arith) e in
          let rest =
            gather-rest next false bs (append_more slug (dashed separator (b ∷ [])) more)
              (omega arith) (rw (read_slug, e) at r) in
          rw (gather, letter-alphanumeric b e)
            (ap (λ x. gather x false bs) pushed
              ∙ rest
              ∙ append_assoc slug (dashed separator (b ∷ [])) bs
              ∙ ap (λ x. slug ++ x) (dashed-append separator b bs))
      | inr e ↦ elim (Bool-cases (b == b'-' && not separator)) [
        | inr d ↦ let no : none ≡ some false = rw (read_slug, e, d) at r in cc
        | inl d ↦
            let (skipped, is_dash, fresh) = dash-alphanumeric separator b d in
            let same = ap length (dashed-rest separator b bs fresh is_dash) in
            let rest = gather-rest slug true bs more (omega arith) (rw (read_slug, e, d) at r) in
            rw (gather, skipped)
              (rest ∙ ap (λ x. slug ++ x) (dashed-rest separator b bs fresh is_dash))
      ]
    ]

read-nonempty : (bs : Text) → read_slug true bs ≡ some false → is_empty bs ≡ false
unfolding read_slug
read-nonempty [] h = cc
read-nonempty (b ∷ bs) h = refl

and_false : (a : Bool) → (a && false) ≡ false
and_false true = refl
and_false false = refl

trim-read : (dash : Bool) (bs : Text) → read_slug dash bs ≡ some false → trim_dashes bs ≡ bs
unfolding trim_dashes read_slug
trim-read dash [] h = refl
trim-read dash (b ∷ bs) h = elim (Bool-cases (is_slug_letter b)) [
  | inl e ↦
      let not_dash : (b == b'-') ≡ false = ground arith in
      rw (trim_dashes, not_dash, trim-read false bs (rw (read_slug, e) at h)) refl
  | inr e ↦ elim (Bool-cases (b == b'-' && not dash)) [
    | inr d ↦ let no : none ≡ some false = rw (read_slug, e, d) at h in cc
    | inl d ↦
        let rest : read_slug true bs ≡ some false = rw (read_slug, e, d) at h in
        rw (trim_dashes, trim-read true bs rest, read-nonempty bs rest, and_false (b == b'-')) refl
  ]
]

first-letter : (b : ℕ) → is_ascii_lowercase b ≡ true → is_slug_letter b ≡ true
first-letter b h = ground arith

-- canonical_slug leaves a slug as it is.
pub canonical_slug-slug : (slug : Text) → IsSlug slug → canonical_slug (some slug) ≡ slug
unfolding canonical_slug IsSlug push_character push_separator read_slug gather
canonical_slug-slug [] (first, _, _) = cc
canonical_slug-slug (b ∷ bs) (first, read, fits) =
    let letter = first-letter b first in
    let rest : read_slug false bs ≡ some false = rw (read_slug, letter) at read in
    let gathered : gather [] false (b ∷ bs) ≡ b ∷ bs =
      rw (gather, letter-alphanumeric b letter)
        (ap (λ x. gather x false bs) (ap (λ c. c ∷ []) (letter-kept b letter))
          ∙ gather-rest (b ∷ []) false bs refl (omega arith) rest) in
    rw (gathered, trim-read true (b ∷ bs) read, first) refl
