-- ===== src/Identity/Table/Allocation.antt =====
-- The names in the table stay distinct, whatever is resolved.
use herdr_a2a.Base.{
  ℕ, ◌≡◌, refl, ap, ◌∙◌, ◌<◌, ◌⊎◌, ◌++◌, ◌||◌, zero, suc, text_eq_iff, true, false, Option, none,
  some, List, [], ◌∷◌, inl, inr, Text, text_eq, Bool-cases, All, arith,
}
use herdr_a2a.Base.Outcome.{Outcome, done, failed, panicked, ◌>>=◌}
use herdr_a2a.Core.Model.{VerifiedPane, AgentName}
use herdr_a2a.Identity.Names.{IdentityError, allocation_exhausted, canonical_name_from_parts}
use herdr_a2a.Identity.Slug.{canonical_slug}
use herdr_a2a.Identity.Table.{
  IdentityRow, has_key, find_row, update_role, new_row, new_identity, is_refused, Resolved,
  try_name, allocate, draws, resolve_found, check_pane, after_checks, resolve_or_create,
  max_allocation_attempts,
}

-- no row has this name
abbrev pub IsFreeName : Text → List IdentityRow → Type 0
IsFreeName name rows = All (λ row. text_eq row.canonical_name name ≡ false) rows

-- No two rows have the same name.
unfoldable pub HasDistinctNames : List IdentityRow → Type 0
HasDistinctNames [] = Unit
HasDistinctNames (row ∷ rows) = IsFreeName row.canonical_name rows × HasDistinctNames rows

accepted-IsFreeName :
    (new : IdentityRow) (rows : List IdentityRow)
    → is_refused new rows ≡ false
    → IsFreeName new.canonical_name rows
unfolding is_refused
accepted-IsFreeName new [] h = tt
accepted-IsFreeName new (row ∷ rows) h = (ground arith, accepted-IsFreeName new rows (ground arith))

update_role-IsFreeName :
    (pane : VerifiedPane) (session name : Text) (rows : List IdentityRow)
    → IsFreeName name rows
    → IsFreeName name (update_role pane session rows)
unfolding update_role
update_role-IsFreeName pane session name [] _ = tt
update_role-IsFreeName pane session name (row ∷ rows) (free, rest) =
    elim (Bool-cases (has_key pane session row)) [
      | inl e ↦ rw (update_role, e) (free, update_role-IsFreeName pane session name rows rest)
      | inr e ↦ rw (update_role, e) (free, update_role-IsFreeName pane session name rows rest)
    ]

update_role-HasDistinctNames :
    (pane : VerifiedPane) (session : Text) (rows : List IdentityRow)
    → HasDistinctNames rows
    → HasDistinctNames (update_role pane session rows)
unfolding update_role HasDistinctNames
update_role-HasDistinctNames pane session [] _ = tt
update_role-HasDistinctNames pane session (row ∷ rows) (free, rest) =
    elim (Bool-cases (has_key pane session row)) [
      | inl e ↦
          rw (update_role, e)
            (
              update_role-IsFreeName pane session row.canonical_name rows free,
              update_role-HasDistinctNames pane session rows rest,
            )
      | inr e ↦
          rw (update_role, e)
            (
              update_role-IsFreeName pane session row.canonical_name rows free,
              update_role-HasDistinctNames pane session rows rest,
            )
    ]

try_name-HasDistinctNames :
    (name : Outcome IdentityError AgentName) (pane : VerifiedPane) (session slug : Text)
    (rows : List IdentityRow) (next : Resolved)
    → HasDistinctNames rows
    → HasDistinctNames (next.1)
    → HasDistinctNames ((try_name name pane session slug rows next).1)
unfolding try_name HasDistinctNames
try_name-HasDistinctNames (done name) pane session slug rows next d e =
    elim (Bool-cases (is_refused (new_row pane session slug name) rows)) [
      | inl taken ↦ rw (try_name, taken) e
      | inr free ↦
          rw (try_name, free) (accepted-IsFreeName (new_row pane session slug name) rows free, d)
    ]
try_name-HasDistinctNames (failed _) pane session slug rows next d e = d
try_name-HasDistinctNames panicked pane session slug rows next d e = d

allocate-HasDistinctNames :
    (attempts : List (Outcome IdentityError Text)) (pane : VerifiedPane) (session slug : Text)
    (rows : List IdentityRow)
    → HasDistinctNames rows
    → HasDistinctNames ((allocate attempts pane session slug rows).1)
unfolding allocate
allocate-HasDistinctNames [] pane session slug rows d = d
allocate-HasDistinctNames (drawn ∷ attempts) pane session slug rows d =
    try_name-HasDistinctNames (drawn >>= canonical_name_from_parts slug) pane session slug rows
      (allocate attempts pane session slug rows) d
      (allocate-HasDistinctNames attempts pane session slug rows d)

found-HasDistinctNames :
    (source : ℕ → Outcome IdentityError Text) (pane : VerifiedPane) (session : Text)
    (rows : List IdentityRow) (found : Option IdentityRow)
    → HasDistinctNames rows
    → HasDistinctNames ((resolve_found source pane session rows found).1)
unfolding resolve_found
found-HasDistinctNames source pane session rows (some row) d =
    update_role-HasDistinctNames pane session rows d
found-HasDistinctNames source pane session rows none d =
    allocate-HasDistinctNames (draws max_allocation_attempts source) pane session
      (canonical_slug (some pane.role)) rows d

checked-HasDistinctNames :
    (checks : Outcome IdentityError (Unit {0})) (rows : List IdentityRow) (next : Resolved)
    → HasDistinctNames rows
    → HasDistinctNames (next.1)
    → HasDistinctNames ((after_checks checks rows next).1)
unfolding after_checks
checked-HasDistinctNames (done _) rows next d e = e
checked-HasDistinctNames (failed _) rows next d e = d
checked-HasDistinctNames panicked rows next d e = d

-- If no two rows have the same canonical name, then no two have after resolve_or_create, for
-- every source of suffixes and whether it succeeds or not.
pub resolve_or_create-HasDistinctNames :
    (source : ℕ → Outcome IdentityError Text) (expected : Option Text) (pane : VerifiedPane)
    (session : Text) (rows : List IdentityRow)
    → HasDistinctNames rows
    → HasDistinctNames ((resolve_or_create source expected pane session rows).1)
unfolding resolve_or_create
resolve_or_create-HasDistinctNames source expected pane session rows d =
    checked-HasDistinctNames (check_pane expected pane session rows) rows
      (resolve_found source pane session rows (find_row (has_key pane session) rows)) d
      (found-HasDistinctNames source pane session rows (find_row (has_key pane session) rows) d)

-- Some row has this name.
unfoldable pub IsTakenName : Text → List IdentityRow → Type 0
IsTakenName name rows =
    (before : List IdentityRow) × (row : IdentityRow) × (after : List IdentityRow) × (rows
      ≡ before ++ (row ∷ after))
    × (row.canonical_name ≡ name)

-- The first `n` of the names are taken.
unfoldable pub AllTaken : ℕ → (ℕ → Text) → List IdentityRow → Type 0
AllTaken zero names rows = Unit
AllTaken (suc n) names rows = IsTakenName (names 0) rows × AllTaken n (λ i. names (suc i)) rows

is_refused-cons :
    (pane : VerifiedPane) (session slug name : Text) (row : IdentityRow) (rows : List IdentityRow)
    → is_refused (new_row pane session slug name) (row ∷ rows) ≡ (
        text_eq row.canonical_name name
        || (has_key pane session row || is_refused (new_row pane session slug name) rows))
unfolding is_refused has_key
is_refused-cons pane session slug name row rows = ground arith

-- A row for a key that the table does not have is refused for its name, or not at all.
is_refused-taken :
    (pane : VerifiedPane) (session slug name : Text) (rows : List IdentityRow)
    → find_row (has_key pane session) rows ≡ none
    → ((is_refused (new_row pane session slug name) rows ≡ true) × IsTakenName name rows)
      ⊎ ((is_refused (new_row pane session slug name) rows ≡ false) × IsFreeName name rows)
unfolding find_row IsTakenName is_refused
is_refused-taken pane session slug name [] absent = inr (refl, tt)
is_refused-taken pane session slug name (row ∷ rows) absent =
    elim (Bool-cases (has_key pane session row)) [
      | inl key ↦ let no : some row ≡ none = rw key at absent in cc
      | inr other ↦ elim (Bool-cases (text_eq row.canonical_name name)) [
        | inl same ↦ inl (
          is_refused-cons pane session slug name row rows ∙ rw same refl,
          ([], row, rows, refl, (text_eq_iff row.canonical_name name).0 same),
        )
        | inr fresh ↦ elim (is_refused-taken pane session slug name rows (rw other at absent)) [
          | inl (refused, taken) ↦ inl (
            is_refused-cons pane session slug name row rows ∙ rw (fresh, other, refused) refl,
            (row ∷ taken.0, taken.1, taken.2, ap (λ x. row ∷ x) (taken.3), taken.4),
          )
          | inr (accepted, free) ↦ inr (
            is_refused-cons pane session slug name row rows ∙ rw (fresh, other, accepted) refl,
            (fresh, free),
          )
        ]
      ]
    ]

-- `resolved` is the identity of the first free one of the first `n` names, whose row is inserted;
-- or all of these names are taken, and it is allocation_exhausted with the rows as they were.
unfoldable pub IsFirstFree :
    ℕ → (ℕ → Text) → VerifiedPane → Text → List IdentityRow → Resolved → Type 0
IsFirstFree n names pane session rows resolved =
    ((k : ℕ) × (k < n)
      × AllTaken k names rows
      × IsFreeName (names k) rows
      × (resolved ≡ (
        done (new_identity pane session (canonical_slug (some pane.role)) (names k)),
        new_row pane session (canonical_slug (some pane.role)) (names k) ∷ rows,
      )))
    ⊎ (AllTaken n names rows × (resolved ≡ (failed allocation_exhausted, rows)))

allocate-IsFirstFree :
    (n : ℕ) (source : ℕ → Outcome IdentityError Text) (names : ℕ → Text) (pane : VerifiedPane)
    (session : Text) (rows : List IdentityRow)
    → find_row (has_key pane session) rows ≡ none
    → ((i : ℕ)
        → i < n
        → (source i >>= canonical_name_from_parts (canonical_slug (some pane.role)))
          ≡ done (names i))
    → IsFirstFree n names pane session rows
        (allocate (draws n source) pane session (canonical_slug (some pane.role)) rows)
unfolding IsFirstFree AllTaken allocate draws try_name
allocate-IsFirstFree zero source names pane session rows absent named = inr (tt, refl)
allocate-IsFirstFree (suc n) source names pane session rows absent named =
    let slug = canonical_slug (some pane.role) in
    let rest =
      allocate-IsFirstFree n (λ i. source (suc i)) (λ i. names (suc i)) pane session rows absent
        (λ i below. named (suc i) (omega arith)) in
    elim (is_refused-taken pane session slug (names 0) rows absent) [
      | inr (accepted, free) ↦
          inl (0, omega arith, tt, free, rw (named 0 (omega arith), try_name, accepted) refl)
      | inl (refused, taken) ↦
          let next : try_name (source 0 >>= canonical_name_from_parts slug) pane session slug rows
                (allocate (draws n (λ i. source (suc i))) pane session slug rows)
              ≡ allocate (draws n (λ i. source (suc i))) pane session slug rows =
            rw (named 0 (omega arith), try_name, refused) refl in
          elim rest [
            | inl (k, below, earlier, free, made) ↦
                inl (suc k, omega arith, (taken, earlier), free, next ∙ made)
            | inr (all_taken, exhausted) ↦ inr ((taken, all_taken), next ∙ exhausted)
          ]
    ]

-- If the pane passes the checks of resolve_or_create, its key has no row, and each of the first
-- eight draws makes a name, then resolve_or_create gives the identity with the first of these eight
-- names that no row has, and inserts its row; if all eight are taken it ends with
-- allocation_exhausted and leaves the rows as they were.
pub resolve_or_create-IsFirstFree :
    (source : ℕ → Outcome IdentityError Text) (names : ℕ → Text) (expected : Option Text)
    (pane : VerifiedPane) (session : Text) (rows : List IdentityRow)
    → check_pane expected pane session rows ≡ done tt
    → find_row (has_key pane session) rows ≡ none
    → ((i : ℕ)
        → i < 8
        → (source i >>= canonical_name_from_parts (canonical_slug (some pane.role)))
          ≡ done (names i))
    → IsFirstFree 8 names pane session rows (resolve_or_create source expected pane session rows)
unfolding resolve_or_create after_checks resolve_found
resolve_or_create-IsFirstFree source names expected pane session rows passes absent named =
    rw (passes, absent)
      (allocate-IsFirstFree max_allocation_attempts source names pane session rows absent named)
