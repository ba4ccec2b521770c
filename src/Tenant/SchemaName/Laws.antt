-- ===== src/Tenant/SchemaName/Laws.antt =====
-- Which schema names `validate_schema_name` of Backend/app/database.py lets through.
use server_deck_backend.Base.{
  ◌≤◌, ◌≡◌, refl, sym, subst, true, [], ◌∷◌, ◌++◌, arith, nat_eq, length, ◌↔◌, ◌⊎◌, inl, inr, All,
  Bool-cases,
}
use server_deck_backend.Base.Text.{Text}
use server_deck_backend.Base.Outcome.{ok}
use server_deck_backend.Tenant.SchemaName.{
  is_name_start, is_name_char, matches_rest, matches_schema_name, validate_schema_name,
}

-- A plain identifier: a first character of [a-z_], then characters of [a-z0-9_].
abbrev pub IsIdentifier : Text → Type 0
IsIdentifier [] = ⊥
IsIdentifier (c ∷ s) = (is_name_start c ≡ true) × All (λ d. is_name_char d ≡ true) s

matches_rest-to :
    (s : Text)
    → matches_rest s ≡ true
    → (t : Text) × All (λ d. is_name_char d ≡ true) t × ((s ≡ t) ⊎ (s ≡ t ++ 10 ∷ []))
unfolding matches_rest
matches_rest-to [] h = ([], tt, inl refl)
matches_rest-to (c ∷ []) h = elim (Bool-cases (is_name_char c)) [
  | inl p ↦ (c ∷ [], (p, tt), inl refl)
  | inr p ↦ ([], tt, inr (ground arith))
]
matches_rest-to (c ∷ d ∷ s) h =
    let (t, named, same) = matches_rest-to (d ∷ s) (ground arith) in
    (c ∷ t, (ground arith, named), ground arith)

matches_rest-of : (t : Text) → All (λ d. is_name_char d ≡ true) t → matches_rest t ≡ true
unfolding matches_rest
matches_rest-of [] h = refl
matches_rest-of (c ∷ []) h = ground arith
matches_rest-of (c ∷ d ∷ s) h = ground (arith, matches_rest-of (d ∷ s) h.1)

matches_rest-newline :
    (t : Text) → All (λ d. is_name_char d ≡ true) t → matches_rest (t ++ 10 ∷ []) ≡ true
unfolding matches_rest
matches_rest-newline [] h = refl
matches_rest-newline (c ∷ []) h = ground arith
matches_rest-newline (c ∷ d ∷ s) h = ground (arith, matches_rest-newline (d ∷ s) h.1)

-- An identifier, with or without one newline behind it.
abbrev pub IsAccepted : Text → Type 0
IsAccepted s = (t : Text) × IsIdentifier t × ((s ≡ t) ⊎ (s ≡ t ++ 10 ∷ []))

matches_schema_name-to : (s : Text) → matches_schema_name s ≡ true → IsAccepted s
unfolding matches_schema_name
matches_schema_name-to [] h = cc
matches_schema_name-to (c ∷ s) h =
    let (t, named, same) = matches_rest-to s (ground arith) in
    (c ∷ t, (ground arith, named), ground arith)

matches_schema_name-of :
    (t : Text)
    → IsIdentifier t
    → (matches_schema_name t ≡ true) × (matches_schema_name (t ++ 10 ∷ []) ≡ true)
unfolding matches_schema_name
matches_schema_name-of [] h = elim h [ ]
matches_schema_name-of (c ∷ s) h =
    (ground (arith, matches_rest-of s h.1), ground (arith, matches_rest-newline s h.1))

matches_of_accepted : (s : Text) → IsAccepted s → matches_schema_name s ≡ true
matches_of_accepted s (t, named, inl same) =
    subst (λ u. matches_schema_name u ≡ true) (sym same) (matches_schema_name-of t named).0
matches_of_accepted s (t, named, inr same) =
    subst (λ u. matches_schema_name u ≡ true) (sym same) (matches_schema_name-of t named).1

-- A schema name passes the validation exactly when it has at most 63 characters and is an
-- identifier [a-z_][a-z0-9_]*, with or without one newline behind it; what passes is returned
-- unchanged.
pub validate_schema_name_iff :
    (s t : Text) → (validate_schema_name s ≡ ok t) ↔ ((length s ≤ 63) × IsAccepted s × (s ≡ t))
unfolding validate_schema_name
validate_schema_name_iff s t = (
  λ h. (ground arith, matches_schema_name-to s (ground arith), ground arith),
  λ (short, good, same). ground (arith, matches_of_accepted s good),
)
