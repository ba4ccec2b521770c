-- ===== src/Base/Counts.antt =====
-- How many rows a query finds after other rows were updated, added or deleted.
use Prim.Native.Nat.{ℕ, suc, ◌+◌, ◌≤◌, ◌<◌}
use mathlib.Core.Path.{◌≡◌, refl, ap}
use mathlib.Core.Logic.{inl, inr}
use mathlib.Core.Bool.{Bool, true, false, ◌&&◌}
use mathlib.Core.List.{List, [], ◌∷◌}
use native.Mathlib.Omega.{arith}
use server_deck_backend.Base.Tests.{Bool-cases, if◌then◌else◌}
use server_deck_backend.Base.Lists.{select, update_where, delete_where}

abbrev pub one_if : Bool → ℕ
one_if true = 1
one_if false = 0

module _ {ℓ} {A : Type ℓ} where
  abbrev pub count : (A → Bool) → List A → ℕ
  count p [] = 0
  count p (x ∷ xs) = let rest = count p xs in if p x then suc rest else rest

  pub count-cons :
      (p : A → Bool) (x : A) (rows : List A) → count p (x ∷ rows) ≡ one_if (p x) + count p rows
  count-cons p x rows = ground arith

  pub update_where-none :
      (q : A → Bool) (f : A → A) (rows : List A) → count q rows ≡ 0 → update_where q f rows ≡ rows
  update_where-none q f [] h = refl
  update_where-none q f (x ∷ rows) h = elim (Bool-cases (q x)) [
    | inl e ↦ absurd (omega (arith, rw e at h))
    | inr e ↦ rw (e, update_where-none q f rows (rw e at h)) refl
  ]

  pub select-count :
      (p q : A → Bool) (x : A) {rest : List A} (rows : List A)
      → select p rows ≡ x ∷ rest
      → q x ≡ true
      → 0 < count q rows
  select-count p q x [] h e = cc
  select-count p q x (y ∷ rows) h e = elim (Bool-cases (p y)) [
    | inl ep ↦ ground (arith, ap q {x = y} {y = x} (cc (rw ep at h)))
    | inr ep ↦ ground (arith, select-count p q x rows (rw ep at h) e)
  ]

  -- Only the row `x` is updated, if no other row is like it.
  pub count-update_where :
      (p q r : A → Bool) (f : A → A) (x : A) {rest : List A} (rows : List A)
      → select p rows ≡ x ∷ rest
      → q x ≡ true
      → count q rows ≤ 1
      → count r (update_where q f rows) + one_if (r x) ≡ count r rows + one_if (r (f x))
  count-update_where p q r f x [] h e u = cc
  count-update_where p q r f x (y ∷ rows) h e u = elim (Bool-cases (p y)) [
    | inl ep ↦
        let same : y ≡ x = cc (rw ep at h) in
        ground (
          arith,
          same,
          ap q same,
          ap r same,
          ap (λ z. r (f z)) same,
          e,
          ap (count r) (update_where-none q f rows (ground (arith, ap q same))),
          count-cons r (f y) (update_where q f rows),
          count-cons r y rows,
        )
    | inr ep ↦ elim (Bool-cases (q y)) [
      | inl eq ↦ absurd (omega (arith, select-count p q x rows (rw ep at h) e, rw eq at u))
      | inr eq ↦ rw eq (
          omega (
            arith,
            count-cons r y (update_where q f rows),
            count-cons r y rows,
            count-update_where p q r f x rows (rw ep at h) e (rw eq at u),
          ))
    ]
  ]

  pub count-delete_where :
      (p q : A → Bool) (rows : List A) → count p (delete_where q rows) ≤ count p rows
  count-delete_where p q [] = omega arith
  count-delete_where p q (x ∷ rows) = ground (arith, count-delete_where p q rows)

  pub count-select_none : (p : A → Bool) (rows : List A) → select p rows ≡ [] → count p rows ≡ 0
  count-select_none p [] h = refl
  count-select_none p (x ∷ rows) h = ground (arith, count-select_none p rows)

  pub count-select :
      (p q : A → Bool) (rows : List A) → count p (select q rows) ≡ count (λ x. q x && p x) rows
  count-select p q [] = refl
  count-select p q (x ∷ rows) = ground (arith, count-select p q rows)

  -- A condition that follows from the one that is counted.
  pub count-implied :
      (p q : A → Bool)
      → ((x : A) → p x ≡ true → q x ≡ true)
      → (rows : List A) → count (λ x. q x && p x) rows ≡ count p rows
  count-implied p q h [] = refl
  count-implied p q h (x ∷ rows) = ground (arith, h x, count-implied p q h rows)
