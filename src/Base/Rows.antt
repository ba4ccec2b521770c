-- ===== src/Base/Rows.antt =====
-- Rows of a query after other rows were added or deleted.
use mathlib.Core.Path.{◌≡◌, refl}
use mathlib.Core.Logic.{inl, inr}
use mathlib.Core.Bool.{Bool, true, false, not}
use mathlib.Core.List.{List, [], ◌∷◌}
use native.Mathlib.Omega.{arith}
use server_deck_backend.Base.Tests.{Bool-cases}
use server_deck_backend.Base.Lists.{select, delete_where, update_where, any}

module _ {ℓ} {A : Type ℓ} (p q : A → Bool) where
  select-delete_where : (rows : List A) → select p rows ≡ [] → select p (delete_where q rows) ≡ []
  select-delete_where [] h = refl
  select-delete_where (y ∷ ys) h = elim (Bool-cases (p y)) [
    | inl e ↦ cc (rw e at h)
    | inr e ↦ elim (Bool-cases (q y)) [
      | inl d ↦ rw d (select-delete_where ys (rw e at h))
      | inr d ↦ rw (d, e) (select-delete_where ys (rw e at h))
    ]
  ]

  -- Deleting the one row of a query leaves none.
  pub select-deleted :
      (rows : List A) {x : A}
      → select p rows ≡ x ∷ []
      → q x ≡ true
      → select p (delete_where q rows) ≡ []
  select-deleted [] h d = cc
  select-deleted (y ∷ ys) h d = elim (Bool-cases (p y)) [
    | inl e ↦ elim (Bool-cases (q y)) [
      | inl d' ↦ rw d' (select-delete_where ys (cc (rw e at h)))
      | inr d' ↦ cc (rw e at h)
    ]
    | inr e ↦ elim (Bool-cases (q y)) [
      | inl d' ↦ rw d' (select-deleted ys (rw e at h) d)
      | inr d' ↦ rw (d', e) (select-deleted ys (rw e at h) d)
    ]
  ]

module _ {ℓ} {A : Type ℓ} (p : A → Bool) where
  pub select-none : (rows : List A) → any p rows ≡ false → select p rows ≡ []
  select-none [] h = refl
  select-none (x ∷ rows) h = ground (arith, select-none rows, h)

  -- A row that is the first of its kind is the only one.
  pub select-first :
      (x : A) (rows : List A) → p x ≡ true → any p rows ≡ false → select p (x ∷ rows) ≡ x ∷ []
  select-first x rows h none_else = rw (h, select-none rows none_else)

  pub select-delete_where_self : (rows : List A) → select p (delete_where p rows) ≡ []
  select-delete_where_self [] = refl
  select-delete_where_self (x ∷ rows) = elim (Bool-cases (p x)) [
    | inl e ↦ rw e (select-delete_where_self rows)
    | inr e ↦ rw e (rw e (select-delete_where_self rows))
  ]

  -- A deletion leaves the other rows.
  pub select-delete_where_other :
      (rows : List A) → select (λ x. not (p x)) (delete_where p rows) ≡ select (λ x. not (p x)) rows
  select-delete_where_other [] = refl
  select-delete_where_other (x ∷ rows) = ground (arith, select-delete_where_other rows)

  -- An update that does not touch what the query asks for.
  pub select-update_where :
      (q : A → Bool) (f : A → A) (rows : List A)
      → ((x : A) → p (f x) ≡ p x)
      → select p (update_where q f rows) ≡ update_where q f (select p rows)
  select-update_where q f [] same = refl
  select-update_where q f (x ∷ rows) same = elim (Bool-cases (p x)) [
    | inl e ↦ elim (Bool-cases (q x)) [
      | inl d ↦ rw (d, same x, e, select-update_where q f rows same, d) refl
      | inr d ↦ rw (d, e, select-update_where q f rows same, d) refl
    ]
    | inr e ↦ elim (Bool-cases (q x)) [
      | inl d ↦ rw (d, same x, e) (select-update_where q f rows same)
      | inr d ↦ rw (d, e) (select-update_where q f rows same)
    ]
  ]
