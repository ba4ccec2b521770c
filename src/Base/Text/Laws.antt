-- ===== src/Base/Text/Laws.antt =====
-- Laws of the text methods.
use mathlib.Core.List.{reverse, reverse-append, reverse-reverse}
use server_deck_backend.Base.Tests.{◌==◌, nat_eq, Bool-cases}
use server_deck_backend.Base.Lists.{All, contains}
use Prim.Native.Nat.{ℕ}
use mathlib.Core.Path.{◌≡◌, refl, sym, subst}
use mathlib.Core.Bool.{false}
use mathlib.Core.Logic.{inl, inr}
use mathlib.Core.List.{List, [], ◌∷◌, ◌++◌}
use native.Mathlib.Omega.{arith}
use server_deck_backend.Base.Text.{Text, is_space, strip_left, strip, lower_char, lower, split_char}

pub split_char-append :
    (sep : ℕ) (s t : Text)
    → contains sep s ≡ false
    → split_char sep (s ++ sep ∷ t) ≡ s ∷ split_char sep t
unfolding split_char
split_char-append sep [] t h = ground arith
split_char-append sep (c ∷ s) t h =
    rw (split_char-append sep s t (ground arith), split_char) (ground arith)

pub split_char-none : (sep : ℕ) (s : Text) → contains sep s ≡ false → split_char sep s ≡ s ∷ []
unfolding split_char
split_char-none sep [] h = refl
split_char-none sep (c ∷ s) h = rw (split_char-none sep s (ground arith), split_char) (ground arith)

pub split_char-cons :
    (sep : ℕ) (s : Text) → (w : Text) × (ws : List Text) × (split_char sep s ≡ w ∷ ws)
unfolding split_char
split_char-cons sep [] = ([], [], refl)
split_char-cons sep (c ∷ s) =
    let (w, ws, e) = split_char-cons sep s in
    elim (Bool-cases (c == sep)) [
      | inl h ↦ ([], w ∷ ws, rw (e, h))
      | inr h ↦ (c ∷ w, ws, rw (e, h))
    ]

pub All-append {ℓ κ} :
    {A : Type ℓ} (P : A → Type κ) (xs ys : List A) → All P xs → All P ys → All P (xs ++ ys)
All-append P [] ys h k = k
All-append P (x ∷ xs) ys h k = (h.0, All-append P xs ys h.1 k)

All-reverse {ℓ κ} : {A : Type ℓ} (P : A → Type κ) (xs : List A) → All P xs → All P (reverse xs)
All-reverse P [] h = tt
All-reverse P (x ∷ xs) h =
    subst (All P) (sym (reverse-append (x ∷ []) xs))
      (All-append P (reverse xs) (x ∷ []) (All-reverse P xs h.1) (h.0, tt))

strip_left-id : (s : Text) → All (λ c. is_space c ≡ false) s → strip_left s ≡ s
unfolding strip_left
strip_left-id [] h = refl
strip_left-id (c ∷ s) h = rw h.0

-- A text without white space is its own `strip`.
pub strip-id : (s : Text) → All (λ c. is_space c ≡ false) s → strip s ≡ s
unfolding strip
strip-id s h =
    rw (strip_left-id s h, strip_left-id (reverse s) (All-reverse _ s h), reverse-reverse)

pub lower-id : (s : Text) → All (λ c. lower_char c ≡ c) s → lower s ≡ s
unfolding lower
lower-id [] h = refl
lower-id (c ∷ s) h = cc (h.0, lower-id s h.1)
