-- ===== src/Base/Dicts.antt =====
-- Python dictionaries that are read and written by key only, as functions.
use mathlib.Core.Option.{Option, none, some}
use mathlib.Core.List.{List, []}
use server_deck_backend.Base.Tests.{PyEq, ◌==◌, if◌then◌else◌}

-- `d.get(k)` is `d k`.
abbrev pub Dict {ℓ κ} : Type ℓ → Type κ → Type (ℓ ⊔ κ)
Dict K V = K → Option V

module _ {ℓ κ} {K : Type ℓ} {V : Type κ} ⦃py : PyEq K⦄ where
  -- `d[k] = v`
  abbrev pub put : Dict K V → K → V → Dict K V
  put d k v j = if j == k then some v else d j

  -- `d.pop(k, None)`, `del d[k]`
  abbrev pub pop : Dict K V → K → Dict K V
  pop d k j = if j == k then none else d j

-- `d.get(k, set())`
abbrev pub get_set {ℓ κ} : {K : Type ℓ} {A : Type κ} → Dict K (List A) → K → List A
get_set d k = elim (d k) [ none ↦ [] | some xs ↦ xs ]
