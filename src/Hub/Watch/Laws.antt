-- ===== src/Hub/Watch/Laws.antt =====
-- The invariant of the two dictionaries: who is a watcher is found by the clean-up.
use server_deck_backend.Base.{
  contains-add, ℕ, ◌≡◌, refl, ap, Bool, true, List, [], ◌∷◌, ◌==◌, nat_eq, text_eq, if◌then◌else◌,
  contains, add, discard, select, Option, none, some, arith, eq_of_==, ==-sym, PyEq, ◌||◌, not,
  ◌&&◌,
}
use server_deck_backend.Base.Text.{Text}
use server_deck_backend.Base.Dicts.{Dict, put, pop, get_set}
use server_deck_backend.Hub.Watch.{Watch, open_client, watch, unwatch, forward}

-- `ws` is in the set of `key`, and `key` in the set of `ws`.
abbrev pub watches_key : Watch → ℕ → Text → Bool
watches_key w ws key = contains ws (get_set w.watchers key)

abbrev pub knows_key : Watch → ℕ → Text → Bool
knows_key w ws key = contains key (get_set w.watches ws)

-- The clean-up of a websocket finds every set that it is in.
abbrev pub IsTracked : Watch → Type 0
IsTracked w = (ws : ℕ) (key : Text) → watches_key w ws key ≡ true → knows_key w ws key ≡ true

module _ {ℓ} {A : Type ℓ} ⦃py : PyEq A⦄ where
  pub contains-discard :
      (a b : A) (xs : List A) → contains b (discard a xs) ≡ (not (a == b) && contains b xs)
  contains-discard a b [] = ground arith
  contains-discard a b (x ∷ xs) =
      ground (arith, contains-discard a b xs, py.same_iff a x, py.same_iff b x, py.same_iff a b)

  pub contains-select :
      (p : A → Bool) (b : A) (xs : List A) → contains b (select p xs) ≡ (p b && contains b xs)
  contains-select p b [] = ground arith
  contains-select p b (x ∷ xs) =
      ground (arith, contains-select p b xs, py.same_iff b x, ap p {x = b} {y = x})

module _ {ℓ κ} {K : Type ℓ} {A : Type κ} ⦃py : PyEq K⦄ where
  pub get_set-put :
      (d : Dict K (List A)) (k : K) (v : List A) (j : K)
      → get_set (put d k v) j ≡ (if j == k then v else get_set d j)
  get_set-put d k v j = ground arith

  pub get_set-pop :
      (d : Dict K (List A)) (k j : K) → get_set (pop d k) j ≡ (if j == k then [] else get_set d j)
  get_set-pop d k j = ground arith

-- Who watches `j` after the one set of `key` was changed.
pub contains-put :
    (d : Dict Text (List ℕ)) (key : Text) (v : List ℕ) (other : ℕ) (j : Text)
    → contains other (get_set (put d key v) j)
      ≡ (if j == key then contains other v else contains other (get_set d j))
contains-put d key v other j = ground (arith, get_set-put d key v j)

pub open_client-IsTracked :
    (ws : ℕ) (w : Watch) → w.watches ws ≡ none → IsTracked w → IsTracked (open_client ws w)
unfolding open_client
open_client-IsTracked ws w fresh h = λ other key m.
    ground (arith, eq_of_== other ws, h other key m, get_set-put w.watches ws [] other, fresh)

-- What a message "watch" changes: the one membership, on both sides.
module _ (ws : ℕ) (key : Text) (w : Watch) {keys : List Text}
    (opened : w.watches ws ≡ some keys) where
  pub watch-watches :
      (other : ℕ) (j : Text)
      → watches_key (watch ws key w).1 other j
        ≡ ((other == ws && j == key) || watches_key w other j)
  unfolding watch
  watch-watches other j = ground (
    opened,
    arith,
    contains-put w.watchers key (add ws (get_set w.watchers key)) other j,
    contains-add ws other (get_set w.watchers key),
    eq_of_== j key,
  )

  pub watch-knows :
      (other : ℕ) (j : Text)
      → knows_key (watch ws key w).1 other j ≡ ((other == ws && j == key) || knows_key w other j)
  unfolding watch
  watch-knows other j = ground (
    opened,
    arith,
    get_set-put w.watches ws (add key keys) other,
    contains-add key j keys,
    eq_of_== other ws,
    opened,
  )

  pub watch-IsTracked : IsTracked w → IsTracked (watch ws key w).1
  watch-IsTracked h other j m =
      ground (arith, h other j, watch-watches other j, watch-knows other j)

  pub unwatch-watches :
      (other : ℕ) (j : Text)
      → watches_key (unwatch ws key w).1 other j
        ≡ (not (ws == other && j == key) && watches_key w other j)
  unfolding unwatch
  unwatch-watches other j = go (w.watchers key) refl
    where
      go :
          (o : Option (List ℕ))
          → w.watchers key ≡ o
          → watches_key (unwatch ws key w).1 other j
            ≡ (not (ws == other && j == key) && watches_key w other j)
      go none e = ground (arith, eq_of_== j key, e)
      go (some set) e = ground (
        arith,
        e,
        opened,
        contains-put w.watchers key (discard ws set) other j,
        contains-discard ws other set,
        eq_of_== j key,
      )

  unwatch-knows :
      (other : ℕ) (j : Text)
      → (not (ws == other && j == key) && knows_key w other j) ≡ true
      → knows_key (unwatch ws key w).1 other j ≡ true
  unfolding unwatch
  unwatch-knows other j m = go (w.watchers key) refl
    where
      go :
          (o : Option (List ℕ)) → w.watchers key ≡ o → knows_key (unwatch ws key w).1 other j ≡ true
      go none e = ground (arith, m, e)
      go (some set) e = ground (
        arith,
        e,
        m,
        opened,
        get_set-put w.watches ws (discard key keys) other,
        contains-discard key j keys,
        eq_of_== other ws,
        ==-sym key j,
        ==-sym ws other,
      )

  pub unwatch-IsTracked : IsTracked w → IsTracked (unwatch ws key w).1
  unwatch-IsTracked h other j m =
      ground (arith, h other j, unwatch-watches other j, unwatch-knows other j)

pub forward-watches :
    (alive : ℕ → Bool) (key : Text) (w : Watch) (other : ℕ) (j : Text)
    → watches_key (forward alive key w).1 other j
      ≡ ((alive other || not (j == key)) && watches_key w other j)
unfolding forward
forward-watches alive key w other j = go (w.watchers key) refl
  where
    go :
        (o : Option (List ℕ))
        → w.watchers key ≡ o
        → watches_key (forward alive key w).1 other j
          ≡ ((alive other || not (j == key)) && watches_key w other j)
    go none e = ground (arith, eq_of_== j key, e)
    go (some set) e = ground (
      arith,
      e,
      contains-put w.watchers key (select alive set) other j,
      contains-select alive other set,
      eq_of_== j key,
    )

pub forward-same_watches :
    (alive : ℕ → Bool) (key : Text) (w : Watch) → (forward alive key w).1.watches ≡ w.watches
unfolding forward
forward-same_watches alive key w = go (w.watchers key) refl
  where
    go : (o : Option (List ℕ)) → w.watchers key ≡ o → (forward alive key w).1.watches ≡ w.watches
    go none e = rw (e, forward)
    go (some set) e = rw (e, forward)

pub forward-IsTracked :
    (alive : ℕ → Bool) (key : Text) (w : Watch) → IsTracked w → IsTracked (forward alive key w).1
forward-IsTracked alive key w h other j m =
    ground (arith, h other j, forward-watches alive key w other j, forward-same_watches alive key w)
