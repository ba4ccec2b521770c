-- ===== src/Agent/Files/Guards.antt =====
-- What the file commands of the agent do not touch, and what they do not read.
use server_deck_backend.Base.{
  ℕ, ◌*◌, ◌≤◌, ◌≡◌, refl, true, false, [], ◌∷◌, text_eq, Option, none, some, contains, ltb,
  Bool-cases, inl, inr, ◌⊎◌, arith,
}
use server_deck_backend.Base.Text.{Text}
use server_deck_backend.Agent.Files.{
  Os, content, contents, protected_paths, erase, delete_path, handle_delete, read_file, handle_read,
}

contents-some :
    (found : Option Text) {text : Text} → contents found ≡ content text → found ≡ some text
contents-some none h = cc
contents-some (some read) h = cc

module _ {S : Type 0} (os : Os S) where
  delete_path-guarded :
      (p : Text) (s : S)
      → ((delete_path os p s).1 ≡ s)
        ⊎ ((os.isabs p ≡ true)
            × (contains (os.realpath p s) protected_paths ≡ false)
            × (delete_path os p s ≡ erase os p s))
  unfolding delete_path
  delete_path-guarded p s = elim (Bool-cases (os.isabs p)) [
    | inr relative ↦ inl (rw relative refl)
    | inl absolute ↦ elim (Bool-cases (contains (os.realpath p s) protected_paths)) [
      | inl guarded ↦ inl (rw (absolute, guarded) refl)
      | inr free ↦ inr (absolute, free, rw (absolute, free) refl)
    ]
  ]

  -- A deletion that changes anything is of an absolute path that does not resolve to a protected
  -- directory.
  pub handle_delete-guarded :
      (path : Option Text) (s : S)
      → ((handle_delete os path s).1 ≡ s)
        ⊎ ((p : Text) × (path ≡ some p)
            × (os.isabs p ≡ true)
            × (contains (os.realpath p s) protected_paths ≡ false)
            × (handle_delete os path s ≡ erase os p s))
  unfolding handle_delete
  handle_delete-guarded none s = inl refl
  handle_delete-guarded (some []) s = inl refl
  handle_delete-guarded (some (c ∷ cs)) s = elim (delete_path-guarded (c ∷ cs) s) [
    | inl same ↦ inl same
    | inr (absolute, free, run) ↦ inr (c ∷ cs, refl, absolute, free, run)
  ]

  read_file-bounds :
      (p : Text) (size : Option ℕ) (s : S) {text : Text}
      → (read_file os p size s).0 ≡ content text
      → (n : ℕ) × (size ≡ some n) × (n ≤ 10 * 1024 * 1024) × (os.read p s ≡ some text)
  unfolding read_file
  read_file-bounds p none s h = cc
  read_file-bounds p (some n) s {text} h = elim (Bool-cases (ltb (10 * 1024 * 1024) n)) [
    | inl e ↦ cc (rw e at h)
    | inr e ↦ (n, refl, ground (arith, e), contents-some (os.read p s) (rw e at h))
  ]

  -- The content that a read returns is that of a file of at most 10 MB.
  handle_read-bounds :
      (path : Option Text) (s : S) {text : Text}
      → (handle_read os path s).0 ≡ content text
      → (p : Text) × (path ≡ some p)
        × (os.isfile p s ≡ true)
        × (n : ℕ) × (os.getsize p s ≡ some n)
        × (n ≤ 10 * 1024 * 1024)
        × (os.read p s ≡ some text)
  unfolding handle_read
  handle_read-bounds none s h = cc
  handle_read-bounds (some []) s h = cc
  handle_read-bounds (some (c ∷ cs)) s h = elim (Bool-cases (os.isfile (c ∷ cs) s)) [
    | inl e ↦
        let (n, size, small, text) =
          read_file-bounds (c ∷ cs) (os.getsize (c ∷ cs) s) s (rw e at h) in
        (c ∷ cs, refl, e, n, size, small, text)
    | inr e ↦ cc (rw e at h)
  ]
