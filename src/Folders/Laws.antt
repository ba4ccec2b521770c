-- ===== src/Folders/Laws.antt =====
-- What is left of a folder that was deleted.
use server_deck_backend.Base.{
  ℕ, ◌≡◌, refl, ap, ◌∙◌, sym, subst, Bool, true, false, ◌&&◌, List, [], ◌∷◌, ◌==◌, nat_eq, text_eq,
  if◌then◌else◌, none, some, select, update_where, delete_where, All, Bool-cases, inl, inr, ==-refl,
}
use server_deck_backend.Base.Outcome.{Outcome, ok, scalar_one_or_none}
use server_deck_backend.Models.{User, ServerFolder}
use server_deck_backend.Database.{Session, Tables, ◌>>◌, commit, tables, put_tables}
use server_deck_backend.Database.Laws.{>>=-ok, tables-read}
use server_deck_backend.Folders.{is_id, find_folder, without_folder, delete_found, delete_folder}

-- Nothing refers to the folder.
pub record IsUnreferenced (id : ℕ) (t : Tables) : Type 0 where
  pub servers : All (λ s. is_id id s.folder_id ≡ false) t.servers
  pub parents : All (λ f. is_id id f.parent_id ≡ false) t.folders
  pub row : All (λ f. (f.id == id) ≡ false) t.folders

module _ {ℓ κ} {A : Type ℓ} (P : A → Type κ) where
  if-P : (b : Bool) {x y : A} → (b ≡ true → P x) → (b ≡ false → P y) → P (if b then x else y)
  if-P true on_true on_false = on_true refl
  if-P false on_true on_false = on_false refl

  update_where-All :
      (q : A → Bool) (f : A → A)
      → ((x : A) → q x ≡ true → P (f x))
      → ((x : A) → q x ≡ false → P x)
      → (rows : List A) → All P (update_where q f rows)
  update_where-All q f changed kept [] = tt
  update_where-All q f changed kept (x ∷ rows) =
      (if-P (q x) (changed x) (kept x), update_where-All q f changed kept rows)

  All-delete_where : (q : A → Bool) (rows : List A) → All P rows → All P (delete_where q rows)
  All-delete_where q [] h = tt
  All-delete_where q (x ∷ rows) (p, h) = elim (Bool-cases (q x)) [
    | inl e ↦ rw e (All-delete_where q rows h)
    | inr e ↦ rw e (p, All-delete_where q rows h)
  ]

delete_where-All {ℓ} :
    {A : Type ℓ} (q : A → Bool) (rows : List A) → All (λ x. q x ≡ false) (delete_where q rows)
delete_where-All q [] = tt
delete_where-All q (x ∷ rows) = elim (Bool-cases (q x)) [
  | inl e ↦ rw e (delete_where-All q rows)
  | inr e ↦ rw e (e, delete_where-All q rows)
]

without_folder-IsUnreferenced :
    (folder : ServerFolder) (t : Tables)
    → is_id folder.id folder.parent_id ≡ false
    → IsUnreferenced folder.id (without_folder folder t)
without_folder-IsUnreferenced folder t apart = record {
  servers =
      update_where-All (λ s. is_id folder.id s.folder_id ≡ false) (λ s. is_id folder.id s.folder_id)
        (λ s. record s { folder_id = none }) (λ s e. refl) (λ s e. e) t.servers;
  parents =
      All-delete_where (λ f. is_id folder.id f.parent_id ≡ false) (λ f. f.id == folder.id) _
        (update_where-All (λ f. is_id folder.id f.parent_id ≡ false)
          (λ f. is_id folder.id f.parent_id) (λ f. record f { parent_id = folder.parent_id })
          (λ f e. apart) (λ f e. e) t.folders);
  row = delete_where-All (λ f. f.id == folder.id) _;
}

delete_found-committed :
    (folder : ServerFolder) (s : Session) (t : Tables)
    → s.current.tenants s.search_path ≡ some t
    → ((delete_found (some folder) s).0 ≡ ok tt)
      × ((delete_found (some folder) s).1.committed.tenants s.search_path
          ≡ some (without_folder folder t))
unfolding delete_found commit put_tables
delete_found-committed folder s t seen =
    subst
      (λ (r : Outcome (Unit {0}) × Session).
        (r.0 ≡ ok tt) × (r.1.committed.tenants s.search_path ≡ some (without_folder folder t)))
      (sym (
        >>=-ok tables (λ t. put_tables (without_folder folder t) >> commit) s (tables-read s seen)))
      (refl, rw (==-refl s.search_path))

-- The deletion of a folder of the caller's team succeeds, and nothing in the tenant's committed
-- tables refers to it any more, provided that the folder is not its own parent.
pub delete_folder-IsUnreferenced :
    (folder_id : ℕ) (user : User) (s : Session) (t : Tables) (folder : ServerFolder)
    → s.current.tenants s.search_path ≡ some t
    → select (λ f. f.id == folder_id && f.team_id == user.team_id) t.folders ≡ folder ∷ []
    → is_id folder.id folder.parent_id ≡ false
    → ((delete_folder folder_id user s).0 ≡ ok tt)
      × ((left : Tables) × ((delete_folder folder_id user s).1.committed.tenants s.search_path
            ≡ some left)
          × IsUnreferenced folder.id left)
unfolding delete_folder find_folder
delete_folder-IsUnreferenced folder_id user s t folder seen row apart =
    let found : find_folder folder_id user s ≡ (ok (some folder), s) =
      >>=-ok tables _ s (tables-read s seen) ∙ ap (λ l. (scalar_one_or_none l, s)) row in
    let step : delete_folder folder_id user s ≡ delete_found (some folder) s =
      >>=-ok (find_folder folder_id user) delete_found s found in
    let (done, left) = delete_found-committed folder s t seen in
    subst
      (λ (r : Outcome (Unit {0}) × Session).
        (r.0 ≡ ok tt)
        × ((left : Tables) × (r.1.committed.tenants s.search_path ≡ some left)
            × IsUnreferenced folder.id left))
      (sym step)
      (done, (without_folder folder t, left, without_folder-IsUnreferenced folder t apart))
