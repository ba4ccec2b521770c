-- ===== src/Folders.antt =====
-- The tree of folders that a team puts its servers in: Backend/app/api/folders.py. The code does not
-- look up the folder that a caller names as a parent; the foreign key of the table wants it to exist.
pub mod Laws
use server_deck_backend.Base.{
  ℕ, Bool, true, false, ◌&&◌, List, [], ◌∷◌, ◌==◌, nat_eq, Option, none, some, select, any,
  if◌then◌else◌, update_where, delete_where,
}
use server_deck_backend.Base.Outcome.{scalar_one_or_none, crash}
use server_deck_backend.Models.{User, Server, ServerFolder}
use server_deck_backend.Database.{
  Action, ◌>>=◌, ◌>>◌, pure, lift, raise_http, commit, tables, put_tables, Tables,
}

-- `column == id` for a column that may be NULL.
abbrev pub is_id : ℕ → Option ℕ → Bool
is_id id none = false
is_id id (some n) = n == id

-- The foreign key of "parent_id" and of a server's "folder_id".
abbrev pub has_folder : Option ℕ → List ServerFolder → Bool
has_folder none folders = true
has_folder (some id) folders = any (λ f. f.id == id) folders

unfoldable pub put_folders : Option ℕ → Tables → List ServerFolder → Action (Unit {0})
put_folders parent_id t folders =
    if has_folder parent_id t.folders
    then put_tables (record t { folders = folders })
    else lift (crash "IntegrityError")

unfoldable pub list_folders : User → Action (List ServerFolder)
list_folders user = do t ← tables; pure (select (λ f. f.team_id == user.team_id) t.folders)

unfoldable pub create_folder : ℕ → Option ℕ → User → Action ServerFolder
create_folder new_id parent_id user = do
  t ← tables
  let folder : ServerFolder = record { id = new_id; parent_id = parent_id; team_id = user.team_id }
  put_folders parent_id t (folder ∷ t.folders)
  commit
  pure folder

-- The caller's folder.
unfoldable pub find_folder : ℕ → User → Action (Option ServerFolder)
find_folder folder_id user = do
  t ← tables
  lift (scalar_one_or_none (select (λ f. f.id == folder_id && f.team_id == user.team_id) t.folders))

-- The servers are unlinked, the children move up, and the folder goes.
abbrev pub without_folder : ServerFolder → Tables → Tables
without_folder folder t = record t {
  servers =
      update_where (λ s. is_id folder.id s.folder_id) (λ s. record s { folder_id = none })
        t.servers;
  folders =
      delete_where (λ f. f.id == folder.id)
        (update_where (λ f. is_id folder.id f.parent_id)
          (λ f. record f { parent_id = folder.parent_id }) t.folders);
}

unfoldable pub delete_found : Option ServerFolder → Action (Unit {0})
delete_found none = raise_http 404 "Folder not found"
delete_found (some folder) = do t ← tables; put_tables (without_folder folder t); commit

unfoldable pub delete_folder : ℕ → User → Action (Unit {0})
delete_folder folder_id user = do found ← find_folder folder_id user; delete_found found

unfoldable pub move_found : Option ℕ → Option ServerFolder → Action (Unit {0})
move_found parent_id none = raise_http 404 "Folder not found"
move_found parent_id (some folder) = do
  t ← tables
  put_folders parent_id t
      (update_where (λ f. f.id == folder.id) (λ f. record f { parent_id = parent_id }) t.folders)
  commit

unfoldable pub move_folder : ℕ → Option ℕ → User → Action (Unit {0})
move_folder folder_id parent_id user = do
  found ← find_folder folder_id user
  move_found parent_id found
