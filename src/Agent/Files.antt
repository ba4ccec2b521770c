-- ===== src/Agent/Files.antt =====
-- File commands of the agent: agent/serverdeck_agent/handlers/files.py. The operating system is a
-- parameter: a state `S` with the tests of os.path, and operations that return none where they
-- raise an exception. Listing and downloading, which only read, are not modelled.
pub mod Guards
use server_deck_backend.Base.{
  ℕ, ◌*◌, ◌≡◌, refl, Bool, true, false, ◌&&◌, ◌||◌, not, List, [], ◌∷◌, String, ◌==◌, text_eq,
  Option, none, some, contains, if◌then◌else◌, ltb,
}
use server_deck_backend.Base.Text.{Text, codes}

pub record Os (S : Type 0) : Type 0 where
  pub isabs : Text → Bool
  pub isdir : Text → S → Bool
  pub isfile : Text → S → Bool
  pub realpath : Text → S → Text
  pub dirname : Text → Text
  pub join : Text → Text → Text
  pub getsize : Text → S → Option ℕ
  pub read : Text → S → Option Text
  pub rmtree : Text → S → Bool × S
  pub remove : Text → S → Bool × S
  pub makedirs : Text → S → Bool × S
  pub write : Text → Text → S → Bool × S

pub data FileResult : Type 0 where
  error : String → FileResult
  -- An exception, whose text becomes the error.
  failed : FileResult
  success : FileResult
  wrote : Text → FileResult
  content : Text → FileResult

-- A missing path is none.
abbrev pub path_of : Option Text → Option Text
path_of none = none
path_of (some []) = none
path_of (some (c ∷ cs)) = some (c ∷ cs)

-- `_PROTECTED_PATHS`
abbrev pub protected_paths : List Text
protected_paths =
    codes "/"
    ∷ codes "/bin"
    ∷ codes "/boot"
    ∷ codes "/dev"
    ∷ codes "/etc"
    ∷ codes "/home"
    ∷ codes "/lib"
    ∷ codes "/lib64"
    ∷ codes "/proc"
    ∷ codes "/root"
    ∷ codes "/run"
    ∷ codes "/sbin"
    ∷ codes "/srv"
    ∷ codes "/sys"
    ∷ codes "/usr"
    ∷ codes "/var"
    ∷ []

-- The result of an operation that may raise, on what it leaves.
abbrev pub tried : {S : Type 0} → FileResult → Bool × S → FileResult × S
tried result (true, s) = (result, s)
tried result (false, s) = (failed, s)

abbrev pub contents : Option Text → FileResult
contents none = failed
contents (some text) = content text

module _ {S : Type 0} (os : Os S) where
  -- What is done for a path that was accepted.
  unfoldable pub erase : Text → S → FileResult × S
  erase path s =
      if os.isdir path s then tried success (os.rmtree path s) else tried success (os.remove path s)

  unfoldable pub delete_path : Text → S → FileResult × S
  delete_path path s =
      if not (os.isabs path)
      then (error "Path must be absolute", s)
      else if contains (os.realpath path s) protected_paths
      then (error "Safety first: cannot delete a protected system directory", s)
      else erase path s

  unfoldable pub handle_delete : Option Text → S → FileResult × S
  handle_delete path s = elim (path_of path) [
    | none ↦ (error "Path is required", s)
    | some p ↦ delete_path p s
  ]

  unfoldable pub read_file : Text → Option ℕ → S → FileResult × S
  read_file path none s = (failed, s)
  read_file path (some size) s =
      if ltb (10 * 1024 * 1024) size
      then (error "File too large (max 10MB)", s)
      else (contents (os.read path s), s)

  unfoldable pub handle_read : Option Text → S → FileResult × S
  handle_read path s = elim (path_of path) [
    | none ↦ (error "Path is required", s)
    | some p ↦
        if not (os.isfile p s)
        then (error "Path is not a file", s)
        else read_file p (os.getsize p s) s
  ]

  -- `os.makedirs(folder, exist_ok=True)`, then `open(path, "w")` and `f.write(text)`.
  unfoldable pub write_in : Text → Text → Text → S → FileResult × S
  write_in folder path text s =
      let (made, s1) = os.makedirs folder s in
      if made then tried (wrote path) (os.write path text s1) else (failed, s1)

  unfoldable pub handle_write : Option Text → Text → S → FileResult × S
  handle_write path text s = elim (path_of path) [
    | none ↦ (error "Path is required", s)
    | some p ↦ write_in (os.dirname p) p text s
  ]

  unfoldable pub handle_mkdir : Option Text → S → FileResult × S
  handle_mkdir path s = elim (path_of path) [
    | none ↦ (error "Path is required", s)
    | some p ↦ tried success (os.makedirs p s)
  ]

  -- `decoded` is `base64.b64decode` of the content, or none where it raises.
  unfoldable pub upload_in : Text → Text → Option Text → S → FileResult × S
  upload_in folder filename decoded s =
      let (made, s1) = os.makedirs folder s in
      if not made then (failed, s1) else elim decoded [
        | none ↦ (failed, s1)
        | some bytes ↦
            tried (wrote (os.join folder filename)) (os.write (os.join folder filename) bytes s1)
      ]

  unfoldable pub handle_upload :
      (Text → Option Text) → Option Text → Option Text → Option Text → S → FileResult × S
  handle_upload b64decode path filename none s =
      (error "Path, filename, and content are required", s)
  handle_upload b64decode path filename (some text) s = elim (path_of path) [
    | none ↦ (error "Path, filename, and content are required", s)
    | some folder ↦ elim (path_of filename) [
      | none ↦ (error "Path, filename, and content are required", s)
      | some name ↦ upload_in folder name (b64decode text) s
    ]
  ]
