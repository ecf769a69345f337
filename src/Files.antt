-- ===== src/Files.antt =====
-- pkg/util/file_content_loader.go: the contents of the files at a list of paths.
pub mod Contents
pub mod Watch
pub mod Samples
mod Tests
use Prim.Native.String.{◌++◌ as concat}
use camblet.Base.{
  ℕ, not, Bool, true, false, List, [], ◌∷◌, ◌++◌, Option, none, some, String, if◌then◌else◌,
}
use camblet.Base.Assoc.{Assoc, insert}
use camblet.Base.Result.{Error}
use camblet.Base.Fallible.{Fallible, value, fails, ◌>>=◌}

abbrev pub Bytes : Type 0
Bytes = List ℕ

-- What the loader takes from os and path/filepath, as it answers in one run: whether a path is a
-- directory, without following links; the entries of a directory and whether they are directories.
pub record Os : Type 0 where
  pub lstat : String → Fallible Bool
  pub is_not_exist : Error → Bool
  pub read_dir : String → Fallible (List (String × Bool))
  pub read_file : String → Fallible Bytes
  pub join : String → String → String

-- errors.WrapIf
abbrev pub wrapped {ℓ} : {A : Type ℓ} → String → Fallible A → Fallible A
wrapped message (value a) = value a
wrapped message (fails e) = fails (concat message e)

module _ (os : Os) where
  abbrev pub exists : Fallible Bool → Bool
  exists (value is_dir) = true
  exists (fails e) = not (os.is_not_exist e)

  -- `NewFileContentLoader`: the paths that exist
  unfoldable pub existing_paths : List String → List String
  existing_paths [] = []
  existing_paths (path ∷ paths) =
      let rest = existing_paths paths in if exists (os.lstat path) then path ∷ rest else rest

  abbrev pub entry_files : String → List (String × Bool) → List String
  entry_files path [] = []
  entry_files path ((name, is_dir) ∷ entries) =
      let rest = entry_files path entries in if is_dir then rest else (os.join path name ∷ rest)

  abbrev pub files_at : String → Bool → Fallible (List String)
  files_at path false = value (path ∷ [])
  files_at path true = do
    entries ← wrapped "could not read directory: " (os.read_dir path)
    value (entry_files path entries)

  abbrev pub files_of : String → Fallible (List String)
  files_of path = do
    is_dir ← wrapped "could not get file info: " (os.lstat path)
    files_at path is_dir

  -- The first loop of `load`
  unfoldable pub list_files : List String → Fallible (List String)
  list_files [] = value []
  list_files (path ∷ paths) = do
    files ← files_of path
    rest ← list_files paths
    value (files ++ rest)

  -- The second loop of `load`
  unfoldable pub read_all : Assoc Bytes → List String → Fallible (Assoc Bytes)
  unfolding insert
  read_all contents [] = value contents
  read_all contents (file ∷ files) = do
    content ← wrapped "could not read file: " (os.read_file file)
    read_all (insert file content contents) files

  -- `load`: the contents that the handler gets
  unfoldable pub load : List String → Fallible (Assoc Bytes)
  unfolding list_files read_all
  load paths = do files ← list_files paths; read_all [] files

-- The items of a file that are parsed and pass the validator, if there is one; the others are
-- skipped. Both loaders have this loop.
module _ {Item : Type 0} {A : Type 0} (parse : Item → Fallible A)
    (validator : Option (A → Option Error)) where
  abbrev pub passes : A → Bool
  passes a = elim validator [ none ↦ true | some f ↦ elim (f a) [ none ↦ true | some e ↦ false ] ]

  abbrev pub keep : Fallible A → List A → List A
  keep (fails e) rest = rest
  keep (value a) rest = if passes a then a ∷ rest else rest

  unfoldable pub valid_items : List Item → List A
  valid_items [] = []
  valid_items (item ∷ items) = keep (parse item) (valid_items items)
