-- ===== src/Secrets/Files.antt =====
-- The files below a root directory, and the calls of `os` and `pathlib` that async_threads/secrets.py
-- makes on them. A file is known by its directory and its name.
use hermes_plugin_async_thre.Prelude.{
  Bool, List, Option, String, [], any, drop_text, elem, first, if◌then◌else◌, keep, none, not, some,
  update_where, ◌&&◌, ◌++◌, ◌==◌, ◌∷◌,
}

pub record StoredFile : Type 0 where
  pub directory : String
  pub name : String
  pub content : String

pub record FileStore : Type 0 where
  pub directories : List String
  pub files : List StoredFile

abbrev pub empty_store : FileStore
empty_store = record { directories = []; files = [] }

unfoldable pub is_file : String → String → StoredFile → Bool
is_file directory name f = f.directory == directory && f.name == name

unfoldable pub read_text : String → String → FileStore → Option String
unfolding is_file
read_text directory name fs = elim (first (is_file directory name) fs.files) [
  | none ↦ none
  | some f ↦ some f.content
]

-- `path.exists()`
unfoldable pub exists : String → String → FileStore → Bool
unfolding is_file
exists directory name fs = any (is_file directory name) fs.files

-- `_write_private_text`: the file is made, or emptied before the write
unfoldable pub write_text : String → String → String → FileStore → FileStore
unfolding is_file
write_text directory name content fs = record fs {
  files =
      if any (is_file directory name) fs.files
      then update_where (is_file directory name) (λ f. record f { content = content }) fs.files
      else fs.files ++ record { directory = directory; name = name; content = content } ∷ [];
}

-- `path.unlink()`
unfoldable pub unlink : String → String → FileStore → FileStore
unfolding is_file
unlink directory name fs = record fs { files = keep (λ f. not (is_file directory name f)) fs.files }

-- `_mkdir_private`
unfoldable pub make_directory : String → FileStore → FileStore
make_directory directory fs =
    if elem directory fs.directories
    then fs
    else record fs { directories = fs.directories ++ directory ∷ [] }

-- `directory.rmdir()`, which leaves a directory that is not empty
unfoldable pub remove_directory : String → FileStore → FileStore
remove_directory directory fs =
    if any (λ f. f.directory == directory) fs.files
    then fs
    else record fs { directories = drop_text directory fs.directories }
