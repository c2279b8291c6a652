-- ===== src/FileSystem/FileCache.antt =====
-- FileCache/FileCache.hpp and FileCache.cpp: the files that are open, in the order of their use. A
-- path and a `shared_ptr` to a file are numbers; the file that a call would open is its argument. The
-- iterator that the map keeps beside a file points to the path's node in the list.
pub mod Bounds
pub mod Recency
use multi_threaded_socket.Common.{
  ℕ, zero, suc, Option, none, some, List, [], ◌∷◌, leb, ◌==◌, if◌then◌else◌, length, split_last,
  find, assign, erase,
}

abbrev pub max_files : ℕ
max_files = 100

abbrev pub cleanup_files : ℕ
cleanup_files = 50

pub record FileCache : Type 0 where
  pub opened_files : List (ℕ × ℕ)
  pub lru_list : List ℕ

unfoldable pub remove : ℕ → List ℕ → List ℕ
remove path [] = []
remove path (p ∷ paths) = let rest = remove path paths in if p == path then paths else p ∷ rest

-- The loop of CleanupOldFiles.
unfoldable pub cleanup : ℕ → FileCache → FileCache
cleanup zero c = c
cleanup (suc n) c = elim (split_last c.lru_list) [
  | none ↦ c
  | some (left, last) ↦
      cleanup n (record { opened_files = erase last c.opened_files; lru_list = left })
]

-- CleanupOldFiles
unfoldable pub cleanup_old_files : FileCache → FileCache
cleanup_old_files c = cleanup cleanup_files c

-- The cache in which a new file has room.
unfoldable pub make_room : FileCache → FileCache
make_room c = if leb max_files (length c.opened_files) then cleanup_old_files c else c

-- GetFile
unfoldable pub get_file : FileCache → ℕ → ℕ → FileCache × ℕ
get_file c path file = elim (find path c.opened_files) [
  | some opened ↦ (record c { lru_list = path ∷ remove path c.lru_list }, opened)
  | none ↦
      let roomy = make_room c in
      (
        record {
          opened_files = assign path file roomy.opened_files;
          lru_list = path ∷ roomy.lru_list;
        },
        file,
      )
]
