-- ===== src/Tests/OpenFiles.antt =====
-- Two open files, of which the older is used again.
use multi_threaded_socket.Common.{ℕ, ◌≡◌, refl, some, [], ◌∷◌, take, arith, find, Distinct, true}
use multi_threaded_socket.FileSystem.FileCache.{FileCache, cleanup_files, get_file}
use multi_threaded_socket.FileSystem.FileCache.Bounds.{NoRepeat, occurs, IsValid}
use multi_threaded_socket.FileSystem.FileCache.Recency.{Recent, get_file_lem}

abbrev two_files : FileCache
two_files = record { opened_files = (1, 11) ∷ (2, 12) ∷ []; lru_list = 2 ∷ 1 ∷ [] }

two_files-IsValid : IsValid two_files
unfolding Distinct find NoRepeat
two_files-IsValid = record {
  distinct = (refl, (refl, tt));
  no_repeat = (refl, (refl, tt));
  same = λ p. ground arith;
  sized = refl;
  bounded = omega arith;
}

get_file_example :
    IsValid (get_file two_files 1 13).0
    × (find 1 (get_file two_files 1 13).0.opened_files ≡ some (get_file two_files 1 13).1)
    × Recent two_files 1 (get_file two_files 1 13).0
    × ((old : ℕ) → find 1 two_files.opened_files ≡ some old → (get_file two_files 1 13).1 ≡ old)
    × ((p : ℕ)
        → occurs p (take cleanup_files two_files.lru_list) ≡ true
        → find p (get_file two_files 1 13).0.opened_files ≡ find p two_files.opened_files)
get_file_example = get_file_lem two_files 1 13 two_files-IsValid
