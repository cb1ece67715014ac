-- ===== src/Messages/Tests.antt =====
-- The messages that tests/CMakeLists.txt expects, on the tree of stub libraries.
use cuda_autocompat.Base.{
  ℕ, ◌≡◌, refl, Bool, true, false, ◌||◌, ◌&&◌, Option, none, some, List, [], ◌∷◌, ◌==◌, Bytes,
  bytes_eq, codes,
}
use cuda_autocompat.Base.Int.{pos}
use cuda_autocompat.FilePath.{
  FilePath, filename, strip_separators, parent_path, ◌/path◌, collapse, path_eq,
}
use cuda_autocompat.Search.{check_file_exists}
use cuda_autocompat.Search.Scan.{check_path_ends_with}
use cuda_autocompat.Stubs.{cu_driver_get_version}
use cuda_autocompat.Stubs.Tree.{system, d123, d234}
use cuda_autocompat.Logging.{level_info}
use cuda_autocompat.Messages.{Message, Texts}
use cuda_autocompat.Messages.Decimal.{digits, format_int}
use cuda_autocompat.Messages.Load.{load_version_logged, get_libcuda_api_ver_logged}
use cuda_autocompat.Messages.Update.{update_libcuda_logged}
use cuda_autocompat.Messages.Scan.{
  get_toolkit_from_libcudart_logged, libraries_libcuda_loop, search_libraries_libcuda_logged,
  libraries_libcudart_loop, search_libraries_libcudart_logged, search_cuda_home_logged,
  dir_libcudart_loop, paths_libcudart_loop, search_paths_libcudart_logged, paths_libcuda_loop,
  search_paths_libcuda_logged,
}
use cuda_autocompat.Messages.Main.{search_all_logged, main_logged}

abbrev pub texts : Texts
texts = record {
  strerror = λ path. codes "No such file or directory";
  dlerror = λ path name. codes "cannot open shared object file";
  dlclose_error = λ path. none;
  error_name = λ path code. (pos 0, codes "CUDA_ERROR");
  error_string = λ path code. (pos 0, codes "error");
  version_string = codes "0.1.0";
}

abbrev pub says : ℕ → Bytes → List Message → Bool
says level text [] = false
says level text (m ∷ ms) = (m.level == level && bytes_eq m.text text) || says level text ms

log : Option FilePath → List FilePath → List FilePath → List Message
unfolding main_logged search_all_logged search_libraries_libcuda_logged libraries_libcuda_loop
    search_libraries_libcudart_logged libraries_libcudart_loop search_cuda_home_logged
    search_paths_libcudart_logged paths_libcudart_loop dir_libcudart_loop
    search_paths_libcuda_logged paths_libcuda_loop get_toolkit_from_libcudart_logged
    check_path_ends_with check_file_exists update_libcuda_logged get_libcuda_api_ver_logged
    load_version_logged bytes_eq ◌/path◌ filename parent_path strip_separators path_eq collapse
    cu_driver_get_version
log cuda_home paths libs = (main_logged (system cuda_home) texts (some (paths, libs))).0

single_driver_1 :
    says level_info (codes "libcuda: Updating (first found)") (log none (d123 ∷ []) []) ≡ true
unfolding log
single_driver_1 = refl

single_driver_noerror :
    says level_info
      (codes "libcuda: Skipping (library error)")
      (log none (codes "/driver_noerror/lib" ∷ []) [])
    ≡ true
unfolding log
single_driver_noerror = refl

single_driver_autocompat :
    says level_info
      (codes "libcuda: Skipping (autocompat detected)")
      (log none (codes "/driver_autocompat/lib" ∷ []) [])
    ≡ true
unfolding log
single_driver_autocompat = refl

multipath :
    says level_info (codes "libcuda: Updating (2034 > 1023)") (log none (d123 ∷ d234 ∷ []) [])
    ≡ true
unfolding log format_int digits
multipath = refl

multipath_reversed :
    says level_info (codes "libcuda: Skipping (1023 <= 2034)") (log none (d234 ∷ d123 ∷ []) [])
    ≡ true
unfolding log format_int digits
multipath_reversed = refl

cuda_home :
    says level_info
      (codes "libcuda: Skipping (1023 <= 3045)")
      (log (some (codes "/toolkit_345")) (d123 ∷ []) [])
    ≡ true
unfolding log format_int digits
cuda_home = refl

driver_symlink_dir :
    says level_info
      (codes "libcuda: Skipping (directory inode already checked)")
      (log none (d234 ∷ codes "/driver_234/lib_symlink" ∷ []) [])
    ≡ true
unfolding log
driver_symlink_dir = refl

driver_symlink_file :
    says level_info
      (codes "libcuda: Skipping (2034 <= 2034)")
      (log none (d234 ∷ codes "/driver_234/lib_symlinks" ∷ []) [])
    ≡ true
unfolding log format_int digits
driver_symlink_file = refl
