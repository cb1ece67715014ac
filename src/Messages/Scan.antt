-- ===== src/Messages/Scan.antt =====
-- The five searches of search/search.cxx with their messages.
use cuda_autocompat.Base.{not, Option, none, some, List, [], ◌∷◌, ◌++◌, if◌then◌else◌, codes}
use cuda_autocompat.Base.Int.{pos, ltb_ℤ}
use cuda_autocompat.FilePath.{FilePath, filename, parent_path, ◌/path◌, path_eq}
use cuda_autocompat.Search.{System, SearchState, check_file_exists}
use cuda_autocompat.Search.Scan.{
  check_path_ends_with, loop_result, toolkit_fuel, toolkit_subdir, libcuda_file, is_libcudart,
  libcudart_soname, compat_libcuda,
}
use cuda_autocompat.Messages.{Logged, pure, lift, ◌>>=◌, ◌>>◌, info, verbose, debug, Texts}
use cuda_autocompat.Messages.Update.{update_libcuda_logged}

module _ (sys : System) (texts : Texts) where
  unfoldable pub get_toolkit_from_libcudart_logged : FilePath → Logged (Option FilePath)
  get_toolkit_from_libcudart_logged lib_path = do
    real ← lift (sys.weakly_canonical lib_path)
    debug (codes "-> " ++ parent_path real)
    pure (loop_result (check_path_ends_with toolkit_fuel (parent_path real) toolkit_subdir))

  abbrev pub update_void_logged : FilePath → SearchState → Logged SearchState
  update_void_logged path s = do r ← update_libcuda_logged sys texts path s; pure r.1

  abbrev pub update_existing_logged : FilePath → SearchState → Logged SearchState
  update_existing_logged path s = do
    there ← lift (check_file_exists sys path)
    if there then update_void_logged path s else pure s

  -- The loops of the functions that follow, which begin with a message.
  unfoldable pub libraries_libcuda_loop : List FilePath → SearchState → Logged SearchState
  libraries_libcuda_loop [] s = pure s
  libraries_libcuda_loop (lib_path ∷ libs) s = do
    verbose lib_path
    if not (path_eq (filename lib_path) libcuda_file) then libraries_libcuda_loop libs s else do
      r ← update_libcuda_logged sys texts lib_path s
      if not (ltb_ℤ r.0 (pos 0)) then pure r.1 else libraries_libcuda_loop libs r.1

  unfoldable pub search_libraries_libcuda_logged : List FilePath → SearchState → Logged SearchState
  search_libraries_libcuda_logged libs s = do
    info (codes "Searching for driver in libraries")
    libraries_libcuda_loop libs s

  unfoldable pub libraries_libcudart_loop : List FilePath → SearchState → Logged SearchState
  libraries_libcudart_loop [] s = pure s
  libraries_libcudart_loop (libcudart_path ∷ libs) s = do
    verbose libcudart_path
    if not (is_libcudart (filename libcudart_path)) then libraries_libcudart_loop libs s else do
      toolkit ← get_toolkit_from_libcudart_logged libcudart_path
      elim toolkit [
        | none ↦ libraries_libcudart_loop libs s
        | some toolkit_dir ↦ do
          debug (codes "-> " ++ toolkit_dir)
          s' ← update_void_logged (compat_libcuda toolkit_dir) s
          libraries_libcudart_loop libs s'
      ]

  unfoldable pub search_libraries_libcudart_logged :
      List FilePath → SearchState → Logged SearchState
  search_libraries_libcudart_logged libs s = do
    info (codes "Searching for toolkits in libraries")
    libraries_libcudart_loop libs s

  unfoldable pub search_cuda_home_logged : SearchState → Logged SearchState
  search_cuda_home_logged s = do
    info (codes "Searching for toolkit in CUDA_HOME")
    elim sys.cuda_home [
      | none ↦ pure s
      | some toolkit_dir ↦ do
        verbose (codes "CUDA_HOME=" ++ toolkit_dir)
        update_existing_logged (compat_libcuda toolkit_dir) s
    ]

  unfoldable pub dir_libcudart_loop : FilePath → List FilePath → SearchState → Logged SearchState
  dir_libcudart_loop libcudart_dir [] s = pure s
  dir_libcudart_loop libcudart_dir (libcudart_fname ∷ fnames) s = do
    debug (libcudart_dir /path libcudart_fname)
    there ← lift (check_file_exists sys (libcudart_dir /path libcudart_fname))
    if not there then dir_libcudart_loop libcudart_dir fnames s else do
      toolkit ← get_toolkit_from_libcudart_logged (libcudart_dir /path libcudart_fname)
      elim toolkit [
        | none ↦ dir_libcudart_loop libcudart_dir fnames s
        | some toolkit_dir ↦ do
          debug (codes "-> " ++ toolkit_dir)
          update_existing_logged (compat_libcuda toolkit_dir) s
      ]

  unfoldable pub paths_libcudart_loop : List FilePath → SearchState → Logged SearchState
  paths_libcudart_loop [] s = pure s
  paths_libcudart_loop (libcudart_dir ∷ paths) s = do
    verbose libcudart_dir
    s' ← dir_libcudart_loop libcudart_dir libcudart_soname s
    paths_libcudart_loop paths s'

  unfoldable pub search_paths_libcudart_logged : List FilePath → SearchState → Logged SearchState
  search_paths_libcudart_logged paths s = do
    info (codes "Searching for toolkits in library search path")
    paths_libcudart_loop paths s

  unfoldable pub paths_libcuda_loop : List FilePath → SearchState → Logged SearchState
  paths_libcuda_loop [] s = pure s
  paths_libcuda_loop (lib_dir ∷ paths) s = do
    verbose lib_dir
    debug (lib_dir /path libcuda_file)
    s' ← update_existing_logged (lib_dir /path libcuda_file) s
    paths_libcuda_loop paths s'

  unfoldable pub search_paths_libcuda_logged : List FilePath → SearchState → Logged SearchState
  search_paths_libcuda_logged paths s = do
    info (codes "Searching for driver in library search path")
    paths_libcuda_loop paths s
