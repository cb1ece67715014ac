-- ===== src/Messages/Refine/Scan.antt =====
-- The five searches of search/search.cxx with and without their messages.
use cuda_autocompat.Base.{refl, not, List, [], ◌∷◌}
use cuda_autocompat.Base.Int.{pos, ltb_ℤ}
use cuda_autocompat.FilePath.{FilePath, filename, ◌/path◌, path_eq}
use cuda_autocompat.Search.{System, SearchState}
use cuda_autocompat.Search.Scan.{
  libcuda_file, is_libcudart, libcudart_soname, compat_libcuda, get_toolkit_from_libcudart,
  update_void, update_existing, search_libraries_libcuda, search_libraries_libcudart,
  search_cuda_home, search_dir_libcudart, search_paths_libcudart, search_paths_libcuda,
}
use cuda_autocompat.Messages.{Texts}
use cuda_autocompat.Messages.Scan.{
  get_toolkit_from_libcudart_logged, update_void_logged, update_existing_logged,
  libraries_libcuda_loop, search_libraries_libcuda_logged, libraries_libcudart_loop,
  search_libraries_libcudart_logged, search_cuda_home_logged, dir_libcudart_loop,
  paths_libcudart_loop, search_paths_libcudart_logged, paths_libcuda_loop,
  search_paths_libcuda_logged,
}
use cuda_autocompat.Messages.Refine.{
  Refines, IsVerbose, pure-Refines, lift-Refines, bind-Refines, say-Refines, if-Refines,
  option-Refines,
}
use cuda_autocompat.Messages.Refine.Update.{update_libcuda_logged-Refines}

module _ (sys : System) (texts : Texts) where
  get_toolkit_from_libcudart_logged-Refines :
      (lib_path : FilePath)
      → Refines IsVerbose
          (get_toolkit_from_libcudart_logged sys texts lib_path)
          (get_toolkit_from_libcudart sys lib_path)
  unfolding get_toolkit_from_libcudart_logged get_toolkit_from_libcudart
  get_toolkit_from_libcudart_logged-Refines lib_path =
      bind-Refines (lift-Refines _) (λ real. say-Refines refl (pure-Refines _))

  update_void_logged-Refines :
      (path : FilePath) (s : SearchState)
      → Refines IsVerbose (update_void_logged sys texts path s) (update_void sys path s)
  update_void_logged-Refines path s =
      bind-Refines (update_libcuda_logged-Refines sys texts path s) (λ r. pure-Refines r.1)

  update_existing_logged-Refines :
      (path : FilePath) (s : SearchState)
      → Refines IsVerbose (update_existing_logged sys texts path s) (update_existing sys path s)
  update_existing_logged-Refines path s =
      bind-Refines (lift-Refines _)
        (λ there. if-Refines there (update_void_logged-Refines path s) (pure-Refines s))

  libraries_libcuda_loop-Refines :
      (libs : List FilePath) (s : SearchState)
      → Refines IsVerbose
          (libraries_libcuda_loop sys texts libs s)
          (search_libraries_libcuda sys libs s)
  unfolding libraries_libcuda_loop search_libraries_libcuda
  libraries_libcuda_loop-Refines [] s = pure-Refines s
  libraries_libcuda_loop-Refines (lib_path ∷ libs) s = say-Refines refl (
      if-Refines (not (path_eq (filename lib_path) libcuda_file))
        (libraries_libcuda_loop-Refines libs s)
        (bind-Refines (update_libcuda_logged-Refines sys texts lib_path s) (λ r.
          if-Refines (not (ltb_ℤ r.0 (pos 0))) (pure-Refines r.1)
            (libraries_libcuda_loop-Refines libs r.1))))

  libraries_libcudart_loop-Refines :
      (libs : List FilePath) (s : SearchState)
      → Refines IsVerbose
          (libraries_libcudart_loop sys texts libs s)
          (search_libraries_libcudart sys libs s)
  unfolding libraries_libcudart_loop search_libraries_libcudart
  libraries_libcudart_loop-Refines [] s = pure-Refines s
  libraries_libcudart_loop-Refines (libcudart_path ∷ libs) s = say-Refines refl (
      if-Refines (not (is_libcudart (filename libcudart_path)))
        (libraries_libcudart_loop-Refines libs s)
        (bind-Refines (get_toolkit_from_libcudart_logged-Refines libcudart_path) (λ toolkit.
          option-Refines toolkit (libraries_libcudart_loop-Refines libs s) (λ toolkit_dir e.
            say-Refines refl (
              bind-Refines (update_void_logged-Refines (compat_libcuda toolkit_dir) s)
                (λ s'. libraries_libcudart_loop-Refines libs s'))))))

  dir_libcudart_loop-Refines :
      (libcudart_dir : FilePath) (fnames : List FilePath) (s : SearchState)
      → Refines IsVerbose
          (dir_libcudart_loop sys texts libcudart_dir fnames s)
          (search_dir_libcudart sys libcudart_dir fnames s)
  unfolding dir_libcudart_loop search_dir_libcudart
  dir_libcudart_loop-Refines libcudart_dir [] s = pure-Refines s
  dir_libcudart_loop-Refines libcudart_dir (fname ∷ fnames) s = say-Refines refl (
      bind-Refines (lift-Refines _) (λ there.
        if-Refines (not there) (dir_libcudart_loop-Refines libcudart_dir fnames s) (
          bind-Refines (get_toolkit_from_libcudart_logged-Refines (libcudart_dir /path fname))
            (λ toolkit.
              option-Refines toolkit (dir_libcudart_loop-Refines libcudart_dir fnames s)
                (λ toolkit_dir e.
                  say-Refines refl
                    (update_existing_logged-Refines (compat_libcuda toolkit_dir) s))))))

  paths_libcudart_loop-Refines :
      (paths : List FilePath) (s : SearchState)
      → Refines IsVerbose
          (paths_libcudart_loop sys texts paths s)
          (search_paths_libcudart sys paths s)
  unfolding paths_libcudart_loop search_paths_libcudart
  paths_libcudart_loop-Refines [] s = pure-Refines s
  paths_libcudart_loop-Refines (libcudart_dir ∷ paths) s = say-Refines refl (
      bind-Refines (dir_libcudart_loop-Refines libcudart_dir libcudart_soname s)
        (λ s'. paths_libcudart_loop-Refines paths s'))

  paths_libcuda_loop-Refines :
      (paths : List FilePath) (s : SearchState)
      → Refines IsVerbose (paths_libcuda_loop sys texts paths s) (search_paths_libcuda sys paths s)
  unfolding paths_libcuda_loop search_paths_libcuda
  paths_libcuda_loop-Refines [] s = pure-Refines s
  paths_libcuda_loop-Refines (lib_dir ∷ paths) s = say-Refines refl (
      say-Refines refl (
        bind-Refines (update_existing_logged-Refines (lib_dir /path libcuda_file) s)
          (λ s'. paths_libcuda_loop-Refines paths s')))

  -- The five functions.
  pub search_libraries_libcuda_logged-Refines :
      (libs : List FilePath) (s : SearchState)
      → Refines IsVerbose
          (search_libraries_libcuda_logged sys texts libs s)
          (search_libraries_libcuda sys libs s)
  unfolding search_libraries_libcuda_logged
  search_libraries_libcuda_logged-Refines libs s =
      say-Refines refl (libraries_libcuda_loop-Refines libs s)

  pub search_libraries_libcudart_logged-Refines :
      (libs : List FilePath) (s : SearchState)
      → Refines IsVerbose
          (search_libraries_libcudart_logged sys texts libs s)
          (search_libraries_libcudart sys libs s)
  unfolding search_libraries_libcudart_logged
  search_libraries_libcudart_logged-Refines libs s =
      say-Refines refl (libraries_libcudart_loop-Refines libs s)

  pub search_cuda_home_logged-Refines :
      (s : SearchState)
      → Refines IsVerbose (search_cuda_home_logged sys texts s) (search_cuda_home sys s)
  unfolding search_cuda_home_logged search_cuda_home
  search_cuda_home_logged-Refines s = say-Refines refl (
      option-Refines sys.cuda_home (pure-Refines s) (λ toolkit_dir e.
        say-Refines refl (update_existing_logged-Refines (compat_libcuda toolkit_dir) s)))

  pub search_paths_libcudart_logged-Refines :
      (paths : List FilePath) (s : SearchState)
      → Refines IsVerbose
          (search_paths_libcudart_logged sys texts paths s)
          (search_paths_libcudart sys paths s)
  unfolding search_paths_libcudart_logged
  search_paths_libcudart_logged-Refines paths s =
      say-Refines refl (paths_libcudart_loop-Refines paths s)

  pub search_paths_libcuda_logged-Refines :
      (paths : List FilePath) (s : SearchState)
      → Refines IsVerbose
          (search_paths_libcuda_logged sys texts paths s)
          (search_paths_libcuda sys paths s)
  unfolding search_paths_libcuda_logged
  search_paths_libcuda_logged-Refines paths s =
      say-Refines refl (paths_libcuda_loop-Refines paths s)
