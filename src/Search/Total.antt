-- ===== src/Search/Total.antt =====
-- When the search of search/search.cxx and `main` return.
use cuda_autocompat.Base.{
  ◌≢◌, refl, Bool, true, false, not, Option, none, some, List, [], ◌∷◌, if◌then◌else◌, arith, codes,
}
use cuda_autocompat.Base.Int.{pos, ltb_ℤ}
use cuda_autocompat.FilePath.{FilePath, filename, parent_path, ◌/path◌, path_eq}
use cuda_autocompat.Search.{
  Throws, returned, thrown, ◌>>=◌, System, StatResult, stat_ok, not_found, stat_error, SearchState,
  is_regular, check_file_exists, check_companions, with_version, with_directory, update_libcuda,
}
use cuda_autocompat.Search.Scan.{
  loop_result, check_path_ends_with, toolkit_fuel, toolkit_subdir, libcuda_file, is_libcudart,
  libcudart_soname, compat_libcuda, get_toolkit_from_libcudart, update_void, update_existing,
  search_libraries_libcuda, search_libraries_libcudart, search_cuda_home, search_dir_libcudart,
  search_paths_libcudart, search_paths_libcuda,
}

abbrev pub Returns {ℓ} : {A : Type ℓ} → Throws A → Type 0
Returns (returned a) = Unit
Returns thrown = ⊥

pub Returns-bind :
    {A B : Type 0} (m : Throws A) (f : A → Throws B)
    → Returns m
    → ((a : A) → Returns (f a))
    → Returns (m >>= f)
Returns-bind (returned a) f h k = k a
Returns-bind thrown f h k = h

pub Returns-if :
    {A : Type 0} (b : Bool) (m n : Throws A) → Returns m → Returns n → Returns (if b then m else n)
Returns-if true m n h k = h
Returns-if false m n h k = k

-- No file gives an error other than a missing file, and no path is impossible to resolve.
abbrev pub Accessible : System → Type 0
Accessible sys =
    ((p : FilePath) → sys.stat p ≢ stat_error) × ((p : FilePath) → sys.weakly_canonical p ≢ thrown)

pub Returns-of : {A : Type 0} (m : Throws A) → m ≢ thrown → Returns m
Returns-of (returned a) h = tt
Returns-of thrown h = h refl

module _ (sys : System) (accessible : Accessible sys) where
  check_file_exists-Returns : (p : FilePath) → Returns (check_file_exists sys p)
  unfolding check_file_exists
  check_file_exists-Returns p = go (sys.stat p) (accessible.0 p)
    where
      go :
          (r : StatResult)
          → r ≢ stat_error
          → Returns (elim r [
            | not_found ↦ returned false
            | stat_error ↦ thrown
            | stat_ok st ↦ returned (is_regular st.kind)
          ])
      go not_found h = tt
      go stat_error h = h refl
      go (stat_ok st) h = tt

  check_companions-Returns : (dir : FilePath) → Returns (check_companions sys dir)
  unfolding check_companions
  check_companions-Returns dir =
      Returns-bind (check_file_exists sys (dir /path codes "libnvidia-nvvm.so.4"))
        (λ nvvm.
          if not nvvm
          then returned false
          else (check_file_exists sys (dir /path codes "libnvidia-ptxjitcompiler.so.1") >>= λ ptx.
              if not ptx
              then returned false
              else check_file_exists sys (dir /path codes "libcudadebugger.so.1")))
        (check_file_exists-Returns (dir /path codes "libnvidia-nvvm.so.4"))
        λ nvvm.
          Returns-if (not nvvm) (returned false)
            (check_file_exists sys (dir /path codes "libnvidia-ptxjitcompiler.so.1") >>= λ ptx.
              if not ptx
              then returned false
              else check_file_exists sys (dir /path codes "libcudadebugger.so.1"))
            tt
            (Returns-bind (check_file_exists sys (dir /path codes "libnvidia-ptxjitcompiler.so.1"))
              (λ ptx.
                if not ptx
                then returned false
                else check_file_exists sys (dir /path codes "libcudadebugger.so.1"))
              (check_file_exists-Returns (dir /path codes "libnvidia-ptxjitcompiler.so.1"))
              λ ptx.
                Returns-if (not ptx) (returned false)
                  (check_file_exists sys (dir /path codes "libcudadebugger.so.1")) tt
                  (check_file_exists-Returns (dir /path codes "libcudadebugger.so.1")))

  update_libcuda-Returns : (p : FilePath) (s : SearchState) → Returns (update_libcuda sys p s)
  unfolding update_libcuda with_directory with_version
  update_libcuda-Returns p s = ground (arith, check_companions-Returns (parent_path p))

  get_toolkit-Returns : (lib : FilePath) → Returns (get_toolkit_from_libcudart sys lib)
  unfolding get_toolkit_from_libcudart
  get_toolkit-Returns lib =
      Returns-bind (sys.weakly_canonical lib)
        (λ real.
          returned
            (loop_result (check_path_ends_with toolkit_fuel (parent_path real) toolkit_subdir)))
        (Returns-of (sys.weakly_canonical lib) (accessible.1 lib)) λ real. tt

  update_void-Returns : (p : FilePath) (s : SearchState) → Returns (update_void sys p s)
  update_void-Returns p s =
      Returns-bind (update_libcuda sys p s) (λ r. returned r.1) (update_libcuda-Returns p s) λ r. tt

  update_existing-Returns : (p : FilePath) (s : SearchState) → Returns (update_existing sys p s)
  update_existing-Returns p s =
      Returns-bind (check_file_exists sys p)
        (λ there. if there then update_void sys p s else returned s) (check_file_exists-Returns p)
        λ there. Returns-if there (update_void sys p s) (returned s) (update_void-Returns p s) tt

  pub search_libraries_libcuda-Returns :
      (libs : List FilePath) (s : SearchState) → Returns (search_libraries_libcuda sys libs s)
  unfolding search_libraries_libcuda
  search_libraries_libcuda-Returns [] s = tt
  search_libraries_libcuda-Returns (lib ∷ libs) s =
      Returns-if (not (path_eq (filename lib) libcuda_file)) (search_libraries_libcuda sys libs s)
        (update_libcuda sys lib s >>= λ r.
          if not (ltb_ℤ r.0 (pos 0)) then returned r.1 else search_libraries_libcuda sys libs r.1)
        (search_libraries_libcuda-Returns libs s)
        (Returns-bind (update_libcuda sys lib s)
          (λ r.
            if not (ltb_ℤ r.0 (pos 0)) then returned r.1 else search_libraries_libcuda sys libs r.1)
          (update_libcuda-Returns lib s)
          λ r.
            Returns-if (not (ltb_ℤ r.0 (pos 0))) (returned r.1)
              (search_libraries_libcuda sys libs r.1) tt
              (search_libraries_libcuda-Returns libs r.1))

  -- A toolkit that is found or not, and what is done then.
  Returns-toolkit :
      (lib : FilePath) (m : Throws SearchState) (f : FilePath → Throws SearchState)
      → Returns m
      → ((dir : FilePath) → Returns (f dir))
      → Returns (get_toolkit_from_libcudart sys lib >>= λ r. elim r [ none ↦ m | some dir ↦ f dir ])
  Returns-toolkit lib m f h k =
      Returns-bind (get_toolkit_from_libcudart sys lib)
        (λ r. elim r [ none ↦ m | some dir ↦ f dir ]) (get_toolkit-Returns lib) go
    where
      go : (r : Option FilePath) → Returns (elim r [ none ↦ m | some dir ↦ f dir ])
      go none = h
      go (some dir) = k dir

  pub search_libraries_libcudart-Returns :
      (libs : List FilePath) (s : SearchState) → Returns (search_libraries_libcudart sys libs s)
  unfolding search_libraries_libcudart
  search_libraries_libcudart-Returns [] s = tt
  search_libraries_libcudart-Returns (lib ∷ libs) s =
      let next : FilePath → Throws SearchState =
        λ dir. update_void sys (compat_libcuda dir) s >>= search_libraries_libcudart sys libs in
      Returns-if (not (is_libcudart (filename lib))) (search_libraries_libcudart sys libs s)
        (get_toolkit_from_libcudart sys lib >>= λ r. elim r [
          | none ↦ search_libraries_libcudart sys libs s
          | some dir ↦ next dir
        ])
        (search_libraries_libcudart-Returns libs s)
        (Returns-toolkit lib (search_libraries_libcudart sys libs s) next
          (search_libraries_libcudart-Returns libs s)
          λ dir.
            Returns-bind (update_void sys (compat_libcuda dir) s)
              (search_libraries_libcudart sys libs) (update_void-Returns (compat_libcuda dir) s)
              (search_libraries_libcudart-Returns libs))

  pub search_cuda_home-Returns : (s : SearchState) → Returns (search_cuda_home sys s)
  unfolding search_cuda_home
  search_cuda_home-Returns s = go sys.cuda_home
    where
      go :
          (home : Option FilePath)
          → Returns (elim home [
            | none ↦ returned s
            | some dir ↦ update_existing sys (compat_libcuda dir) s
          ])
      go none = tt
      go (some dir) = update_existing-Returns (compat_libcuda dir) s

  search_dir_libcudart-Returns :
      (d : FilePath) (fnames : List FilePath) (s : SearchState)
      → Returns (search_dir_libcudart sys d fnames s)
  unfolding search_dir_libcudart
  search_dir_libcudart-Returns d [] s = tt
  search_dir_libcudart-Returns d (fname ∷ fnames) s =
      let next : FilePath → Throws SearchState =
        λ dir. update_existing sys (compat_libcuda dir) s in
      let found : Throws SearchState = get_toolkit_from_libcudart sys (d /path fname) >>= λ r.
      elim r [ none ↦ search_dir_libcudart sys d fnames s | some dir ↦ next dir ] in
      Returns-bind (check_file_exists sys (d /path fname))
        (λ there. if not there then search_dir_libcudart sys d fnames s else found)
        (check_file_exists-Returns (d /path fname))
        λ there.
          Returns-if (not there) (search_dir_libcudart sys d fnames s) found
            (search_dir_libcudart-Returns d fnames s)
            (Returns-toolkit (d /path fname) (search_dir_libcudart sys d fnames s) next
              (search_dir_libcudart-Returns d fnames s)
              λ dir. update_existing-Returns (compat_libcuda dir) s)

  pub search_paths_libcudart-Returns :
      (paths : List FilePath) (s : SearchState) → Returns (search_paths_libcudart sys paths s)
  unfolding search_paths_libcudart
  search_paths_libcudart-Returns [] s = tt
  search_paths_libcudart-Returns (d ∷ ds) s =
      Returns-bind (search_dir_libcudart sys d libcudart_soname s) (search_paths_libcudart sys ds)
        (search_dir_libcudart-Returns d libcudart_soname s) (search_paths_libcudart-Returns ds)

  pub search_paths_libcuda-Returns :
      (paths : List FilePath) (s : SearchState) → Returns (search_paths_libcuda sys paths s)
  unfolding search_paths_libcuda
  search_paths_libcuda-Returns [] s = tt
  search_paths_libcuda-Returns (d ∷ ds) s =
      Returns-bind (update_existing sys (d /path libcuda_file) s) (search_paths_libcuda sys ds)
        (update_existing-Returns (d /path libcuda_file) s) (search_paths_libcuda-Returns ds)
