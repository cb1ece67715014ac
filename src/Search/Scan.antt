-- ===== src/Search/Scan.antt =====
-- The second half of search/search.cxx: where the five searches look for candidates.
use cuda_autocompat.Base.{
  ℕ, zero, suc, Bool, not, Option, none, some, List, [], ◌∷◌, if◌then◌else◌, codes, ◌||◌,
}
use cuda_autocompat.Base.Int.{pos, ltb_ℤ}
use cuda_autocompat.FilePath.{FilePath, is_empty, filename, parent_path, ◌/path◌, path_eq}
use cuda_autocompat.Search.{
  Throws, returned, ◌>>=◌, System, SearchState, check_file_exists, update_libcuda,
}

-- A loop that has an answer, or that the fuel was not enough for.
pub data Loop {ℓ} (A : Type ℓ) : Type ℓ where
  answer : A → Loop A
  out_of_fuel : Loop A

-- One round for each unit of fuel.
unfoldable pub check_path_ends_with : ℕ → FilePath → FilePath → Loop (Option FilePath)
check_path_ends_with zero full suffix = out_of_fuel
check_path_ends_with (suc fuel) full suffix =
    let rest = check_path_ends_with fuel (parent_path full) (parent_path suffix) in
    if is_empty suffix
    then answer (some full)
    else if is_empty full
    then answer none
    else if not (path_eq (filename full) (filename suffix))
    then answer none
    else rest

abbrev pub toolkit_subdir : FilePath
toolkit_subdir = codes "targets/x86_64-linux/lib"

-- The rounds that the three components of `toolkit_subdir` take, and the last test.
abbrev pub toolkit_fuel : ℕ
toolkit_fuel = 4

abbrev pub loop_result : Loop (Option FilePath) → Option FilePath
loop_result (answer r) = r
loop_result out_of_fuel = none

abbrev pub libcuda_file : FilePath
libcuda_file = codes "libcuda.so.1"

abbrev pub libcudart_soname : List FilePath
libcudart_soname = codes "libcudart.so.11" ∷ codes "libcudart.so.12" ∷ codes "libcudart.so.13" ∷ []

abbrev pub is_libcudart : FilePath → Bool
is_libcudart fname =
    path_eq fname (codes "libcudart.so.11")
    || (path_eq fname (codes "libcudart.so.12") || path_eq fname (codes "libcudart.so.13"))

abbrev pub compat_libcuda : FilePath → FilePath
compat_libcuda toolkit_dir = toolkit_dir /path codes "compat" /path codes "libcuda.so.1"

module _ (sys : System) where
  unfoldable pub get_toolkit_from_libcudart : FilePath → Throws (Option FilePath)
  get_toolkit_from_libcudart lib_path = do
    real ← sys.weakly_canonical lib_path
    returned (loop_result (check_path_ends_with toolkit_fuel (parent_path real) toolkit_subdir))

  -- `(void)update_libcuda(...)`
  abbrev pub update_void : FilePath → SearchState → Throws SearchState
  update_void path s = do r ← update_libcuda sys path s; returned r.1

  unfoldable pub search_libraries_libcuda : List FilePath → SearchState → Throws SearchState
  search_libraries_libcuda [] s = returned s
  search_libraries_libcuda (lib_path ∷ libs) s =
      if not (path_eq (filename lib_path) libcuda_file) then search_libraries_libcuda libs s else do
        r ← update_libcuda sys lib_path s
        if not (ltb_ℤ r.0 (pos 0)) then returned r.1 else search_libraries_libcuda libs r.1

  unfoldable pub search_libraries_libcudart : List FilePath → SearchState → Throws SearchState
  search_libraries_libcudart [] s = returned s
  search_libraries_libcudart (libcudart_path ∷ libs) s =
      if not (is_libcudart (filename libcudart_path)) then search_libraries_libcudart libs s else do
        toolkit ← get_toolkit_from_libcudart libcudart_path
        elim toolkit [
          | none ↦ search_libraries_libcudart libs s
          | some toolkit_dir ↦ do
            s' ← update_void (compat_libcuda toolkit_dir) s
            search_libraries_libcudart libs s'
        ]

  -- A library that is offered only if it exists.
  abbrev pub update_existing : FilePath → SearchState → Throws SearchState
  update_existing path s = do
    there ← check_file_exists sys path
    if there then update_void path s else returned s

  unfoldable pub search_cuda_home : SearchState → Throws SearchState
  search_cuda_home s = elim sys.cuda_home [
    | none ↦ returned s
    | some toolkit_dir ↦ update_existing (compat_libcuda toolkit_dir) s
  ]

  -- The inner loop of `search_paths_libcudart`, which ends at the first toolkit.
  unfoldable pub search_dir_libcudart : FilePath → List FilePath → SearchState → Throws SearchState
  search_dir_libcudart libcudart_dir [] s = returned s
  search_dir_libcudart libcudart_dir (libcudart_fname ∷ fnames) s = do
    there ← check_file_exists sys (libcudart_dir /path libcudart_fname)
    if not there then search_dir_libcudart libcudart_dir fnames s else do
      toolkit ← get_toolkit_from_libcudart (libcudart_dir /path libcudart_fname)
      elim toolkit [
        | none ↦ search_dir_libcudart libcudart_dir fnames s
        | some toolkit_dir ↦ update_existing (compat_libcuda toolkit_dir) s
      ]

  unfoldable pub search_paths_libcudart : List FilePath → SearchState → Throws SearchState
  search_paths_libcudart [] s = returned s
  search_paths_libcudart (libcudart_dir ∷ paths) s = do
    s' ← search_dir_libcudart libcudart_dir libcudart_soname s
    search_paths_libcudart paths s'

  unfoldable pub search_paths_libcuda : List FilePath → SearchState → Throws SearchState
  search_paths_libcuda [] s = returned s
  search_paths_libcuda (lib_dir ∷ paths) s = do
    s' ← update_existing (lib_dir /path libcuda_file) s
    search_paths_libcuda paths s'
