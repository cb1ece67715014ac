-- ===== src/Messages/Load.antt =====
-- `get_libcuda_api_ver` of search/search.cxx, with its messages and those of the class of
-- utils/cpp/dl_library.cxx.
use cuda_autocompat.Base.{ℕ, none, some, List, ◌∷◌, ◌++◌, if◌then◌else◌, Bytes, codes}
use cuda_autocompat.Base.Int.{ℤ, negsuc, is_zero}
use cuda_autocompat.FilePath.{FilePath}
use cuda_autocompat.Search.{System, stat_ok, not_found, stat_error, Library, is_dir, lookup_version}
use cuda_autocompat.Messages.{Logged, pure, ◌>>=◌, ◌>>◌, debug, trace, Texts}
use cuda_autocompat.Messages.Decimal.{format_nat, format_int}

module _ (sys : System) (texts : Texts) where
  -- `get_symbol_pointer`, with the continuations for a symbol that is missing and for one that is
  -- there.
  abbrev pub dlsym_logged :
      FilePath → Library → Bytes → Logged (ℤ × ℤ) → Logged (ℤ × ℤ) → Logged (ℤ × ℤ)
  dlsym_logged path libcuda name missing found = do
    trace (codes "dlsym(" ++ (name ++ codes ")"))
    if libcuda.exports name then found else do trace (texts.dlerror path (some name)); missing

  -- A `return`, at which the library is closed.
  abbrev pub close_logged : FilePath → ℤ × ℤ → Logged (ℤ × ℤ)
  close_logged path result = do
    trace (codes "dlclose(handle)")
    elim (texts.dlclose_error path) [
      | none ↦ pure result
      | some error ↦ do trace error; pure result
    ]

  -- The message for a result of cuDriverGetVersion that is not zero.
  abbrev pub log_error_code : FilePath → ℤ → Logged (Unit {0})
  log_error_code path ret =
      let (name_ret, err_name) = texts.error_name path ret in
      let (string_ret, err_string) = texts.error_string path ret in
      let plain = trace (codes "cuDriverGetVersion: " ++ format_int ret) in
      if is_zero name_ret
      then if is_zero string_ret
        then trace (
            codes "cuDriverGetVersion: " ++ (err_name ++ (codes " (" ++ (err_string ++ codes ")"))))
        else plain
      else plain

  abbrev pub call_version_logged : FilePath → Library → Logged (ℤ × ℤ)
  call_version_logged path libcuda = do
    let (ret, ver) = libcuda.cu_driver_get_version (negsuc 0)
    if is_zero ret then pure tt else log_error_code path ret
    close_logged path (ver, ver)

  -- The version and the entry of `ver_cache`, of an open library.
  abbrev pub read_version_logged : FilePath → Library → Logged (ℤ × ℤ)
  read_version_logged path libcuda =
      let failed = close_logged path (negsuc 0, negsuc 0) in
      dlsym_logged path libcuda (codes "cuda_autocompat_version")
        (dlsym_logged path libcuda (codes "cuGetErrorName") failed (
          dlsym_logged path libcuda (codes "cuGetErrorString") failed (
            dlsym_logged path libcuda (codes "cuDriverGetVersion") failed
              (call_version_logged path libcuda))))
        (close_logged path (negsuc 1, negsuc 0))

  unfoldable pub load_version_logged : FilePath → Logged (ℤ × ℤ)
  load_version_logged path = do
    trace (codes "dlopen(" ++ (path ++ codes ")"))
    elim (sys.dlopen path) [
      | none ↦ do trace (texts.dlerror path none); pure (negsuc 0, negsuc 0)
      | some libcuda ↦ read_version_logged path libcuda
    ]

  unfoldable pub get_libcuda_api_ver_logged : FilePath → List (ℕ × ℤ) → Logged (ℤ × List (ℕ × ℤ))
  get_libcuda_api_ver_logged path cache = do
    trace (codes "stat(" ++ (path ++ codes ")"))
    elim (sys.stat path) [
      | not_found ↦ do trace (texts.strerror path); pure (negsuc 2, cache)
      | stat_error ↦ do trace (texts.strerror path); pure (negsuc 2, cache)
      | stat_ok st ↦
          if is_dir st.kind then pure (negsuc 3, cache) else elim (lookup_version st.st_ino cache) [
            | some ver ↦ do
              debug (codes "cached (inode = " ++ (format_nat st.st_ino ++ codes ")"))
              pure (ver, cache)
            | none ↦ do
              loaded ← load_version_logged path
              pure (loaded.0, (st.st_ino, loaded.1) ∷ cache)
          ]
    ]
