-- ===== src/Messages/Main.antt =====
-- `init_logging` of search/init.cxx and `main` of search/main.cxx with their messages.
use cuda_autocompat.Base.{
  ℕ, ◌||◌, true, false, Option, none, some, List, [], ◌∷◌, ◌++◌, if◌then◌else◌, ltb, Bytes, codes,
}
use cuda_autocompat.FilePath.{FilePath}
use cuda_autocompat.Search.{System, SearchState, init}
use cuda_autocompat.Search.Main.{
  Exit, exit_success, exit_failure, parse_libcuda_version, level_warn, init_logging,
}
use cuda_autocompat.Logging.{Settings}
use cuda_autocompat.Messages.{Logged, pure, ◌>>=◌, ◌>>◌, say, info, Texts}
use cuda_autocompat.Messages.Decimal.{format_nat, format_int}
use cuda_autocompat.Messages.Scan.{
  search_libraries_libcuda_logged, search_libraries_libcudart_logged, search_cuda_home_logged,
  search_paths_libcudart_logged, search_paths_libcuda_logged,
}

abbrev pub invalid_verbosity : Logged (Unit {0})
invalid_verbosity =
    say level_warn
      (codes "CUDA_AUTOCOMPAT_VERBOSE: Invalid value, using default " ++ format_nat level_warn)

-- The message of `init_logging`, from the value of `CUDA_AUTOCOMPAT_VERBOSE`.
unfoldable pub init_logging_logged : Option Bytes → Logged (Unit {0})
init_logging_logged none = pure tt
init_logging_logged (some []) = invalid_verbosity
init_logging_logged (some (c ∷ d ∷ rest)) = invalid_verbosity
init_logging_logged (some (c ∷ [])) =
    if ltb c b'0' || ltb b'9' c then invalid_verbosity else pure tt

-- The LOGGING_ variables after `init_logging` in a process with this number.
abbrev pub settings_after : Option Bytes → ℕ → Settings
settings_after value pid = record {
  max_level = init_logging value;
  long_level_name = false;
  log_name = codes "cuda_autocompat[" ++ (format_nat pid ++ codes "]");
  use_timestamp = true;
  use_log_name = true;
  use_level_name = true;
}

module _ (sys : System) (texts : Texts) where
  -- The report, and the end of `main`.
  abbrev pub report : SearchState → Logged Exit
  report s = do
    info (codes "Search complete")
    elim s.found [
      | none ↦ do
        info (codes "No usable library found")
        pure (record { status = exit_failure; output = [] })
      | some best ↦ do
        let (major, minor, patch) = parse_libcuda_version best.version
        info (codes "Found library: " ++ (best.driver_dir ++ codes "/libcuda.so.1"))
        info (
            codes "Found version: "
            ++ (format_int major
                ++ (codes "." ++ (format_int minor ++ (codes "." ++ format_int patch)))))
        pure (record { status = exit_success; output = best.driver_dir })
    ]

  unfoldable pub search_all_logged : List FilePath → List FilePath → Logged SearchState
  search_all_logged search_paths search_libs = do
    s ← search_libraries_libcuda_logged sys texts search_libs init
    elim s.found [
      | some best ↦ pure s
      | none ↦ do
        s1 ← search_libraries_libcudart_logged sys texts search_libs s
        s2 ← search_cuda_home_logged sys texts s1
        s3 ← search_paths_libcudart_logged sys texts search_paths s2
        search_paths_libcuda_logged sys texts search_paths s3
    ]

  -- `main` from what `parse_args` gives.
  unfoldable pub main_logged : Option (List FilePath × List FilePath) → Logged Exit
  main_logged none = pure (record { status = exit_failure; output = [] })
  main_logged (some (search_paths, search_libs)) = do
    info (codes "Searching for best available libcuda.so.1")
    s ← search_all_logged search_paths search_libs
    report s

  -- What `main` writes before `parse_args`.
  unfoldable pub banner : Option Bytes → Logged (Unit {0})
  unfolding init_logging_logged
  banner value = do
    init_logging_logged value
    info (codes "CUDA AutoCompat v" ++ texts.version_string)
