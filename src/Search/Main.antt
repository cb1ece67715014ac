-- ===== src/Search/Main.antt =====
-- search/main.cxx: `main` and the version in its report; and the log level of search/init.cxx.
use cuda_autocompat.Base.{
  ℕ, zero, suc, ◌+◌, ◌-◌, ◌/◌, ◌%◌, min, ◌||◌, Option, none, some, List, [], ◌∷◌, if◌then◌else◌,
  ltb, Bytes,
}
use cuda_autocompat.Base.Int.{ℤ, pos, negsuc}
use cuda_autocompat.FilePath.{FilePath}
use cuda_autocompat.Search.{Throws, returned, ◌>>=◌, System, SearchState, init}
use cuda_autocompat.Search.Scan.{
  search_libraries_libcuda, search_libraries_libcudart, search_cuda_home, search_paths_libcudart,
  search_paths_libcuda,
}

-- What `main` returns, and what it writes to the output.
pub record Exit : Type 0 where
  pub status : ℕ
  pub output : Bytes

abbrev pub exit_success : ℕ
exit_success = 0

abbrev pub exit_failure : ℕ
exit_failure = 1

-- `/` and `%` of C++ round to zero.
abbrev neg : ℕ → ℤ
neg zero = pos zero
neg (suc n) = negsuc n

abbrev quot : ℤ → ℕ → ℤ
quot (pos a) d = pos (a / d)
quot (negsuc a) d = neg (suc a / d)

abbrev rem : ℤ → ℕ → ℤ
rem (pos a) d = pos (a % d)
rem (negsuc a) d = neg (suc a % d)

-- Major, minor and patch number.
unfoldable pub parse_libcuda_version : ℤ → ℤ × ℤ × ℤ
parse_libcuda_version ver = (quot ver 1000, quot (rem ver 100) 10, rem ver 10)

-- The log levels from `off` to `trace`.
abbrev pub level_warn : ℕ
level_warn = 2

abbrev pub level_trace : ℕ
level_trace = 6

-- `LOGGING_MAX_LEVEL` after `init_logging`, from the value of `CUDA_AUTOCOMPAT_VERBOSE`.
unfoldable pub init_logging : Option Bytes → ℕ
init_logging none = level_warn
init_logging (some []) = level_warn
init_logging (some (c ∷ d ∷ rest)) = level_warn
init_logging (some (c ∷ [])) =
    if ltb c b'0' || ltb b'9' c then level_warn else min (level_warn + (c - b'0')) level_trace

module _ (sys : System) where
  -- All searches. The last four run if no library is a driver that can be used.
  unfoldable pub search_all : List FilePath → List FilePath → Throws SearchState
  search_all search_paths search_libs = do
    s ← search_libraries_libcuda sys search_libs init
    elim s.found [
      | some best ↦ returned s
      | none ↦ do
        s1 ← search_libraries_libcudart sys search_libs s
        s2 ← search_cuda_home sys s1
        s3 ← search_paths_libcudart sys search_paths s2
        search_paths_libcuda sys search_paths s3
    ]

  -- `main`, from what `parse_args` gives: the paths and libraries, or nothing on an error.
  unfoldable pub main : Option (List FilePath × List FilePath) → Throws Exit
  unfolding search_all
  main none = returned (record { status = exit_failure; output = [] })
  main (some (search_paths, search_libs)) = do
    s ← search_all search_paths search_libs
    elim s.found [
      | some best ↦ returned (record { status = exit_success; output = best.driver_dir })
      | none ↦ returned (record { status = exit_failure; output = [] })
    ]
