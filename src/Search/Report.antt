-- ===== src/Search/Report.antt =====
-- The numbers of search/main.cxx and search/init.cxx: the version in the report, and the log level.
use cuda_autocompat.Base.{
  ℕ, ◌+◌, ◌*◌, ◌/◌, ◌%◌, ◌<◌, ◌≤◌, ◌≡◌, refl, Option, none, some, [], ◌∷◌, arith, Bytes,
}
use cuda_autocompat.Base.Int.{pos}
use cuda_autocompat.Search.Main.{parse_libcuda_version, init_logging, level_warn, level_trace}

-- A version that is built as 1000 * major + 10 * minor + patch, with one digit for the patch and at
-- most two for the minor number, is read back, but of the minor number only the last digit.
pub parse_libcuda_version-encoded :
    (major minor patch : ℕ)
    → minor < 100
    → patch < 10
    → parse_libcuda_version (pos (1000 * major + 10 * minor + patch))
      ≡ (pos major, pos (minor % 10), pos patch)
unfolding parse_libcuda_version
parse_libcuda_version-encoded major minor patch h k =
    let a : (1000 * major + 10 * minor + patch) / 1000 ≡ major = omega arith in
    let b : (1000 * major + 10 * minor + patch) % 100 / 10 ≡ minor % 10 = omega arith in
    let c : (1000 * major + 10 * minor + patch) % 10 ≡ patch = omega arith in rw (a, b, c) refl

-- The log level that `init_logging` sets, for any value of CUDA_AUTOCOMPAT_VERBOSE, is never below `warn` nor above `trace`.
init_logging-bounds :
    (value : Option Bytes) → (level_warn ≤ init_logging value) × (init_logging value ≤ level_trace)
unfolding init_logging
init_logging-bounds none = ground arith
init_logging-bounds (some []) = ground arith
init_logging-bounds (some (c ∷ [])) = ground arith
init_logging-bounds (some (c ∷ d ∷ rest)) = ground arith
