-- ===== src/SearchHelper/Tests.antt =====
-- Runs of search_helper.c, and the theorems at a concrete installation.
use cuda_autocompat.Base.{
  ◌≡◌, refl, Bool, not, true, false, Option, none, some, [], arith, if◌then◌else◌, Bytes, codes,
  c_string, zeros, bytes_eq, length,
}
use cuda_autocompat.PathUtils.{path_max, path_join, path_prefix, tokens}
use cuda_autocompat.PathUtils.Join.{joined}
use cuda_autocompat.SearchHelper.{helper_path, Pipe, success, find_search_helper, find_libcuda}
use cuda_autocompat.SearchHelper.Stderr.{
  warnings, find_search_helper_written, find_search_helper_written-warnings,
}
use cuda_autocompat.SearchHelper.Read.{answer, find_libcuda-answer}
use cuda_autocompat.SearchHelper.Find.{find_search_helper-IsSound}

abbrev self : Bytes
self = codes "/opt/lib64/libcuda_autocompat_audit.so.0"

-- Only the helper beside the library is there.
abbrev installed : Bytes → Bool
installed path = bytes_eq path (joined (codes "/opt") helper_path)

-- Every directory of PATH has the helper, and libexec has not.
abbrev elsewhere : Bytes → Bool
elsewhere path = not (bytes_eq path (joined (codes "/opt") helper_path))

abbrev popen : Bytes → Option Pipe
popen path = some (record { stream = codes "/usr/lib64"; status = success })

find_search_helper-IsSound_example :
    let r = find_search_helper installed (some self) (some (codes "/bin")) [] in
    (r.0 ≡ true → installed (c_string r.1) ≡ true) × (r.0 ≡ false → r.1 ≡ zeros path_max)
find_search_helper-IsSound_example =
    find_search_helper-IsSound installed self (some (codes "/bin")) []

find_libcuda-answer_example : find_libcuda installed popen (some self) none (zeros path_max) ≡ (
    let (found, path) = find_search_helper installed (some self) none (zeros path_max) in
    if found then answer (popen (c_string path)) else (0, zeros path_max))
find_libcuda-answer_example = find_libcuda-answer installed popen (some self) none (zeros path_max)

-- Both directories have the helper.
find_search_helper_written-warnings_example :
    find_search_helper_written elsewhere (some self) (some (codes "/bin:/usr/bin")) []
    ≡ (warnings (length (tokens (codes "/bin:/usr/bin") b':')), (false, zeros path_max))
unfolding path_max path_prefix path_join bytes_eq
find_search_helper_written-warnings_example =
    find_search_helper_written-warnings elsewhere self (codes "/bin:/usr/bin") [] _ {prefix_len = 4}
      refl refl refl (omega arith)

-- Two lines.
two_warnings : length (tokens (codes "/bin:/usr/bin") b':') ≡ 2
unfolding tokens
two_warnings = refl
