-- ===== src/Startup/Tests.antt =====
-- One driver, found by the search program, printed to the audit library, and used by the loader.
use cuda_autocompat.Base.{
  ℕ, ◌≡◌, ◌≢◌, refl, ◌⊎◌, Bool, true, Option, none, some, List, [], ◌∷◌, ◌||◌, if◌then◌else◌, arith,
  Bytes, bytes_eq, bytes_eq_refl, codes, zeros, c_string,
}
use cuda_autocompat.Base.Int.{ℤ, pos}
use cuda_autocompat.FilePath.{
  FilePath, filename, strip_separators, parent_path, ◌/path◌, collapse, path_eq,
}
use cuda_autocompat.PathUtils.{path_max}
use cuda_autocompat.PathUtils.Join.{joined, fill}
use cuda_autocompat.SearchHelper.{Pipe, helper_path, find_search_helper}
use cuda_autocompat.SearchHelper.Find.{find_search_helper-installed}
use cuda_autocompat.Audit.{
  AuditState, no_backup, sanitize_ld_audit, la_version, la_objsearch, la_objopen,
}
use cuda_autocompat.Audit.Redirect.{target}
use cuda_autocompat.Search.{
  returned, FileKind, regular, directory, StatResult, stat_ok, not_found, stat_error, Library,
  System, load_version, get_libcuda_api_ver, check_file_exists, check_companions, update_libcuda,
}
use cuda_autocompat.Search.Scan.{
  answer, search_libraries_libcuda, search_libraries_libcudart, search_cuda_home,
  search_dir_libcudart, search_paths_libcudart, search_paths_libcuda,
}
use cuda_autocompat.Search.Runs.{Consistent}
use cuda_autocompat.Search.Candidates.{
  candidates_libcuda, candidates_cuda_home, candidates_libcudart, candidates_libraries,
}
use cuda_autocompat.Search.Tried.{all_candidates}
use cuda_autocompat.Search.Newest.{IsNewest, NoneRated}
use cuda_autocompat.Search.Main.{Exit, search_all, main}
use cuda_autocompat.ParseArgs.{add_path, add_directories}
use cuda_autocompat.ParseArgs.DefaultPath.{query_linker, get_default_search_path}
use cuda_autocompat.ParseArgs.CommandLine.{
  Shell, ArgState, run_options, run_operands, parse_args_helper, finish, parse_args,
}
use cuda_autocompat.Startup.{search_program, pipe_of}
use cuda_autocompat.Search.Total.{Accessible}
use cuda_autocompat.Startup.Returns.{helper_result, EndsWith, search_program-Exit}
use cuda_autocompat.Startup.Helper.{la_version-search_program}

abbrev file : FilePath → FileKind → ℕ → FilePath → StatResult → StatResult
file path kind ino p other =
    if bytes_eq p path then stat_ok (record { st_ino = ino; kind = kind }) else other

abbrev driver : Library
driver = record {
  exports = λ name.
      bytes_eq name (codes "cuGetErrorName")
      || (bytes_eq name (codes "cuGetErrorString") || bytes_eq name (codes "cuDriverGetVersion"));
  cu_driver_get_version = λ old. (pos 0, pos 12080);
}

-- `/d` is a directory with a driver.
abbrev one_driver : System
one_driver = record {
  stat = λ p. file (codes "/d") directory 1 p (
      file (codes "/d/libcuda.so.1") regular 2 p (
        file (codes "/d/libnvidia-nvvm.so.4") regular 3 p (
          file (codes "/d/libnvidia-ptxjitcompiler.so.1") regular 4 p
            (file (codes "/d/libcudadebugger.so.1") regular 5 p not_found))));
  dlopen = λ p. if bytes_eq p (codes "/d/libcuda.so.1") then some driver else none;
  weakly_canonical = λ p. returned p;
  cuda_home = none;
}

-- The dynamic linker searches `/d`, and there are no arguments.
abbrev shell : Shell
shell = record {
  getopt_long = λ argv. record { options = []; operands = [] };
  linker = record {
    dlopen_self = some 1;
    serinfo_size = λ h. some 1;
    serinfo = λ h n. some (codes "/d" ∷ []);
  };
}

abbrev argv : List Bytes
argv = codes "cuda-autocompat-search" ∷ []

abbrev paths : List FilePath
paths = codes "/d" ∷ []

parsed : parse_args one_driver shell argv [] ≡ returned (some (paths, []))
unfolding parse_args parse_args_helper run_options run_operands finish get_default_search_path
    query_linker add_directories add_path bytes_eq path_eq collapse
parsed = refl

abbrev printed : Exit
printed = record { status = 0; output = codes "/d" }

program_ends : search_program one_driver shell argv [] ≡ returned printed
unfolding search_program parse_args parse_args_helper run_options run_operands finish
    get_default_search_path query_linker add_directories add_path main search_all
    search_libraries_libcuda search_libraries_libcudart search_cuda_home search_paths_libcudart
    search_dir_libcudart search_paths_libcuda check_file_exists check_companions update_libcuda
    get_libcuda_api_ver load_version bytes_eq ◌/path◌ filename parent_path strip_separators path_eq
    collapse
program_ends = refl

agree : Consistent one_driver [] (all_candidates one_driver paths [])
unfolding candidates_libcuda candidates_cuda_home candidates_libcudart candidates_libraries
    check_file_exists bytes_eq ◌/path◌ filename
agree = (tt, tt)

abbrev self : Bytes
self = codes "/opt/lib64/audit.so"

abbrev installed : Bytes → Bool
installed path = bytes_eq path (joined (codes "/opt") helper_path)

abbrev popen : Option Bytes → Bytes → Option Pipe
popen env path = some (pipe_of (search_program one_driver shell argv []))

helper_found :
    find_search_helper installed (some self) none (zeros path_max)
    ≡ (true, (fill (zeros path_max) (codes "/opt/libexec/cuda-autocompat-search")).1)
unfolding path_max
helper_found =
    find_search_helper-installed installed (codes "/opt") (codes "64") (codes "audit.so") none
      (zeros path_max) (omega arith) (omega arith) (omega arith) (omega arith)
      (bytes_eq_refl (joined (codes "/opt") helper_path))

la_version-search_program_example :
    (s : AuditState) × (la_version installed popen (some self) none none (zeros path_max) ≡ some s)
    × (((ver : ℤ) × IsNewest one_driver (all_candidates one_driver paths []) ver (codes "/d")
          × (c_string (la_objsearch s (codes "libcuda.so.1"))
              ≡ target (codes "/d") (codes "libcuda.so.1")))
        ⊎ (NoneRated one_driver (all_candidates one_driver paths [])
            × (la_objsearch s (codes "libcuda.so.1") ≡ codes "libcuda.so.1")
            × (la_objopen s (some (codes "libcuda.so.1")) ≡ 0)))
unfolding path_max
la_version-search_program_example =
    la_version-search_program installed popen (some self) none none none no_backup (zeros path_max)
      _ one_driver shell argv [] paths printed (unfold sanitize_ld_audit in refl) helper_found refl
      parsed agree program_ends (λ ok. omega arith) (codes "libcuda.so.1") (omega arith)

file-stat_error :
    (path : FilePath) (kind : FileKind) (ino : ℕ) (p : FilePath) (other : StatResult)
    → other ≢ stat_error
    → file path kind ino p other ≢ stat_error
file-stat_error path kind ino p other h = ground (arith, h)

one_driver-Accessible : Accessible one_driver
one_driver-Accessible = (
  λ p. file-stat_error (codes "/d") directory 1 p _ (
      file-stat_error (codes "/d/libcuda.so.1") regular 2 p _ (
        file-stat_error (codes "/d/libnvidia-nvvm.so.4") regular 3 p _ (
          file-stat_error (codes "/d/libnvidia-ptxjitcompiler.so.1") regular 4 p _
            (file-stat_error (codes "/d/libcudadebugger.so.1") regular 5 p not_found λ e. cc)))),
  λ p e. cc,
)

search_program-Exit_example :
    (e : Exit) × (search_program one_driver shell argv [] ≡ returned e)
    × ((ok : Bool) × (s : ArgState) × (helper_result one_driver shell argv []
          ≡ returned (answer (ok, s)))
        × EndsWith one_driver shell argv [] ok e)
search_program-Exit_example = search_program-Exit one_driver shell argv [] one_driver-Accessible
