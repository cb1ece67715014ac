-- ===== src/Search/Toolkit/Tests.antt =====
-- A toolkit behind a link, and the numbers of a version.
use cuda_autocompat.Base.{◌≡◌, refl, some, none, arith, codes}
use cuda_autocompat.Base.Int.{pos}
use cuda_autocompat.FilePath.{◌/path◌}
use cuda_autocompat.Search.{returned, not_found, System}
use cuda_autocompat.Search.Scan.{toolkit_subdir, get_toolkit_from_libcudart}
use cuda_autocompat.Search.Main.{parse_libcuda_version}
use cuda_autocompat.Search.Toolkit.{get_toolkit_from_libcudart-toolkit_subdir}
use cuda_autocompat.Search.Report.{parse_libcuda_version-encoded}

parse_libcuda_version-encoded_example : parse_libcuda_version (pos 12085) ≡ (pos 12, pos 8, pos 5)
parse_libcuda_version-encoded_example =
    parse_libcuda_version-encoded 12 8 5 (ground arith) (ground arith)

-- A system where a link leads to a library of a toolkit.
abbrev linked : System
linked = record {
  stat = λ p. not_found;
  dlopen = λ p. none;
  weakly_canonical =
      λ p. returned (codes "/opt/cuda" /path toolkit_subdir /path codes "libcudart.so.12");
  cuda_home = none;
}

get_toolkit_from_libcudart-toolkit_subdir_example :
    get_toolkit_from_libcudart linked (codes "/usr/lib/libcudart.so.12")
    ≡ returned (some (codes "/opt/cuda"))
get_toolkit_from_libcudart-toolkit_subdir_example =
    get_toolkit_from_libcudart-toolkit_subdir linked (codes "/usr/lib/libcudart.so.12")
      (codes "/opt/cuda") (codes "libcudart.so.12") refl refl refl refl
