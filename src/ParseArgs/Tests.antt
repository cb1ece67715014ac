-- ===== src/ParseArgs/Tests.antt =====
-- Command lines on a small system.
use cuda_autocompat.Base.{
  suc, ◌≡◌, ◌≢◌, refl, true, none, some, List, [], ◌∷◌, if◌then◌else◌, length, bytes_eq, Bytes,
  codes,
}
use cuda_autocompat.FilePath.{FilePath, collapse, path_eq}
use cuda_autocompat.Search.{returned, directory, StatResult, stat_ok, not_found, System}
use cuda_autocompat.Search.Scan.{out_of_fuel}
use cuda_autocompat.ParseArgs.{
  no_paths, find_colon, add_unless_seen, add_new, add_path, parse_fields, parse_paths,
}
use cuda_autocompat.ParseArgs.CommandLine.{
  search_path, Parsed, Shell, start, space_words, run_options, run_operand, run_operands,
  parse_args_helper, finish, parse_args,
}
use cuda_autocompat.ParseArgs.Fields.{fields, add_all, parse_paths-fields}
use cuda_autocompat.ParseArgs.Sound.{Searchable, parse_args-Searchable}
use cuda_autocompat.ParseArgs.Ends.{parse_args_helper-out_of_fuel}

-- `/a` and `/b` are directories.
abbrev stat : FilePath → StatResult
stat p =
    if bytes_eq p (codes "/a")
    then stat_ok (record { st_ino = 1; kind = directory })
    else if bytes_eq p (codes "/b")
    then stat_ok (record { st_ino = 2; kind = directory })
    else not_found

abbrev files : System
files = record {
  stat = stat;
  dlopen = λ p. none;
  weakly_canonical = λ p. returned p;
  cuda_home = none;
}

-- A hyphen, or the value of `-p`.
abbrev getopt_long : List Bytes → Parsed
getopt_long [] = record { options = []; operands = [] }
getopt_long (p ∷ []) = record { options = []; operands = [] }
getopt_long (p ∷ a ∷ rest) =
    if bytes_eq a (codes "-")
    then record { options = []; operands = a ∷ [] }
    else record { options = search_path a ∷ []; operands = [] }

abbrev shell : Shell
shell = record {
  getopt_long = getopt_long;
  linker = record { dlopen_self = none; serinfo_size = λ h. none; serinfo = λ h n. none };
}

abbrev argv : List Bytes
argv = codes "search" ∷ codes "-" ∷ []

abbrev lines : List Bytes
lines = codes " /a:/c::/b:/a " ∷ []

-- The path that comes twice, the one that is missing, and the empty one are left out.
parse_args-lines :
    parse_args files shell argv lines ≡ returned (some (codes "/a" ∷ codes "/b" ∷ [], []))
unfolding parse_args parse_args_helper finish run_operands run_operand run_options parse_paths
    parse_fields add_path add_unless_seen add_new find_colon space_words bytes_eq path_eq collapse
parse_args-lines = refl

parse_args-Searchable_example : Searchable files shell (codes "/a" ∷ codes "/b" ∷ []) []
parse_args-Searchable_example =
    parse_args-Searchable files shell argv lines (codes "/a" ∷ codes "/b" ∷ []) [] parse_args-lines

parse_args_helper-out_of_fuel_example :
    parse_args_helper files shell (suc (length lines)) argv (start files shell lines)
    ≢ returned out_of_fuel
parse_args_helper-out_of_fuel_example = parse_args_helper-out_of_fuel files shell argv lines

parse_paths-fields_example :
    parse_paths files (codes "/a::/b") true no_paths
    ≡ add_all files true (fields (codes "/a::/b")) no_paths
parse_paths-fields_example = parse_paths-fields files true b'/' (codes "a::/b") no_paths
