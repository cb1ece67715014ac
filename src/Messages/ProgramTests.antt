-- ===== src/Messages/ProgramTests.antt =====
-- Whole runs of the search program with their messages, on the tree of stub libraries.
use cuda_autocompat.Base.{
  ◌≡◌, ◌∙◌, inr, refl, true, false, none, some, List, [], ◌∷◌, Bytes, bytes_eq, codes,
}
use cuda_autocompat.Base.Int.{ℤ, pos, negsuc}
use cuda_autocompat.FilePath.{filename, parent_path, strip_separators, collapse, path_eq, ◌/path◌}
use cuda_autocompat.Search.{
  returned, SearchState, init, load_version, get_libcuda_api_ver, check_file_exists,
  check_companions, update_libcuda,
}
use cuda_autocompat.Search.Scan.{
  search_libraries_libcuda, search_libraries_libcudart, search_cuda_home, search_dir_libcudart,
  search_paths_libcudart, search_paths_libcuda,
}
use cuda_autocompat.Search.Main.{exit_success, search_all, main}
use cuda_autocompat.ParseArgs.{find_colon, add_path, parse_fields, parse_paths}
use cuda_autocompat.ParseArgs.CommandLine.{
  CmdOption, search_path, libs, Shell, space_words, run_options, run_operands, parse_args_helper,
  finish, parse_args,
}
use cuda_autocompat.Startup.{search_program}
use cuda_autocompat.Stubs.{cu_driver_get_version}
use cuda_autocompat.Messages.Load.{load_version_logged, get_libcuda_api_ver_logged}
use cuda_autocompat.Stubs.Tree.{system, d123}
use cuda_autocompat.Logging.{level_debug, level_error}
use cuda_autocompat.Messages.{Message, write_messages}
use cuda_autocompat.Messages.Decimal.{format_int, value, value-format_int}
use cuda_autocompat.Messages.Update.{update_libcuda_logged}
use cuda_autocompat.Messages.Main.{settings_after}
use cuda_autocompat.Messages.Args.{
  ArgTexts, add_path_logged, parse_fields_logged, parse_paths_logged,
}
use cuda_autocompat.Messages.CommandLine.{
  log_each, run_options_logged, run_operand_logged, run_operands_logged, parse_args_helper_logged,
  finish_logged, parse_args_logged,
}
use cuda_autocompat.Messages.Verdict.{Report, update_libcuda_logged-Verdict}
use cuda_autocompat.Messages.Errors.{has_error, any_blank}
use cuda_autocompat.Messages.Errors.CommandLine.{parse_args_logged-has_error}
use cuda_autocompat.Messages.Outcome.{Outcome, program_logged-Outcome}
use cuda_autocompat.Messages.Program.{
  program_logged, program_logged-search_program, program_logged-silent,
}
use cuda_autocompat.Messages.Tests.{texts, says}

abbrev arg_texts : ArgTexts
arg_texts = record {
  dlopen_error = codes "dlopen error";
  serinfo_size_error = λ handle. codes "dlinfo error";
  serinfo_error = λ handle dls_cnt. codes "dlinfo error";
  last_word = λ argv. codes "-x";
}

abbrev hyphen : List CmdOption → List Bytes
hyphen [] = codes "-" ∷ []
hyphen (o ∷ options) = []

-- A command line of options, and one of a hyphen, if there are no options.
abbrev shell : List CmdOption → Shell
shell options = record {
  getopt_long = λ argv. record { options = options; operands = hyphen options };
  linker = record { dlopen_self = none; serinfo_size = λ h. none; serinfo = λ h n. none };
}

abbrev argv : List Bytes
argv = codes "search" ∷ []

-- The messages of `parse_args` on options.
args_log : List CmdOption → List Message
unfolding parse_args_logged parse_args_helper_logged run_options_logged run_operands_logged
    run_operand_logged finish_logged parse_paths_logged parse_fields_logged add_path_logged log_each
    find_colon bytes_eq path_eq collapse
args_log options = (parse_args_logged (system none) (shell options) arg_texts argv []).0

repeat_path :
    says level_debug
      (codes "skip /driver_123/lib (already processed)")
      (args_log (search_path (codes "/driver_123/lib:/driver_234/lib:/driver_123/lib") ∷ []))
    ≡ true
unfolding args_log
repeat_path = refl

file_in_search_path :
    says level_debug
      (codes "skip /driver_234/lib/libcuda.so.1 (not a directory)")
      (args_log (search_path (codes "/driver_234/lib/libcuda.so.1:/driver_234/lib") ∷ []))
    ≡ true
unfolding args_log
file_in_search_path = refl

dir_in_search_libs :
    says level_debug
      (codes "skip /driver_123/lib (not a regular file)")
      (args_log (libs (codes "/driver_123/lib:/driver_234/lib/libcuda.so.1") ∷ []))
    ≡ true
unfolding args_log
dir_in_search_libs = refl

-- Without a line on the standard input.
no_line : says level_error (codes "Failed to read arguments from stdin") (args_log []) ≡ true
unfolding args_log
no_line = refl

-- A blank line ends the program with EXIT_FAILURE and no error.
blank_line :
    let run = parse_args_logged (system none) (shell []) arg_texts argv (codes " " ∷ []) in
    (has_error run.0 ≡ false) × (run.1 ≡ returned none)
unfolding parse_args_logged parse_args_helper_logged run_options_logged run_operands_logged
    run_operand_logged finish_logged log_each space_words bytes_eq has_error
blank_line = (refl, refl)

abbrev paths : Shell
paths = shell (search_path d123 ∷ [])

accepted : parse_args (system none) paths argv [] ≡ returned (some (d123 ∷ [], []))
unfolding parse_args parse_args_helper run_options run_operands finish parse_paths parse_fields
    add_path find_colon bytes_eq path_eq collapse
accepted = refl

program_logged-silent_example :
    write_messages false
      (settings_after (some (codes "0")) 42)
      (λ i. codes "now")
      (program_logged (system none) paths texts arg_texts (some (codes "0")) argv []).0
    ≡ []
program_logged-silent_example =
    program_logged-silent (system none) paths texts arg_texts false (λ i. codes "now") 42
      (some (codes "0")) argv [] (d123 ∷ [], []) (inr refl) accepted

fails : (parse_args_logged (system none) (shell []) arg_texts argv []).1 ≡ returned none
unfolding parse_args_logged parse_args_helper_logged run_options_logged run_operands_logged
    run_operand_logged finish_logged bytes_eq
fails = refl

parse_args_logged-has_error_example :
    has_error (parse_args_logged (system none) (shell []) arg_texts argv []).0 ≡ true
parse_args_logged-has_error_example =
    parse_args_logged-has_error (system none) (shell []) arg_texts argv [] none
      (unfold any_blank in refl) fails

abbrev updated : ℤ × SearchState
updated = (
  pos 0,
  record {
    found = some (record { version = pos 1023; driver_dir = d123 });
    dir_path_cache = d123 ∷ [];
    dir_inode_cache = 10 ∷ [];
    ver_cache = (11, pos 1023) ∷ [];
  },
)

updates :
    (update_libcuda_logged (system none) texts (codes "/driver_123/lib/libcuda.so.1") init).1
    ≡ returned updated
unfolding update_libcuda_logged get_libcuda_api_ver_logged load_version_logged check_file_exists
    bytes_eq ◌/path◌ parent_path strip_separators path_eq collapse cu_driver_get_version
updates = refl

update_libcuda_logged-Verdict_example :
    Report
      (codes "/driver_123/lib/libcuda.so.1")
      none
      (update_libcuda_logged (system none) texts (codes "/driver_123/lib/libcuda.so.1") init).0
      updated
update_libcuda_logged-Verdict_example =
    update_libcuda_logged-Verdict (system none) texts (codes "/driver_123/lib/libcuda.so.1") init
      updated updates

read_back : value (format_int (negsuc 1022)) ≡ negsuc 1022
read_back = value-format_int (negsuc 1022)

ends :
    search_program (system none) paths argv []
    ≡ returned (record { status = exit_success; output = d123 })
unfolding search_program parse_args parse_args_helper run_options run_operands finish parse_paths
    parse_fields add_path find_colon main search_all search_libraries_libcuda
    search_libraries_libcudart search_cuda_home search_paths_libcudart search_dir_libcudart
    search_paths_libcuda check_file_exists check_companions update_libcuda get_libcuda_api_ver
    load_version bytes_eq ◌/path◌ filename parent_path strip_separators path_eq collapse
    cu_driver_get_version
ends = refl

program_logged-Outcome_example :
    Outcome []
      (program_logged (system none) paths texts arg_texts none argv []).0
      (record { status = exit_success; output = d123 })
program_logged-Outcome_example =
    program_logged-Outcome (system none) paths texts arg_texts none argv []
      (record { status = exit_success; output = d123 })
      (program_logged-search_program (system none) paths texts arg_texts none argv [] ∙ ends)
