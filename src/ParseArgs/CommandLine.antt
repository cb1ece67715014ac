-- ===== src/ParseArgs/CommandLine.antt =====
-- The second half of search/parse_args.cxx: `parse_args_helper`, which calls itself for arguments
-- that come from the standard input, and `parse_args`.
use cuda_autocompat.Base.{
  ℕ, zero, suc, Bool, true, false, not, ◌||◌, Option, none, some, List, [], ◌∷◌, if◌then◌else◌,
  ◌==◌, length, Bytes, codes, bytes_eq,
}
use cuda_autocompat.FilePath.{FilePath}
use cuda_autocompat.Search.{Throws, returned, ◌>>=◌, System}
use cuda_autocompat.Search.Scan.{Loop, answer, out_of_fuel}
use cuda_autocompat.ParseArgs.{Paths, no_paths, parse_paths}
use cuda_autocompat.ParseArgs.DefaultPath.{SelfLinker, get_default_search_path}

-- What getopt_long returns: an option with its argument, the help option, or one of its errors.
pub data CmdOption : Type 0 where
  search_path : Bytes → CmdOption
  libs : Bytes → CmdOption
  help : CmdOption
  unrecognized : CmdOption
  missing_argument : CmdOption

-- The options that getopt_long finds in a command line, in their order, and the arguments that are
-- no options, which it moves behind them.
pub record Parsed : Type 0 where
  pub options : List CmdOption
  pub operands : List Bytes

-- What the command line parser asks the system, beyond the file system: getopt_long, and the
-- dynamic linker.
pub record Shell : Type 0 where
  pub getopt_long : List Bytes → Parsed
  pub linker : SelfLinker

-- The variables that `parse_args` passes on, and the lines that are left of the standard input.
pub record ArgState : Type 0 where
  pub paths : Paths
  pub libraries : Paths
  pub arg_search_path_seen : Bool
  pub stdin : List Bytes

abbrev is_space : ℕ → Bool
is_space c = c == b' ' || (c == 9 || (c == 10 || (c == 11 || (c == 12 || c == 13))))

abbrev push : Bytes → List Bytes → List Bytes
push [] words = words
push (c ∷ w) words = (c ∷ w) ∷ words

-- `iss >> arg` until it fails: the first word so far, and the words behind.
unfoldable pub space_words : Bytes → Bytes × List Bytes
space_words [] = ([], [])
space_words (c ∷ s) =
    let (w, words) = space_words s in if is_space c then ([], push w words) else (c ∷ w, words)

-- The arguments of one line.
abbrev pub argv_of_line : Bytes → List Bytes
argv_of_line line = let (w, words) = space_words line in push w words

module _ (sys : System) (shell : Shell) where
  -- The loop over the options: true if no option ends it.
  unfoldable pub run_options : List CmdOption → ArgState → Throws (Bool × ArgState)
  run_options [] s = returned (true, s)
  run_options (search_path arg ∷ opts) s = do
    ps ← parse_paths sys arg true s.paths
    run_options opts (record s { paths = ps; arg_search_path_seen = true })
  run_options (libs arg ∷ opts) s = do
    ps ← parse_paths sys arg false s.libraries
    run_options opts (record s { libraries = ps })
  run_options (help ∷ opts) s = returned (false, s)
  run_options (unrecognized ∷ opts) s = returned (false, s)
  run_options (missing_argument ∷ opts) s = returned (false, s)

  abbrev Parser : Type 0
  Parser = List Bytes → ArgState → Throws (Loop (Bool × ArgState))

  -- One argument that is no option: it must be `-`, and asks for a line of arguments.
  unfoldable pub run_operand : Parser → Bytes → Bytes → ArgState → Throws (Loop (Bool × ArgState))
  run_operand parse program arg s =
      if not (bytes_eq arg (codes "-")) then returned (answer (false, s)) else elim s.stdin [
        | [] ↦ returned (answer (false, s))
        | line ∷ lines ↦ elim (argv_of_line line) [
          | [] ↦ returned (answer (false, record s { stdin = lines }))
          | w ∷ words ↦ parse (program ∷ w ∷ words) (record s { stdin = lines })
        ]
      ]

  unfoldable pub run_operands :
      Parser → Bytes → List Bytes → ArgState → Throws (Loop (Bool × ArgState))
  run_operands parse program [] s = returned (answer (true, s))
  run_operands parse program (arg ∷ args) s = do
    r ← run_operand parse program arg s
    elim r [
      | out_of_fuel ↦ returned out_of_fuel
      | answer (ok, t) ↦
          if not ok then returned (answer (false, t)) else run_operands parse program args t
    ]

  abbrev pub program_of : List Bytes → Bytes
  program_of [] = []
  program_of (p ∷ argv) = p

  -- One unit of fuel for each call.
  unfoldable pub parse_args_helper : ℕ → Parser
  parse_args_helper zero argv s = returned out_of_fuel
  parse_args_helper (suc fuel) argv s = do
    r ← run_options (shell.getopt_long argv).options s
    let operands = (shell.getopt_long argv).operands in
        if not r.0
        then returned (answer (false, r.1))
        else run_operands (parse_args_helper fuel) (program_of argv) operands r.1

  abbrev pub start : List Bytes → ArgState
  start stdin = record {
    paths = no_paths;
    libraries = no_paths;
    arg_search_path_seen = false;
    stdin = stdin;
  }

  -- The end of `parse_args`: the default search path if no path was given. The first case is no
  -- code of the program: it is there because the recursion has fuel.
  unfoldable pub finish : Loop (Bool × ArgState) → Throws (Option (List FilePath × List FilePath))
  finish out_of_fuel = returned none
  finish (answer (false, s)) = returned none
  finish (answer (true, s)) =
      if s.arg_search_path_seen
      then returned (some (s.paths.out, s.libraries.out))
      else get_default_search_path sys shell.linker s.paths >>= λ r.
          returned (if r.0 then some (r.1.out, s.libraries.out) else none)

  -- `parse_args`, on a command line and the lines of the standard input.
  unfoldable pub parse_args :
      List Bytes → List Bytes → Throws (Option (List FilePath × List FilePath))
  parse_args argv stdin = do r ← parse_args_helper (suc (length stdin)) argv (start stdin); finish r
