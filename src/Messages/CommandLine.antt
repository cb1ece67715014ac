-- ===== src/Messages/CommandLine.antt =====
-- `parse_args_helper` and `parse_args` of search/parse_args.cxx with their messages.
use cuda_autocompat.Base.{
  ℕ, zero, suc, Bool, true, false, not, Option, none, some, List, [], ◌∷◌, ◌++◌, if◌then◌else◌,
  length, Bytes, codes, bytes_eq,
}
use cuda_autocompat.FilePath.{FilePath}
use cuda_autocompat.Search.{System}
use cuda_autocompat.Search.Scan.{Loop, answer, out_of_fuel}
use cuda_autocompat.ParseArgs.Flags.{cmd_flags, usage}
use cuda_autocompat.ParseArgs.CommandLine.{
  CmdOption, search_path, libs, help, unrecognized, missing_argument, Shell, ArgState, argv_of_line,
  program_of, start,
}
use cuda_autocompat.Logging.{level_error}
use cuda_autocompat.Messages.{Logged, pure, ◌>>=◌, ◌>>◌, say, info, debug, trace}
use cuda_autocompat.Messages.Args.{ArgTexts, parse_paths_logged, get_default_search_path_logged}

abbrev pub error : Bytes → Logged (Unit {0})
error = say level_error

-- A message that ends the parser.
abbrev refuse : Bytes → ArgState → Logged (Bool × ArgState)
refuse text s = do error text; pure (false, s)

abbrev refuse_call : Bytes → ArgState → Logged (Loop (Bool × ArgState))
refuse_call text s = do error text; pure (answer (false, s))

-- One message for each line or word, and what comes after them.
unfoldable pub log_each :
    {A : Type 0} → (Bytes → Logged (Unit {0})) → List Bytes → Logged A → Logged A
log_each log [] next = next
log_each log (line ∷ lines) next = do log line; log_each log lines next

module _ (sys : System) (shell : Shell) (texts : ArgTexts) where
  unfoldable pub run_options_logged :
      List Bytes → List CmdOption → ArgState → Logged (Bool × ArgState)
  run_options_logged argv [] s = pure (true, s)
  run_options_logged argv (search_path arg ∷ opts) s = do
    info (codes "Adding search paths")
    ps ← parse_paths_logged sys arg true s.paths
    run_options_logged argv opts (record s { paths = ps; arg_search_path_seen = true })
  run_options_logged argv (libs arg ∷ opts) s = do
    info (codes "Adding search libs")
    ps ← parse_paths_logged sys arg false s.libraries
    run_options_logged argv opts (record s { libraries = ps })
  run_options_logged argv (help ∷ opts) s =
      log_each error (usage cmd_flags (program_of sys shell argv)) (pure (false, s))
  run_options_logged argv (unrecognized ∷ opts) s =
      refuse
        (program_of sys shell argv
          ++ (codes ": unrecognized option '" ++ (texts.last_word argv ++ codes "'")))
        s
  run_options_logged argv (missing_argument ∷ opts) s =
      refuse
        (program_of sys shell argv
          ++ (codes ": option '" ++ (texts.last_word argv ++ codes "' requires an argument")))
        s

  abbrev Parser : Type 0
  Parser = List Bytes → ArgState → Logged (Loop (Bool × ArgState))

  -- The arguments of a line, each with a message, and the call with them.
  abbrev pub run_words : Parser → Bytes → List Bytes → ArgState → Logged (Loop (Bool × ArgState))
  run_words parse program words s =
      log_each trace words
        (elim words [ [] ↦ pure (answer (false, s)) | w ∷ ws ↦ parse (program ∷ w ∷ ws) s ])

  unfoldable pub run_operand_logged :
      Parser → Bytes → Bytes → ArgState → Logged (Loop (Bool × ArgState))
  run_operand_logged parse program arg s =
      if not (bytes_eq arg (codes "-"))
      then refuse_call (program ++ (codes ": unrecognized argument '" ++ (arg ++ codes "'"))) s
      else do
        info (codes "Reading additional arguments from stdin")
        elim s.stdin [
          | [] ↦ refuse_call (codes "Failed to read arguments from stdin") s
          | line ∷ lines ↦ do
            debug line
            run_words parse program (argv_of_line line) (record s { stdin = lines })
        ]

  unfoldable pub run_operands_logged :
      Parser → Bytes → List Bytes → ArgState → Logged (Loop (Bool × ArgState))
  run_operands_logged parse program [] s = pure (answer (true, s))
  run_operands_logged parse program (arg ∷ args) s = do
    r ← run_operand_logged parse program arg s
    elim r [
      | out_of_fuel ↦ pure out_of_fuel
      | answer (ok, t) ↦
          if not ok then pure (answer (false, t)) else run_operands_logged parse program args t
    ]

  unfoldable pub parse_args_helper_logged : ℕ → Parser
  parse_args_helper_logged zero argv s = pure out_of_fuel
  parse_args_helper_logged (suc fuel) argv s = do
    r ← run_options_logged argv (shell.getopt_long argv).options s
    if not r.0
        then pure (answer (false, r.1))
        else run_operands_logged (parse_args_helper_logged fuel) (program_of sys shell argv)
            (shell.getopt_long argv).operands r.1

  unfoldable pub finish_logged :
      Loop (Bool × ArgState) → Logged (Option (List FilePath × List FilePath))
  finish_logged out_of_fuel = pure none
  finish_logged (answer (false, s)) = pure none
  finish_logged (answer (true, s)) =
      if s.arg_search_path_seen then pure (some (s.paths.out, s.libraries.out)) else do
        info (codes "Adding default search paths")
        r ← get_default_search_path_logged sys shell.linker texts s.paths
        if r.0
            then pure (some (r.1.out, s.libraries.out))
            else error (codes "failed to get default search path.") >> pure none

  unfoldable pub parse_args_logged :
      List Bytes → List Bytes → Logged (Option (List FilePath × List FilePath))
  parse_args_logged argv stdin = do
    r ← parse_args_helper_logged (suc (length stdin)) argv (start sys shell stdin)
    finish_logged r
