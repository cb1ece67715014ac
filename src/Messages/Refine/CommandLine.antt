-- ===== src/Messages/Refine/CommandLine.antt =====
-- `parse_args` of search/parse_args.cxx with and without its messages.
use cuda_autocompat.Base.{
  ℕ, zero, suc, subst, Bool, true, false, not, none, List, [], ◌∷◌, length, Bytes, codes, bytes_eq,
}
use cuda_autocompat.Search.{Throws, System}
use cuda_autocompat.Search.Scan.{Loop, answer, out_of_fuel}
use cuda_autocompat.ParseArgs.CommandLine.{
  CmdOption, search_path, libs, help, unrecognized, missing_argument, Shell, ArgState, argv_of_line,
  program_of, start, run_options, run_operand, run_operands, parse_args_helper, finish, parse_args,
}
use cuda_autocompat.ParseArgs.Flags.{cmd_flags, usage}
use cuda_autocompat.Search.Main.{level_trace}
use cuda_autocompat.Logging.{level_error}
use cuda_autocompat.Messages.{Logged, say}
use cuda_autocompat.Messages.Args.{ArgTexts}
use cuda_autocompat.Messages.CommandLine.{
  log_each, run_options_logged, run_operand_logged, run_operands_logged, parse_args_helper_logged,
  finish_logged, parse_args_logged,
}
use cuda_autocompat.Messages.Refine.{
  Refines, AnyMessage, any-Refines, pure-Refines, bind-Refines, say-Refines, if-Refines,
  if_returned,
}
use cuda_autocompat.Messages.Refine.Args.{
  parse_paths_logged-Refines, get_default_search_path_logged-Refines,
}

log_each-Refines :
    {A : Type 0} (level : ℕ) (lines : List Bytes) {next : Logged A} {t : Throws A}
    → Refines AnyMessage next t
    → Refines AnyMessage (log_each (say level) lines next) t
unfolding log_each
log_each-Refines level [] h = h
log_each-Refines level (line ∷ lines) h = say-Refines tt (log_each-Refines level lines h)

list-Refines :
    {A : Type 0} (xs : List Bytes) {m : Logged A} {f : Bytes → List Bytes → Logged A} {t : Throws A}
    {g : Bytes → List Bytes → Throws A}
    → Refines AnyMessage m t
    → ((x : Bytes) (rest : List Bytes) → Refines AnyMessage (f x rest) (g x rest))
    → Refines AnyMessage
        (elim xs [ [] ↦ m | x ∷ rest ↦ f x rest ])
        (elim xs [ [] ↦ t | x ∷ rest ↦ g x rest ])
list-Refines [] h k = h
list-Refines (x ∷ rest) h k = k x rest

loop-Refines :
    {A B : Type 0} (r : Loop B) {m : Logged A} {f : B → Logged A} {t : Throws A} {g : B → Throws A}
    → Refines AnyMessage m t
    → ((b : B) → Refines AnyMessage (f b) (g b))
    → Refines AnyMessage
        (elim r [ out_of_fuel ↦ m | answer b ↦ f b ])
        (elim r [ out_of_fuel ↦ t | answer b ↦ g b ])
loop-Refines out_of_fuel h k = h
loop-Refines (answer b) h k = k b

module _ (sys : System) (shell : Shell) (texts : ArgTexts) where
  run_options_logged-Refines :
      (argv : List Bytes) (opts : List CmdOption) (s : ArgState)
      → Refines AnyMessage
          (run_options_logged sys shell texts argv opts s)
          (run_options sys shell opts s)
  unfolding run_options_logged run_options
  run_options_logged-Refines argv [] s = pure-Refines _
  run_options_logged-Refines argv (search_path arg ∷ opts) s = say-Refines tt (
      bind-Refines (any-Refines (parse_paths_logged-Refines sys arg true s.paths))
        (λ ps. run_options_logged-Refines argv opts _))
  run_options_logged-Refines argv (libs arg ∷ opts) s = say-Refines tt (
      bind-Refines (any-Refines (parse_paths_logged-Refines sys arg false s.libraries))
        (λ ps. run_options_logged-Refines argv opts _))
  run_options_logged-Refines argv (help ∷ opts) s =
      log_each-Refines level_error (usage cmd_flags (program_of sys shell argv)) (pure-Refines _)
  run_options_logged-Refines argv (unrecognized ∷ opts) s = say-Refines tt (pure-Refines _)
  run_options_logged-Refines argv (missing_argument ∷ opts) s = say-Refines tt (pure-Refines _)

  abbrev LoggedParser : Type 0
  LoggedParser = List Bytes → ArgState → Logged (Loop (Bool × ArgState))

  abbrev Parser : Type 0
  Parser = List Bytes → ArgState → Throws (Loop (Bool × ArgState))

  run_operand_logged-Refines :
      (logged : LoggedParser) (parse : Parser) (program arg : Bytes) (s : ArgState)
      → ((argv : List Bytes) (t : ArgState) → Refines AnyMessage (logged argv t) (parse argv t))
      → Refines AnyMessage
          (run_operand_logged sys shell texts logged program arg s)
          (run_operand sys shell parse program arg s)
  unfolding run_operand_logged run_operand
  run_operand_logged-Refines logged parse program arg s h =
      if-Refines (not (bytes_eq arg (codes "-"))) (say-Refines tt (pure-Refines _)) (
        say-Refines tt (
          list-Refines s.stdin (say-Refines tt (pure-Refines _)) (λ line lines. say-Refines tt (
            log_each-Refines level_trace (argv_of_line line)
              (list-Refines (argv_of_line line) (pure-Refines _) (λ w words. h _ _))))))

  run_operands_logged-Refines :
      (logged : LoggedParser) (parse : Parser) (program : Bytes) (args : List Bytes) (s : ArgState)
      → ((argv : List Bytes) (t : ArgState) → Refines AnyMessage (logged argv t) (parse argv t))
      → Refines AnyMessage
          (run_operands_logged sys shell texts logged program args s)
          (run_operands sys shell parse program args s)
  unfolding run_operands_logged run_operands
  run_operands_logged-Refines logged parse program [] s h = pure-Refines _
  run_operands_logged-Refines logged parse program (arg ∷ args) s h =
      bind-Refines (run_operand_logged-Refines logged parse program arg s h) (λ r.
        loop-Refines r (pure-Refines _) (λ b.
          if-Refines (not b.0) (pure-Refines _)
            (run_operands_logged-Refines logged parse program args b.1 h)))

  pub parse_args_helper_logged-Refines :
      (fuel : ℕ) (argv : List Bytes) (s : ArgState)
      → Refines AnyMessage
          (parse_args_helper_logged sys shell texts fuel argv s)
          (parse_args_helper sys shell fuel argv s)
  unfolding parse_args_helper_logged parse_args_helper
  parse_args_helper_logged-Refines zero argv s = pure-Refines _
  parse_args_helper_logged-Refines (suc fuel) argv s =
      bind-Refines (run_options_logged-Refines argv (shell.getopt_long argv).options s) (λ r.
        if-Refines (not r.0) (pure-Refines _) (
          run_operands_logged-Refines (parse_args_helper_logged sys shell texts fuel)
            (parse_args_helper sys shell fuel) (program_of sys shell argv)
            (shell.getopt_long argv).operands r.1 (parse_args_helper_logged-Refines fuel)))

  finish_logged-Refines :
      (r : Loop (Bool × ArgState))
      → Refines AnyMessage (finish_logged sys shell texts r) (finish sys shell r)
  unfolding finish_logged finish
  finish_logged-Refines out_of_fuel = pure-Refines _
  finish_logged-Refines (answer (false, s)) = pure-Refines _
  finish_logged-Refines (answer (true, s)) = if-Refines s.arg_search_path_seen (pure-Refines _) (
      say-Refines tt (
        bind-Refines
          (any-Refines (get_default_search_path_logged-Refines sys shell.linker texts s.paths))
          (λ r.
            subst (Refines AnyMessage _) (if_returned r.0 _ none)
              (if-Refines r.0 (pure-Refines _) (say-Refines tt (pure-Refines none))))))

  pub parse_args_logged-Refines :
      (argv stdin : List Bytes)
      → Refines AnyMessage
          (parse_args_logged sys shell texts argv stdin)
          (parse_args sys shell argv stdin)
  unfolding parse_args_logged parse_args
  parse_args_logged-Refines argv stdin =
      bind-Refines
        (parse_args_helper_logged-Refines (suc (length stdin)) argv (start sys shell stdin))
        finish_logged-Refines
