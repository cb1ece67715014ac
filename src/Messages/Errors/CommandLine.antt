-- ===== src/Messages/Errors/CommandLine.antt =====
-- The error messages of `parse_args` of search/parse_args.cxx, and what the function returns.
use cuda_autocompat.Base.{
  ℕ, zero, suc, ◌≡◌, refl, sym, subst, append_assoc, append-nil, ap, ◌∙◌, Bool, true, false, not,
  ◌||◌, Option, none, some, List, [], ◌∷◌, ◌++◌, map, All, All-append, length, Bytes, codes,
  bytes_eq, arith,
}
use cuda_autocompat.FilePath.{FilePath}
use cuda_autocompat.Search.{returned, System}
use cuda_autocompat.Search.Scan.{Loop, answer, out_of_fuel}
use cuda_autocompat.Search.Main.{level_trace}
use cuda_autocompat.ParseArgs.Flags.{cmd_flags, flag_line, get_long_opt_max_len, usage}
use cuda_autocompat.ParseArgs.CommandLine.{
  CmdOption, search_path, libs, help, unrecognized, missing_argument, Shell, ArgState, argv_of_line,
  program_of, start,
}
use cuda_autocompat.Logging.{level_error, level_info, level_debug}
use cuda_autocompat.Messages.{Message, Logged}
use cuda_autocompat.Messages.Args.{ArgTexts}
use cuda_autocompat.Messages.CommandLine.{
  log_each, run_options_logged, run_words, run_operand_logged, run_operands_logged,
  parse_args_helper_logged, finish_logged, parse_args_logged,
}
use cuda_autocompat.Messages.Refine.{IsVerbose, AnyMessage}
use cuda_autocompat.Messages.Refine.Args.{
  parse_paths_logged-Refines, get_default_search_path_logged-Refines,
}
use cuda_autocompat.Messages.Post.{
  Post, pure-Post, bind-Post, say-Post, if-Post, weaken-Post, list-Post, result-Post, messages-Post,
  holds-Post,
}
use cuda_autocompat.ParseArgs.Ends.{parse_args_helper-out_of_fuel}
use cuda_autocompat.Messages.Refine.CommandLine.{parse_args_helper_logged-Refines}
use cuda_autocompat.Messages.Errors.{
  has_error, any_blank, is_none, note, Honest, HonestLoop, append-Honest, append-HonestLoop,
  log_each-Post, after-Honest, after_loop-Honest, has_error-between, or_right, any_blank-blank,
  any_blank-words, has_error-IsVerbose,
}

module _ (sys : System) (shell : Shell) (texts : ArgTexts) where
  run_options_logged-Honest :
      (argv : List Bytes) (opts : List CmdOption) (s : ArgState)
      → Post (Honest s.stdin) (run_options_logged sys shell texts argv opts s)
  unfolding run_options_logged log_each usage has_error
  run_options_logged-Honest argv [] s = pure-Post (tt, λ b. b)
  run_options_logged-Honest argv (search_path arg ∷ opts) s = say-Post (
      bind-Post (messages-Post (parse_paths_logged-Refines sys arg true s.paths)) (λ ms ps h.
        weaken-Post
          (run_options_logged-Honest argv opts
            (record s { paths = ps; arg_search_path_seen = true }))
          (λ ns r d.
            append-Honest s.stdin s.stdin (note level_info (codes "Adding search paths") ∷ ms) ns r
              (refl, h) (λ b. b) d)))
  run_options_logged-Honest argv (libs arg ∷ opts) s = say-Post (
      bind-Post (messages-Post (parse_paths_logged-Refines sys arg false s.libraries)) (λ ms ps h.
        weaken-Post (run_options_logged-Honest argv opts (record s { libraries = ps })) (λ ns r d.
          append-Honest s.stdin s.stdin (note level_info (codes "Adding search libs") ∷ ms) ns r
            (refl, h) (λ b. b) d)))
  run_options_logged-Honest argv (help ∷ opts) s = say-Post (
      log_each-Post AnyMessage level_error
        (map (flag_line (get_long_opt_max_len cmd_flags)) cmd_flags) (λ text. tt)
        (λ ns h. pure-Post refl))
  run_options_logged-Honest argv (unrecognized ∷ opts) s = say-Post (pure-Post refl)
  run_options_logged-Honest argv (missing_argument ∷ opts) s = say-Post (pure-Post refl)

  abbrev Parser : Type 0
  Parser = List Bytes → ArgState → Logged (Loop (Bool × ArgState))

  abbrev HonestParser : Parser → Type 0
  HonestParser parse = (argv : List Bytes) (t : ArgState) → Post (HonestLoop t.stdin) (parse argv t)

  run_words-Honest :
      (parse : Parser) (program line : Bytes) (lines : List Bytes) (s : ArgState)
      (ms : List Message)
      → HonestParser parse
      → s.stdin ≡ line ∷ lines
      → All IsVerbose ms
      → Post
          (λ ns r. HonestLoop s.stdin (ms ++ ns) r)
          (run_words sys shell texts parse program (argv_of_line line) (record s { stdin = lines }))
  run_words-Honest parse program line lines s ms h e v =
      log_each-Post IsVerbose level_trace (argv_of_line line) (λ text. refl)
        (λ ns w.
          list-Post (argv_of_line line)
            (λ f. pure-Post (
              or_right (has_error (ms ++ (ns ++ []))) (any_blank s.stdin)
                (ap any_blank e ∙ any_blank-blank line lines f)))
            (λ word words f.
              weaken-Post (h (program ∷ word ∷ words) (record s { stdin = lines })) (λ os r d.
                subst (λ t. HonestLoop s.stdin t r) (append_assoc ms ns os)
                  (append-HonestLoop s.stdin lines (ms ++ ns) os r (All-append IsVerbose ms ns v w)
                    (λ b. ap any_blank e ∙ any_blank-words line word words lines f ∙ b) d))))

  run_operand_logged-Honest :
      (parse : Parser) (program arg : Bytes) (s : ArgState)
      → HonestParser parse
      → Post (HonestLoop s.stdin) (run_operand_logged sys shell texts parse program arg s)
  unfolding run_operand_logged has_error
  run_operand_logged-Honest parse program arg s h =
      if-Post (not (bytes_eq arg (codes "-"))) (λ e. say-Post (pure-Post refl))
        (λ e. say-Post (
          list-Post s.stdin (λ f. say-Post (pure-Post refl))
            (λ line lines f. say-Post (
              run_words-Honest parse program line lines s
                (note level_info (codes "Reading additional arguments from stdin")
                  ∷ note level_debug line
                  ∷ [])
                h f (refl, (refl, tt))))))

  run_operands_logged-Honest :
      (parse : Parser) (program : Bytes) (args : List Bytes) (s : ArgState)
      → HonestParser parse
      → Post (HonestLoop s.stdin) (run_operands_logged sys shell texts parse program args s)
  unfolding run_operands_logged
  run_operands_logged-Honest parse program [] s h = pure-Post (tt, λ b. b)
  run_operands_logged-Honest parse program (arg ∷ args) s h =
      bind-Post (run_operand_logged-Honest parse program arg s h) (λ ms r d.
        after_loop-Honest s.stdin ms r
          (λ b. run_operands_logged sys shell texts parse program args b.1) d
          (λ b. run_operands_logged-Honest parse program args b.1 h))

  parse_args_helper_logged-Honest :
      (fuel : ℕ) → HonestParser (parse_args_helper_logged sys shell texts fuel)
  unfolding parse_args_helper_logged
  parse_args_helper_logged-Honest zero argv s = pure-Post tt
  parse_args_helper_logged-Honest (suc fuel) argv s =
      bind-Post (run_options_logged-Honest argv (shell.getopt_long argv).options s) (λ ms r d.
        after-Honest s.stdin ms r
          (run_operands_logged sys shell texts (parse_args_helper_logged sys shell texts fuel)
            (program_of sys shell argv) (shell.getopt_long argv).operands r.1)
          d
          (run_operands_logged-Honest (parse_args_helper_logged sys shell texts fuel)
            (program_of sys shell argv) (shell.getopt_long argv).operands r.1
            (parse_args_helper_logged-Honest fuel)))

  -- What `parse_args` gives.
  abbrev pub Told : List Bytes → List Message → Option (List FilePath × List FilePath) → Type 0
  Told stdin ms none = (has_error ms || any_blank stdin) ≡ true
  Told stdin ms (some args) = All IsVerbose ms

  finish_logged-Told :
      (stdin : List Bytes) (ms : List Message) (b : Bool × ArgState)
      → Honest stdin ms b
      → Post (λ ns o. Told stdin (ms ++ ns) o) (finish_logged sys shell texts (answer b))
  unfolding finish_logged
  finish_logged-Told stdin ms (false, s) d =
      pure-Post (subst (λ x. (has_error x || any_blank stdin) ≡ true) (sym (append-nil ms)) d)
  finish_logged-Told stdin ms (true, s) (v, l) =
      if-Post s.arg_search_path_seen
        (λ e. pure-Post (subst (All IsVerbose) (sym (append-nil ms)) v))
        (λ e. say-Post (
          bind-Post
            (messages-Post (get_default_search_path_logged-Refines sys shell.linker texts s.paths))
            (λ ns r h.
              if-Post r.0
                (λ f.
                  pure-Post (All-append IsVerbose ms _ v (refl, All-append IsVerbose ns [] h tt)))
                (λ f. say-Post (pure-Post (rw (has_error-between ms ns _ _) refl))))))

  after_helper-Told :
      (argv stdin : List Bytes) (ms : List Message) (r : Loop (Bool × ArgState))
      → HonestLoop stdin ms r
      → (parse_args_helper_logged sys shell texts
          (suc (length stdin))
          argv
          (start sys shell stdin)).1
        ≡ returned r
      → Post (λ ns o. Told stdin (ms ++ ns) o) (finish_logged sys shell texts r)
  after_helper-Told argv stdin ms out_of_fuel d e = absurd (
      parse_args_helper-out_of_fuel sys shell argv stdin (
        sym (
          (parse_args_helper_logged-Refines sys shell texts (suc (length stdin)) argv
            (start sys shell stdin)).erased)
        ∙ e))
  after_helper-Told argv stdin ms (answer b) d e = finish_logged-Told stdin ms b d

  told :
      (stdin : List Bytes) (ms : List Message) (o : Option (List FilePath × List FilePath))
      → any_blank stdin ≡ false
      → Told stdin ms o
      → has_error ms ≡ is_none o
  told stdin ms none b h = ground arith
  told stdin ms (some args) b h = has_error-IsVerbose ms h

  pub parse_args_logged-Told :
      (argv stdin : List Bytes) → Post (Told stdin) (parse_args_logged sys shell texts argv stdin)
  unfolding parse_args_logged
  parse_args_logged-Told argv stdin =
      bind-Post
        (result-Post
          (parse_args_helper_logged-Honest (suc (length stdin)) argv (start sys shell stdin)))
        (λ ms r d. after_helper-Told argv stdin ms r d.0 d.1)

  -- If no line of the standard input is blank, a run of `parse_args` that returns logs an error
  -- exactly if it fails.
  pub parse_args_logged-has_error :
      (argv stdin : List Bytes) (o : Option (List FilePath × List FilePath))
      → any_blank stdin ≡ false
      → (parse_args_logged sys shell texts argv stdin).1 ≡ returned o
      → has_error (parse_args_logged sys shell texts argv stdin).0 ≡ is_none o
  parse_args_logged-has_error argv stdin o b e =
      told stdin _ o b (holds-Post (parse_args_logged-Told argv stdin) e)
