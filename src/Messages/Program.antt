-- ===== src/Messages/Program.antt =====
-- The search program of src/search as a whole, with its messages.
use cuda_autocompat.Base.{ℕ, ◌≡◌, ◌∙◌, ◌⊎◌, Bool, Option, none, some, List, [], ◌∷◌, All, Bytes}
use cuda_autocompat.FilePath.{FilePath}
use cuda_autocompat.Search.{returned, System}
use cuda_autocompat.Search.Main.{Exit}
use cuda_autocompat.ParseArgs.CommandLine.{Shell, parse_args}
use cuda_autocompat.Startup.{search_program}
use cuda_autocompat.Messages.{Logged, ◌>>=◌, ◌>>◌, Texts, write_messages}
use cuda_autocompat.Messages.Main.{banner, main_logged, settings_after}
use cuda_autocompat.Messages.Args.{ArgTexts}
use cuda_autocompat.Messages.CommandLine.{parse_args_logged}
use cuda_autocompat.Messages.Refine.{Refines, AnyMessage, IsVerbose, any-Refines, bind-Refines}
use cuda_autocompat.Messages.Refine.Main.{main_logged-Refines}
use cuda_autocompat.Messages.Refine.CommandLine.{parse_args_logged-Refines}
use cuda_autocompat.Messages.Errors.CommandLine.{parse_args_logged-Told}
use cuda_autocompat.Messages.Post.{holds-Post, bind-All}
use cuda_autocompat.Messages.Silent.{
  banner-Refines, banner-IsVerbose, init_logging-silent, write_messages-IsVerbose,
}

-- `parse_args`, and what `main` does with its result.
unfoldable pub parse_and_search :
    System → Shell → Texts → ArgTexts → List Bytes → List Bytes → Logged Exit
parse_and_search sys shell texts arg_texts argv stdin = do
  args ← parse_args_logged sys shell arg_texts argv stdin
  main_logged sys texts args

-- All of `main`, with the value of CUDA_AUTOCOMPAT_VERBOSE.
unfoldable pub program_logged :
    System → Shell → Texts → ArgTexts → Option Bytes → List Bytes → List Bytes → Logged Exit
program_logged sys shell texts arg_texts value argv stdin = do
  banner sys texts value
  parse_and_search sys shell texts arg_texts argv stdin

module _ (sys : System) (shell : Shell) (texts : Texts) (arg_texts : ArgTexts) where
  -- Whatever CUDA_AUTOCOMPAT_VERBOSE, the texts and the answers of the system are, the program with its
  -- messages has the same status and output, or throws in the same runs, as the program that the
  -- other modules describe.
  pub program_logged-search_program :
      (value : Option Bytes) (argv stdin : List Bytes)
      → (program_logged sys shell texts arg_texts value argv stdin).1
        ≡ search_program sys shell argv stdin
  unfolding program_logged parse_and_search search_program
  program_logged-search_program value argv stdin =
      let refines : Refines AnyMessage (program_logged sys shell texts arg_texts value argv stdin)
          _ =
        bind-Refines (banner-Refines sys texts value) (λ u.
          bind-Refines (parse_args_logged-Refines sys shell arg_texts argv stdin)
            (λ args. any-Refines (main_logged-Refines sys texts args))) in
      refines.erased

  parsed-IsVerbose :
      (argv stdin : List Bytes) (args : List FilePath × List FilePath)
      → parse_args sys shell argv stdin ≡ returned (some args)
      → All IsVerbose (parse_and_search sys shell texts arg_texts argv stdin).0
  unfolding parse_and_search
  parsed-IsVerbose argv stdin args e =
      let accepted : (parse_args_logged sys shell arg_texts argv stdin).1 ≡ returned (some args) =
        (parse_args_logged-Refines sys shell arg_texts argv stdin).erased ∙ e in
      bind-All IsVerbose (parse_args_logged sys shell arg_texts argv stdin) (main_logged sys texts)
        (holds-Post (parse_args_logged-Told sys shell arg_texts argv stdin) accepted)
        (λ o f. (main_logged-Refines sys texts o).messages)

  -- With CUDA_AUTOCOMPAT_VERBOSE not set, or set to 0, a run whose command line is accepted writes
  -- nothing to std::cerr, in a build with or without NDEBUG, whatever its result is.
  pub program_logged-silent :
      (ndebug : Bool) (clock : ℕ → Bytes) (pid : ℕ) (value : Option Bytes) (argv stdin : List Bytes)
      (args : List FilePath × List FilePath)
      → (value ≡ none) ⊎ (value ≡ some (b'0' ∷ []))
      → parse_args sys shell argv stdin ≡ returned (some args)
      → write_messages ndebug
          (settings_after value pid)
          clock
          (program_logged sys shell texts arg_texts value argv stdin).0
        ≡ []
  unfolding program_logged
  program_logged-silent ndebug clock pid value argv stdin args h e =
      write_messages-IsVerbose ndebug (settings_after value pid) clock _
        (init_logging-silent value h)
        (bind-All IsVerbose (banner sys texts value)
          (λ u. parse_and_search sys shell texts arg_texts argv stdin)
          (banner-IsVerbose sys texts value h) (λ u f. parsed-IsVerbose argv stdin args e))
