-- ===== src/Messages/Outcome.antt =====
-- What the messages of the search program say of its exit.
use cuda_autocompat.Base.{
  ◌≡◌, refl, subst, ap, sym, ◌∙◌, ◌⊎◌, inl, inr, true, ◌||◌, Option, none, some, List, [], ◌∷◌,
  ◌++◌, append_assoc, append-nil, Bytes, codes,
}
use cuda_autocompat.Base.Int.{ℤ}
use cuda_autocompat.FilePath.{FilePath}
use cuda_autocompat.Search.{returned, System, SearchState}
use cuda_autocompat.Search.Main.{Exit, exit_success, exit_failure, parse_libcuda_version}
use cuda_autocompat.ParseArgs.CommandLine.{Shell}
use cuda_autocompat.Logging.{level_info}
use cuda_autocompat.Messages.{Message, Texts}
use cuda_autocompat.Messages.Decimal.{format_int}
use cuda_autocompat.Messages.Main.{banner, report, search_all_logged, main_logged}
use cuda_autocompat.Messages.Args.{ArgTexts}
use cuda_autocompat.Messages.Errors.{has_error, any_blank, has_error-append, or_weaken}
use cuda_autocompat.Messages.Errors.CommandLine.{Told, parse_args_logged-Told}
use cuda_autocompat.Messages.Program.{parse_and_search, program_logged}
use cuda_autocompat.Messages.Post.{
  Post, pure-Post, bind-Post, say-Post, option-Post, any-Post, weaken-Post, holds-Post,
}

abbrev found_library : FilePath → Message
found_library dir = record {
  level = level_info;
  text = codes "Found library: " ++ (dir ++ codes "/libcuda.so.1");
}

abbrev found_version : ℤ → Message
found_version ver = record {
  level = level_info;
  text =
      let (major, minor, patch) = parse_libcuda_version ver in
      codes "Found version: "
      ++ (format_int major ++ (codes "." ++ (format_int minor ++ (codes "." ++ format_int patch))));
}

abbrev not_found : Message
not_found = record { level = level_info; text = codes "No usable library found" }

abbrev search_complete : Message
search_complete = record { level = level_info; text = codes "Search complete" }

abbrev searching : Message
searching = record { level = level_info; text = codes "Searching for best available libcuda.so.1" }

-- The last messages name this directory, and a version.
pub record EndsFound (ms : List Message) (dir : FilePath) : Type 0 where
  pub before : List Message
  pub ver : ℤ
  pub eq : ms ≡ before ++ found_library dir ∷ found_version ver ∷ []

-- The last message is that nothing was found.
pub record EndsNotFound (ms : List Message) : Type 0 where
  pub before : List Message
  pub eq : ms ≡ before ++ not_found ∷ []

abbrev Succeeds : List Message → Exit → Type 0
Succeeds ms e = (e.status ≡ exit_success) × EndsFound ms e.output

abbrev Fails : Exit → Type 0
Fails e = (e.status ≡ exit_failure) × (e.output ≡ [])

-- What the end of the search says.
abbrev Searched : List Message → Exit → Type 0
Searched ms e = Succeeds ms e ⊎ (Fails e × EndsNotFound ms)

append-Searched : (ms ns : List Message) (e : Exit) → Searched ns e → Searched (ms ++ ns) e
append-Searched ms ns e (inl (ok, f)) = inl (
  ok,
  record {
    before = ms ++ f.before;
    ver = f.ver;
    eq =
        ap (λ t. ms ++ t) f.eq
        ∙ sym (append_assoc ms f.before (found_library e.output ∷ found_version f.ver ∷ []));
  },
)
append-Searched ms ns e (inr (fails, n)) = inr (
  fails,
  record {
    before = ms ++ n.before;
    eq = ap (λ t. ms ++ t) n.eq ∙ sym (append_assoc ms n.before (not_found ∷ []));
  },
)

module _ (sys : System) (texts : Texts) where
  report-Searched : (s : SearchState) → Post Searched (report sys texts s)
  report-Searched s = say-Post (
      option-Post s.found
        (λ e.
          say-Post
            (pure-Post (inr ((refl, refl), record { before = search_complete ∷ []; eq = refl }))))
        (λ best e. say-Post (
          say-Post (
            pure-Post (
              inl
                (refl, record { before = search_complete ∷ []; ver = best.version; eq = refl }))))))

  main_logged-Searched :
      (args : List FilePath × List FilePath) → Post Searched (main_logged sys texts (some args))
  unfolding main_logged
  main_logged-Searched args = say-Post (
      bind-Post (any-Post (search_all_logged sys texts args.0 args.1))
        (λ ms s u. weaken-Post (report-Searched s) (append-Searched (searching ∷ ms))))

-- What all messages of a run say of its exit, for these lines of standard input.
abbrev pub Outcome : List Bytes → List Message → Exit → Type 0
Outcome stdin ms e =
    Succeeds ms e ⊎ (Fails e × (EndsNotFound ms ⊎ ((has_error ms || any_blank stdin) ≡ true)))

Searched-Outcome :
    (stdin : List Bytes) (ms : List Message) (e : Exit) → Searched ms e → Outcome stdin ms e
Searched-Outcome stdin ms e (inl ok) = inl ok
Searched-Outcome stdin ms e (inr (fails, n)) = inr (fails, inl n)

append-Outcome :
    (stdin : List Bytes) (ms ns : List Message) (e : Exit)
    → Outcome stdin ns e
    → Outcome stdin (ms ++ ns) e
append-Outcome stdin ms ns e (inl ok) =
    Searched-Outcome stdin (ms ++ ns) e (append-Searched ms ns e (inl ok))
append-Outcome stdin ms ns e (inr (fails, inl n)) =
    Searched-Outcome stdin (ms ++ ns) e (append-Searched ms ns e (inr (fails, n)))
append-Outcome stdin ms ns e (inr (fails, inr h)) = inr (
  fails,
  inr (
      rw (has_error-append ms ns)
        (or_weaken (has_error ms) (has_error ns) (any_blank stdin) (any_blank stdin) h (λ b. b))),
)

module _ (sys : System) (shell : Shell) (texts : Texts) (arg_texts : ArgTexts) where
  searched-Outcome :
      (stdin : List Bytes) (ms : List Message) (o : Option (List FilePath × List FilePath))
      → Told sys shell arg_texts stdin ms o
      → Post (λ ns e. Outcome stdin (ms ++ ns) e) (main_logged sys texts o)
  unfolding main_logged
  searched-Outcome stdin ms none h = pure-Post (
      inr (
        (refl, refl),
        inr (subst (λ t. (has_error t || any_blank stdin) ≡ true) (sym (append-nil ms)) h),
      ))
  searched-Outcome stdin ms (some args) h =
      weaken-Post (main_logged-Searched sys texts args)
        (λ ns e d. Searched-Outcome stdin (ms ++ ns) e (append-Searched ms ns e d))

  parse_and_search-Outcome :
      (argv stdin : List Bytes)
      → Post (Outcome stdin) (parse_and_search sys shell texts arg_texts argv stdin)
  unfolding parse_and_search
  parse_and_search-Outcome argv stdin =
      bind-Post (parse_args_logged-Told sys shell arg_texts argv stdin)
        (λ ms o h. searched-Outcome stdin ms o h)

  -- What the messages of a run say agrees with its exit, if it returns: with status 0 the last two
  -- messages name the directory that was printed, and a version. Otherwise nothing was printed, and the last message is
  -- that no library was found, or there is an error among the messages, or a line of the standard
  -- input is blank.
  pub program_logged-Outcome :
      (value : Option Bytes) (argv stdin : List Bytes) (e : Exit)
      → (program_logged sys shell texts arg_texts value argv stdin).1 ≡ returned e
      → Outcome stdin (program_logged sys shell texts arg_texts value argv stdin).0 e
  unfolding program_logged
  program_logged-Outcome value argv stdin e h =
      holds-Post {E = Outcome stdin}
        (bind-Post (any-Post (banner sys texts value))
          (λ ms u t. weaken-Post (parse_and_search-Outcome argv stdin) (append-Outcome stdin ms)))
        h
