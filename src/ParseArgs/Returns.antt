-- ===== src/ParseArgs/Returns.antt =====
-- When `parse_args` of search/parse_args.cxx returns: no status of a file is thrown.
use cuda_autocompat.Base.{
  ℕ, zero, suc, refl, ◌≢◌, Bool, true, false, not, Option, none, some, List, [], ◌∷◌, if◌then◌else◌,
  length, Bytes, codes, bytes_eq,
}
use cuda_autocompat.FilePath.{FilePath}
use cuda_autocompat.Search.{
  Throws, returned, ◌>>=◌, System, StatResult, stat_ok, not_found, stat_error, contains_path,
}
use cuda_autocompat.Search.Scan.{Loop, answer, out_of_fuel}
use cuda_autocompat.Search.Total.{Returns, Returns-bind, Returns-if}
use cuda_autocompat.ParseArgs.{
  Paths, status_exists, status_is, add_new, add_unless_seen, add_path, find_colon, parse_fields,
  parse_paths, add_directories,
}
use cuda_autocompat.ParseArgs.DefaultPath.{query_linker, get_default_search_path}
use cuda_autocompat.ParseArgs.CommandLine.{
  CmdOption, search_path, libs, help, unrecognized, missing_argument, Shell, ArgState, argv_of_line,
  run_options, run_operand, run_operands, parse_args_helper, program_of, start, finish, parse_args,
}

status_exists-Returns : (r : StatResult) → r ≢ stat_error → Returns (status_exists r)
status_exists-Returns (stat_ok st) h = tt
status_exists-Returns not_found h = tt
status_exists-Returns stat_error h = h refl

status_is-Returns :
    (dir_mode : Bool) (r : StatResult) → r ≢ stat_error → Returns (status_is dir_mode r)
status_is-Returns dir_mode (stat_ok st) h = tt
status_is-Returns dir_mode not_found h = tt
status_is-Returns dir_mode stat_error h = h refl

module _ (sys : System) (no_error : (p : FilePath) → sys.stat p ≢ stat_error) where
  add_new-Returns :
      (p : FilePath) (dir_mode : Bool) (ps : Paths) → Returns (add_new sys p dir_mode ps)
  unfolding add_new
  add_new-Returns p dir_mode ps =
      Returns-bind (status_exists (sys.stat p)) _ (status_exists-Returns (sys.stat p) (no_error p))
        λ there. Returns-if (not there) (returned (record ps { cache = p ∷ ps.cache })) _ tt (
          Returns-bind (status_is dir_mode (sys.stat p)) _
            (status_is-Returns dir_mode (sys.stat p) (no_error p)) λ fits. tt)

  add_unless_seen-Returns :
      (p : FilePath) (dir_mode : Bool) (ps : Paths) → Returns (add_unless_seen sys p dir_mode ps)
  unfolding add_unless_seen
  add_unless_seen-Returns p dir_mode ps =
      Returns-if (contains_path p ps.cache) (returned ps) (add_new sys p dir_mode ps) tt
        (add_new-Returns p dir_mode ps)

  add_path-Returns :
      (src : Bytes) (dir_mode : Bool) (ps : Paths) → Returns (add_path sys src dir_mode ps)
  unfolding add_path
  add_path-Returns [] dir_mode ps =
      Returns-if (not dir_mode) (returned ps) (add_unless_seen sys (codes ".") dir_mode ps) tt
        (add_unless_seen-Returns (codes ".") dir_mode ps)
  add_path-Returns (c ∷ src) dir_mode ps = add_unless_seen-Returns (c ∷ src) dir_mode ps

  parse_fields-Returns :
      (fuel : ℕ) (src : Bytes) (dir_mode : Bool) (ps : Paths)
      → Returns (parse_fields sys fuel src dir_mode ps)
  unfolding parse_fields
  parse_fields-Returns zero src dir_mode ps = tt
  parse_fields-Returns (suc fuel) src dir_mode ps =
      go (find_colon src) λ rest ps'. parse_fields-Returns fuel rest dir_mode ps'
    where
      go :
          (r : Option (Bytes × Bytes))
          → ((rest : Bytes) (ps' : Paths) → Returns (parse_fields sys fuel rest dir_mode ps'))
          → Returns (elim r [
            | none ↦ add_path sys src dir_mode ps >>= λ ps'. returned (answer ps')
            | some (field, rest) ↦
                add_path sys field dir_mode ps >>= λ ps'. parse_fields sys fuel rest dir_mode ps'
          ])
      go none next =
          Returns-bind (add_path sys src dir_mode ps) (λ ps'. returned (answer ps'))
            (add_path-Returns src dir_mode ps) λ ps'. tt
      go (some (field, rest)) next =
          Returns-bind (add_path sys field dir_mode ps)
            (λ ps'. parse_fields sys fuel rest dir_mode ps') (add_path-Returns field dir_mode ps)
            (next rest)

  parse_paths-Returns :
      (src : Bytes) (dir_mode : Bool) (ps : Paths) → Returns (parse_paths sys src dir_mode ps)
  unfolding parse_paths
  parse_paths-Returns [] dir_mode ps = tt
  parse_paths-Returns (c ∷ src) dir_mode ps =
      Returns-bind (parse_fields sys (suc (length (c ∷ src))) (c ∷ src) dir_mode ps) _
        (parse_fields-Returns (suc (length (c ∷ src))) (c ∷ src) dir_mode ps) λ r. tt

  add_directories-Returns : (ds : List Bytes) (ps : Paths) → Returns (add_directories sys ds ps)
  unfolding add_directories
  add_directories-Returns [] ps = tt
  add_directories-Returns (d ∷ ds) ps =
      Returns-bind (add_path sys d true ps) (add_directories sys ds) (add_path-Returns d true ps)
        (add_directories-Returns ds)

  module _ (shell : Shell) where
    get_default_search_path-Returns :
        (ps : Paths) → Returns (get_default_search_path sys shell.linker ps)
    unfolding get_default_search_path
    get_default_search_path-Returns ps = go (query_linker shell.linker).directories
      where
        go :
            (names : Option (List Bytes))
            → Returns {A = Bool × Paths} (elim names [
              | none ↦ returned (false, ps)
              | some names ↦ add_directories sys names ps >>= λ ps'. returned (true, ps')
            ])
        go none = tt
        go (some names) =
            Returns-bind (add_directories sys names ps) (λ ps'. returned (true, ps'))
              (add_directories-Returns names ps) λ ps'. tt

    run_options-Returns :
        (opts : List CmdOption) (s : ArgState) → Returns (run_options sys shell opts s)
    unfolding run_options
    run_options-Returns [] s = tt
    run_options-Returns (search_path arg ∷ opts) s =
        Returns-bind (parse_paths sys arg true s.paths) _ (parse_paths-Returns arg true s.paths)
          λ ps. run_options-Returns opts (record s { paths = ps; arg_search_path_seen = true })
    run_options-Returns (libs arg ∷ opts) s =
        Returns-bind (parse_paths sys arg false s.libraries) _
          (parse_paths-Returns arg false s.libraries)
          λ ps. run_options-Returns opts (record s { libraries = ps })
    run_options-Returns (help ∷ opts) s = tt
    run_options-Returns (unrecognized ∷ opts) s = tt
    run_options-Returns (missing_argument ∷ opts) s = tt

    abbrev AllReturn : (List Bytes → ArgState → Throws (Loop (Bool × ArgState))) → Type 0
    AllReturn parse = (argv : List Bytes) (s : ArgState) → Returns (parse argv s)

    run_operand-Returns :
        (parse : List Bytes → ArgState → Throws (Loop (Bool × ArgState))) (program arg : Bytes)
        (s : ArgState)
        → AllReturn parse
        → Returns (run_operand sys shell parse program arg s)
    unfolding run_operand
    run_operand-Returns parse program arg s all =
        Returns-if (not (bytes_eq arg (codes "-"))) (returned (answer (false, s))) (next s.stdin) tt
          (next-Returns s.stdin)
      where
        words_of : List Bytes → List Bytes → Throws (Loop (Bool × ArgState))
        words_of lines [] = returned (answer (false, record s { stdin = lines }))
        words_of lines (w ∷ words) = parse (program ∷ w ∷ words) (record s { stdin = lines })

        words_of-Returns : (lines words : List Bytes) → Returns (words_of lines words)
        words_of-Returns lines [] = tt
        words_of-Returns lines (w ∷ words) = all (program ∷ w ∷ words) (record s { stdin = lines })

        next : List Bytes → Throws (Loop (Bool × ArgState))
        next [] = returned (answer (false, s))
        next (line ∷ lines) = words_of lines (argv_of_line line)

        next-Returns : (lines : List Bytes) → Returns (next lines)
        next-Returns [] = tt
        next-Returns (line ∷ lines) = words_of-Returns lines (argv_of_line line)

    run_operands-Returns :
        (parse : List Bytes → ArgState → Throws (Loop (Bool × ArgState))) (program : Bytes)
        (args : List Bytes) (s : ArgState)
        → AllReturn parse
        → Returns (run_operands sys shell parse program args s)
    unfolding run_operands
    run_operands-Returns parse program [] s all = tt
    run_operands-Returns parse program (arg ∷ args) s all =
        Returns-bind (run_operand sys shell parse program arg s) _
          (run_operand-Returns parse program arg s all)
          (go λ t. run_operands-Returns parse program args t all)
      where
        go :
            ((t : ArgState) → Returns (run_operands sys shell parse program args t))
            → (r : Loop (Bool × ArgState))
            → Returns {A = Loop (Bool × ArgState)} (elim r [
              | out_of_fuel ↦ returned out_of_fuel
              | answer (ok, t) ↦
                  if not ok
                  then returned (answer (false, t))
                  else run_operands sys shell parse program args t
            ])
        go next out_of_fuel = tt
        go next (answer (true, t)) = next t
        go next (answer (false, t)) = tt

    parse_args_helper-Returns : (fuel : ℕ) → AllReturn (parse_args_helper sys shell fuel)
    unfolding parse_args_helper
    parse_args_helper-Returns zero argv s = tt
    parse_args_helper-Returns (suc fuel) argv s =
        Returns-bind (run_options sys shell (shell.getopt_long argv).options s) _
          (run_options-Returns (shell.getopt_long argv).options s)
          λ r. Returns-if (not r.0) (returned (answer (false, r.1))) _ tt (
            run_operands-Returns (parse_args_helper sys shell fuel) (program_of sys shell argv)
              (shell.getopt_long argv).operands r.1 (parse_args_helper-Returns fuel))

    finish-Returns : (r : Loop (Bool × ArgState)) → Returns (finish sys shell r)
    unfolding finish
    finish-Returns out_of_fuel = tt
    finish-Returns (answer (false, s)) = tt
    finish-Returns (answer (true, s)) =
        Returns-if s.arg_search_path_seen (returned (some (s.paths.out, s.libraries.out))) _ tt (
          Returns-bind (get_default_search_path sys shell.linker s.paths) _
            (get_default_search_path-Returns s.paths) λ r. tt)

    pub parse_args-Returns : (argv stdin : List Bytes) → Returns (parse_args sys shell argv stdin)
    unfolding parse_args
    parse_args-Returns argv stdin =
        Returns-bind (parse_args_helper sys shell (suc (length stdin)) argv (start sys shell stdin))
          (finish sys shell)
          (parse_args_helper-Returns (suc (length stdin)) argv (start sys shell stdin))
          finish-Returns
