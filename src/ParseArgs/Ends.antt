-- ===== src/ParseArgs/Ends.antt =====
-- The recursion of `parse_args_helper` of search/parse_args.cxx, and what it does to both vectors.
use cuda_autocompat.Base.{
  ℕ, zero, suc, ◌-◌, ◌<◌, ◌≤◌, ◌≢◌, subst, Bool, true, false, not, List, [], ◌∷◌, if◌then◌else◌,
  length, arith, Bytes, codes, bytes_eq,
}
use cuda_autocompat.Search.{Throws, returned, thrown, ◌>>=◌, System}
use cuda_autocompat.Search.Scan.{Loop, answer, out_of_fuel}
use cuda_autocompat.ParseArgs.{parse_paths}
use cuda_autocompat.ParseArgs.Distinct.{Good, Keeps_bind, parse_paths-Good}
use cuda_autocompat.ParseArgs.CommandLine.{
  CmdOption, search_path, libs, help, unrecognized, missing_argument, Shell, ArgState, argv_of_line,
  run_options, run_operand, run_operands, parse_args_helper, start, program_of,
}

module _ (sys : System) (shell : Shell) where
  -- Both vectors are good, and at most `n` lines are left to read.
  pub record Fine (n : ℕ) (s : ArgState) : Type 0 where
    pub good_paths : Good sys true s.paths
    pub good_libraries : Good sys false s.libraries
    pub left : length s.stdin ≤ n

  abbrev FineResult : ℕ → Throws (Bool × ArgState) → Type 0
  FineResult n thrown = Unit
  FineResult n (returned (b, s)) = Fine n s

  abbrev pub FineLoop : ℕ → Throws (Loop (Bool × ArgState)) → Type 0
  FineLoop n thrown = Unit
  FineLoop n (returned out_of_fuel) = ⊥
  FineLoop n (returned (answer (b, s))) = Fine n s

  run_options-Fine :
      (n : ℕ) (opts : List CmdOption) (s : ArgState)
      → Fine n s
      → FineResult n (run_options sys shell opts s)
  unfolding run_options
  run_options-Fine n [] s f = f
  run_options-Fine n (search_path arg ∷ opts) s f =
      Keeps_bind sys true (FineResult n) (parse_paths sys arg true s.paths)
        (λ ps. run_options sys shell opts (record s { paths = ps; arg_search_path_seen = true })) tt
        (parse_paths-Good sys true arg s.paths f.good_paths)
        λ ps g.
          run_options-Fine n opts (record s { paths = ps; arg_search_path_seen = true })
            (record { good_paths = g; good_libraries = f.good_libraries; left = f.left })
  run_options-Fine n (libs arg ∷ opts) s f =
      Keeps_bind sys false (FineResult n) (parse_paths sys arg false s.libraries)
        (λ ps. run_options sys shell opts (record s { libraries = ps })) tt
        (parse_paths-Good sys false arg s.libraries f.good_libraries)
        λ ps g.
          run_options-Fine n opts (record s { libraries = ps })
            (record { good_paths = f.good_paths; good_libraries = g; left = f.left })
  run_options-Fine n (help ∷ opts) s f = f
  run_options-Fine n (unrecognized ∷ opts) s f = f
  run_options-Fine n (missing_argument ∷ opts) s f = f

  -- A parser that ends on every input with fewer lines than `fuel`.
  abbrev pub Ends : ℕ → (List Bytes → ArgState → Throws (Loop (Bool × ArgState))) → Type 0
  Ends fuel parse =
      (argv : List Bytes) (s : ArgState) (n : ℕ) → n < fuel → Fine n s → FineLoop n (parse argv s)

  FineLoop-weaken :
      (m n : ℕ) (r : Throws (Loop (Bool × ArgState))) → m ≤ n → FineLoop m r → FineLoop n r
  FineLoop-weaken m n thrown h f = tt
  FineLoop-weaken m n (returned out_of_fuel) h f = f
  FineLoop-weaken m n (returned (answer (b, s))) h f = record {
    good_paths = f.good_paths;
    good_libraries = f.good_libraries;
    left = omega (arith, h, f.left);
  }

  run_operand-Fine :
      (fuel n : ℕ) (parse : List Bytes → ArgState → Throws (Loop (Bool × ArgState)))
      (program arg : Bytes) (s : ArgState)
      → Ends fuel parse
      → n < suc fuel
      → Fine n s
      → FineLoop n (run_operand sys shell parse program arg s)
  unfolding run_operand
  run_operand-Fine fuel n parse program arg s ends h f =
      go (not (bytes_eq arg (codes "-"))) s.stdin f.left
    where
      rest :
          (line : Bytes) (lines : List Bytes) (words : List Bytes)
          → length (line ∷ lines) ≤ n
          → FineLoop n (elim words [
            | [] ↦ returned (answer (false, record s { stdin = lines }))
            | w ∷ ws ↦ parse (program ∷ w ∷ ws) (record s { stdin = lines })
          ])
      rest line lines [] l = record {
        good_paths = f.good_paths;
        good_libraries = f.good_libraries;
        left = omega (arith, l);
      }
      rest line lines (w ∷ ws) l =
          FineLoop-weaken (n - 1) n (parse (program ∷ w ∷ ws) (record s { stdin = lines }))
            (omega arith)
            (ends (program ∷ w ∷ ws) (record s { stdin = lines }) (n - 1) (omega (arith, h, l))
              (record {
                good_paths = f.good_paths;
                good_libraries = f.good_libraries;
                left = omega (arith, l);
              }))

      go :
          (b : Bool) (lines : List Bytes)
          → length lines ≤ n
          → FineLoop n (
              if b then returned (answer (false, s)) else elim lines [
                | [] ↦ returned (answer (false, s))
                | line ∷ lines ↦ elim (argv_of_line line) [
                  | [] ↦ returned (answer (false, record s { stdin = lines }))
                  | w ∷ words ↦ parse (program ∷ w ∷ words) (record s { stdin = lines })
                ]
              ])
      go true lines l = f
      go false [] l = f
      go false (line ∷ lines) l = rest line lines (argv_of_line line) l

  run_operands-Fine :
      (fuel n : ℕ) (parse : List Bytes → ArgState → Throws (Loop (Bool × ArgState)))
      (program : Bytes) (args : List Bytes) (s : ArgState)
      → Ends fuel parse
      → n < suc fuel
      → Fine n s
      → FineLoop n (run_operands sys shell parse program args s)
  unfolding run_operands
  run_operands-Fine fuel n parse program [] s ends h f = f
  run_operands-Fine fuel n parse program (arg ∷ args) s ends h f =
      go (run_operand sys shell parse program arg s)
        (run_operand-Fine fuel n parse program arg s ends h f)
        (λ t g. run_operands-Fine fuel n parse program args t ends h g)
    where
      go :
          (m : Throws (Loop (Bool × ArgState)))
          → FineLoop n m
          → ((t : ArgState) → Fine n t → FineLoop n (run_operands sys shell parse program args t))
          → FineLoop n (
              m >>= λ r. elim r [
                | out_of_fuel ↦ returned out_of_fuel
                | answer (ok, t) ↦
                    if not ok
                    then returned (answer (false, t))
                    else run_operands sys shell parse program args t
              ])
      go thrown k next = tt
      go (returned out_of_fuel) k next = k
      go (returned (answer (true, t))) k next = next t k
      go (returned (answer (false, t))) k next = k

  pub parse_args_helper-Ends : (fuel : ℕ) → Ends fuel (parse_args_helper sys shell fuel)
  unfolding parse_args_helper
  parse_args_helper-Ends zero argv s n h f = absurd (omega (arith, h))
  parse_args_helper-Ends (suc fuel) argv s n h f =
      go (run_options sys shell (shell.getopt_long argv).options s)
        (run_options-Fine n (shell.getopt_long argv).options s f)
        (λ t g.
          run_operands-Fine fuel n (parse_args_helper sys shell fuel) (program_of sys shell argv)
            (shell.getopt_long argv).operands t (parse_args_helper-Ends fuel) h g)
    where
      go :
          (m : Throws (Bool × ArgState))
          → FineResult n m
          → ((t : ArgState)
              → Fine n t
              → FineLoop n (
                  run_operands sys shell
                    (parse_args_helper sys shell fuel)
                    (program_of sys shell argv)
                    (shell.getopt_long argv).operands
                    t))
          → FineLoop n (
              m >>= λ r.
              if not r.0
              then returned (answer (false, r.1))
              else run_operands sys shell
                  (parse_args_helper sys shell fuel)
                  (program_of sys shell argv)
                  (shell.getopt_long argv).operands
                  r.1)
      go thrown k next = tt
      go (returned (true, t)) k next = next t k
      go (returned (false, t)) k next = k

  pub start-Fine : (stdin : List Bytes) → Fine (length stdin) (start sys shell stdin)
  start-Fine stdin = record {
    good_paths = record { distinct = tt; cached = tt; kinds = tt };
    good_libraries = record { distinct = tt; cached = tt; kinds = tt };
    left = omega arith;
  }

  -- The recursion of `parse_args_helper` ends: fuel for one call more than there are lines on the standard input is
  -- enough, whatever getopt_long finds in the arguments.
  pub parse_args_helper-out_of_fuel :
      (argv stdin : List Bytes)
      → parse_args_helper sys shell (suc (length stdin)) argv (start sys shell stdin)
        ≢ returned out_of_fuel
  parse_args_helper-out_of_fuel argv stdin e = subst (FineLoop (length stdin)) e (
      parse_args_helper-Ends (suc (length stdin)) argv (start sys shell stdin) (length stdin)
        (omega arith) (start-Fine stdin))
