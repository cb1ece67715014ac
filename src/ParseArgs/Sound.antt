-- ===== src/ParseArgs/Sound.antt =====
-- What `parse_args` of search/parse_args.cxx returns.
use cuda_autocompat.Base.{
  ℕ, suc, ◌≡◌, subst, Bool, true, false, Option, none, some, List, [], ◌∷◌, if◌then◌else◌, All,
  length, arith, Bytes,
}
use cuda_autocompat.FilePath.{FilePath}
use cuda_autocompat.Search.{Throws, returned, thrown, ◌>>=◌, System}
use cuda_autocompat.Search.Scan.{Loop, answer, out_of_fuel}
use cuda_autocompat.ParseArgs.{Paths, status_is, add_path, add_directories}
use cuda_autocompat.ParseArgs.DefaultPath.{query_linker, get_default_search_path}
use cuda_autocompat.ParseArgs.Distinct.{Distinct, Good, Keeps, Keeps_bind, add_path-Good}
use cuda_autocompat.ParseArgs.CommandLine.{
  Shell, ArgState, parse_args_helper, finish, parse_args, start,
}
use cuda_autocompat.ParseArgs.Ends.{FineLoop, parse_args_helper-Ends, start-Fine}

module _ (sys : System) (shell : Shell) where
  add_directories-Good :
      (ds : List Bytes) (ps : Paths) → Good sys true ps → Keeps sys true (add_directories sys ds ps)
  unfolding add_directories
  add_directories-Good [] ps g = g
  add_directories-Good (d ∷ ds) ps g =
      Keeps_bind sys true (Keeps sys true) (add_path sys d true ps) (add_directories sys ds) tt
        (add_path-Good sys true d ps g) (add_directories-Good ds)

  abbrev Defaults : Throws (Bool × Paths) → Type 0
  Defaults thrown = Unit
  Defaults (returned (ok, ps)) = Good sys true ps

  get_default_search_path-Good :
      (ps : Paths) → Good sys true ps → Defaults (get_default_search_path sys shell.linker ps)
  unfolding get_default_search_path
  get_default_search_path-Good ps g = go (query_linker shell.linker).directories
    where
      go :
          (names : Option (List Bytes))
          → Defaults (elim names [
            | none ↦ returned (false, ps)
            | some names ↦ add_directories sys names ps >>= λ ps'. returned (true, ps')
          ])
      go none = g
      go (some names) =
          Keeps_bind sys true Defaults (add_directories sys names ps) (λ ps'. returned (true, ps'))
            tt (add_directories-Good names ps g) λ ps' g'. g'

  -- Two lists of files: directories, and regular files, and none of them twice.
  abbrev pub Searchable : List FilePath → List FilePath → Type 0
  Searchable paths libraries =
      (Distinct paths × All (λ p. status_is true (sys.stat p) ≡ returned true) paths)
      × (Distinct libraries × All (λ p. status_is false (sys.stat p) ≡ returned true) libraries)

  abbrev SearchableResult : Throws (Option (List FilePath × List FilePath)) → Type 0
  SearchableResult thrown = Unit
  SearchableResult (returned none) = Unit
  SearchableResult (returned (some (paths, libraries))) = Searchable paths libraries

  finish-Searchable :
      (n : ℕ) (m : Throws (Loop (Bool × ArgState)))
      → FineLoop sys shell n m
      → SearchableResult (m >>= finish sys shell)
  unfolding finish
  finish-Searchable n thrown f = tt
  finish-Searchable n (returned out_of_fuel) f = absurd f
  finish-Searchable n (returned (answer (false, s))) f = tt
  finish-Searchable n (returned (answer (true, s))) f =
      go s.arg_search_path_seen (get_default_search_path sys shell.linker s.paths)
        (get_default_search_path-Good s.paths f.good_paths)
    where
      libraries :
          Distinct s.libraries.out
          × All (λ p. status_is false (sys.stat p) ≡ returned true) s.libraries.out
      libraries = (f.good_libraries.distinct, f.good_libraries.kinds)

      go :
          (seen : Bool) (m : Throws (Bool × Paths))
          → Defaults m
          → SearchableResult (
              if seen
              then returned (some (s.paths.out, s.libraries.out))
              else m >>= λ r. returned (if r.0 then some (r.1.out, s.libraries.out) else none))
      go true m g = ((f.good_paths.distinct, f.good_paths.kinds), libraries)
      go false thrown g = tt
      go false (returned (false, ps)) g = tt
      go false (returned (true, ps)) g = ((g.distinct, g.kinds), libraries)

  -- If `parse_args` returns two lists, then the search paths are directories and the libraries are
  -- regular files, and no list has two equal paths.
  pub parse_args-Searchable :
      (argv stdin : List Bytes) (paths libraries : List FilePath)
      → parse_args sys shell argv stdin ≡ returned (some (paths, libraries))
      → Searchable paths libraries
  unfolding parse_args
  parse_args-Searchable argv stdin paths libraries h = subst SearchableResult h (
      finish-Searchable (length stdin)
        (parse_args_helper sys shell (suc (length stdin)) argv (start sys shell stdin))
        (parse_args_helper-Ends sys shell (suc (length stdin)) argv (start sys shell stdin)
          (length stdin) (omega arith) (start-Fine sys shell stdin)))
