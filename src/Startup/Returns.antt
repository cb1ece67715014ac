-- ===== src/Startup/Returns.antt =====
-- When the search program comes to its end, and with which status.
use cuda_autocompat.Base.{
  ◌≡◌, refl, ◌⊎◌, inl, inr, Bool, true, false, Option, none, some, List, suc, length, Bytes, arith,
}
use cuda_autocompat.FilePath.{FilePath}
use cuda_autocompat.Search.{Throws, returned, thrown, System, directory}
use cuda_autocompat.Search.Scan.{Loop, answer, out_of_fuel}
use cuda_autocompat.Search.Total.{Returns, Returns-bind, Returns-of, Accessible}
use cuda_autocompat.Search.Candidates.{bind_inv}
use cuda_autocompat.Search.Companions.{HasKind, HasCompanions}
use cuda_autocompat.Search.Main.{Exit, exit_success, main}
use cuda_autocompat.Search.Result.{exit_of, main-HasCompanions, main-exit_failure}
use cuda_autocompat.Search.Newest.{main-thrown}
use cuda_autocompat.ParseArgs.CommandLine.{
  Shell, ArgState, parse_args, parse_args_helper, start, finish,
}
use cuda_autocompat.ParseArgs.Ends.{parse_args_helper-out_of_fuel}
use cuda_autocompat.ParseArgs.Returns.{parse_args-Returns}
use cuda_autocompat.Startup.{search_program}

exit_of_Returns : (m : Throws Exit) → Returns m → (e : Exit) × (m ≡ returned e)
exit_of_Returns (returned e) h = (e, refl)
exit_of_Returns thrown h = absurd h

module _ (sys : System) (shell : Shell) (argv stdin : List Bytes) where
  -- What the recursion over the standard input gives, with fuel for one call more than it has
  -- lines.
  abbrev pub helper_result : Throws (Loop (Bool × ArgState))
  helper_result = parse_args_helper sys shell (suc (length stdin)) argv (start sys shell stdin)

  -- The program refuses or finds nothing, and then prints nothing; or the command line is good, and
  -- it prints a directory with a driver's libraries.
  abbrev pub EndsWith : Bool → Exit → Type 0
  EndsWith ok e =
      (e ≡ exit_of none)
      ⊎ ((ok ≡ true)
          × (e.status ≡ exit_success)
          × HasKind sys directory e.output
          × HasCompanions sys e.output)

  main-EndsWith :
      (args : Option (List FilePath × List FilePath)) (e : Exit)
      → main sys args ≡ returned e
      → EndsWith true e
  unfolding main
  main-EndsWith none e h = inl (ground arith)
  main-EndsWith (some (paths, libs)) e h = elim (main-exit_failure sys paths libs e h) [
    | inl failed ↦ inl failed
    | inr ok ↦
        let companions = main-HasCompanions sys paths libs e h ok in
        inr (refl, ok, companions.0, companions.1)
  ]

  search_program-EndsWith :
      (e : Exit) (r : Loop (Bool × ArgState)) (args : Option (List FilePath × List FilePath))
      → helper_result ≡ returned r
      → finish sys shell r ≡ returned args
      → main sys args ≡ returned e
      → (ok : Bool) × (s : ArgState) × (helper_result ≡ returned (answer (ok, s))) × EndsWith ok e
  unfolding finish main
  search_program-EndsWith e out_of_fuel args p f h =
      absurd (parse_args_helper-out_of_fuel sys shell argv stdin p)
  search_program-EndsWith e (answer (false, s)) none p f h = (false, s, p, inl (ground arith))
  search_program-EndsWith e (answer (false, s)) (some args) p f h = absurd (ground arith)
  search_program-EndsWith e (answer (true, s)) args p f h = (true, s, p, main-EndsWith args e h)

  -- If no file gives an error other than that it is missing, and the real path of every path can be
  -- found, then the search program comes to its end, for every command line, every standard input,
  -- and whatever getopt_long and the dynamic linker answer. The calls of `parse_args_helper` for the
  -- lines of the standard input end: one call for each line and one for the command line are
  -- enough. The program then fails and prints nothing; or the arguments were accepted, and it
  -- succeeds and prints a directory that has the three companion libraries as regular files.
  pub search_program-Exit :
      Accessible sys
      → (e : Exit) × (search_program sys shell argv stdin ≡ returned e)
        × ((ok : Bool) × (s : ArgState) × (helper_result ≡ returned (answer (ok, s)))
            × EndsWith ok e)
  unfolding search_program parse_args
  search_program-Exit acc =
      let (e, h) = exit_of_Returns (search_program sys shell argv stdin) (
        Returns-bind (parse_args sys shell argv stdin) (main sys)
          (parse_args-Returns sys acc.0 shell argv stdin)
          λ args. Returns-of (main sys args) (main-thrown sys acc args)) in
      let (args, p, m) = bind_inv (parse_args sys shell argv stdin) (main sys) e h in
      let (r, q, f) = bind_inv helper_result (finish sys shell) args p in
      (e, h, search_program-EndsWith e r args q f m)
