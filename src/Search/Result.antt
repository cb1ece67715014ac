-- ===== src/Search/Result.antt =====
-- What `main` of search/main.cxx finds, over all the candidates of the searches.
use cuda_autocompat.Base.{
  ◌≡◌, ◌≢◌, refl, sym, subst, ap, ◌∙◌, ◌⊎◌, inl, inr, Option, none, some, List, [], ◌∷◌, ◌++◌,
  append-nil, append_assoc, arith,
}
use cuda_autocompat.FilePath.{FilePath}
use cuda_autocompat.Search.{returned, System, directory, SearchResult, SearchState, init}
use cuda_autocompat.Search.Rating.{best_from, first_rated}
use cuda_autocompat.Search.First.{first_rated-skip, best_from-skip, first_rated-found}
use cuda_autocompat.Search.Companions.{
  HasKind, HasCompanions, is_directory-HasKind, check_companions-HasCompanions,
}
use cuda_autocompat.Search.Runs.{
  finished, tried, Runs-append, Runs-keep, Consistent, Runs-best_from,
}
use cuda_autocompat.Search.Candidates.{bind_inv}
use cuda_autocompat.Search.Usable.{Usable, update_libcuda-Usable}
use cuda_autocompat.Search.Libraries.{drivers, EndsEarly, ends_early}
use cuda_autocompat.Search.Main.{Exit, exit_success, exit_failure, search_all, main}
use cuda_autocompat.Search.Tried.{
  later_candidates, all_candidates, search_all-Runs, search_all-tried,
}

abbrev pub exit_of : Option SearchResult → Exit
exit_of none = record { status = exit_failure; output = [] }
exit_of (some best) = record { status = exit_success; output = best.driver_dir }

abbrev pub or_else : Option SearchResult → Option SearchResult → Option SearchResult
or_else none b = b
or_else (some r) b = some r

or_else-found : (a b : Option SearchResult) → a ≢ none → or_else a b ≡ a
or_else-found none b f = absurd (f refl)
or_else-found (some r) b f = refl

module _ (sys : System) where
  Consistent-append :
      (done ps qs : List FilePath) → Consistent sys done (ps ++ qs) → Consistent sys done ps
  Consistent-append done [] qs c = tt
  Consistent-append done (p ∷ ps) qs (a, c) = (a, Consistent-append (p ∷ done) ps qs c)

  main-exit_of :
      (paths libs : List FilePath) (e : Exit)
      → main sys (some (paths, libs)) ≡ returned e
      → (t : SearchState) × (search_all sys paths libs ≡ returned t) × (e ≡ exit_of t.found)
  unfolding main
  main-exit_of paths libs e h =
      let (t, k, l) =
        bind_inv (search_all sys paths libs)
          (λ s. elim s.found [
            | some best ↦ returned (record { status = exit_success; output = best.driver_dir })
            | none ↦ returned (record { status = exit_failure; output = [] })
          ])
          e h in
      (t, k, go t.found l)
    where
      go :
          (b : Option SearchResult)
          → elim b [
            | some best ↦ returned (record { status = exit_success; output = best.driver_dir })
            | none ↦ returned (record { status = exit_failure; output = [] })
          ]
            ≡ returned e
          → e ≡ exit_of b
      go none k = ground arith
      go (some best) k = ground arith

  search_all-Usable :
      (paths libs : List FilePath) (t : SearchState)
      → search_all sys paths libs ≡ returned t
      → Usable sys t.found
  search_all-Usable paths libs t h =
      let (ps, r) = search_all-tried sys paths libs t h in
      Runs-keep sys {P = λ s. Usable sys s.found} (update_libcuda-Usable sys) r tt

  -- If `main` returns success, then its output is a directory, and the three libraries
  -- libnvidia-nvvm.so.4, libnvidia-ptxjitcompiler.so.1 and libcudadebugger.so.1 are regular files
  -- in it: no condition on the caches is needed.
  pub main-HasCompanions :
      (paths libs : List FilePath) (e : Exit)
      → main sys (some (paths, libs)) ≡ returned e
      → e.status ≡ exit_success
      → HasKind sys directory e.output × HasCompanions sys e.output
  main-HasCompanions paths libs e h ok =
      let (t, k, same) = main-exit_of paths libs e h in
      go t.found same (search_all-Usable paths libs t k)
    where
      go :
          (b : Option SearchResult)
          → e ≡ exit_of b
          → Usable sys b
          → HasKind sys directory e.output × HasCompanions sys e.output
      go none same u = absurd (ground arith)
      go (some best) same u = rw same (
        is_directory-HasKind sys best.driver_dir u.0,
        check_companions-HasCompanions sys best.driver_dir u.1,
      )

  -- `main` writes nothing and fails, or it succeeds.
  pub main-exit_failure :
      (paths libs : List FilePath) (e : Exit)
      → main sys (some (paths, libs)) ≡ returned e
      → (e ≡ exit_of none) ⊎ (e.status ≡ exit_success)
  main-exit_failure paths libs e h =
      let (t, k, same) = main-exit_of paths libs e h in go t.found same
    where
      go :
          (b : Option SearchResult) → e ≡ exit_of b → (e ≡ exit_of none) ⊎ (e.status ≡ exit_success)
      go none same = inl same
      go (some best) same = inr (ap (λ x. x.status) same)

  -- The result of a run that ends early is that of the first driver that can be used.
  EndsEarly-first_rated :
      (libs : List FilePath) (t : SearchState)
      → Consistent sys [] (drivers libs)
      → EndsEarly sys (drivers libs) init t
      → (t.found ≡ first_rated sys (drivers libs)) × (t.found ≢ none)
  EndsEarly-first_rated libs t c (ends_early pre post lib u j p r n l f) =
      let whole : Consistent sys [] (pre ++ lib ∷ post) =
        subst (λ x. Consistent sys [] x) (sym p) c in
      let part : Consistent sys [] ((pre ++ lib ∷ []) ++ post) =
        subst (λ x. Consistent sys [] x) (sym (append_assoc pre (lib ∷ []) post)) whole in
      let before = Runs-best_from sys r (Consistent-append [] pre (lib ∷ post) whole) in
      let last =
        Runs-best_from sys (Runs-append sys r (tried j l finished))
          (Consistent-append [] (pre ++ lib ∷ []) post part) in
      (
        first_rated-found sys pre post lib t.found (sym before ∙ n) last f ∙ ap (first_rated sys) p,
        f,
      )

  first_rated-none :
      (libs : List FilePath)
      → best_from sys none (drivers libs) ≡ none
      → first_rated sys (drivers libs) ≡ none
  unfolding first_rated
  first_rated-none libs h =
      subst (λ x. first_rated sys x ≡ none) (append-nil (drivers libs))
        (first_rated-skip sys (drivers libs) [] h)

  -- If each candidate agrees with those before it, in the sense of the caches, and `main` returns,
  -- then it writes the directory of the first driver among the libraries of the command line that
  -- can be used; if there is none, then the directory of the best of the candidates of the other
  -- four searches, the first of those with the newest version; and if there is none of those either,
  -- it fails.
  pub main-first_rated :
      (paths libs : List FilePath) (e : Exit)
      → Consistent sys [] (all_candidates sys paths libs)
      → main sys (some (paths, libs)) ≡ returned e
      → e
        ≡ exit_of (
            or_else
              (first_rated sys (drivers libs))
              (best_from sys none (later_candidates sys paths libs)))
  main-first_rated paths libs e c h =
      let (t, k, same) = main-exit_of paths libs e h in
      let first : Consistent sys [] (drivers libs) =
        Consistent-append [] (drivers libs) (later_candidates sys paths libs) c in
      elim (search_all-Runs sys paths libs t k) [
        | inl early ↦
            let (found, some_found) = EndsEarly-first_rated libs t first early in
            same
            ∙ ap exit_of (
                sym (or_else-found t.found _ some_found)
                ∙ ap (λ b. or_else b (best_from sys none (later_candidates sys paths libs))) found)
        | inr o ↦
            let skipped = sym (Runs-best_from sys o.skipped first) ∙ o.nothing in
            let unrated : first_rated sys (drivers libs) ≡ none = first_rated-none libs skipped in
            same
            ∙ ap exit_of (
                Runs-best_from sys (Runs-append sys o.skipped o.later) c
                ∙ best_from-skip sys (drivers libs) (later_candidates sys paths libs) skipped
                ∙ ap (λ b. or_else b (best_from sys none (later_candidates sys paths libs)))
                    (sym unrated))
      ]
