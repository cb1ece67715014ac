-- ===== src/Search/Newest.antt =====
-- When `main` of search/main.cxx returns, and which driver it names.
use cuda_autocompat.Base.{
  ◌≡◌, ◌≢◌, sym, subst, ap, ◌∙◌, ◌⊎◌, inl, inr, Option, none, some, List, [], ◌++◌, All, arith,
}
use cuda_autocompat.Base.Int.{ℤ}
use cuda_autocompat.FilePath.{FilePath, parent_path}
use cuda_autocompat.Search.{returned, thrown, ◌>>=◌, System, SearchResult, SearchState, init}
use cuda_autocompat.Search.Rating.{rating, best_from, first_rated, Covers}
use cuda_autocompat.Search.Caches.{Any}
use cuda_autocompat.Search.Maximum.{From, best_from-Covers}
use cuda_autocompat.Search.Scan.{
  search_libraries_libcuda, search_libraries_libcudart, search_cuda_home, search_paths_libcudart,
  search_paths_libcuda,
}
use cuda_autocompat.Search.Runs.{Consistent}
use cuda_autocompat.Search.Libraries.{drivers}
use cuda_autocompat.Search.Main.{Exit, exit_success, exit_failure, search_all, main}
use cuda_autocompat.Search.Tried.{all_candidates, later_candidates}
use cuda_autocompat.Search.Result.{exit_of, or_else, main-first_rated}
use cuda_autocompat.Search.Total.{
  Returns, Returns-bind, Accessible, search_libraries_libcuda-Returns,
  search_libraries_libcudart-Returns, search_cuda_home-Returns, search_paths_libcudart-Returns,
  search_paths_libcuda-Returns,
}

module _ (sys : System) where
  search_all-Returns :
      Accessible sys → (paths libs : List FilePath) → Returns (search_all sys paths libs)
  unfolding search_all
  search_all-Returns acc paths libs =
      Returns-bind (search_libraries_libcuda sys libs init)
        (λ s. elim s.found [
          | some best ↦ returned s
          | none ↦ search_libraries_libcudart sys libs s >>= λ s1. search_cuda_home sys s1 >>= λ s2.
              search_paths_libcudart sys paths s2 >>= search_paths_libcuda sys paths
        ])
        (search_libraries_libcuda-Returns sys acc libs init) λ s. go s s.found
    where
      go :
          (s : SearchState) (b : Option SearchResult)
          → Returns (elim b [
            | some best ↦ returned s
            | none ↦ search_libraries_libcudart sys libs s >>= λ s1.
                search_cuda_home sys s1 >>= λ s2.
                search_paths_libcudart sys paths s2 >>= search_paths_libcuda sys paths
          ])
      go s (some best) = tt
      go s none =
          Returns-bind (search_libraries_libcudart sys libs s)
            (λ s1. search_cuda_home sys s1 >>= λ s2.
              search_paths_libcudart sys paths s2 >>= search_paths_libcuda sys paths)
            (search_libraries_libcudart-Returns sys acc libs s)
            λ s1.
              Returns-bind (search_cuda_home sys s1)
                (λ s2. search_paths_libcudart sys paths s2 >>= search_paths_libcuda sys paths)
                (search_cuda_home-Returns sys acc s1)
                λ s2.
                  Returns-bind (search_paths_libcudart sys paths s2)
                    (search_paths_libcuda sys paths)
                    (search_paths_libcudart-Returns sys acc paths s2)
                    (search_paths_libcuda-Returns sys acc paths)

  main-Returns :
      Accessible sys → (args : Option (List FilePath × List FilePath)) → Returns (main sys args)
  unfolding main
  main-Returns acc none = tt
  main-Returns acc (some (paths, libs)) =
      Returns-bind (search_all sys paths libs)
        (λ s. elim s.found [
          | some best ↦ returned (record { status = exit_success; output = best.driver_dir })
          | none ↦ returned (record { status = exit_failure; output = [] })
        ])
        (search_all-Returns acc paths libs) λ s. go s.found
    where
      go :
          (b : Option SearchResult)
          → Returns {A = Exit} (elim b [
            | some best ↦ returned (record { status = exit_success; output = best.driver_dir })
            | none ↦ returned (record { status = exit_failure; output = [] })
          ])
      go none = tt
      go (some best) = tt

  -- If no file gives an error other than that it is missing, and the real path of every path can
  -- be found, then `main` returns, whatever the command line gave.
  pub main-thrown :
      Accessible sys → (args : Option (List FilePath × List FilePath)) → main sys args ≢ thrown
  main-thrown acc args h = subst Returns h (main-Returns acc args)

  -- The result is a candidate, and no candidate is newer.
  abbrev pub IsNewest : List FilePath → ℤ → FilePath → Type 0
  IsNewest ps ver dir =
      Any (λ q. (rating sys q ≡ returned (some ver)) × (dir ≡ parent_path q)) ps
      × All (λ q. Covers (some (record { version = ver; driver_dir = dir })) (rating sys q)) ps

  -- No candidate has a version that counts.
  abbrev pub NoneRated : List FilePath → Type 0
  NoneRated ps = All (λ q. Covers none (rating sys q)) ps

  newest :
      (ps : List FilePath) (e : Exit) (b : Option SearchResult)
      → e ≡ exit_of b
      → (b ≡ none) ⊎ Any (From sys b) ps
      → All (λ q. Covers b (rating sys q)) ps
      → ((e.status ≡ exit_success) × ((ver : ℤ) × IsNewest ps ver e.output))
        ⊎ ((e.status ≡ exit_failure) × NoneRated ps)
  newest ps e none same from all = inr (ap (λ x. x.status) same, all)
  newest ps e (some r) same (inl n) all = absurd (ground arith)
  newest ps e (some r) same (inr from) all =
      inl (ap (λ x. x.status) same, (r.version, rw same (from, all)))

  -- If no library of the command line is a driver, each candidate agrees with those before it in the
  -- sense of the caches, and `main` returns, then it returns success on the directory of a candidate
  -- that can be used, and no candidate that can be used is newer; or it fails, and no candidate can
  -- be used.
  pub main-IsNewest :
      (paths libs : List FilePath) (e : Exit)
      → drivers libs ≡ []
      → Consistent sys [] (all_candidates sys paths libs)
      → main sys (some (paths, libs)) ≡ returned e
      → ((e.status ≡ exit_success)
          × ((ver : ℤ) × IsNewest (all_candidates sys paths libs) ver e.output))
        ⊎ ((e.status ≡ exit_failure) × NoneRated (all_candidates sys paths libs))
  unfolding first_rated
  main-IsNewest paths libs e d c h =
      let facts = best_from-Covers sys (all_candidates sys paths libs) in
      let all : best_from sys none (later_candidates sys paths libs)
          ≡ best_from sys none (all_candidates sys paths libs) =
        ap (λ ds. best_from sys none (ds ++ later_candidates sys paths libs)) (sym d) in
      let none_first : first_rated sys (drivers libs) ≡ none = ap (first_rated sys) d in
      let same = main-first_rated sys paths libs e c h in
      newest (all_candidates sys paths libs) e (best_from sys none (all_candidates sys paths libs))
        (same
          ∙ ap (λ b. exit_of (or_else b (best_from sys none (later_candidates sys paths libs))))
              none_first
          ∙ ap exit_of all)
        facts.0 facts.1
