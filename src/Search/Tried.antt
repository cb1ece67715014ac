-- ===== src/Search/Tried.antt =====
-- The calls of `update_libcuda` of all searches of search/search.cxx, as `main` makes them.
use cuda_autocompat.Base.{
  ◌≡◌, refl, subst, ◌⊎◌, inl, inr, Option, none, some, List, [], ◌∷◌, ◌++◌, arith,
}
use cuda_autocompat.FilePath.{FilePath}
use cuda_autocompat.Search.{returned, ◌>>=◌, System, SearchResult, SearchState, init}
use cuda_autocompat.Search.Scan.{
  search_libraries_libcuda, search_libraries_libcudart, search_cuda_home, search_paths_libcudart,
  search_paths_libcuda,
}
use cuda_autocompat.Search.Runs.{Runs, finished, tried, Runs-append}
use cuda_autocompat.Search.Candidates.{
  bind_inv, candidates_libcuda, candidates_cuda_home, candidates_libcudart, candidates_libraries,
  search_paths_libcuda-Runs, search_cuda_home-Runs, search_paths_libcudart-Runs,
  search_libraries_libcudart-Runs,
}
use cuda_autocompat.Search.Libraries.{
  drivers, EndsEarly, ends_early, Skips, search_libraries_libcuda-Runs,
}
use cuda_autocompat.Search.Main.{search_all}

module _ (sys : System) where
  -- The candidates of the last four searches, in their order.
  abbrev pub later_candidates : List FilePath → List FilePath → List FilePath
  later_candidates paths libs =
      candidates_libraries sys libs
      ++ (candidates_cuda_home sys
          ++ (candidates_libcudart sys paths ++ candidates_libcuda sys paths))

  abbrev pub all_candidates : List FilePath → List FilePath → List FilePath
  all_candidates paths libs = drivers libs ++ later_candidates paths libs

  later-Runs :
      (paths libs : List FilePath) (s t : SearchState)
      → (do
        s1 ← search_libraries_libcudart sys libs s
        s2 ← search_cuda_home sys s1
        s3 ← search_paths_libcudart sys paths s2
        search_paths_libcuda sys paths s3)
        ≡ returned t
      → Runs sys (later_candidates paths libs) s t
  later-Runs paths libs s t h =
      let (s1, e1, h1) =
        bind_inv (search_libraries_libcudart sys libs s)
          (λ s1. search_cuda_home sys s1 >>= λ s2.
            search_paths_libcudart sys paths s2 >>= search_paths_libcuda sys paths)
          t h in
      let (s2, e2, h2) =
        bind_inv (search_cuda_home sys s1)
          (λ s2. search_paths_libcudart sys paths s2 >>= search_paths_libcuda sys paths) t h1 in
      let (s3, e3, h3) =
        bind_inv (search_paths_libcudart sys paths s2) (search_paths_libcuda sys paths) t h2 in
      Runs-append sys (search_libraries_libcudart-Runs sys libs s s1 e1) (
        Runs-append sys (search_cuda_home-Runs sys s1 s2 e2) (
          Runs-append sys (search_paths_libcudart-Runs sys paths s2 s3 e3)
            (search_paths_libcuda-Runs sys paths s3 t h3)))

  -- The drivers are skipped, and then all other candidates are tried.
  pub record Offered (paths libs : List FilePath) (t : SearchState) : Type 0 where
    pub middle : SearchState
    pub skipped : Runs sys (drivers libs) init middle
    pub nothing : middle.found ≡ none
    pub later : Runs sys (later_candidates paths libs) middle t

  pub search_all-Runs :
      (paths libs : List FilePath) (t : SearchState)
      → search_all sys paths libs ≡ returned t
      → EndsEarly sys (drivers libs) init t ⊎ Offered paths libs t
  unfolding search_all
  search_all-Runs paths libs t h =
      let (s, e, k) =
        bind_inv (search_libraries_libcuda sys libs init)
          (λ s. elim s.found [
            | some best ↦ returned s
            | none ↦ search_libraries_libcudart sys libs s >>= λ s1.
                search_cuda_home sys s1 >>= λ s2.
                search_paths_libcudart sys paths s2 >>= search_paths_libcuda sys paths
          ])
          t h in
      go s s.found refl (search_libraries_libcuda-Runs sys libs init s e) k
    where
      go :
          (s : SearchState) (b : Option SearchResult)
          → s.found ≡ b
          → EndsEarly sys (drivers libs) init s ⊎ Skips sys (drivers libs) init s
          → elim b [
            | some best ↦ returned s
            | none ↦ search_libraries_libcudart sys libs s >>= λ s1.
                search_cuda_home sys s1 >>= λ s2.
                search_paths_libcudart sys paths s2 >>= search_paths_libcuda sys paths
          ]
            ≡ returned t
          → EndsEarly sys (drivers libs) init t ⊎ Offered paths libs t
      go s none e (inl (ends_early pre post lib u j p r n l f)) k = absurd (f e)
      go s none e (inr (r, n)) k =
          inr (record { middle = s; skipped = r; nothing = e; later = later-Runs paths libs s t k })
      go s (some b) e (inl early) k =
          let same : s ≡ t = ground arith in
          inl (subst (λ x. EndsEarly sys (drivers libs) init x) same early)
      go s (some b) e (inr (r, n)) k = let nothing : s.found ≡ none = n in absurd (ground arith)

  -- The calls of `update_libcuda` of the searches, in their order.
  pub search_all-tried :
      (paths libs : List FilePath) (t : SearchState)
      → search_all sys paths libs ≡ returned t
      → (ps : List FilePath) × Runs sys ps init t
  search_all-tried paths libs t h = elim (search_all-Runs paths libs t h) [
    | inl (ends_early pre post lib u j p r n l f) ↦
        (pre ++ lib ∷ [], Runs-append sys r (tried j l finished))
    | inr o ↦ (all_candidates paths libs, Runs-append sys o.skipped o.later)
  ]
