-- ===== src/Search/Order.antt =====
-- The order of the search path of `main` in search/main.cxx.
use cuda_autocompat.Base.{◌≡◌, refl, subst, ap, ◌⊎◌, inl, inr, false, none, some, List, [], arith}
use cuda_autocompat.Base.Int.{ℤ, pos, negsuc, ltb_ℤ}
use cuda_autocompat.FilePath.{FilePath, parent_path}
use cuda_autocompat.Search.{returned, System}
use cuda_autocompat.Search.Caches.{Any, Any-All}
use cuda_autocompat.Search.Candidates.{
  candidates_libcuda, candidates_cuda_home, candidates_libcudart, candidates_libraries,
}
use cuda_autocompat.Search.Libraries.{drivers}
use cuda_autocompat.Search.Main.{Exit, exit_success, exit_failure, main}
use cuda_autocompat.Search.Newest.{IsNewest, NoneRated, main-IsNewest}
use cuda_autocompat.Search.Rating.{rating, Covers}
use cuda_autocompat.Search.Tried.{all_candidates}
use cuda_autocompat.Search.Runs.{Consistent}
use cuda_autocompat.Search.Subset.{
  IsSubset, Any-IsSubset, All-IsSubset, IsSubset-append, IsSubset-candidates,
}

ltb_ℤ-antisym : (a b : ℤ) → ltb_ℤ a b ≡ false → ltb_ℤ b a ≡ false → a ≡ b
ltb_ℤ-antisym (pos a) (pos b) h k = let e : a ≡ b = ground arith in ap pos e
ltb_ℤ-antisym (pos a) (negsuc b) h k = absurd (ground arith)
ltb_ℤ-antisym (negsuc a) (pos b) h k = absurd (ground arith)
ltb_ℤ-antisym (negsuc a) (negsuc b) h k = let e : a ≡ b = ground arith in ap negsuc e

module _ (sys : System) where
  IsSubset-all_candidates :
      (paths paths' libs : List FilePath)
      → IsSubset paths paths'
      → IsSubset (all_candidates sys paths libs) (all_candidates sys paths' libs)
  unfolding candidates_libcudart candidates_libcuda
  IsSubset-all_candidates paths paths' libs s =
      let same = λ (xs : List FilePath) (q : FilePath) (m : Any (λ p. q ≡ p) xs). m in
      let runtime =
        IsSubset-candidates _ (candidates_libcudart sys) refl (λ d ds. refl) paths paths' s in
      let driver =
        IsSubset-candidates _ (candidates_libcuda sys) refl (λ d ds. refl) paths paths' s in
      IsSubset-append (drivers libs) _ (drivers libs) _ (same (drivers libs)) (
        IsSubset-append (candidates_libraries sys libs) _ (candidates_libraries sys libs) _
          (same (candidates_libraries sys libs))
          (IsSubset-append (candidates_cuda_home sys) _ (candidates_cuda_home sys) _
            (same (candidates_cuda_home sys))
            (IsSubset-append (candidates_libcudart sys paths) (candidates_libcuda sys paths)
              (candidates_libcudart sys paths') (candidates_libcuda sys paths') runtime driver)))

  -- No version of a candidate is newer than the newest one.
  IsNewest-le :
      (ps qs : List FilePath) (v w : ℤ) (a b : FilePath)
      → IsSubset ps qs
      → IsNewest sys ps v a
      → IsNewest sys qs w b
      → ltb_ℤ w v ≡ false
  IsNewest-le ps qs v w a b s (from, all) (from', all') =
      Any-All qs
        (Any-IsSubset (λ q. (rating sys q ≡ returned (some v)) × (a ≡ parent_path q)) ps qs s from)
        all' λ q h k. subst (Covers (some (record { version = w; driver_dir = b }))) h.0 k

  not-NoneRated :
      (ps qs : List FilePath) (v : ℤ) (a : FilePath)
      → IsSubset ps qs
      → IsNewest sys ps v a
      → NoneRated sys qs
      → ⊥
  not-NoneRated ps qs v a s (from, all) none_rated =
      Any-All qs
        (Any-IsSubset (λ q. (rating sys q ≡ returned (some v)) × (a ≡ parent_path q)) ps qs s from)
        none_rated λ q h k. subst (Covers none) h.0 k

  IsNewest-IsSubset :
      (ps qs : List FilePath) (v : ℤ) (a : FilePath)
      → IsSubset ps qs
      → IsSubset qs ps
      → IsNewest sys ps v a
      → IsNewest sys qs v a
  IsNewest-IsSubset ps qs v a s t (from, all) = (
    Any-IsSubset (λ q. (rating sys q ≡ returned (some v)) × (a ≡ parent_path q)) ps qs s from,
    All-IsSubset (λ q. Covers (some (record { version = v; driver_dir = a })) (rating sys q)) ps qs
        t all,
  )

  -- Two runs of `main` on search paths with the same directories, in any order and any number of
  -- times, and on the same libraries of which none is a driver. If in both the candidates agree
  -- with those before them in the sense of the caches, and both return, then both fail, or both
  -- succeed with directories of one version, which is the newest of the candidates.
  pub main-IsSubset :
      (paths paths' libs : List FilePath) (e e' : Exit)
      → drivers libs ≡ []
      → IsSubset paths paths'
      → IsSubset paths' paths
      → Consistent sys [] (all_candidates sys paths libs)
      → Consistent sys [] (all_candidates sys paths' libs)
      → main sys (some (paths, libs)) ≡ returned e
      → main sys (some (paths', libs)) ≡ returned e'
      → ((e.status ≡ exit_success)
          × (e'.status ≡ exit_success)
          × ((ver : ℤ) × IsNewest sys (all_candidates sys paths libs) ver e.output
              × IsNewest sys (all_candidates sys paths libs) ver e'.output))
        ⊎ ((e.status ≡ exit_failure) × (e'.status ≡ exit_failure))
  main-IsSubset paths paths' libs e e' none_driver there back c c' h h' =
      go (main-IsNewest sys paths libs e none_driver c h)
        (main-IsNewest sys paths' libs e' none_driver c' h')
    where
      ps : List FilePath
      ps = all_candidates sys paths libs

      qs : List FilePath
      qs = all_candidates sys paths' libs

      s : IsSubset ps qs
      s = IsSubset-all_candidates paths paths' libs there

      t : IsSubset qs ps
      t = IsSubset-all_candidates paths' paths libs back

      Outcome : List FilePath → Exit → Type 0
      Outcome rs r =
          ((r.status ≡ exit_success) × ((ver : ℤ) × IsNewest sys rs ver r.output))
          ⊎ ((r.status ≡ exit_failure) × NoneRated sys rs)

      go :
          Outcome ps e
          → Outcome qs e'
          → ((e.status ≡ exit_success)
              × (e'.status ≡ exit_success)
              × ((ver : ℤ) × IsNewest sys ps ver e.output × IsNewest sys ps ver e'.output))
            ⊎ ((e.status ≡ exit_failure) × (e'.status ≡ exit_failure))
      go (inl (ok, (v, n))) (inl (ok', (w, n'))) =
          let same : w ≡ v =
            ltb_ℤ-antisym w v (IsNewest-le ps qs v w e.output e'.output s n n')
              (IsNewest-le qs ps w v e'.output e.output t n' n) in
          let back = IsNewest-IsSubset qs ps w e'.output t s n' in
          inl (ok, ok', (v, n, subst (λ x. IsNewest sys ps x e'.output) same back))
      go (inl (ok, (v, n))) (inr (bad, none_rated)) =
          absurd (not-NoneRated ps qs v e.output s n none_rated)
      go (inr (bad, none_rated)) (inl (ok, (v, n))) =
          absurd (not-NoneRated qs ps v e'.output t n none_rated)
      go (inr (bad, none_rated)) (inr (bad', none_rated')) = inr (bad, bad')
