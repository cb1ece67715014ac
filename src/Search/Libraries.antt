-- ===== src/Search/Libraries.antt =====
-- `search_libraries_libcuda` of search/search.cxx, which may end before its last library.
use cuda_autocompat.Base.{
  ◌≡◌, ◌≢◌, refl, subst, ap, ◌∙◌, ◌⊎◌, inl, inr, Bool, true, false, not, none, List, [], ◌∷◌, ◌++◌,
  if◌then◌else◌, arith, Bool-cases,
}
use cuda_autocompat.Base.Int.{ℤ, pos, ltb_ℤ}
use cuda_autocompat.FilePath.{FilePath, filename, path_eq}
use cuda_autocompat.Search.{returned, ◌>>=◌, System, SearchState, update_libcuda}
use cuda_autocompat.Search.Scan.{libcuda_file, search_libraries_libcuda}
use cuda_autocompat.Search.Runs.{Runs, finished, tried}
use cuda_autocompat.Search.Candidates.{bind_inv}
use cuda_autocompat.Search.Usable.{update_libcuda-positive, update_libcuda-negative}

abbrev is_driver : FilePath → Bool
is_driver lib = path_eq (filename lib) libcuda_file

-- The drivers among the libraries.
abbrev pub drivers : List FilePath → List FilePath
drivers [] = []
drivers (lib ∷ libs) = if is_driver lib then lib ∷ drivers libs else drivers libs

module _ (sys : System) where
  -- A run over a first part of a list that finds nothing, and the library behind it that sets the
  -- result.
  pub data EndsEarly (ps : List FilePath) (s t : SearchState) : Type 0 where
    ends_early :
        (pre post : List FilePath) (lib : FilePath) (u : SearchState) (k : ℤ)
        → pre ++ lib ∷ post ≡ ps
        → Runs sys pre s u
        → u.found ≡ s.found
        → update_libcuda sys lib u ≡ returned (k, t)
        → t.found ≢ none
        → EndsEarly ps s t

  -- A run over the whole list that finds nothing.
  abbrev pub Skips : List FilePath → SearchState → SearchState → Type 0
  Skips ps s t = Runs sys ps s t × (t.found ≡ s.found)

  EndsEarly-tried :
      (path : FilePath) (ps : List FilePath) (s s' t : SearchState) (k : ℤ)
      → update_libcuda sys path s ≡ returned (k, s')
      → s'.found ≡ s.found
      → EndsEarly ps s' t
      → EndsEarly (path ∷ ps) s t
  EndsEarly-tried path ps s s' t k e same (ends_early pre post lib u j h r n l f) =
      ends_early (path ∷ pre) post lib u j (ap (λ x. path ∷ x) h) (tried k e r) (n ∙ same) l f

  -- `search_libraries_libcuda` ends at the first library that is not skipped, or skips all.
  pub search_libraries_libcuda-Runs :
      (libs : List FilePath) (s t : SearchState)
      → search_libraries_libcuda sys libs s ≡ returned t
      → EndsEarly (drivers libs) s t ⊎ Skips (drivers libs) s t
  unfolding search_libraries_libcuda
  search_libraries_libcuda-Runs [] s t h =
      let same : s ≡ t = ground arith in inr (subst (λ x. Skips [] s x) same (finished, refl))
  search_libraries_libcuda-Runs (lib ∷ libs) s t h =
      go (is_driver lib) (λ s'. search_libraries_libcuda-Runs libs s' t) h
    where
      after :
          (r : ℤ × SearchState)
          → update_libcuda sys lib s ≡ returned r
          → r.1.found ≡ s.found
          → (EndsEarly (drivers libs) r.1 t ⊎ Skips (drivers libs) r.1 t)
          → EndsEarly (lib ∷ drivers libs) s t ⊎ Skips (lib ∷ drivers libs) s t
      after r e same (inl early) = inl (EndsEarly-tried lib (drivers libs) s r.1 t r.0 e same early)
      after r e same (inr (run, kept)) = inr (tried r.0 e run, kept ∙ same)

      go :
          (b : Bool)
          → ((s' : SearchState)
              → search_libraries_libcuda sys libs s' ≡ returned t
              → EndsEarly (drivers libs) s' t ⊎ Skips (drivers libs) s' t)
          → (if not b
              then search_libraries_libcuda sys libs s
              else (update_libcuda sys lib s >>= λ r.
                  if not (ltb_ℤ r.0 (pos 0))
                  then returned r.1
                  else search_libraries_libcuda sys libs r.1))
            ≡ returned t
          → EndsEarly (if b then lib ∷ drivers libs else drivers libs) s t
            ⊎ Skips (if b then lib ∷ drivers libs else drivers libs) s t
      go false next k = next s k
      go true next k =
          let (r, e, l) =
            bind_inv (update_libcuda sys lib s)
              (λ r.
                if not (ltb_ℤ r.0 (pos 0))
                then returned r.1
                else search_libraries_libcuda sys libs r.1)
              t k in
          elim (Bool-cases (ltb_ℤ r.0 (pos 0))) [
            | inl minus ↦
                after r e (update_libcuda-negative sys lib s r.1 r.0 e minus)
                  (next r.1 (ground arith))
            | inr plus ↦
                let same : r.1 ≡ t = ground arith in
                inl (
                  subst (λ x. EndsEarly (lib ∷ drivers libs) s x) same
                    (ends_early [] (drivers libs) lib s r.0 refl finished refl e
                      (update_libcuda-positive sys lib s r.1 r.0 e plus)))
          ]
