-- ===== src/Search/Candidates.antt =====
-- Which candidates the searches of search/search.cxx offer to `update_libcuda`, and in which order.
use cuda_autocompat.Base.{
  ◌≡◌, refl, subst, Bool, true, false, not, Option, none, some, List, [], ◌∷◌, ◌++◌, if◌then◌else◌,
  arith,
}
use cuda_autocompat.FilePath.{FilePath, filename, ◌/path◌}
use cuda_autocompat.Search.{
  Throws, returned, thrown, ◌>>=◌, System, SearchState, check_file_exists, update_libcuda,
}
use cuda_autocompat.Search.Scan.{
  libcuda_file, libcudart_soname, is_libcudart, compat_libcuda, get_toolkit_from_libcudart,
  update_void, update_existing, search_libraries_libcudart, search_cuda_home, search_dir_libcudart,
  search_paths_libcudart, search_paths_libcuda,
}
use cuda_autocompat.Search.Runs.{Runs, finished, tried, Runs-append}

-- A call with a continuation returns only if both do.
pub bind_inv :
    {A B : Type 0} (m : Throws A) (f : A → Throws B) (b : B)
    → (m >>= f) ≡ returned b
    → (a : A) × (m ≡ returned a) × (f a ≡ returned b)
bind_inv (returned a) f b h = (a, refl, h)
bind_inv thrown f b h = absurd (ground arith)

abbrev answered : Throws Bool → Bool
answered (returned b) = b
answered thrown = false

abbrev answered_option : Throws (Option FilePath) → Option FilePath
answered_option (returned r) = r
answered_option thrown = none

module _ (sys : System) where
  abbrev is_there : FilePath → Bool
  is_there path = answered (check_file_exists sys path)

  abbrev existing : FilePath → List FilePath
  existing path = if is_there path then path ∷ [] else []

  abbrev toolkit_of : FilePath → Option FilePath
  toolkit_of path = answered_option (get_toolkit_from_libcudart sys path)

  -- `lib_dir/libcuda.so.1` for each directory that has it.
  unfoldable pub candidates_libcuda : List FilePath → List FilePath
  candidates_libcuda [] = []
  candidates_libcuda (d ∷ ds) = existing (d /path libcuda_file) ++ candidates_libcuda ds

  abbrev existing_compat : Option FilePath → List FilePath
  existing_compat none = []
  existing_compat (some toolkit_dir) = existing (compat_libcuda toolkit_dir)

  -- The toolkit of the first of the names that a directory has and that stands in a toolkit.
  abbrev first_toolkit : FilePath → List FilePath → Option FilePath
  first_toolkit d [] = none
  first_toolkit d (fname ∷ fnames) =
      let rest = first_toolkit d fnames in
      if is_there (d /path fname)
      then elim (toolkit_of (d /path fname)) [ none ↦ rest | some t ↦ some t ]
      else rest

  unfoldable pub candidates_libcudart : List FilePath → List FilePath
  candidates_libcudart [] = []
  candidates_libcudart (d ∷ ds) =
      existing_compat (first_toolkit d libcudart_soname) ++ candidates_libcudart ds

  unfoldable pub candidates_cuda_home : List FilePath
  candidates_cuda_home = existing_compat sys.cuda_home

  unfoldable pub candidates_libraries : List FilePath → List FilePath
  candidates_libraries [] = []
  candidates_libraries (lib ∷ libs) =
      let rest = candidates_libraries libs in
      if is_libcudart (filename lib)
      then elim (toolkit_of lib) [ none ↦ rest | some t ↦ compat_libcuda t ∷ rest ]
      else rest

  update_void-Runs :
      (path : FilePath) (s t : SearchState)
      → update_void sys path s ≡ returned t
      → Runs sys (path ∷ []) s t
  update_void-Runs path s t h =
      let (r, e, k) = bind_inv (update_libcuda sys path s) (λ r. returned r.1) t h in
      let same : r.1 ≡ t = ground arith in
      subst (λ x. Runs sys (path ∷ []) s x) same (tried r.0 e finished)

  update_existing-Runs :
      (path : FilePath) (s t : SearchState)
      → update_existing sys path s ≡ returned t
      → Runs sys (existing path) s t
  update_existing-Runs path s t h = go (check_file_exists sys path) h
    where
      go :
          (m : Throws Bool)
          → (m >>= λ there. if there then update_void sys path s else returned s) ≡ returned t
          → Runs sys (if answered m then path ∷ [] else []) s t
      go (returned true) k = update_void-Runs path s t k
      go (returned false) k =
          let same : s ≡ t = ground arith in subst (λ x. Runs sys [] s x) same finished
      go thrown k = absurd (ground arith)

  -- `search_paths_libcuda` offers the drivers of the directories in their order.
  pub search_paths_libcuda-Runs :
      (paths : List FilePath) (s t : SearchState)
      → search_paths_libcuda sys paths s ≡ returned t
      → Runs sys (candidates_libcuda paths) s t
  unfolding search_paths_libcuda candidates_libcuda
  search_paths_libcuda-Runs [] s t h =
      let same : s ≡ t = ground arith in subst (λ x. Runs sys [] s x) same finished
  search_paths_libcuda-Runs (d ∷ ds) s t h =
      let (s', e, k) =
        bind_inv (update_existing sys (d /path libcuda_file) s) (search_paths_libcuda sys ds) t h in
      Runs-append sys (update_existing-Runs (d /path libcuda_file) s s' e)
        (search_paths_libcuda-Runs ds s' t k)

  -- `search_cuda_home` offers the driver of the toolkit in `CUDA_HOME`, if there is one.
  pub search_cuda_home-Runs :
      (s t : SearchState)
      → search_cuda_home sys s ≡ returned t
      → Runs sys (candidates_cuda_home) s t
  unfolding search_cuda_home candidates_cuda_home
  search_cuda_home-Runs s t h = go sys.cuda_home h
    where
      go :
          (home : Option FilePath)
          → elim home [ none ↦ returned s | some d ↦ update_existing sys (compat_libcuda d) s ]
            ≡ returned t
          → Runs sys (existing_compat home) s t
      go none k = let same : s ≡ t = ground arith in subst (λ x. Runs sys [] s x) same finished
      go (some d) k = update_existing-Runs (compat_libcuda d) s t k

  search_dir_libcudart-Runs :
      (d : FilePath) (fnames : List FilePath) (s t : SearchState)
      → search_dir_libcudart sys d fnames s ≡ returned t
      → Runs sys (existing_compat (first_toolkit d fnames)) s t
  unfolding search_dir_libcudart
  search_dir_libcudart-Runs d [] s t h =
      let same : s ≡ t = ground arith in subst (λ x. Runs sys [] s x) same finished
  search_dir_libcudart-Runs d (fname ∷ fnames) s t h =
      go (check_file_exists sys (d /path fname)) (get_toolkit_from_libcudart sys (d /path fname))
        (search_dir_libcudart-Runs d fnames s t) h
    where
      go :
          (m : Throws Bool) (n : Throws (Option FilePath))
          → (search_dir_libcudart sys d fnames s ≡ returned t
              → Runs sys (existing_compat (first_toolkit d fnames)) s t)
          → (m >>= λ there.
              if not there
              then search_dir_libcudart sys d fnames s
              else (n >>= λ toolkit. elim toolkit [
                | none ↦ search_dir_libcudart sys d fnames s
                | some toolkit_dir ↦ update_existing sys (compat_libcuda toolkit_dir) s
              ]))
            ≡ returned t
          → Runs sys
              (existing_compat (
                if answered m
                then elim (answered_option n) [ none ↦ first_toolkit d fnames | some u ↦ some u ]
                else first_toolkit d fnames))
              s
              t
      go (returned false) n next k = next k
      go (returned true) (returned none) next k = next k
      go (returned true) (returned (some u)) next k = update_existing-Runs (compat_libcuda u) s t k
      go (returned true) thrown next k = absurd (ground arith)
      go thrown n next k = absurd (ground arith)

  -- `search_paths_libcudart` offers, for each directory, the driver of its first toolkit.
  pub search_paths_libcudart-Runs :
      (paths : List FilePath) (s t : SearchState)
      → search_paths_libcudart sys paths s ≡ returned t
      → Runs sys (candidates_libcudart paths) s t
  unfolding search_paths_libcudart candidates_libcudart
  search_paths_libcudart-Runs [] s t h =
      let same : s ≡ t = ground arith in subst (λ x. Runs sys [] s x) same finished
  search_paths_libcudart-Runs (d ∷ ds) s t h =
      let (s', e, k) =
        bind_inv (search_dir_libcudart sys d libcudart_soname s) (search_paths_libcudart sys ds) t
          h in
      Runs-append sys (search_dir_libcudart-Runs d libcudart_soname s s' e)
        (search_paths_libcudart-Runs ds s' t k)

  -- `search_libraries_libcudart` offers the drivers of the libraries' toolkits, without a test.
  pub search_libraries_libcudart-Runs :
      (libs : List FilePath) (s t : SearchState)
      → search_libraries_libcudart sys libs s ≡ returned t
      → Runs sys (candidates_libraries libs) s t
  unfolding search_libraries_libcudart candidates_libraries
  search_libraries_libcudart-Runs [] s t h =
      let same : s ≡ t = ground arith in subst (λ x. Runs sys [] s x) same finished
  search_libraries_libcudart-Runs (lib ∷ libs) s t h =
      go (is_libcudart (filename lib)) (get_toolkit_from_libcudart sys lib)
        (λ s'. search_libraries_libcudart-Runs libs s' t) h
    where
      go :
          (b : Bool) (n : Throws (Option FilePath))
          → ((s' : SearchState)
              → search_libraries_libcudart sys libs s' ≡ returned t
              → Runs sys (candidates_libraries libs) s' t)
          → (if not b
              then search_libraries_libcudart sys libs s
              else (n >>= λ toolkit. elim toolkit [
                | none ↦ search_libraries_libcudart sys libs s
                | some u ↦ update_void sys (compat_libcuda u) s >>= λ s'.
                    search_libraries_libcudart sys libs s'
              ]))
            ≡ returned t
          → Runs sys
              (if b
                then elim (answered_option n) [
                  | none ↦ candidates_libraries libs
                  | some u ↦ compat_libcuda u ∷ candidates_libraries libs
                ]
                else candidates_libraries libs)
              s
              t
      go false n next k = next s k
      go true (returned none) next k = next s k
      go true (returned (some u)) next k =
          let (s', e, l) =
            bind_inv (update_void sys (compat_libcuda u) s) (search_libraries_libcudart sys libs) t
              k in
          Runs-append sys (update_void-Runs (compat_libcuda u) s s' e) (next s' l)
      go true thrown next k = absurd (ground arith)
