-- ===== src/Search/Caches.antt =====
-- What the caches of `update_libcuda` hold after some candidates, and the version that
-- `get_libcuda_api_ver` finds through them.
use cuda_autocompat.Base.{
  ℕ, ◌≡◌, refl, sym, ap, ◌∙◌, ◌⊎◌, inl, inr, true, Option, some, List, [], ◌∷◌, if◌then◌else◌, ◌==◌,
  arith, All, Bool-cases, Option-cases,
}
use cuda_autocompat.Base.Int.{ℤ, negsuc}
use cuda_autocompat.FilePath.{FilePath, parent_path, path_eq}
use cuda_autocompat.Search.{
  Throws, returned, System, Stat, StatResult, stat_ok, not_found, stat_error, SearchState, is_dir,
  load_version, contains_path, contains_inode, lookup_version, cached_version, get_libcuda_api_ver,
  with_version,
}
use cuda_autocompat.Search.Rating.{rate, rate_library, rating, choose, Covers}

abbrev pub Any : (FilePath → Type 0) → List FilePath → Type 0
Any P [] = ⊥
Any P (x ∷ xs) = P x ⊎ Any P xs

-- A fact about one candidate of the list, met with one about all.
pub Any-All :
    {P Q : FilePath → Type 0} {C : Type 0} (xs : List FilePath)
    → Any P xs
    → All Q xs
    → ((x : FilePath) → P x → Q x → C)
    → C
Any-All [] h all f = absurd h
Any-All (x ∷ xs) (inl h) (q, all) f = f x h q
Any-All (x ∷ xs) (inr h) (q, all) f = Any-All xs h all f

pub Any-map :
    {P Q R : FilePath → Type 0} (xs : List FilePath)
    → Any P xs
    → All Q xs
    → ((x : FilePath) → P x → Q x → R x)
    → Any R xs
Any-map [] h all f = h
Any-map (x ∷ xs) (inl h) (q, all) f = inl (f x h q)
Any-map (x ∷ xs) (inr h) (q, all) f = inr (Any-map xs h all f)

-- The inode that a path leads to.
abbrev pub HasInode : System → FilePath → ℕ → Type 0
HasInode sys p i = (st : Stat) × (sys.stat p ≡ stat_ok st) × (st.st_ino ≡ i)

-- What the caches take for granted of two candidates: equal directory paths, or directories with
-- one inode, have libraries of one rating, and library files with one inode have one version.
pub record Agree (sys : System) (p q : FilePath) : Type 0 where
  pub same_path : path_eq (parent_path q) (parent_path p) ≡ true → rating sys p ≡ rating sys q
  pub same_directory :
      (i : ℕ)
      → HasInode sys (parent_path p) i
      → HasInode sys (parent_path q) i
      → rating sys p ≡ rating sys q
  pub same_library :
      (i : ℕ)
      → HasInode sys p i
      → HasInode sys q i
      → (load_version sys p).1 ≡ (load_version sys q).1

module _ (sys : System) where
  -- The state after the candidates `done`.
  pub record Inv (done : List FilePath) (s : SearchState) : Type 0 where
    pub covered : All (λ q. Covers s.found (rating sys q)) done
    pub paths :
        (d : FilePath)
        → contains_path d s.dir_path_cache ≡ true
        → Any (λ q. path_eq (parent_path q) d ≡ true) done
    pub inodes :
        (i : ℕ)
        → contains_inode i s.dir_inode_cache ≡ true
        → Any (λ q. HasInode sys (parent_path q) i) done
    pub versions :
        (i : ℕ) (v : ℤ)
        → lookup_version i s.ver_cache ≡ some v
        → Any (λ q. HasInode sys q i × ((load_version sys q).1 ≡ v)) done

  -- The last part finds what the rating says.
  pub with_version-found :
      (dir : FilePath) (s s' : SearchState) (v k : ℤ)
      → with_version sys dir s v ≡ returned (k, s')
      → (s'.found ≡ choose s.found (rate sys dir v) dir)
        × (s'.dir_path_cache ≡ s.dir_path_cache)
        × (s'.dir_inode_cache ≡ s.dir_inode_cache)
        × (s'.ver_cache ≡ s.ver_cache)
  unfolding with_version
  with_version-found dir s s' v k h = ground arith

  -- A library that is no use has an entry that says so, and the other way round.
  rate-load_version :
      (dir path : FilePath)
      → rate sys dir (load_version sys path).0 ≡ rate sys dir (load_version sys path).1
  unfolding load_version
  rate-load_version dir path = ground arith

  abbrev pub Learnt : FilePath → List (ℕ × ℤ) → List (ℕ × ℤ) → Type 0
  Learnt path cache cache' =
      (i : ℕ) (w : ℤ)
      → lookup_version i cache' ≡ some w
      → (lookup_version i cache ≡ some w) ⊎ (HasInode sys path i × ((load_version sys path).1 ≡ w))

  module _ (done : List FilePath) (s : SearchState) (inv : Inv done s) (path : FilePath)
      (agree : All (Agree sys path) done) where
    abbrev pub Versioned : FilePath → Throws (Option ℤ) → ℤ × List (ℕ × ℤ) → Type 0
    Versioned dir r got = (r ≡ rate sys dir got.0) × Learnt path s.ver_cache got.1

    cached_version-Versioned :
        (dir : FilePath) (st : Stat)
        → sys.stat path ≡ stat_ok st
        → Versioned dir
            (rate sys dir (load_version sys path).1)
            (cached_version sys path st.st_ino s.ver_cache)
    unfolding cached_version
    cached_version-Versioned dir st e = elim (Option-cases (lookup_version st.st_ino s.ver_cache)) [
      | inl n ↦
          rw (n, cached_version)
            (
              sym (rate-load_version dir path),
              λ i w h. elim (Bool-cases (st.st_ino == i)) [
                | inl t ↦ inr ((st, e, ground arith), ground arith)
                | inr f ↦ inl (ground arith)
              ],
            )
      | inr (w, m) ↦
          let same : (load_version sys path).1 ≡ w =
            Any-All done (inv.versions st.st_ino w m) agree
              λ q hq a. a.same_library st.st_ino (st, e, refl) hq.0 ∙ hq.1 in
          rw (m, cached_version) (ap (rate sys dir) same, λ i v h. inl h)
    ]

    -- The version that is found rates like the library, and the cache learns nothing false.
    pub get_libcuda_api_ver-Versioned :
        (dir : FilePath)
        → Versioned dir
            (rate_library sys path dir (sys.stat path))
            (get_libcuda_api_ver sys path s.ver_cache)
    unfolding get_libcuda_api_ver
    get_libcuda_api_ver-Versioned dir = go (sys.stat path) refl
      where
        go :
            (r : StatResult)
            → sys.stat path ≡ r
            → Versioned dir (rate_library sys path dir r) (elim r [
              | not_found ↦ (negsuc 2, s.ver_cache)
              | stat_error ↦ (negsuc 2, s.ver_cache)
              | stat_ok st ↦
                  if is_dir st.kind
                  then (negsuc 3, s.ver_cache)
                  else cached_version sys path st.st_ino s.ver_cache
            ])
        go not_found e = (refl, λ i w h. inl h)
        go stat_error e = (refl, λ i w h. inl h)
        go (stat_ok st) e = elim (Bool-cases (is_dir st.kind)) [
          | inl t ↦ rw t (refl, λ i w h. inl h)
          | inr f ↦ rw f (cached_version-Versioned dir st e)
        ]
