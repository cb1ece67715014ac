-- ===== src/Search/Best.antt =====
-- What one call of `update_libcuda` of search/search.cxx does to the result and to the caches.
use cuda_autocompat.Base.{
  ℕ, ◌≡◌, refl, sym, ap, ◌∙◌, subst, ◌⊎◌, inl, inr, Bool, true, ◌||◌, List, ◌∷◌, ◌==◌, arith, All,
  All-map, Bool-cases,
}
use cuda_autocompat.Base.Int.{ℤ, negsuc}
use cuda_autocompat.FilePath.{FilePath, parent_path, path_eq}
use cuda_autocompat.Search.{
  returned, System, Stat, StatResult, stat_ok, not_found, stat_error, SearchState, is_dir,
  contains_path, contains_inode, get_libcuda_api_ver, with_version, with_directory, update_libcuda,
}
use cuda_autocompat.Search.Rating.{rating, choose, Covers-choose, Covers-choose_self, choose-Covers}
use cuda_autocompat.Search.Caches.{
  Any, Any-All, Any-map, HasInode, Agree, Inv, Learnt, with_version-found,
  get_libcuda_api_ver-Versioned,
}

split_or : (a b : Bool) → (a || b) ≡ true → (a ≡ true) ⊎ (b ≡ true)
split_or a b h = ground arith

module _ (sys : System) where
  module _ (done : List FilePath) (s : SearchState) (inv : Inv sys done s) (path : FilePath)
      (agree : All (Agree sys path) done) where
    -- What one candidate does to the state.
    record Grown (s' : SearchState) : Type 0 where
      chosen : s'.found ≡ choose s.found (rating sys path) (parent_path path)
      new_paths :
          (d : FilePath)
          → contains_path d s'.dir_path_cache ≡ true
          → (path_eq (parent_path path) d ≡ true) ⊎ (contains_path d s.dir_path_cache ≡ true)
      new_inodes :
          (i : ℕ)
          → contains_inode i s'.dir_inode_cache ≡ true
          → HasInode sys (parent_path path) i ⊎ (contains_inode i s.dir_inode_cache ≡ true)
      learnt : Learnt sys path s.ver_cache s'.ver_cache

    Grown-Inv : (s' : SearchState) → Grown s' → Inv sys (path ∷ done) s'
    Grown-Inv s' g = record {
      covered = (
        rw g.chosen (Covers-choose_self s.found (rating sys path) (parent_path path)),
        All-map done inv.covered λ q h.
            rw g.chosen
              (Covers-choose s.found (rating sys q) (rating sys path) (parent_path path) h),
      );
      paths = λ d h. elim (g.new_paths d h) [ inl t ↦ inl t | inr k ↦ inr (inv.paths d k) ];
      inodes = λ i h. elim (g.new_inodes i h) [ inl t ↦ inl t | inr k ↦ inr (inv.inodes i k) ];
      versions =
          λ i v h. elim (g.learnt i v h) [ inl k ↦ inr (inv.versions i v k) | inr t ↦ inl t ];
    }

    -- A candidate that rates like one before changes nothing.
    covered_again :
        Any (λ q. rating sys path ≡ rating sys q) done
        → s.found ≡ choose s.found (rating sys path) (parent_path path)
    covered_again h = sym (
        choose-Covers s.found (rating sys path) (parent_path path)
          (Any-All done h inv.covered λ q e c. rw e c))

    -- The state at the last part: both caches know the directory.
    abbrev entered : Stat → SearchState
    entered st = record {
      found = s.found;
      dir_path_cache = parent_path path ∷ s.dir_path_cache;
      dir_inode_cache = st.st_ino ∷ s.dir_inode_cache;
      ver_cache = (get_libcuda_api_ver sys path s.ver_cache).1;
    }

    with_version-Grown :
        (st : Stat) (k : ℤ) (s' : SearchState)
        → sys.stat (parent_path path) ≡ stat_ok st
        → is_dir st.kind ≡ true
        → with_version sys
            (parent_path path)
            (entered st)
            (get_libcuda_api_ver sys path s.ver_cache).0
          ≡ returned (k, s')
        → Grown s'
    unfolding rating
    with_version-Grown st k s' e d h =
        let seen = get_libcuda_api_ver-Versioned sys done s inv path agree (parent_path path) in
        let facts =
          with_version-found sys (parent_path path) (entered st) s'
            (get_libcuda_api_ver sys path s.ver_cache).0 k h in
        record {
          chosen = rw (e, d) (facts.0 ∙ ap (λ r. choose s.found r (parent_path path)) (sym seen.0));
          new_paths =
              rw facts.1 (λ p k.
                split_or (path_eq (parent_path path) p) (contains_path p s.dir_path_cache) k);
          new_inodes = rw facts.2 (λ i k.
              elim (split_or (st.st_ino == i) (contains_inode i s.dir_inode_cache) k) [
                | inl t ↦ inl (st, e, ground arith)
                | inr t ↦ inr t
              ]);
          learnt = rw facts.3 seen.1;
        }

    abbrev entered_path : SearchState
    entered_path = record s { dir_path_cache = parent_path path ∷ s.dir_path_cache }

    unchanged_Grown :
        (s' : SearchState)
        → s'.found ≡ s.found
        → s.found ≡ choose s.found (rating sys path) (parent_path path)
        → s'.dir_path_cache ≡ parent_path path ∷ s.dir_path_cache
        → s'.dir_inode_cache ≡ s.dir_inode_cache
        → s'.ver_cache ≡ s.ver_cache
        → Grown s'
    unchanged_Grown s' a b c d e = record {
      chosen = a ∙ b;
      new_paths =
          rw c
            (λ p k. split_or (path_eq (parent_path path) p) (contains_path p s.dir_path_cache) k);
      new_inodes = rw d (λ i k. inr k);
      learnt = rw e (λ i v k. inl k);
    }

    with_directory-Grown :
        (st : Stat) (k : ℤ) (s' : SearchState)
        → sys.stat (parent_path path) ≡ stat_ok st
        → with_directory sys path (parent_path path) entered_path st ≡ returned (k, s')
        → Grown s'
    unfolding with_directory rating
    with_directory-Grown st k s' e h = elim (Bool-cases (is_dir st.kind)) [
      | inr f ↦
          let same : entered_path ≡ s' = ground arith in
          subst Grown same (unchanged_Grown entered_path refl (rw (e, f) refl) refl refl refl)
      | inl t ↦ elim (Bool-cases (contains_inode st.st_ino s.dir_inode_cache)) [
        | inl seen ↦
            let same : entered_path ≡ s' = ground arith in
            let again =
              Any-map done (inv.inodes st.st_ino seen) agree
                λ q i a. a.same_directory st.st_ino (st, e, refl) i in
            subst Grown same
              (unchanged_Grown entered_path refl (covered_again again) refl refl refl)
        | inr new ↦ with_version-Grown st k s' e t (ground arith)
      ]
    ]

    found_before : contains_path (parent_path path) s.dir_path_cache ≡ true → Grown s
    found_before h =
        let again = Any-map done (inv.paths (parent_path path) h) agree λ q e a. a.same_path e in
        record {
          chosen = covered_again again;
          new_paths = λ d k. inr k;
          new_inodes = λ i k. inr k;
          learnt = λ i v k. inl k;
        }

    update_libcuda-Grown :
        (k : ℤ) (s' : SearchState) → update_libcuda sys path s ≡ returned (k, s') → Grown s'
    unfolding update_libcuda rating
    update_libcuda-Grown k s' h =
        elim (Bool-cases (contains_path (parent_path path) s.dir_path_cache)) [
          | inl old ↦ let same : s ≡ s' = ground arith in subst Grown same (found_before old)
          | inr new ↦ go (sys.stat (parent_path path)) refl (ground arith)
        ]
      where
        go :
            (r : StatResult)
            → sys.stat (parent_path path) ≡ r
            → elim r [
              | not_found ↦ returned (negsuc 0, entered_path)
              | stat_error ↦ returned (negsuc 0, entered_path)
              | stat_ok st ↦ with_directory sys path (parent_path path) entered_path st
            ]
              ≡ returned (k, s')
            → Grown s'
        go not_found e h =
            let same : entered_path ≡ s' = ground arith in
            subst Grown same (unchanged_Grown entered_path refl (rw e refl) refl refl refl)
        go stat_error e h =
            let same : entered_path ≡ s' = ground arith in
            subst Grown same (unchanged_Grown entered_path refl (rw e refl) refl refl refl)
        go (stat_ok st) e h = with_directory-Grown st k s' e h

  -- One call that returns, on caches that are right for the candidates `done` and for a path that
  -- agrees with each of them: the new result is the better one of the old result and the rating of
  -- the path, whether a cache skips it or not, and the caches are right for the path too. Here
  -- `Agree` says that equal directory paths or directories with one inode mean equal ratings, and
  -- library files with one inode have one version.
  pub update_libcuda-choose :
      (done : List FilePath) (s : SearchState) (path : FilePath) (k : ℤ) (s' : SearchState)
      → Inv sys done s
      → All (Agree sys path) done
      → update_libcuda sys path s ≡ returned (k, s')
      → (s'.found ≡ choose s.found (rating sys path) (parent_path path)) × Inv sys (path ∷ done) s'
  update_libcuda-choose done s path k s' inv agree h =
      let grown = update_libcuda-Grown done s inv path agree k s' h in
      (grown.chosen, Grown-Inv done s inv path agree s' grown)
