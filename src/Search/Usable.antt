-- ===== src/Search/Usable.antt =====
-- Results of `update_libcuda` of search/search.cxx, without conditions on the caches.
use cuda_autocompat.Base.{
  ◌≡◌, ◌≢◌, refl, sym, ap, subst, ◌⊎◌, inl, inr, Bool, true, false, not, Option, none, some, arith,
}
use cuda_autocompat.Base.Int.{ℤ, pos, negsuc, ltb_ℤ}
use cuda_autocompat.FilePath.{FilePath, parent_path}
use cuda_autocompat.Search.{
  returned, System, StatResult, stat_ok, not_found, stat_error, SearchResult, SearchState, is_dir,
  is_skipped, check_companions, get_libcuda_api_ver, with_version, with_directory, update_libcuda,
}
use cuda_autocompat.Search.Rating.{ltb_ℤ-irrefl}

abbrev pub is_directory : StatResult → Bool
is_directory (stat_ok st) = is_dir st.kind
is_directory not_found = false
is_directory stat_error = false

abbrev version_le : Option SearchResult → Option SearchResult → Bool
version_le none b = true
version_le (some a) none = false
version_le (some a) (some b) = not (ltb_ℤ b.version a.version)

ltb_ℤ-asym : (a b : ℤ) → ltb_ℤ a b ≡ true → ltb_ℤ b a ≡ false
ltb_ℤ-asym (pos a) (pos b) h = ground arith
ltb_ℤ-asym (pos a) (negsuc b) h = ground arith
ltb_ℤ-asym (negsuc a) (pos b) h = refl
ltb_ℤ-asym (negsuc a) (negsuc b) h = ground arith

version_le_refl : (r : Option SearchResult) → version_le r r ≡ true
version_le_refl none = refl
version_le_refl (some a) = ap not (ltb_ℤ-irrefl a.version)

abbrev newer : Option SearchResult → ℤ → Bool
newer none v = true
newer (some b) v = ltb_ℤ b.version v

newer-version_le :
    (r : Option SearchResult) (v : ℤ) (dir : FilePath)
    → newer r v ≡ true
    → version_le r (some (record { version = v; driver_dir = dir })) ≡ true
newer-version_le none v dir h = refl
newer-version_le (some b) v dir h = ap not (ltb_ℤ-asym b.version v h)

module _ (sys : System) where
  -- A result that the program can name: its directory is one and has the other three libraries, and
  -- its version is no error.
  abbrev pub Usable : Option SearchResult → Type 0
  Usable none = Unit
  Usable (some r) =
      (is_directory (sys.stat r.driver_dir) ≡ true)
      × (check_companions sys r.driver_dir ≡ returned true)
      × (is_skipped r.version ≡ false)

  -- What a call does to the result for the version that it found, and what its return value says.
  abbrev New : FilePath → ℤ → SearchState → SearchState → Type 0
  New dir v s s' =
      (s'.found ≡ some (record { version = v; driver_dir = dir }))
      × (check_companions sys dir ≡ returned true)
      × (is_skipped v ≡ false)

  with_version-New :
      (dir : FilePath) (s s' : SearchState) (v k : ℤ)
      → with_version sys dir s v ≡ returned (k, s')
      → (s'.found ≡ s.found) ⊎ New dir v s s'
  unfolding with_version
  with_version-New dir s s' v k h = ground arith

  with_version-positive :
      (dir : FilePath) (s s' : SearchState) (v k : ℤ)
      → with_version sys dir s v ≡ returned (k, s')
      → ltb_ℤ k (pos 0) ≡ false
      → s'.found ≢ none
  unfolding with_version
  with_version-positive dir s s' v k h l = ground arith

  update_libcuda-New :
      (path : FilePath) (s s' : SearchState) (k : ℤ)
      → update_libcuda sys path s ≡ returned (k, s')
      → (s'.found ≡ s.found)
        ⊎ ((is_directory (sys.stat (parent_path path)) ≡ true)
            × New (parent_path path) (get_libcuda_api_ver sys path s.ver_cache).0 s s')
  unfolding update_libcuda with_directory with_version
  update_libcuda-New path s s' k h = ground arith

  pub update_libcuda-positive :
      (path : FilePath) (s s' : SearchState) (k : ℤ)
      → update_libcuda sys path s ≡ returned (k, s')
      → ltb_ℤ k (pos 0) ≡ false
      → s'.found ≢ none
  unfolding update_libcuda with_directory with_version
  update_libcuda-positive path s s' k h l = ground arith

  pub update_libcuda-negative :
      (path : FilePath) (s s' : SearchState) (k : ℤ)
      → update_libcuda sys path s ≡ returned (k, s')
      → ltb_ℤ k (pos 0) ≡ true
      → s'.found ≡ s.found
  unfolding update_libcuda with_directory with_version
  update_libcuda-negative path s s' k h l = ground arith

  -- Every call keeps a usable result usable.
  pub update_libcuda-Usable :
      (path : FilePath) (s : SearchState) (k : ℤ) (s' : SearchState)
      → update_libcuda sys path s ≡ returned (k, s')
      → Usable s.found
      → Usable s'.found
  update_libcuda-Usable path s k s' h u = elim (update_libcuda-New path s s' k h) [
    | inl same ↦ subst Usable (sym same) u
    | inr (d, new) ↦ subst Usable (sym new.0) (d, new.1, new.2)
  ]

  update_libcuda-newer :
      (path : FilePath) (s s' : SearchState) (k : ℤ)
      → update_libcuda sys path s ≡ returned (k, s')
      → (s'.found ≡ s.found)
        ⊎ ((newer s.found (get_libcuda_api_ver sys path s.ver_cache).0 ≡ true)
            × (s'.found
                ≡ some (record {
                  version = (get_libcuda_api_ver sys path s.ver_cache).0;
                  driver_dir = parent_path path;
                })))
  unfolding update_libcuda with_directory with_version
  update_libcuda-newer path s s' k h = ground arith

  -- A call that returns never removes the result nor makes its version older.
  update_libcuda-version_le :
      (path : FilePath) (s : SearchState) (k : ℤ) (s' : SearchState)
      → update_libcuda sys path s ≡ returned (k, s')
      → version_le s.found s'.found ≡ true
  update_libcuda-version_le path s k s' h = elim (update_libcuda-newer path s s' k h) [
    | inl same ↦ rw same (version_le_refl s.found)
    | inr (n, e) ↦
        rw e (
          newer-version_le s.found (get_libcuda_api_ver sys path s.ver_cache).0 (parent_path path)
            n)
  ]
