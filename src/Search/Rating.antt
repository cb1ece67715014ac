-- ===== src/Search/Rating.antt =====
-- What a candidate is worth by itself: an independent description of `update_libcuda`, without
-- the caches and without the order of the search.
use cuda_autocompat.Base.{
  ◌≡◌, refl, true, false, Option, none, some, List, [], ◌∷◌, if◌then◌else◌, arith,
}
use cuda_autocompat.Base.Int.{ℤ, pos, negsuc, ltb_ℤ}
use cuda_autocompat.FilePath.{FilePath, parent_path}
use cuda_autocompat.Search.{
  Throws, returned, thrown, ◌>>=◌, System, StatResult, stat_ok, SearchResult, is_dir, is_skipped,
  load_version, check_companions,
}

module _ (sys : System) where
  -- A version counts if it is no error and the other three libraries are there.
  abbrev pub rate : FilePath → ℤ → Throws (Option ℤ)
  rate dir ver =
      if is_skipped ver
      then returned none
      else do complete ← check_companions sys dir; returned (if complete then some ver else none)

  abbrev pub rate_library : FilePath → FilePath → StatResult → Throws (Option ℤ)
  rate_library path dir (stat_ok st) =
      if is_dir st.kind then returned none else rate dir (load_version sys path).1
  rate_library path dir _ = returned none

  abbrev rate_directory : FilePath → FilePath → StatResult → Throws (Option ℤ)
  rate_directory path dir (stat_ok st) =
      if is_dir st.kind then rate_library path dir (sys.stat path) else returned none
  rate_directory path dir _ = returned none

  -- The version of a candidate that can be used, or none.
  unfoldable pub rating : FilePath → Throws (Option ℤ)
  rating path = rate_directory path (parent_path path) (sys.stat (parent_path path))

-- The better of a result and a version: the first one wins a tie.
abbrev pub choose : Option SearchResult → Throws (Option ℤ) → FilePath → Option SearchResult
choose best thrown dir = best
choose best (returned none) dir = best
choose none (returned (some ver)) dir = some (record { version = ver; driver_dir = dir })
choose (some best) (returned (some ver)) dir =
    if ltb_ℤ best.version ver then some (record { version = ver; driver_dir = dir }) else some best

-- The best of a list of candidates, from a result before.
unfoldable pub best_from : System → Option SearchResult → List FilePath → Option SearchResult
best_from sys best [] = best
best_from sys best (p ∷ ps) = best_from sys (choose best (rating sys p) (parent_path p)) ps

abbrev pub first_of : Throws (Option ℤ) → FilePath → Option SearchResult → Option SearchResult
first_of thrown dir rest = rest
first_of (returned none) dir rest = rest
first_of (returned (some ver)) dir rest = some (record { version = ver; driver_dir = dir })

-- The first of a list of candidates that can be used, whatever the versions are.
unfoldable pub first_rated : System → List FilePath → Option SearchResult
first_rated sys [] = none
first_rated sys (p ∷ ps) = first_of (rating sys p) (parent_path p) (first_rated sys ps)

-- A result is as good as a rating.
abbrev pub Covers : Option SearchResult → Throws (Option ℤ) → Type 0
Covers best thrown = Unit
Covers best (returned none) = Unit
Covers none (returned (some ver)) = ⊥
Covers (some best) (returned (some ver)) = ltb_ℤ best.version ver ≡ false

ltb_ℤ-keep : (a v w : ℤ) → ltb_ℤ a w ≡ true → ltb_ℤ a v ≡ false → ltb_ℤ w v ≡ false
ltb_ℤ-keep (pos a) (pos v) (pos w) h k = ground arith
ltb_ℤ-keep (pos a) (negsuc v) (pos w) h k = ground arith
ltb_ℤ-keep (pos a) v (negsuc w) h k = cc
ltb_ℤ-keep (negsuc a) (pos v) (pos w) h k = ground arith
ltb_ℤ-keep (negsuc a) (negsuc v) (pos w) h k = ground arith
ltb_ℤ-keep (negsuc a) (pos v) (negsuc w) h k = cc
ltb_ℤ-keep (negsuc a) (negsuc v) (negsuc w) h k = ground arith

pub ltb_ℤ-irrefl : (a : ℤ) → ltb_ℤ a a ≡ false
ltb_ℤ-irrefl (pos a) = ground arith
ltb_ℤ-irrefl (negsuc a) = ground arith

-- The better one covers what was covered, and the new rating.
pub Covers-choose :
    (best : Option SearchResult) (r s : Throws (Option ℤ)) (dir : FilePath)
    → Covers best r
    → Covers (choose best s dir) r
Covers-choose best thrown s dir h = tt
Covers-choose best (returned none) s dir h = tt
Covers-choose none (returned (some v)) s dir h = absurd h
Covers-choose (some b) (returned (some v)) thrown dir h = h
Covers-choose (some b) (returned (some v)) (returned none) dir h = h
Covers-choose (some b) (returned (some v)) (returned (some w)) dir h =
    ground (arith, ltb_ℤ-keep b.version v w)

pub Covers-choose_self :
    (best : Option SearchResult) (r : Throws (Option ℤ)) (dir : FilePath)
    → Covers (choose best r dir) r
Covers-choose_self best thrown dir = tt
Covers-choose_self best (returned none) dir = tt
Covers-choose_self none (returned (some v)) dir = ltb_ℤ-irrefl v
Covers-choose_self (some b) (returned (some v)) dir = ground (arith, ltb_ℤ-irrefl v)

-- What is covered changes nothing.
pub choose-Covers :
    (best : Option SearchResult) (r : Throws (Option ℤ)) (dir : FilePath)
    → Covers best r
    → choose best r dir ≡ best
choose-Covers best thrown dir h = refl
choose-Covers best (returned none) dir h = refl
choose-Covers none (returned (some v)) dir h = absurd h
choose-Covers (some b) (returned (some v)) dir h = rw h
