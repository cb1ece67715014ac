-- ===== src/Search/Runs.antt =====
-- A search as a sequence of calls of `update_libcuda`, one for each candidate.
use cuda_autocompat.Base.{◌≡◌, refl, ap, ◌∙◌, arith, none, List, [], ◌∷◌, ◌++◌, All}
use cuda_autocompat.Base.Int.{ℤ}
use cuda_autocompat.FilePath.{FilePath}
use cuda_autocompat.Search.{returned, System, SearchState, init, update_libcuda}
use cuda_autocompat.Search.Rating.{best_from}
use cuda_autocompat.Search.Caches.{Agree, Inv}
use cuda_autocompat.Search.Best.{update_libcuda-choose}

pub data Runs (sys : System) : List FilePath → SearchState → SearchState → Type 0 where
  finished : {s : SearchState} → Runs sys [] s s
  tried :
      {path : FilePath} {ps : List FilePath} {s s' t : SearchState} (k : ℤ)
      → update_libcuda sys path s ≡ returned (k, s')
      → Runs sys ps s' t
      → Runs sys (path ∷ ps) s t

module _ (sys : System) where
  pub Runs-append :
      {ps qs : List FilePath} {s t u : SearchState}
      → Runs sys ps s t
      → Runs sys qs t u
      → Runs sys (ps ++ qs) s u
  Runs-append finished r = r
  Runs-append (tried k e p) r = tried k e (Runs-append p r)

  -- What one call keeps, a run keeps.
  pub Runs-keep :
      {P : SearchState → Type 0}
      → ((path : FilePath) (s : SearchState) (k : ℤ) (s' : SearchState)
          → update_libcuda sys path s ≡ returned (k, s')
          → P s
          → P s')
      → {ps : List FilePath} {s t : SearchState} → Runs sys ps s t
      → P s
      → P t
  Runs-keep keep finished h = h
  Runs-keep keep (tried {path} {ps} {s} {s'} k e r) h = Runs-keep keep r (keep path s k s' e h)

  -- Each candidate agrees with those before it.
  abbrev pub Consistent : List FilePath → List FilePath → Type 0
  Consistent done [] = Unit
  Consistent done (p ∷ ps) = All (Agree sys p) done × Consistent (p ∷ done) ps

  Runs-best_from-Inv :
      {done ps : List FilePath} {s t : SearchState}
      → Runs sys ps s t
      → Inv sys done s
      → Consistent done ps
      → t.found ≡ best_from sys s.found ps
  unfolding best_from
  Runs-best_from-Inv finished inv c = refl
  Runs-best_from-Inv {done = done} (tried {path} {ps} {s} {s'} k e r) inv (a, c) =
      let step = update_libcuda-choose sys done s path k s' inv a e in
      Runs-best_from-Inv r step.1 c ∙ ap (λ b. best_from sys b ps) step.0

  -- The caches of a new search know nothing.
  pub init-Inv : Inv sys [] init
  init-Inv = record {
    covered = tt;
    paths = λ d h. ground arith;
    inodes = λ i h. ground arith;
    versions = λ i v h. ground arith;
  }

  -- A run from a new state over candidates that agree, each with those before it, finds the best of
  -- them: the caches change nothing.
  pub Runs-best_from :
      {ps : List FilePath} {t : SearchState}
      → Runs sys ps init t
      → Consistent [] ps
      → t.found ≡ best_from sys none ps
  Runs-best_from r c = Runs-best_from-Inv r init-Inv c
