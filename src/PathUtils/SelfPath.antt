-- ===== src/PathUtils/SelfPath.antt =====
-- Sequences of calls of `get_path_to_self` in utils/c/path_utils.c.
use cuda_autocompat.Base.{
  ℕ, zero, suc, ◌≡◌, refl, ap, Option, none, some, List, [], ◌∷◌, ◌++◌, map, replicate, Bytes,
}
use cuda_autocompat.PathUtils.{get_path_to_self}

-- The results of calls, of which each has its own answer of `dladdr`.
unfoldable self_paths : List (Option Bytes) → Option Bytes → List (Option Bytes)
self_paths [] self_path = []
self_paths (dladdr ∷ answers) self_path =
    let (result, kept) = get_path_to_self dladdr self_path in result ∷ self_paths answers kept

self_paths-known :
    (path : Bytes) (answers : List (Option Bytes))
    → self_paths answers (some path) ≡ map (λ _. some path) answers
unfolding self_paths get_path_to_self
self_paths-known path [] = refl
self_paths-known path (dladdr ∷ answers) = ap (λ xs. some path ∷ xs) (self_paths-known path answers)

-- The result is NULL until the first call in which `dladdr` succeeds. From then on it is the path of
-- that call, whatever `dladdr` would answer.
self_paths-get_path_to_self :
    (n : ℕ) (path : Bytes) (answers : List (Option Bytes))
    → self_paths (replicate n none ++ some path ∷ answers) none
      ≡ replicate n none ++ some path ∷ map (λ _. some path) answers
unfolding self_paths get_path_to_self
self_paths-get_path_to_self zero path answers =
    ap (λ xs. some path ∷ xs) (self_paths-known path answers)
self_paths-get_path_to_self (suc n) path answers =
    ap (λ xs. none ∷ xs) (self_paths-get_path_to_self n path answers)
