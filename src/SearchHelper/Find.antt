-- ===== src/SearchHelper/Find.antt =====
-- When `find_search_helper` finds the helper.
use cuda_autocompat.Base.{
  ℕ, ◌+◌, ◌<◌, ◌≡◌, refl, Bool, true, false, List, [], ◌∷◌, ◌++◌, Option, some, none, arith, length,
  codes, c_string, Bytes, All, zeros, Lacks, All-map, c_string-append_zeros,
}
use cuda_autocompat.PathUtils.{Token, path_max, path_prefix, path_join, tokens, separator}
use cuda_autocompat.PathUtils.Tokens.{tokens-token_len}
use cuda_autocompat.PathUtils.Join.{
  path_join-ne-none, fill, joined, Lacks-joined, path_join-joined, fill-fits,
}
use cuda_autocompat.PathUtils.Prefix.{path_prefix-installed}
use cuda_autocompat.SearchHelper.{
  helper_exe, helper_path, path_loop, search_path, search_sibling, search_prefix,
  find_search_helper,
}

module _ (access : Bytes → Bool) where
  -- The two facts about a result: a path that was found is accessible, and a buffer is cleared if
  -- nothing was found.
  record IsSound (r : Bool × Bytes) : Type 0 where
    usable : r.0 ≡ true → access (c_string r.1) ≡ true
    cleared : r.0 ≡ false → r.1 ≡ zeros path_max

  path_loop-IsSound : (ts : List Token) (out : Bytes) → IsSound (path_loop access ts out)
  unfolding path_loop
  path_loop-IsSound [] out = record { usable = λ h. cc; cleared = λ _. refl }
  path_loop-IsSound (t ∷ ts) out =
      ground (arith, path_loop-IsSound ts (path_join out t.token t.token_len helper_exe).1)

  search_prefix-IsSound :
      (path_env : Option Bytes) (self_path out : Bytes) (prefix_len : Option ℕ)
      → IsSound (search_prefix access path_env self_path out prefix_len)
  unfolding search_prefix search_sibling search_path
  search_prefix-IsSound none self_path out n = ground arith
  search_prefix-IsSound (some path) self_path out none = ground arith
  search_prefix-IsSound (some path) self_path out (some n) =
      ground (arith, path_loop-IsSound (tokens path b':') (path_join out self_path n helper_path).1)

  -- Whatever the environment: a path that is returned is accessible, and after a failure the buffer
  -- is cleared if the path of the library is known.
  pub find_search_helper-IsSound :
      (self_path : Bytes) (path_env : Option Bytes) (out : Bytes)
      → let r = find_search_helper access (some self_path) path_env out in
        (r.0 ≡ true → access (c_string r.1) ≡ true) × (r.0 ≡ false → r.1 ≡ zeros path_max)
  unfolding find_search_helper
  find_search_helper-IsSound self_path path_env out =
      let r =
        search_prefix-IsSound path_env self_path out
          (path_prefix (some self_path) (some (codes "lib")) false) in
      (r.usable, r.cleared)

  -- The sibling in libexec is taken if the library stands in a directory `lib…` of the prefix.
  pub find_search_helper-installed :
      (pre more name : Bytes) (path_env : Option Bytes) (out : Bytes)
      → Lacks 0 pre
      → Lacks separator (codes "lib" ++ more) × Lacks 0 (codes "lib" ++ more)
      → Lacks separator name × Lacks 0 name
      → length (joined pre helper_path) < path_max
      → access (joined pre helper_path) ≡ true
      → find_search_helper access
          (some (pre ++ separator ∷ ((codes "lib" ++ more) ++ separator ∷ name)))
          path_env
          out
        ≡ (true, (fill out (joined pre helper_path)).1)
  unfolding find_search_helper search_prefix search_sibling
  find_search_helper-installed pre more name path_env out hp hm hn fits ok =
      let rest = separator ∷ ((codes "lib" ++ more) ++ separator ∷ name) in
      rw (
        path_prefix-installed pre (codes "lib") more name (omega arith) hp hm hn,
        path_join-joined out pre rest helper_path hp,
        fill-fits out (joined pre helper_path) fits,
        c_string-append_zeros (joined pre helper_path) _
            (Lacks-joined pre helper_path hp (omega arith)),
        ok,
      )

  -- Every directory of PATH whose joined path fits is passed over.
  path_loop-fails :
      (ts : List Token) (out : Bytes)
      → All (λ t. t.token_len + length helper_exe + 2 < path_max) ts
      → path_loop access ts out ≡ (false, zeros path_max)
  unfolding path_loop
  path_loop-fails [] out h = refl
  path_loop-fails (t ∷ ts) out (fits, h) = ground (
    arith,
    path_join-ne-none out t.token t.token_len helper_exe fits,
    path_loop-fails ts (path_join out t.token t.token_len helper_exe).1 h,
  )

  -- PATH is of no use: for a PATH that is shorter than PATH_MAX by the name of the helper, and with no helper beside the
  -- library, the search fails, also if every directory of PATH has the helper.
  find_search_helper-env_fails :
      (self_path path out : Bytes) {prefix_len : ℕ}
      → path_prefix (some self_path) (some (codes "lib")) false ≡ some prefix_len
      → access (c_string (path_join out self_path prefix_len helper_path).1) ≡ false
      → length path + length helper_exe + 2 < path_max
      → find_search_helper access (some self_path) (some path) out ≡ (false, zeros path_max)
  unfolding find_search_helper search_prefix search_sibling search_path
  find_search_helper-env_fails self_path path out {prefix_len} here gone short =
      let out' = (path_join out self_path prefix_len helper_path).1 in
      rw here (
        ground (
          arith,
          path_loop-fails (tokens path b':') out'
              (All-map (tokens path b':') (tokens-token_len path b':') (λ t h. omega arith)),
        ))
