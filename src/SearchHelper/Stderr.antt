-- ===== src/SearchHelper/Stderr.antt =====
-- What utils/c/search_helper.c writes to stderr.
use cuda_autocompat.Base.{
  ℕ, zero, suc, ◌+◌, ◌<◌, length, All, All-map, ◌-◌, ◌≡◌, refl, ap, ◌∙◌, Bool, true, false, Option,
  none, some, List, [], ◌∷◌, ◌++◌, if◌then◌else◌, arith, Bytes, codes, c_string, zeros,
}
use cuda_autocompat.PathUtils.{Token, path_max, path_prefix, path_join, tokens}
use cuda_autocompat.PathUtils.Tokens.{tokens-token_len}
use cuda_autocompat.PathUtils.Join.{path_join-ne-none}
use cuda_autocompat.SearchHelper.{
  helper_exe, helper_path, path_loop, search_path, search_sibling, search_prefix,
  find_search_helper, CloseStatus, success, failure, close_error, Pipe, read_loop, close_pipe,
  read_pipe, run_helper, find_libcuda,
}

-- A text on stderr, and a result.
abbrev pub Written : Type 0 → Type 0
Written A = Bytes × A

-- `fputs` of a line, before what follows.
abbrev pub fputs : {A : Type 0} → Bytes → Written A → Written A
fputs line w = (line ++ b'\n' ∷ w.0, w.1)

abbrev path_truncated : Bytes
path_truncated = codes "warning: Path truncated; skipping"

-- So many times the line.
unfoldable pub warnings : ℕ → Bytes
warnings zero = []
warnings (suc n) = path_truncated ++ b'\n' ∷ warnings n

module _ (access : Bytes → Bool) where
  path_loop_written : List Token → Bytes → Written (Bool × Bytes)
  path_loop_written [] out_path = ([], (false, zeros path_max))
  path_loop_written (t ∷ ts) out_path =
      let joined = path_join out_path t.token t.token_len helper_exe in
      let rest = path_loop_written ts joined.1 in
      elim joined.0 [
        | none ↦ if access (c_string joined.1) then ([], (true, joined.1)) else rest
        | some _ ↦ fputs path_truncated rest
      ]

  search_path_written : Option Bytes → Bytes → Written (Bool × Bytes)
  search_path_written none out_path =
      fputs (codes "Unable to read PATH from environment") ([], (false, zeros path_max))
  search_path_written (some path) out_path = path_loop_written (tokens path b':') out_path

  search_sibling_written : Option Bytes → Option ℕ × Bytes → Written (Bool × Bytes)
  search_sibling_written path_env (none, out_path) =
      fputs (codes "error: Sibling path truncated") ([], (false, zeros path_max))
  search_sibling_written path_env (some _, out_path) =
      if access (c_string out_path)
      then ([], (true, out_path))
      else search_path_written path_env out_path

  search_prefix_written : Option Bytes → Bytes → Bytes → Option ℕ → Written (Bool × Bytes)
  search_prefix_written path_env self_path out_path none =
      fputs (codes "error: Unable to determine prefix for self.") ([], (false, zeros path_max))
  search_prefix_written path_env self_path out_path (some prefix_len) =
      search_sibling_written path_env (path_join out_path self_path prefix_len helper_path)

  unfoldable pub find_search_helper_written :
      Option Bytes → Option Bytes → Bytes → Written (Bool × Bytes)
  unfolding path_loop_written search_path_written search_sibling_written search_prefix_written
  find_search_helper_written none path_env out_path =
      fputs (codes "error: Failed to get path to self") ([], (false, out_path))
  find_search_helper_written (some self_path) path_env out_path =
      search_prefix_written path_env self_path out_path
        (path_prefix (some self_path) (some (codes "lib")) false)

  path_loop_written-path_loop :
      (ts : List Token) (out_path : Bytes)
      → (path_loop_written ts out_path).1 ≡ path_loop access ts out_path
  unfolding path_loop_written path_loop
  path_loop_written-path_loop [] out_path = refl
  path_loop_written-path_loop (t ∷ ts) out_path =
      ground (
        arith,
        path_loop_written-path_loop ts (path_join out_path t.token t.token_len helper_exe).1,
      )

  search_prefix_written-search_prefix :
      (path_env : Option Bytes) (self_path out_path : Bytes) (prefix_len : Option ℕ)
      → (search_prefix_written path_env self_path out_path prefix_len).1
        ≡ search_prefix access path_env self_path out_path prefix_len
  unfolding search_prefix_written search_prefix search_sibling_written search_sibling
      search_path_written search_path
  search_prefix_written-search_prefix path_env self_path out_path none = refl
  search_prefix_written-search_prefix none self_path out_path (some n) = ground arith
  search_prefix_written-search_prefix (some path) self_path out_path (some n) = ground (
    arith,
    path_loop_written-path_loop (tokens path b':') (path_join out_path self_path n helper_path).1,
  )

  find_search_helper_written-find_search_helper :
      (self_path path_env : Option Bytes) (out_path : Bytes)
      → (find_search_helper_written self_path path_env out_path).1
        ≡ find_search_helper access self_path path_env out_path
  unfolding find_search_helper_written find_search_helper
  find_search_helper_written-find_search_helper none path_env out_path = refl
  find_search_helper_written-find_search_helper (some self_path) path_env out_path =
      search_prefix_written-search_prefix path_env self_path out_path
        (path_prefix (some self_path) (some (codes "lib")) false)

  -- One line for each directory of PATH whose joined path fits.
  path_loop_written-fails :
      (ts : List Token) (out : Bytes)
      → All (λ t. t.token_len + length helper_exe + 2 < path_max) ts
      → path_loop_written ts out ≡ (warnings (length ts), (false, zeros path_max))
  unfolding path_loop_written warnings
  path_loop_written-fails [] out h = refl
  path_loop_written-fails (t ∷ ts) out (fits, h) = ground (
    arith,
    path_join-ne-none out t.token t.token_len helper_exe fits,
    path_loop_written-fails ts (path_join out t.token t.token_len helper_exe).1 h,
  )

  -- PATH is of no use: for a PATH that is shorter than PATH_MAX by the name of the helper, and with no
  -- helper beside the library, where its path fits, the search fails and warns of each entry of PATH that its path is
  -- truncated, although none is.
  pub find_search_helper_written-warnings :
      (self_path path out sibling : Bytes) {prefix_len joined_len : ℕ}
      → path_prefix (some self_path) (some (codes "lib")) false ≡ some prefix_len
      → path_join out self_path prefix_len helper_path ≡ (some joined_len, sibling)
      → access (c_string sibling) ≡ false
      → length path + length helper_exe + 2 < path_max
      → find_search_helper_written (some self_path) (some path) out
        ≡ (warnings (length (tokens path b':')), (false, zeros path_max))
  unfolding find_search_helper_written search_prefix_written search_sibling_written
      search_path_written
  find_search_helper_written-warnings self_path path out sibling here fits gone short =
      rw (here, fits)
        (ground (
          arith,
          path_loop_written-fails (tokens path b':') sibling
              (All-map (tokens path b':') (tokens-token_len path b':') (λ t h. omega arith)),
        ))

-- The text of `errno` after `pclose`.
module _ (strerror : Bytes) where
  close_pipe_written : CloseStatus → Bytes × ℕ → Written (ℕ × Bytes)
  close_pipe_written success (out_path, buf_cur) = ([], (buf_cur, out_path))
  close_pipe_written failure (out_path, buf_cur) =
      fputs (codes "error: Search helper failed") ([], (0, zeros path_max))
  close_pipe_written close_error (out_path, buf_cur) =
      fputs (codes "error: " ++ strerror) ([], (0, zeros path_max))

  read_pipe_written : Option Pipe → Bytes → Written (ℕ × Bytes)
  unfolding read_loop
  read_pipe_written none out_path =
      fputs (codes "error: Failed to execute search helper") ([], (0, out_path))
  read_pipe_written (some pipe) out_path =
      close_pipe_written pipe.status (read_loop path_max out_path 0 (path_max - 1) pipe.stream)

  run_helper_written : (Bytes → Option Pipe) → Bool × Bytes → Bytes → Written (ℕ × Bytes)
  run_helper_written popen (false, path) out_path =
      fputs (codes "error: Failed to locate cuda-autocompat-search helper") ([], (0, out_path))
  run_helper_written popen (true, path) out_path =
      read_pipe_written (popen (c_string path)) out_path

  unfoldable pub find_libcuda_written :
      (Bytes → Bool)
      → (Bytes → Option Pipe)
      → Option Bytes
      → Option Bytes
      → Bytes
      → Written (ℕ × Bytes)
  unfolding find_search_helper_written run_helper_written read_pipe_written close_pipe_written
  find_libcuda_written access popen self_path path_env search_helper_path =
      let helper = find_search_helper_written access self_path path_env search_helper_path in
      let rest = run_helper_written popen helper.1 (zeros path_max) in (helper.0 ++ rest.0, rest.1)

  read_pipe_written-read_pipe :
      (p : Option Pipe) (out_path : Bytes) → (read_pipe_written p out_path).1 ≡ read_pipe p out_path
  unfolding read_pipe_written read_pipe close_pipe_written close_pipe
  read_pipe_written-read_pipe none out_path = refl
  read_pipe_written-read_pipe (some pipe) out_path = ground arith

  run_helper_written-run_helper :
      (popen : Bytes → Option Pipe) (r : Bool × Bytes) (out_path : Bytes)
      → (run_helper_written popen r out_path).1 ≡ run_helper popen r out_path
  unfolding run_helper_written run_helper
  run_helper_written-run_helper popen (false, path) out_path = refl
  run_helper_written-run_helper popen (true, path) out_path =
      read_pipe_written-read_pipe (popen (c_string path)) out_path

  pub find_libcuda_written-find_libcuda :
      (access : Bytes → Bool) (popen : Bytes → Option Pipe) (self_path path_env : Option Bytes)
      (buf : Bytes)
      → (find_libcuda_written access popen self_path path_env buf).1
        ≡ find_libcuda access popen self_path path_env buf
  unfolding find_libcuda_written find_libcuda
  find_libcuda_written-find_libcuda access popen self_path path_env buf =
      run_helper_written-run_helper popen
        (find_search_helper_written access self_path path_env buf).1 (zeros path_max)
      ∙ ap (λ r. run_helper popen r (zeros path_max))
          (find_search_helper_written-find_search_helper access self_path path_env buf)
