-- ===== src/SearchHelper.antt =====
-- utils/c/search_helper.c: where the search helper stands, and what it prints. The operating system
-- is given by arguments: `self_path` is the result of `get_path_to_self` (none for NULL), `access`
-- says for which paths `access(path, R_OK | X_OK)` is 0, `path_env` is `secure_getenv("PATH")`.
-- Stderr has the messages.
mod Tests
pub mod Read
pub mod Located
pub mod Find
pub mod Stderr
use cuda_autocompat.Base.{
  ℕ, zero, suc, ◌+◌, ◌-◌, ◌≡◌, Bool, true, false, not, ◌&&◌, ◌||◌, Option, none, some, List, [],
  ◌∷◌, ◌++◌, if◌then◌else◌, ltb, leb, ◌==◌, length, get_or, take, drop, replicate, Bytes, codes,
  c_head, c_string, zeros, write,
}
use cuda_autocompat.PathUtils.{Token, path_max, path_prefix, path_join, tokens}

-- HELPER_EXE
abbrev pub helper_exe : Bytes
helper_exe = codes "cuda-autocompat-search"

abbrev pub helper_path : Bytes
helper_path = codes "/libexec/" ++ helper_exe

module _ (access : Bytes → Bool) where
  -- The loop over PATH; its condition is the source's, `path_join2(…) == -1`. After the loop the
  -- buffer is cleared.
  path_loop : List Token → Bytes → Bool × Bytes
  path_loop [] out_path = (false, zeros path_max)
  path_loop (t ∷ ts) out_path =
      let joined = path_join out_path t.token t.token_len helper_exe in
      let rest = path_loop ts joined.1 in
      elim joined.0 [
        | none ↦ if access (c_string joined.1) then (true, joined.1) else rest
        | some _ ↦ rest
      ]

  search_path : Option Bytes → Bytes → Bool × Bytes
  search_path none out_path = (false, zeros path_max)
  search_path (some path) out_path = path_loop (tokens path b':') out_path

  -- The helper beside the library, and PATH if it is not there.
  search_sibling : Option Bytes → Option ℕ × Bytes → Bool × Bytes
  search_sibling path_env (none, out_path) = (false, zeros path_max)
  search_sibling path_env (some _, out_path) =
      if access (c_string out_path) then (true, out_path) else search_path path_env out_path

  search_prefix : Option Bytes → Bytes → Bytes → Option ℕ → Bool × Bytes
  search_prefix path_env self_path out_path none = (false, zeros path_max)
  search_prefix path_env self_path out_path (some prefix_len) =
      search_sibling path_env (path_join out_path self_path prefix_len helper_path)

  unfoldable pub find_search_helper : Option Bytes → Option Bytes → Bytes → Bool × Bytes
  unfolding path_loop search_path search_sibling search_prefix
  find_search_helper none path_env out_path = (false, out_path)
  find_search_helper (some self_path) path_env out_path =
      search_prefix path_env self_path out_path
        (path_prefix (some self_path) (some (codes "lib")) false)

-- What `popen` gives: the bytes that the child writes, and what `pclose` returns: 0, another
-- status, or -1.
pub data CloseStatus : Type 0 where
  success : CloseStatus
  failure : CloseStatus
  close_error : CloseStatus

pub record Pipe : Type 0 where
  pub stream : Bytes
  pub status : CloseStatus

-- `memchr(buf, c, n)`, as an offset.
unfoldable pub memchr : ℕ → Bytes → Option ℕ
memchr c [] = none
memchr c (x ∷ xs) =
    let rest = memchr c xs in
    if x == c then some 0 else elim rest [ none ↦ none | some i ↦ some (suc i) ]

-- `(eod = memchr(…, '\0', …)) || (eod = memchr(…, '\n', …))`
unfoldable pub end_of_input : Bytes → Option ℕ
unfolding memchr
end_of_input buf = elim (memchr 0 buf) [ some i ↦ some i | none ↦ memchr b'\n' buf ]

-- The loop over `fread`, which reads `bytes_remaining` bytes unless the stream ends first. The
-- state is the buffer and the offset of `buf_cur`. Fuel is the number of rounds.
unfoldable pub read_loop : ℕ → Bytes → ℕ → ℕ → Bytes → Bytes × ℕ
read_loop zero out_path buf_cur bytes_remaining stream = (out_path, buf_cur)
read_loop (suc fuel) out_path buf_cur bytes_remaining stream =
    let got = take bytes_remaining stream in
    let out' = write out_path buf_cur got in
    let rest =
      read_loop fuel out' (buf_cur + length got) (bytes_remaining - length got)
        (drop bytes_remaining stream) in
    if bytes_remaining == 0 || length got == 0
    then (out_path, buf_cur)
    else elim (end_of_input got) [
      | some eod ↦ (write out' (buf_cur + eod) (zeros (length got - eod)), buf_cur + eod)
      | none ↦ rest
    ]

close_pipe : CloseStatus → Bytes × ℕ → ℕ × Bytes
close_pipe success (out_path, buf_cur) = (buf_cur, out_path)
close_pipe failure (out_path, buf_cur) = (0, zeros path_max)
close_pipe close_error (out_path, buf_cur) = (0, zeros path_max)

read_pipe : Option Pipe → Bytes → ℕ × Bytes
unfolding read_loop end_of_input close_pipe
read_pipe none out_path = (0, out_path)
read_pipe (some pipe) out_path =
    close_pipe pipe.status (read_loop path_max out_path 0 (path_max - 1) pipe.stream)

run_helper : (Bytes → Option Pipe) → Bool × Bytes → Bytes → ℕ × Bytes
unfolding read_pipe
run_helper popen (false, path) out_path = (0, out_path)
run_helper popen (true, path) out_path = read_pipe (popen (c_string path)) out_path

-- The length of the driver's directory, 0 on errors, and the buffer. `search_helper_path` is a
-- local array with any content.
unfoldable pub find_libcuda :
    (Bytes → Bool) → (Bytes → Option Pipe) → Option Bytes → Option Bytes → Bytes → ℕ × Bytes
unfolding find_search_helper run_helper
find_libcuda access popen self_path path_env search_helper_path =
    run_helper popen (find_search_helper access self_path path_env search_helper_path)
      (zeros path_max)
