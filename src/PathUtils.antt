-- ===== src/PathUtils.antt =====
-- utils/c/path_utils.c and path_utils.h: tokens, prefixes, joins and file names of paths, without
-- a heap. A `const char *` is the list of the bytes from there on (Base/CStrings.antt), NULL is
-- `none`, and a difference of pointers is a difference of lengths. The out-parameters of the C
-- functions are results, and a length that is -1 on errors is an `Option ℕ`.
mod Tests
pub mod SelfPath
pub mod Words
pub mod Tokens
pub mod Prefix
pub mod Filename
pub mod Join
pub mod RoundTrip
use cuda_autocompat.Base.{
  ℕ, zero, suc, ◌+◌, ◌-◌, ◌≡◌, Bool, true, false, not, ◌&&◌, ◌||◌, Option, none, some, List, [],
  ◌∷◌, ◌++◌, if◌then◌else◌, ltb, leb, ◌==◌, length, get_or, take, drop, replicate, Bytes, codes,
  c_head, c_string, zeros, bytes_eq,
}

-- PATH_MAX of <limits.h> on Linux.
unfoldable pub path_max : ℕ
path_max = 4096

abbrev pub separator : ℕ
separator = b'/'

-- The result and the static variable `self_path`. The first argument is `dli_fname` of a call of
-- `dladdr` that succeeds, and `none` if it fails.
unfoldable pub get_path_to_self : Option Bytes → Option Bytes → Option Bytes × Option Bytes
get_path_to_self dladdr none = (dladdr, dladdr)
get_path_to_self dladdr (some self_path) = (some self_path, some self_path)

-- A round of the loop `while ((cursor = next_token(cursor, &token, &token_len, delim)))`.
pub record Token : Type 0 where
  pub token : Bytes
  pub token_len : ℕ
  pub next : Bytes

-- The text of a token.
abbrev pub text : Token → Bytes
text t = take t.token_len t.token

-- `while (*token_end != delim && *token_end != '\0') ++token_end;`, the bytes passed over.
unfoldable pub token_span : ℕ → Bytes → ℕ
token_span delim [] = 0
token_span delim (c ∷ cs) = if c == delim || c == 0 then 0 else suc (token_span delim cs)

unfoldable pub next_token : Option Bytes → ℕ → Option Token
unfolding token_span
next_token none delim = none
next_token (some cursor) delim =
    let len = token_span delim cursor in
    let token_end = drop len cursor in
    let next = if c_head token_end == delim then drop 1 token_end else token_end in
    if c_head cursor == 0
    then none
    else some (record { token = cursor; token_len = len; next = next })

-- The tokens that the loop sees, on fuel. `next_token` reads only, so a loop over the tokens is a
-- recursion over this list, and a `break` is a case without a recursive call.
unfoldable pub tokens_from : ℕ → Bytes → ℕ → List Token
unfolding next_token
tokens_from zero cursor delim = []
tokens_from (suc fuel) cursor delim = elim (next_token (some cursor) delim) [
  | none ↦ []
  | some t ↦ t ∷ tokens_from fuel t.next delim
]

-- Each round moves the cursor, so a round for each byte is enough.
unfoldable pub tokens : Bytes → ℕ → List Token
unfolding tokens_from
tokens s delim = tokens_from (length s) s delim

-- The loop of `path_prefix`. `match` is the offset of the byte in front of the last component
-- that matched, plus one: `some 0` stands for `path - 1`.
prefix_loop : Bytes → Bytes → Bool → List Token → Option ℕ → Option ℕ
prefix_loop path child_prefix is_dir [] found = found
prefix_loop path child_prefix is_dir (t ∷ ts) found =
    let last = c_head (drop t.token_len t.token) == 0 in
    let n = length child_prefix in
    let hit = leb n t.token_len && bytes_eq (take n t.token) child_prefix in
    let here = length path - length t.token in
    let rest = prefix_loop path child_prefix is_dir ts (if hit then some here else found) in
    if not is_dir && last then found else rest

-- `return match ? match - path : -1;`
abbrev prefix_result : Option ℕ → Option ℕ
prefix_result none = none
prefix_result (some zero) = none
prefix_result (some (suc offset)) = some offset

-- The macro `path_prefix2` passes the length of the literal `child_prefix`.
unfoldable pub path_prefix : Option Bytes → Option Bytes → Bool → Option ℕ
unfolding prefix_loop tokens bytes_eq
path_prefix none child_prefix is_dir = none
path_prefix (some path) none is_dir = none
path_prefix (some path) (some child_prefix) is_dir =
    if length child_prefix == 0
    then none
    else prefix_result (prefix_loop path child_prefix is_dir (tokens path separator) none)

-- The second half of `path_join`, from the test for overflow on: `parent` is the first `parent_len`
-- bytes, and the last two arguments are `parent_has_sep` and `child_has_sep`.
unfoldable pub join_write : Bytes → Bytes → ℕ → Bytes → Bool → Bool → Option ℕ × Bytes
join_write dst parent parent_len child parent_has_sep child_has_sep =
    let extra_sep = if parent_has_sep || child_has_sep then 0 else 1 in
    let total_len = parent_len + length child + extra_sep in
    let child_rest = if extra_sep == 1 && child_has_sep then drop 1 child else child in
    let sep = if extra_sep == 1 then separator ∷ [] else [] in
    let written = parent ++ (sep ++ child_rest) in
    if leb path_max total_len
    then (none, dst)
    else (some total_len, written ++ zeros (path_max - length written))

-- The first `parent_len` bytes of `parent` and all of the literal `child`, into `dst`.
unfoldable pub path_join : Bytes → Bytes → ℕ → Bytes → Option ℕ × Bytes
unfolding join_write
path_join dst parent_arg parent_len_arg child =
    let empty = parent_len_arg == 0 || (parent_len_arg == 1 && c_head parent_arg == 0) in
    let parent = if empty then codes "." else parent_arg in
    let parent_len = if empty then 1 else parent_len_arg in
    let parent_has_sep = get_or parent (parent_len - 1) 0 == separator in
    let child_has_sep = ltb 0 (length child) && c_head child == separator in
    join_write dst (take parent_len parent) parent_len child parent_has_sep child_has_sep

-- The loops of `path_filename` and `path_filename2`. The last argument is `last_dir + 1`, or NULL.
filename_loop : ℕ → Bytes → Option Bytes → Option Bytes
filename_loop zero cur last = last
filename_loop (suc n) [] last = last
filename_loop (suc n) (c ∷ cs) last = filename_loop n cs (if c == separator then some cs else last)

filename2_loop : Bytes → Option Bytes → Option Bytes
filename2_loop [] last = last
filename2_loop (c ∷ cs) last =
    let rest = filename2_loop cs (if c == separator then some cs else last) in
    if c == 0 then last else rest

abbrev or_path : Option Bytes → Bytes → Bytes
or_path none path = path
or_path (some filename) path = filename

unfoldable pub path_filename : Option Bytes → ℕ → Option Bytes
unfolding filename_loop
path_filename none path_len = none
path_filename (some path) path_len = some (or_path (filename_loop path_len path none) path)

-- The file name and its length, `cur - filename` with `cur` at the NUL.
unfoldable pub path_filename2 : Option Bytes → Option (Bytes × ℕ)
unfolding filename2_loop
path_filename2 none = none
path_filename2 (some path) =
    let filename = or_path (filename2_loop path none) path in
    some (filename, length (c_string filename))
