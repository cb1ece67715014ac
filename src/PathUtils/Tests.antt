-- ===== src/PathUtils/Tests.antt =====
-- Runs of path_utils.c, those of its header among them, and the theorems at concrete paths.
use cuda_autocompat.Base.{
  ◌-◌, ◌≡◌, refl, true, false, none, some, map, List, [], ◌∷◌, ◌++◌, arith, Bytes, codes, zeros,
}
use cuda_autocompat.PathUtils.{path_max, tokens, text, path_prefix, path_join, path_filename2}
use cuda_autocompat.PathUtils.Tokens.{tokens-words}
use cuda_autocompat.PathUtils.Prefix.{path_prefix-words}
use cuda_autocompat.PathUtils.Join.{fill, path_join-joined}
use cuda_autocompat.PathUtils.RoundTrip.{path_filename2-path_join}

tokens_run :
    map text (tokens (codes "/bin::/usr/bin:") b':') ≡ codes "/bin" ∷ [] ∷ codes "/usr/bin" ∷ []
unfolding tokens
tokens_run = refl

-- The two examples of `path_prefix` in path_utils.h.
prefix_dir :
    path_prefix (some (codes "/foo/bar/lib/x86_64-linux")) (some (codes "lib")) true ≡ some 8
unfolding path_prefix
prefix_dir = refl

prefix_file :
    path_prefix (some (codes "/foo/bar/lib64/libfoo.so")) (some (codes "lib")) false ≡ some 8
unfolding path_prefix
prefix_file = refl

prefix_relative : path_prefix (some (codes "lib/libfoo.so")) (some (codes "lib")) false ≡ none
unfolding path_prefix
prefix_relative = refl

filename_run : path_filename2 (some (codes "/a/lib/x.so")) ≡ some (codes "x.so", 4)
unfolding path_filename2
filename_run = refl

abbrev directories : List Bytes
directories = codes "/bin" ∷ [] ∷ codes "/usr/bin" ∷ []

tokens-words_example :
    map text (tokens (codes "/bin::/usr/bin:/x") b':') ≡ directories ++ codes "/x" ∷ []
tokens-words_example =
    tokens-words b':' directories (codes "/x") (omega arith) (omega arith) (omega arith)
      (omega arith)

path_prefix-words_example :
    path_prefix (some (codes "/lib/x/lib64/y/z")) (some (codes "lib")) false ≡ some 6
unfolding path_prefix
path_prefix-words_example =
    path_prefix-words (codes "lib") false
      ([] ∷ codes "lib" ∷ codes "x" ∷ codes "lib64" ∷ codes "y" ∷ []) (codes "z") (omega arith)
      (omega arith) (omega arith)

path_join-joined_example :
    path_join [] (codes "/opt:/usr") 4 (codes "tool") ≡ fill [] (codes "/opt/tool")
path_join-joined_example =
    path_join-joined [] (codes "/opt") (codes ":/usr") (codes "tool") (omega arith)

path_filename2-path_join_example :
    path_filename2 (some (path_join [] (codes "/opt") 4 (codes "tool")).1)
    ≡ some (codes "tool" ++ zeros (path_max - 9), 4)
unfolding path_max
path_filename2-path_join_example =
    path_filename2-path_join [] (codes "/opt") [] (codes "tool") (omega arith) (omega arith)
      (omega arith)
