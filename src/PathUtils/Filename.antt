-- ===== src/PathUtils/Filename.antt =====
-- What `path_filename` and `path_filename2` of utils/c/path_utils.c return.
use cuda_autocompat.Base.{
  ℕ, ◌≡◌, refl, [], ◌∷◌, ◌++◌, Option, some, none, arith, ◌==◌, ◌≤◌, length, Bytes, Lacks, c_head,
  c_string, c_string_self, if◌then◌else◌,
}
use cuda_autocompat.PathUtils.{
  separator, filename_loop, filename2_loop, or_path, path_filename, path_filename2,
}

-- Without a separator the loops keep what they had.
filename2_loop-Lacks :
    (w end : Bytes) (last : Option Bytes)
    → Lacks separator w
    → Lacks 0 w
    → c_head end ≡ 0
    → filename2_loop (w ++ end) last ≡ last
unfolding filename2_loop
filename2_loop-Lacks [] [] last hd hz he = refl
filename2_loop-Lacks [] (c ∷ end) last hd hz he = ground arith
filename2_loop-Lacks (c ∷ w) end last (hd, hds) (hz, hzs) he =
    ground (arith, filename2_loop-Lacks w end last hds hzs he)

filename2_loop_lem :
    (dir name end : Bytes) (last : Option Bytes)
    → Lacks 0 dir
    → Lacks separator name
    → Lacks 0 name
    → c_head end ≡ 0
    → filename2_loop (dir ++ separator ∷ (name ++ end)) last ≡ some (name ++ end)
unfolding filename2_loop
filename2_loop_lem [] name end last hd nd nz he =
    ground (arith, filename2_loop-Lacks name end (some (name ++ end)) nd nz he)
filename2_loop_lem (c ∷ dir) name end last (hz, hd) nd nz he =
    rw
      (filename2_loop_lem dir name end
        (if c == separator then some (dir ++ separator ∷ (name ++ end)) else last) hd nd nz he)
      (ground arith)

c_string-end : (w end : Bytes) → Lacks 0 w → c_head end ≡ 0 → c_string (w ++ end) ≡ w
c_string-end [] [] hz he = refl
c_string-end [] (c ∷ end) hz he = ground arith
c_string-end (c ∷ w) end (hz, hzs) he = ground (arith, c_string-end w end hzs he)

-- The file name is what stands behind the last separator, up to the NUL.
pub path_filename2-append :
    (dir name end : Bytes)
    → Lacks 0 dir
    → Lacks separator name
    → Lacks 0 name
    → c_head end ≡ 0
    → path_filename2 (some (dir ++ separator ∷ (name ++ end))) ≡ some (name ++ end, length name)
unfolding path_filename2
path_filename2-append dir name end hd nd nz he =
    rw (filename2_loop_lem dir name end none hd nd nz he, c_string-end name end nz he)

path_filename2-Lacks :
    (name end : Bytes)
    → Lacks separator name
    → Lacks 0 name
    → c_head end ≡ 0
    → path_filename2 (some (name ++ end)) ≡ some (name ++ end, length name)
unfolding path_filename2
path_filename2-Lacks name end nd nz he =
    rw (filename2_loop-Lacks name end none nd nz he, c_string-end name end nz he)

-- What the loop of the bounded version finds in the first bytes of a string is what the other
-- loop finds in them alone.
abbrev carry : Bytes → Option Bytes → Option Bytes
carry end none = none
carry end (some p) = some (p ++ end)

filename_loop-filename2_loop :
    (path end : Bytes) (last : Option Bytes)
    → Lacks 0 path
    → filename_loop (length path) (path ++ end) (carry end last)
      ≡ carry end (filename2_loop path last)
unfolding filename_loop filename2_loop
filename_loop-filename2_loop [] end last hz = refl
filename_loop-filename2_loop (c ∷ path) end last (hz, h) = ground (
  arith,
  filename_loop-filename2_loop path end last h,
  filename_loop-filename2_loop path end (some path) h,
)

or_path-carry :
    (o : Option Bytes) (path end : Bytes)
    → or_path (carry end o) (path ++ end) ≡ or_path o path ++ end
or_path-carry none path end = refl
or_path-carry (some p) path end = refl

-- `path_filename` on a token of a longer string agrees with `path_filename2` on the token alone.
path_filename-path_filename2 :
    (path end : Bytes)
    → Lacks 0 path
    → path_filename (some (path ++ end)) (length path)
      ≡ (elim (path_filename2 (some path)) [ none ↦ none | some (name, n) ↦ some (name ++ end) ])
unfolding path_filename path_filename2
path_filename-path_filename2 path end hz = rw (
  filename_loop-filename2_loop path end none hz,
  or_path-carry (filename2_loop path none) path end,
)

-- The file name alone.
abbrev pub base_name : Bytes → Bytes
base_name path = elim (path_filename2 (some path)) [ none ↦ [] | some (name, n) ↦ name ]

abbrev Within : ℕ → Option Bytes → Type 0
Within k none = Unit
Within k (some p) = (length p ≤ k) × Lacks 0 p

filename2_loop-Within :
    (k : ℕ) (s : Bytes) (last : Option Bytes)
    → length s ≤ k
    → Lacks 0 s
    → Within k last
    → Within k (filename2_loop s last)
unfolding filename2_loop
filename2_loop-Within k [] last fits hz h = h
filename2_loop-Within k (c ∷ s) last fits (nz, hz) h = ground (
  arith,
  filename2_loop-Within k s last (omega arith) hz h,
  filename2_loop-Within k s (some s) (omega arith) hz (omega arith, hz),
)

or_path-Within :
    (path : Bytes) (o : Option Bytes)
    → Lacks 0 path
    → Within (length path) o
    → (length (or_path o path) ≤ length path) × Lacks 0 (or_path o path)
or_path-Within path none hz h = (omega arith, hz)
or_path-Within path (some p) hz h = h

-- The file name is no longer than the path, and its length is the one returned.
pub base_name_lem :
    (path : Bytes)
    → Lacks 0 path
    → (path_filename2 (some path) ≡ some (base_name path, length (base_name path)))
      × (length (base_name path) ≤ length path)
      × Lacks 0 (base_name path)
unfolding path_filename2
base_name_lem path hz =
    let w =
      or_path-Within path (filename2_loop path none) hz
        (filename2_loop-Within (length path) path none (omega arith) hz tt) in
    (rw (c_string_self _ w.1), w.0, w.1)

-- `path_filename` on a token finds the file name of the token's text.
pub path_filename-base_name :
    (path end : Bytes)
    → Lacks 0 path
    → path_filename (some (path ++ end)) (length path) ≡ some (base_name path ++ end)
path_filename-base_name path end hz =
    rw (path_filename-path_filename2 path end hz, (base_name_lem path hz).0)
