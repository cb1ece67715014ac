-- ===== src/PathUtils/Join.antt =====
-- What `path_join` of utils/c/path_utils.c writes.
use cuda_autocompat.Base.{
  ℕ, suc, ◌+◌, ◌-◌, ◌≤◌, ◌<◌, ◌≡◌, ◌≢◌, refl, Bool, true, false, ◌&&◌, ◌||◌, [], ◌∷◌, ◌++◌, Option,
  some, none, inl, inr, Bool-cases, arith, ◌==◌, ltb, leb, length, get_or, length-append,
  length-replicate, take-length_append, Bytes, Lacks, Lacks-append, c_head, c_string, codes, zeros,
  if◌then◌else◌, c_string-append_zeros,
}
use cuda_autocompat.PathUtils.{path_max, separator, path_join, join_write}

-- The parent that is meant: an empty one is the current directory.
abbrev pub parent_of : Bytes → Bytes
parent_of [] = codes "."
parent_of (c ∷ parent) = c ∷ parent

abbrev pub ends_with_separator : Bytes → Bool
ends_with_separator [] = false
ends_with_separator (c ∷ []) = c == separator
ends_with_separator (c ∷ d ∷ s) = ends_with_separator (d ∷ s)

abbrev pub starts_with_separator : Bytes → Bool
starts_with_separator s = c_head s == separator

-- The joined path.
abbrev pub joined : Bytes → Bytes → Bytes
joined parent child =
    parent_of parent
    ++ (if ends_with_separator (parent_of parent) || starts_with_separator child
        then child
        else separator ∷ child)

get_or-last :
    (c : ℕ) (s t : Bytes)
    → (get_or ((c ∷ s) ++ t) (length s) 0 == separator) ≡ ends_with_separator (c ∷ s)
get_or-last c [] t = refl
get_or-last c (d ∷ s) t = get_or-last d s t

child_has_sep-starts :
    (child : Bytes)
    → (ltb 0 (length child) && c_head child == separator) ≡ starts_with_separator child
child_has_sep-starts [] = refl
child_has_sep-starts (c ∷ child) = ground arith

-- What stands behind the parent.
abbrev tail_of : Bool → Bytes → Bytes
tail_of has_sep child = if has_sep then child else separator ∷ child

-- The test for overflow and the write, for a text that is to be written whole.
abbrev pub fill : Bytes → Bytes → Option ℕ × Bytes
fill dst s =
    if leb path_max (length s)
    then (none, dst)
    else (some (length s), s ++ zeros (path_max - length s))

module _ (dst p child : Bytes) where
  total_sep : length p + length child + 1 ≡ length (p ++ separator ∷ child)
  total_sep = omega (arith, length-append p (separator ∷ child))

  total_none : length p + length child + 0 ≡ length (p ++ child)
  total_none = omega (arith, length-append p child)

  join_write-fill :
      (parent_has_sep child_has_sep : Bool)
      → join_write dst p (length p) child parent_has_sep child_has_sep
        ≡ fill dst (p ++ tail_of (parent_has_sep || child_has_sep) child)
  unfolding join_write
  join_write-fill true b = rw total_none
  join_write-fill false true = rw total_none
  join_write-fill false false = rw total_sep

-- `joined parent child` goes to `dst`, and the rest of the buffer is cleared, if it fits with its
-- NUL. If not, the result is -1 and the buffer is as before. The parent is the first
-- `length parent` bytes of what `parent ++ more` points to.
pub path_join-joined :
    (dst parent more child : Bytes)
    → Lacks 0 parent
    → path_join dst (parent ++ more) (length parent) child ≡ fill dst (joined parent child)
unfolding path_join
path_join-joined dst [] more child hz =
    rw child_has_sep-starts
      (join_write-fill dst (codes ".") child false (starts_with_separator child))
path_join-joined dst (c ∷ parent) more child (nz, hz) =
    let full : ((suc (length parent) == 0) || (suc (length parent) == 1 && c == 0)) ≡ false =
      ground arith in
    let at : suc (length parent) - 1 ≡ length parent = omega arith in
    rw
      (
        path_join,
        full,
        at,
        get_or-last c parent more,
        child_has_sep-starts child,
        take-length_append parent more,
      )
      (join_write-fill dst (c ∷ parent) child (ends_with_separator (c ∷ parent))
        (starts_with_separator child))

pub fill-fits :
    (dst s : Bytes)
    → length s < path_max
    → fill dst s ≡ (some (length s), s ++ zeros (path_max - length s))
fill-fits dst s fits = ground arith

pub fill-overflow : (dst s : Bytes) → path_max ≤ length s → fill dst s ≡ (none, dst)
fill-overflow dst s long = ground arith

-- A string that fits is read back from the buffer.
c_string-fill : (dst s : Bytes) → Lacks 0 s → length s < path_max → c_string (fill dst s).1 ≡ s
c_string-fill dst s hz fits = rw (fill-fits dst s fits) (c_string-append_zeros s _ hz)

-- The buffer keeps its size.
length-fill : (dst s : Bytes) → length dst ≡ path_max → length (fill dst s).1 ≡ path_max
length-fill dst s h = ground (
  arith,
  length-append s (zeros (path_max - length s)),
  length-replicate {A = ℕ} (path_max - length s) 0,
)

-- Short paths fit, whatever is written.
pub path_join-ne-none :
    (dst parent : Bytes) (parent_len : ℕ) (child : Bytes)
    → parent_len + length child + 2 < path_max
    → (path_join dst parent parent_len child).0 ≢ none
unfolding path_join
path_join-ne-none dst parent parent_len child h = unfold join_write in ground arith

pub Lacks-parent_of : (parent : Bytes) → Lacks 0 parent → Lacks 0 (parent_of parent)
Lacks-parent_of [] h = omega arith
Lacks-parent_of (c ∷ parent) h = h

Lacks-tail_of : (has_sep : Bool) (child : Bytes) → Lacks 0 child → Lacks 0 (tail_of has_sep child)
Lacks-tail_of true child h = h
Lacks-tail_of false child h = (omega arith, h)

pub Lacks-joined :
    (parent child : Bytes) → Lacks 0 parent → Lacks 0 child → Lacks 0 (joined parent child)
Lacks-joined parent child hp hc =
    Lacks-append 0 (parent_of parent) _ (Lacks-parent_of parent hp) (Lacks-tail_of _ child hc)

-- The length of a joined path, for a parent that is not empty.
pub length-joined :
    (parent child : Bytes)
    → 0 < length parent
    → (length parent + length child ≤ length (joined parent child))
      × (length (joined parent child) ≤ length parent + length child + 1)
length-joined [] child pos = elim pos [ ]
length-joined (c ∷ parent) child pos =
    elim (Bool-cases (ends_with_separator (c ∷ parent) || starts_with_separator child)) [
      | inl e ↦ rw e (
        omega (arith, length-append (c ∷ parent) child),
        omega (arith, length-append (c ∷ parent) child),
      )
      | inr e ↦ rw e (
        omega (arith, length-append (c ∷ parent) (separator ∷ child)),
        omega (arith, length-append (c ∷ parent) (separator ∷ child)),
      )
    ]

-- The parent ends in no separator, and the child starts with none.
pub length-joined_sep :
    (parent child : Bytes)
    → 0 < length parent
    → ends_with_separator parent ≡ false
    → starts_with_separator child ≡ false
    → length (joined parent child) ≡ length parent + length child + 1
length-joined_sep [] child pos no_end no_start = elim pos [ ]
length-joined_sep (c ∷ parent) child pos no_end no_start =
    rw (no_end, no_start) (omega (arith, length-append (c ∷ parent) (separator ∷ child)))
