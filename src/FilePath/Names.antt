-- ===== src/FilePath/Names.antt =====
-- Names of files and their directories: what `filename`, `parent_path` and `operator/` do to a
-- directory and a name.
use cuda_autocompat.Base.{
  suc, ◌-◌, ◌≡◌, refl, ap, Bool, false, true, [], ◌∷◌, ◌++◌, ◌==◌, length, take, arith,
  bytes_eq_iff, length-append,
}
use cuda_autocompat.FilePath.{
  FilePath, separator, is_empty, has_separator, filename, strip_separators, parent_path, ◌/path◌,
  collapse, path_eq,
}

abbrev pub last_is_separator : FilePath → Bool
last_is_separator [] = false
last_is_separator (c ∷ []) = c == separator
last_is_separator (c ∷ d ∷ p) = last_is_separator (d ∷ p)

filename-no_separator : (n : FilePath) → has_separator n ≡ false → filename n ≡ n
unfolding filename
filename-no_separator [] h = refl
filename-no_separator (c ∷ n) h = ground (arith, filename-no_separator n)

has_separator-append : (p n : FilePath) → has_separator (p ++ separator ∷ n) ≡ true
has_separator-append [] n = ground arith
has_separator-append (c ∷ p) n = ground (arith, has_separator-append p n)

-- The file name behind a separator.
pub filename-append : (p n : FilePath) → has_separator n ≡ false → filename (p ++ separator ∷ n) ≡ n
unfolding filename
filename-append [] n h = rw h refl
filename-append (c ∷ p) n h = rw (has_separator-append p n) (filename-append p n h)

is_empty-strip_separators :
    (p q : FilePath)
    → is_empty p ≡ false
    → last_is_separator p ≡ false
    → is_empty (strip_separators (p ++ q)) ≡ false
unfolding strip_separators
is_empty-strip_separators [] q e h = absurd (ground arith)
is_empty-strip_separators (c ∷ []) q e h = ground arith
is_empty-strip_separators (c ∷ d ∷ p) q e h =
    ground (arith, is_empty-strip_separators (d ∷ p) q refl h)

strip_separators-last :
    (p : FilePath) → last_is_separator p ≡ false → strip_separators (p ++ separator ∷ []) ≡ p
unfolding strip_separators
strip_separators-last [] h = refl
strip_separators-last (c ∷ []) h = ground arith
strip_separators-last (c ∷ d ∷ p) h = ground (arith, strip_separators-last (d ∷ p) h)

take-parent :
    (p n : FilePath)
    → take (length (p ++ separator ∷ n) - length n) (p ++ separator ∷ n) ≡ p ++ separator ∷ []
take-parent [] n = let e : suc (length n) - length n ≡ 1 = omega arith in rw e refl
take-parent (c ∷ p) n =
    let e : suc (length (p ++ separator ∷ n)) - length n
        ≡ suc (length (p ++ separator ∷ n) - length n) =
      omega (arith, length-append p (separator ∷ n)) in
    rw e (ap (λ t. c ∷ t) (take-parent p n))

-- The parent of a name in a directory.
pub parent_path-append :
    (p n : FilePath)
    → is_empty p ≡ false
    → last_is_separator p ≡ false
    → has_separator n ≡ false
    → parent_path (p ++ separator ∷ n) ≡ p
unfolding parent_path
parent_path-append p n e h k =
    rw
      (
        filename-append p n k,
        take-parent p n,
        is_empty-strip_separators p (separator ∷ n) e h,
        strip_separators-last p h,
        e,
      )
      refl

pub path_eq_refl : (p : FilePath) → path_eq p p ≡ true
unfolding path_eq
path_eq_refl p = (bytes_eq_iff (collapse p) (collapse p)).1 refl

pub is_empty-append : (p n : FilePath) → is_empty (p ++ separator ∷ n) ≡ false
is_empty-append [] n = refl
is_empty-append (c ∷ p) n = refl

pub last_is_separator-append :
    (p n : FilePath)
    → is_empty n ≡ false
    → last_is_separator n ≡ false
    → last_is_separator (p ++ separator ∷ n) ≡ false
last_is_separator-append [] [] e h = absurd (ground arith)
last_is_separator-append [] (c ∷ n) e h = h
last_is_separator-append (c ∷ []) n e h = last_is_separator-append [] n e h
last_is_separator-append (c ∷ d ∷ p) n e h = last_is_separator-append (d ∷ p) n e h

-- A path that ends in a separator, a name and no more.
abbrev pub named : FilePath → FilePath → FilePath
named p n = p ++ separator ∷ n

pub is_empty-filename :
    (p : FilePath)
    → is_empty p ≡ false
    → last_is_separator p ≡ false
    → is_empty (filename p) ≡ false
unfolding filename
is_empty-filename [] e h = absurd (ground arith)
is_empty-filename (c ∷ []) e h = ground arith
is_empty-filename (c ∷ d ∷ p) e h = ground (arith, is_empty-filename (d ∷ p) refl h)

-- `operator/` with a name.
pub path-named :
    (p n : FilePath)
    → is_empty p ≡ false
    → last_is_separator p ≡ false
    → has_separator n ≡ false
    → p /path n ≡ named p n
unfolding ◌/path◌
path-named p [] e h k = rw (is_empty-filename p e h) refl
path-named p (c ∷ n) e h k = ground (arith, is_empty-filename p e h)
