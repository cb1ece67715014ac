-- ===== src/Audit/Names.antt =====
-- Names and prefixes in `la_objsearch` of rtld-audit/audit.c, and the buffer of a path that was set.
use cuda_autocompat.Base.{
  ◌-◌, ◌<◌, ◌≡◌, refl, Bool, true, false, ◌||◌, [], ◌∷◌, ◌++◌, append-nil, some, ◌⊎◌, arith, ◌==◌,
  length, Bytes, Lacks, c_head, c_string, zeros, bytes_eq, strncmp_eq, if◌then◌else◌,
}
use cuda_autocompat.PathUtils.{path_max}
use cuda_autocompat.PathUtils.Join.{joined, fill-fits, path_join-joined}
use cuda_autocompat.PathUtils.Prefix.{starts_with, starts_with-append}
use cuda_autocompat.SearchHelper.Read.{delivered}
use cuda_autocompat.Audit.{DriverPath, set_path}

-- `strncmp` over the length of the second string is the test for a prefix.
pub strncmp_eq-starts_with :
    (a b : Bytes) → Lacks 0 a → Lacks 0 b → strncmp_eq a b (length b) ≡ starts_with b a
unfolding strncmp_eq bytes_eq
strncmp_eq-starts_with a [] ha hb = ground arith
strncmp_eq-starts_with [] (y ∷ b) ha (hy, hb) = ground arith
strncmp_eq-starts_with (x ∷ a) (y ∷ b) (hx, ha) (hy, hb) =
    ground (arith, strncmp_eq-starts_with a b ha hb)

-- Bytes behind the part that is compared do not matter.
pub strncmp_eq-more :
    (a b more : Bytes) → strncmp_eq a (b ++ more) (length b) ≡ strncmp_eq a b (length b)
unfolding strncmp_eq
strncmp_eq-more a [] more = refl
strncmp_eq-more [] (y ∷ b) more = refl
strncmp_eq-more (x ∷ a) (y ∷ b) more = rw (strncmp_eq-more a b more)

-- The buffer of a path that was set.
abbrev pub filled : Bytes → DriverPath
filled path = record {
  path = path ++ zeros (path_max - length path);
  path_len = some (length path);
}

module _ (dir soname : Bytes) where
  pub set_path-delivered :
      Lacks 0 dir
      → 0 < length dir
      → length (joined dir soname) < path_max
      → set_path (delivered dir) soname ≡ filled (joined dir soname)
  unfolding set_path
  set_path-delivered hd pos fits =
      rw
        (
          path_join-joined (zeros path_max) dir (zeros (path_max - length dir)) soname hd,
          fill-fits (zeros path_max) (joined dir soname) fits,
        )
        (ground arith)

pub head-joined :
    (dir soname more : Bytes)
    → Lacks 0 dir
    → 0 < length dir
    → (c_head (joined dir soname ++ more) == 0) ≡ false
head-joined [] soname more hd pos = elim pos [ ]
head-joined (c ∷ dir) soname more (nz, hd) pos = ground arith

pub c_string-if :
    (b : Bool) (x y : Bytes)
    → c_string (if b then x else y) ≡ (if b then c_string x else c_string y)
c_string-if true x y = refl
c_string-if false x y = refl

-- What the four alternatives satisfy, the one that is chosen satisfies.
pub choose4 :
    (P : Bytes → Type 0) (a b c d : Bool) (w x y z n : Bytes)
    → P w × P x × P y × P z
    → (a || b || c || d) ≡ true
    → P (if a then w else if b then x else if c then y else if d then z else n)
choose4 P true b c d w x y z n (pw, px, py, pz) h = pw
choose4 P false true c d w x y z n (pw, px, py, pz) h = px
choose4 P false false true d w x y z n (pw, px, py, pz) h = py
choose4 P false false false true w x y z n (pw, px, py, pz) h = pz
choose4 P false false false false w x y z n p h = cc

pub any4 :
    (a b c d : Bool) → (a ≡ true) ⊎ (b ≡ true) ⊎ (c ≡ true) ⊎ (d ≡ true) → (a || b || c || d) ≡ true
any4 a b c d h = ground arith

pub starts_with_self : (s : Bytes) → starts_with s s ≡ true
starts_with_self s = rw (append-nil s) at (starts_with-append s [])
