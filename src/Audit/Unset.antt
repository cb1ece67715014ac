-- ===== src/Audit/Unset.antt =====
-- `la_objsearch` and `la_objopen` when `la_version` set no path, or only some.
use cuda_autocompat.Base.{
  ℕ, zero, suc, ◌+◌, ◌-◌, ◌≤◌, ◌<◌, ◌≡◌, refl, ap, sym, ◌∙◌, true, false, [], ◌∷◌, ◌++◌, Option,
  some, none, inl, inr, Bool-cases, arith, ◌==◌, length, Bytes, Lacks, c_head, c_string, zeros,
  strncmp_eq, c_string-zeros, subst,
}
use cuda_autocompat.PathUtils.{path_max}
use cuda_autocompat.PathUtils.Join.{
  joined, ends_with_separator, fill-overflow, length-joined_sep, path_join-joined, length-joined,
}
use cuda_autocompat.SearchHelper.Read.{delivered}
use cuda_autocompat.Audit.{
  set_path, set_paths, la_objsearch, la_objopen, size_max, libcuda_soname,
  libnvidia_ptxjitcompiler_soname,
}
use cuda_autocompat.Audit.Names.{set_path-delivered, head-joined}

c_head-zeros : (n : ℕ) → (c_head (zeros n) == 0) ≡ true
c_head-zeros zero = refl
c_head-zeros (suc n) = refl

strncmp_eq-zeros-suc :
    (c : ℕ) (name : Bytes) (n k : ℕ)
    → (c == 0) ≡ false
    → strncmp_eq (c ∷ name) (zeros n) (suc k) ≡ false
unfolding strncmp_eq
strncmp_eq-zeros-suc c name zero k go = go
strncmp_eq-zeros-suc c name (suc n) k go = rw go

strncmp_eq-zeros :
    (c : ℕ) (name : Bytes) (n : ℕ)
    → (c == 0) ≡ false
    → strncmp_eq (c ∷ name) (zeros n) size_max ≡ false
strncmp_eq-zeros c name n go =
    let e : size_max ≡ suc (size_max - 1) = unfold size_max in omega arith in
    subst (λ k. strncmp_eq (c ∷ name) (zeros n) k ≡ false) (sym e)
      (strncmp_eq-zeros-suc c name n (size_max - 1) go)

path-set_path_overflow :
    (dir soname : Bytes)
    → Lacks 0 dir
    → path_max ≤ length (joined dir soname)
    → (set_path (delivered dir) soname).path ≡ zeros path_max
unfolding set_path
path-set_path_overflow dir soname hd long =
    rw
      (
        path_join-joined (zeros path_max) dir (zeros (path_max - length dir)) soname hd,
        fill-overflow (zeros path_max) (joined dir soname) long,
      )
      (ground arith)

la_objsearch-unset :
    (buf : Bytes) (ld_audit : Option Bytes) (name : Bytes)
    → la_objsearch (set_paths (0, buf) ld_audit) name ≡ name
unfolding la_objsearch set_paths
la_objsearch-unset buf ld_audit name = rw (c_head-zeros path_max)

la_objopen-unset :
    (buf : Bytes) (ld_audit name : Option Bytes) → la_objopen (set_paths (0, buf) ld_audit) name ≡ 0
unfolding la_objopen set_paths
la_objopen-unset buf ld_audit none = refl
la_objopen-unset buf ld_audit (some []) = refl
la_objopen-unset buf ld_audit (some (c ∷ name)) = elim (Bool-cases (c == 0)) [
  | inl end ↦ rw end
  | inr go ↦ rw (go, strncmp_eq-zeros c name path_max go)
]

-- If `find_libcuda` returned 0, then `la_objsearch` returns every name as it is, and `la_objopen`
-- returns no flags.
pub unset_is_neutral :
    (buf : Bytes) (ld_audit : Option Bytes) (name : Bytes)
    → (la_objsearch (set_paths (0, buf) ld_audit) name ≡ name)
      × (la_objopen (set_paths (0, buf) ld_audit) (some name) ≡ 0)
unset_is_neutral buf ld_audit name =
    (la_objsearch-unset buf ld_audit name, la_objopen-unset buf ld_audit (some name))

-- For a directory, not ending in a separator, whose path leaves room for the first soname and none
-- for the third, the first path is set and the third is not: a name that starts with the third
-- soname is sent to the empty path.
pub la_objsearch-lost :
    (dir : Bytes) (ld_audit : Option Bytes) (more : Bytes)
    → Lacks 0 dir
    → 0 < length dir
    → ends_with_separator dir ≡ false
    → length dir + 13 < path_max
    → path_max ≤ length dir + 30
    → c_string (
        la_objsearch (set_paths (delivered dir) ld_audit) (libnvidia_ptxjitcompiler_soname ++ more))
      ≡ []
unfolding la_objsearch set_paths strncmp_eq
la_objsearch-lost dir ld_audit more hd pos no_end room full =
    let first =
      set_path-delivered dir libcuda_soname hd pos
        (omega (arith, length-joined dir libcuda_soname pos)) in
    let third =
      path-set_path_overflow dir libnvidia_ptxjitcompiler_soname hd
        (omega (arith, length-joined_sep dir libnvidia_ptxjitcompiler_soname pos no_end refl)) in
    rw
      (
        first,
        head-joined dir libcuda_soname (zeros (path_max - length (joined dir libcuda_soname))) hd
            pos,
      )
      (ap c_string third ∙ c_string-zeros path_max)
