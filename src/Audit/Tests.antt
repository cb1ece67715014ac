-- ===== src/Audit/Tests.antt =====
-- Runs of audit.c, and the theorems at a concrete installation.
use cuda_autocompat.Base.{
  ℕ, ◌≡◌, refl, Bool, true, false, Option, none, some, List, [], ◌∷◌, ◌++◌, arith, length,
  replicate, length-replicate, zero, suc, Bytes, codes, c_string, zeros, Lacks, bytes_eq,
  bytes_eq_refl, strncmp_eq,
}
use mathlib.Core.Option
use cuda_autocompat.PathUtils.{
  path_max, path_filename, path_filename2, path_prefix, path_join, tokens,
}
use cuda_autocompat.PathUtils.Join.{joined, fill, ends_with_separator}
use cuda_autocompat.PathUtils.Filename.{base_name}
use cuda_autocompat.SearchHelper.{
  helper_path, Pipe, success, end_of_input, memchr, read_loop, find_search_helper, find_libcuda,
}
use cuda_autocompat.SearchHelper.Find.{find_search_helper-installed}
use cuda_autocompat.SearchHelper.Read.{delivered}
use cuda_autocompat.Audit.{
  AuditState, no_backup, sanitize_ld_audit, restore_ld_audit, audit_loop, set_paths, la_version,
  la_objsearch, la_objopen, libnvidia_ptxjitcompiler_soname, bind_flags,
}
use cuda_autocompat.Audit.Backup.{backup_of}
use cuda_autocompat.Audit.Sanitize.{restore-audit_loop, sanitize-hidden}
use cuda_autocompat.Audit.Version.{ld_audit-la_version}
use cuda_autocompat.Audit.Redirect.{target, la_objopen-la_objsearch}
use cuda_autocompat.Audit.Unset.{la_objsearch-lost}
use cuda_autocompat.SearchHelper.Stderr.{find_search_helper_written, find_libcuda_written}
use cuda_autocompat.Audit.Stderr.{
  sanitize_ld_audit_written, la_version_written, Located, la_version_written-silent,
}
use cuda_autocompat.Audit.Start.{la_objsearch-la_version}

abbrev self : Bytes
self = codes "/opt/lib64/audit.so"

abbrev others : List Bytes
others = codes "/usr/lib/other.so" ∷ []

-- LD_AUDIT with the library behind one entry and in front of another.
abbrev ld_audit : Bytes
ld_audit = codes "/usr/lib/other.so:/opt/lib64/audit.so:last.so"

abbrev entry : Bytes
entry = codes "/opt/lib64/audit.so:"

restore-audit_loop_example :
    Option.map
      (λ (env, b). restore_ld_audit env b)
      (audit_loop ld_audit
        (base_name self)
        (length (base_name self))
        (tokens ld_audit b':')
        no_backup)
    ≡ some (ld_audit, no_backup)
unfolding path_max path_filename2 bytes_eq
restore-audit_loop_example =
    restore-audit_loop self others (codes "/opt/lib64/audit.so") (codes "last.so") (omega arith)
      (refl, tt) (omega arith) refl (omega arith) (omega arith)

sanitize-hidden_example :
    sanitize_ld_audit (some self) (some ld_audit) no_backup
    ≡ some (
      some (codes "/usr/lib/other.so:last.so" ++ zeros 20),
      record (backup_of (codes "/usr/lib/other.so:") entry (codes "last.so")) { slot = none },
    )
unfolding path_max path_filename2 bytes_eq
sanitize-hidden_example =
    sanitize-hidden self others (codes "/opt/lib64/audit.so") (codes "last.so") (omega arith)
      (omega arith) (omega arith) (refl, tt) (omega arith) refl (omega arith) (omega arith)

abbrev driver : Bytes
driver = codes "/usr/lib64/compat"

la_objopen-la_objsearch_example :
    let s = set_paths (delivered driver) none in
    la_objopen s (some (c_string (la_objsearch s (codes "libnvidia-nvvm.so.4")))) ≡ bind_flags
unfolding path_max bytes_eq
la_objopen-la_objsearch_example =
    la_objopen-la_objsearch driver (omega arith) (omega arith) (omega arith) none
      (codes "libnvidia-nvvm.so.4") (omega arith) refl

-- A directory of 4070 bytes.
long_driver : Bytes
long_driver = replicate 4070 b'a'

Lacks-replicate : (n : ℕ) → Lacks 0 (replicate n b'a')
Lacks-replicate zero = tt
Lacks-replicate (suc n) = (omega arith, Lacks-replicate n)

ends-replicate : (n : ℕ) → ends_with_separator (replicate n b'a') ≡ false
ends-replicate zero = refl
ends-replicate (suc zero) = refl
ends-replicate (suc (suc n)) = ends-replicate (suc n)

la_objsearch-lost_example :
    c_string (
      la_objsearch (set_paths (delivered long_driver) none) (libnvidia_ptxjitcompiler_soname ++ []))
    ≡ []
unfolding path_max long_driver
la_objsearch-lost_example =
    la_objsearch-lost long_driver none [] (Lacks-replicate 4070)
      (omega (arith, length-replicate {A = ℕ} 4070 b'a')) (ends-replicate 4070)
      (omega (arith, length-replicate {A = ℕ} 4070 b'a'))
      (omega (arith, length-replicate {A = ℕ} 4070 b'a'))

-- The helper is there, is run with the value that hides the library, and prints a directory.
abbrev installed : Bytes → Bool
installed path = bytes_eq path (joined (codes "/opt") helper_path)

abbrev popen : Option Bytes → Bytes → Option Pipe
popen env path = some (record { stream = codes "/usr/lib64/compat"; status = success })

ld_audit-la_version_example :
    let env = codes "/usr/lib/other.so:last.so" ++ zeros 20 in
    la_version installed popen (some self) none (some ld_audit) (zeros path_max)
    ≡ some (
        set_paths
          (find_libcuda installed (popen (some (c_string env))) (some self) none (zeros path_max))
          (some env))
ld_audit-la_version_example =
    ld_audit-la_version installed popen (some self) none (some ld_audit) (zeros path_max)
      sanitize-hidden_example

found :
    find_search_helper installed (some self) none (zeros path_max)
    ≡ (true, (fill (zeros path_max) (codes "/opt/libexec/cuda-autocompat-search")).1)
unfolding path_max
found =
    find_search_helper-installed installed (codes "/opt") (codes "64") (codes "audit.so") none
      (zeros path_max) (omega arith) (omega arith) (omega arith) (omega arith)
      (bytes_eq_refl (joined (codes "/opt") helper_path))

la_objsearch-la_version_example :
    (s : AuditState) × (la_version installed popen (some self) none none (zeros path_max) ≡ some s)
    × ((name : Bytes) → Lacks 0 name → c_string (la_objsearch s name) ≡ target driver name)
unfolding path_max
la_objsearch-la_version_example =
    la_objsearch-la_version installed popen (some self) none none none no_backup (zeros path_max) _
      (codes "/usr/lib64/compat") (unfold sanitize_ld_audit in refl) found refl (omega arith)
      (omega arith) (omega arith)

nothing_written :
    (la_version_written installed popen [] (some self) none (some ld_audit) (zeros path_max)).0 ≡ []
unfolding la_version_written sanitize_ld_audit_written find_libcuda_written
    find_search_helper_written path_max path_filename2 path_prefix path_join bytes_eq audit_loop
    path_filename strncmp_eq end_of_input memchr read_loop
nothing_written = refl

la_version_written-silent_example :
    Located installed popen []
      (some self)
      none
      (some ld_audit)
      (some (codes "/usr/lib/other.so:last.so" ++ zeros 20))
      (zeros path_max)
la_version_written-silent_example =
    la_version_written-silent installed popen [] (some self) none (some ld_audit)
      (some (codes "/usr/lib/other.so:last.so" ++ zeros 20)) _ (zeros path_max) nothing_written
      sanitize-hidden_example
