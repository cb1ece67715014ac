-- ===== src/Audit/Version.antt =====
-- `la_version` of rtld-audit/audit.c: what it does to LD_AUDIT and to the paths.
use cuda_autocompat.Base.{◌≡◌, refl, Bool, Option, some, none, arith, Bytes, c_string}
use mathlib.Core.Option
use cuda_autocompat.SearchHelper.{Pipe, find_libcuda}
use cuda_autocompat.Audit.{
  LdAuditBackup, no_backup, sanitize_ld_audit, sanitize_unused, sanitize_with, set_paths,
  restore_if_active, run_search, la_version,
}

-- After `sanitize_ld_audit` the backup is never active, also if an entry was hidden.
slot-sanitize_ld_audit :
    (self_path ld_audit : Option Bytes) {env : Option Bytes} {b : LdAuditBackup}
    → sanitize_ld_audit self_path ld_audit no_backup ≡ some (env, b)
    → b.slot ≡ none
unfolding sanitize_ld_audit sanitize_unused sanitize_with
slot-sanitize_ld_audit self_path none h = ground arith
slot-sanitize_ld_audit self_path (some ld_audit) h = ground arith

restore_if_inactive :
    (env : Option Bytes) (b : LdAuditBackup) → b.slot ≡ none → restore_if_active env b ≡ env
restore_if_inactive none b h = refl
restore_if_inactive (some env) b h = ground arith

-- If `sanitize_ld_audit` returns, then `la_version` returns too and restores nothing: LD_AUDIT is
-- left as `sanitize_ld_audit` made it, also after an entry was hidden.
pub ld_audit-la_version :
    (access : Bytes → Bool) (popen : Option Bytes → Bytes → Option Pipe)
    (self_path path_env ld_audit : Option Bytes) (buf : Bytes) {env : Option Bytes}
    {b : LdAuditBackup}
    → sanitize_ld_audit self_path ld_audit no_backup ≡ some (env, b)
    → la_version access popen self_path path_env ld_audit buf
      ≡ some (
          set_paths
            (find_libcuda access (popen (Option.map c_string env)) self_path path_env buf)
            env)
unfolding la_version
ld_audit-la_version access popen self_path path_env ld_audit buf {env} {b} h =
    rw (h, run_search, restore_if_inactive env b (slot-sanitize_ld_audit self_path ld_audit h))
