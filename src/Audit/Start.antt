-- ===== src/Audit/Start.antt =====
-- From the start of the audit library to a redirected name.
use cuda_autocompat.Base.{
  ◌+◌, ◌<◌, ◌≡◌, refl, Bool, true, Option, some, length, Bytes, Lacks, c_string,
}
use mathlib.Core.Option
use cuda_autocompat.PathUtils.{path_max}
use cuda_autocompat.SearchHelper.{Pipe, success, find_search_helper, find_libcuda}
use cuda_autocompat.SearchHelper.Read.{line_of, delivered, find_libcuda-answer}
use cuda_autocompat.Audit.{
  AuditState, LdAuditBackup, no_backup, sanitize_ld_audit, set_paths, la_version, la_objsearch,
}
use cuda_autocompat.Audit.Version.{ld_audit-la_version}
use cuda_autocompat.Audit.Redirect.{target, la_objsearch-target}

module _ (access : Bytes → Bool) (popen : Option Bytes → Bytes → Option Pipe)
    (self_path path_env ld_audit env : Option Bytes) (b : LdAuditBackup)
    (buf helper stream : Bytes) where
  -- If the helper is found, run with LD_AUDIT as `sanitize_ld_audit` leaves it and ends with status
  -- 0, and the first line of its output is a path that leaves room for the longest soname, then
  -- `la_version` succeeds, and afterwards `la_objsearch` sends the names that start with one of
  -- the four sonames to that directory, and no others.
  pub la_objsearch-la_version :
      sanitize_ld_audit self_path ld_audit no_backup ≡ some (env, b)
      → find_search_helper access self_path path_env buf ≡ (true, helper)
      → popen (Option.map c_string env) (c_string helper)
        ≡ some (record { stream = stream; status = success })
      → Lacks 0 (line_of stream)
      → 0 < length (line_of stream)
      → length (line_of stream) + 30 < path_max
      → (s : AuditState) × (la_version access popen self_path path_env ld_audit buf ≡ some s)
        × ((name : Bytes)
            → Lacks 0 name
            → c_string (la_objsearch s name) ≡ target (line_of stream) name)
  la_objsearch-la_version clean found ran hz pos short =
      let ran_helper =
        find_libcuda-answer access (popen (Option.map c_string env)) self_path path_env buf in
      let known : find_libcuda access (popen (Option.map c_string env)) self_path path_env buf
          ≡ delivered (line_of stream) =
        rw (ran_helper, found, ran) refl in
      (
        set_paths (delivered (line_of stream)) env,
        rw (ld_audit-la_version access popen self_path path_env ld_audit buf clean, known),
        λ name hn. la_objsearch-target (line_of stream) hz pos short env name hn,
      )
