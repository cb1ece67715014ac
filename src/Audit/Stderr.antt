-- ===== src/Audit/Stderr.antt =====
-- What rtld-audit/audit.c writes to stderr.
use cuda_autocompat.Base.{
  true, length, ℕ, zero, suc, ◌≡◌, refl, subst, ap, ◌∙◌, Bool, Option, none, some, [], ◌∷◌, ◌++◌,
  if◌then◌else◌, ◌==◌, ◌<◌, arith, Bytes, codes, c_string,
}
use mathlib.Core.Option
use cuda_autocompat.PathUtils.{path_filename2, tokens}
use cuda_autocompat.SearchHelper.{Pipe, success, find_search_helper, find_libcuda}
use cuda_autocompat.SearchHelper.Read.{line_of, delivered}
use cuda_autocompat.SearchHelper.Located.{find_libcuda-located}
use cuda_autocompat.Audit.Version.{ld_audit-la_version}
use cuda_autocompat.SearchHelper.Stderr.{
  Written, fputs, find_libcuda_written, find_libcuda_written-find_libcuda,
}
use cuda_autocompat.Audit.{
  LdAuditBackup, no_backup, Checked, audit_loop, forget_slot, sanitize_with, sanitize_unused,
  sanitize_ld_audit, restore_ld_audit, AuditState, set_paths, restore_if_active, run_search,
  la_version,
}

abbrev Sanitized : Type 0
Sanitized = Checked (Option Bytes × LdAuditBackup)

-- A warning that LD_AUDIT is left as it is.
abbrev cannot_sanitize : Bytes → Option Bytes → LdAuditBackup → Written Sanitized
cannot_sanitize reason ld_audit backup =
    fputs (codes "warning: Cannot sanitize LD_AUDIT" ++ reason) ([], some (ld_audit, backup))

abbrev invalid_filename : Bytes → LdAuditBackup → Written Sanitized
invalid_filename ld_audit backup =
    cannot_sanitize (codes ": invalid filename for self") (some ld_audit)
      (record backup { slot = none })

sanitize_with_written : Bytes → Option (Bytes × ℕ) → LdAuditBackup → Written Sanitized
sanitize_with_written ld_audit none backup = invalid_filename ld_audit backup
sanitize_with_written ld_audit (some (self_fname, self_fname_len)) backup =
    if self_fname_len == 0 then invalid_filename ld_audit backup else (
      [],
      forget_slot (audit_loop ld_audit self_fname self_fname_len (tokens ld_audit b':') backup),
    )

sanitize_unused_written : Option Bytes → Option Bytes → LdAuditBackup → Written Sanitized
sanitize_unused_written self_path none backup = ([], some (none, record backup { slot = none }))
sanitize_unused_written self_path (some ld_audit) backup = elim self_path [
  | none ↦
      cannot_sanitize (codes ": failed to get path to self") (some ld_audit)
        (record backup { slot = none })
  | some path ↦ sanitize_with_written ld_audit (path_filename2 (some path)) backup
]

unfoldable pub sanitize_ld_audit_written :
    Option Bytes → Option Bytes → LdAuditBackup → Written Sanitized
unfolding sanitize_with_written sanitize_unused_written
sanitize_ld_audit_written self_path ld_audit backup = elim backup.slot [
  | some _ ↦ cannot_sanitize (codes "; backup buffer is in use") ld_audit backup
  | none ↦ sanitize_unused_written self_path ld_audit backup
]

unfoldable restore_ld_audit_written : Bytes → LdAuditBackup → Written (Bytes × LdAuditBackup)
restore_ld_audit_written ld_audit backup = elim backup.slot [
  | none ↦
      fputs (codes "warning: Cannot restore LD_AUDIT; backup buffer is not active")
        ([], (ld_audit, backup))
  | some slot ↦ ([], restore_ld_audit ld_audit backup)
]

-- The end of `la_version`, which restores LD_AUDIT only from a backup that is active.
abbrev restore_if_active_written : Option Bytes → LdAuditBackup → Written (Option Bytes)
restore_if_active_written none backup = ([], none)
restore_if_active_written (some ld_audit) backup = elim backup.slot [
  | none ↦ ([], some ld_audit)
  | some _ ↦
      let restored = restore_ld_audit_written ld_audit backup in (restored.0, some restored.1.0)
]

abbrev not_located : ℕ → Bytes
not_located found_len =
    if found_len == 0
    then codes "error: Failed to locate a usable libcuda.so.1" ++ b'\n' ∷ []
    else []

module _ (access : Bytes → Bool) (popen : Option Bytes → Bytes → Option Pipe)
    (strerror : Bytes) where
  run_search_written :
      Option Bytes → Option Bytes → Bytes → Sanitized → Written (Checked AuditState)
  run_search_written self_path path_env buf none = ([], none)
  run_search_written self_path path_env buf (some (ld_audit, backup)) =
      let found =
        find_libcuda_written strerror access (popen (Option.map c_string ld_audit)) self_path
          path_env buf in
      let restored = restore_if_active_written ld_audit backup in
      (found.0 ++ (not_located found.1.0 ++ restored.0), some (set_paths found.1 restored.1))

  unfoldable pub la_version_written :
      Option Bytes → Option Bytes → Option Bytes → Bytes → Written (Checked AuditState)
  unfolding run_search_written sanitize_ld_audit_written restore_ld_audit_written set_paths
  la_version_written self_path path_env ld_audit buf =
      let sanitized = sanitize_ld_audit_written self_path ld_audit no_backup in
      let rest = run_search_written self_path path_env buf sanitized.1 in
      (sanitized.0 ++ rest.0, rest.1)

sanitize_with_written-sanitize_with :
    (ld_audit : Bytes) (r : Option (Bytes × ℕ)) (backup : LdAuditBackup)
    → (sanitize_with_written ld_audit r backup).1 ≡ sanitize_with ld_audit r backup
unfolding sanitize_with_written sanitize_with
sanitize_with_written-sanitize_with ld_audit none backup = refl
sanitize_with_written-sanitize_with ld_audit (some (self_fname, n)) backup = ground arith

sanitize_unused_written-sanitize_unused :
    (self_path ld_audit : Option Bytes) (backup : LdAuditBackup)
    → (sanitize_unused_written self_path ld_audit backup).1
      ≡ sanitize_unused self_path ld_audit backup
unfolding sanitize_unused_written sanitize_unused
sanitize_unused_written-sanitize_unused self_path none backup = refl
sanitize_unused_written-sanitize_unused none (some ld_audit) backup = refl
sanitize_unused_written-sanitize_unused (some path) (some ld_audit) backup =
    sanitize_with_written-sanitize_with ld_audit (path_filename2 (some path)) backup

-- The text does not change the values.
sanitize_ld_audit_written-sanitize_ld_audit :
    (self_path ld_audit : Option Bytes) (backup : LdAuditBackup)
    → (sanitize_ld_audit_written self_path ld_audit backup).1
      ≡ sanitize_ld_audit self_path ld_audit backup
unfolding sanitize_ld_audit_written sanitize_ld_audit
sanitize_ld_audit_written-sanitize_ld_audit self_path ld_audit backup =
    ground (arith, sanitize_unused_written-sanitize_unused self_path ld_audit backup)

restore_if_active_written-restore_if_active :
    (ld_audit : Option Bytes) (backup : LdAuditBackup)
    → (restore_if_active_written ld_audit backup).1 ≡ restore_if_active ld_audit backup
unfolding restore_ld_audit_written
restore_if_active_written-restore_if_active none backup = refl
restore_if_active_written-restore_if_active (some ld_audit) backup = ground arith

append-empty : (s t : Bytes) → s ++ t ≡ [] → t ≡ []
append-empty [] t h = h
append-empty (c ∷ s) t h = ground arith

-- Without an error there is a length.
located : (found_len : ℕ) (t : Bytes) → not_located found_len ++ t ≡ [] → 0 < found_len
located zero t h = ground arith
located (suc n) t h = ground arith

module _ (access : Bytes → Bool) (popen : Option Bytes → Bytes → Option Pipe)
    (strerror : Bytes) where
  run_search_written-run_search :
      (self_path path_env : Option Bytes) (buf : Bytes) (sanitized : Sanitized)
      → (run_search_written access popen strerror self_path path_env buf sanitized).1
        ≡ run_search access popen self_path path_env buf sanitized
  unfolding run_search_written run_search
  run_search_written-run_search self_path path_env buf none = refl
  run_search_written-run_search self_path path_env buf (some (ld_audit, backup)) = rw (
    find_libcuda_written-find_libcuda strerror access (popen (Option.map c_string ld_audit))
        self_path path_env buf,
    restore_if_active_written-restore_if_active ld_audit backup,
  )

  -- With its messages `la_version` does what it does in the model without them.
  la_version_written-la_version :
      (self_path path_env ld_audit : Option Bytes) (buf : Bytes)
      → (la_version_written access popen strerror self_path path_env ld_audit buf).1
        ≡ la_version access popen self_path path_env ld_audit buf
  unfolding la_version_written la_version
  la_version_written-la_version self_path path_env ld_audit buf =
      run_search_written-run_search self_path path_env buf
        (sanitize_ld_audit_written self_path ld_audit no_backup).1
      ∙ ap (run_search access popen self_path path_env buf)
          (sanitize_ld_audit_written-sanitize_ld_audit self_path ld_audit no_backup)

  run_search_written-silent :
      (self_path path_env env : Option Bytes) (buf : Bytes) (backup : LdAuditBackup)
      → (run_search_written access popen strerror self_path path_env buf (some (env, backup))).0
        ≡ []
      → 0 < (find_libcuda access (popen (Option.map c_string env)) self_path path_env buf).0
  unfolding run_search_written
  run_search_written-silent self_path path_env env buf backup h =
      let found =
        find_libcuda_written strerror access (popen (Option.map c_string env)) self_path path_env
          buf in
      let restored = restore_if_active_written env backup in
      let positive = located found.1.0 restored.0 (append-empty found.0 _ h) in
      subst (λ r. 0 < r.0)
        (find_libcuda_written-find_libcuda strerror access (popen (Option.map c_string env))
          self_path path_env buf)
        positive

  -- What must hold of the helper: it is found, run with this LD_AUDIT, ends with status 0 and
  -- prints a path. The state then names the four libraries in that directory.
  pub record Located (self_path path_env ld_audit env : Option Bytes) (buf : Bytes) : Type 0 where
    pub helper : Bytes
    pub stream : Bytes
    pub found : find_search_helper access self_path path_env buf ≡ (true, helper)
    pub ran :
        popen (Option.map c_string env) (c_string helper)
        ≡ some (record { stream = stream; status = success })
    pub printed : 0 < length (line_of stream)
    pub state :
        la_version access popen self_path path_env ld_audit buf
        ≡ some (set_paths (delivered (line_of stream)) env)

  -- If `la_version` writes nothing to stderr, and `sanitize_ld_audit` is in bounds, then the helper
  -- is found, it is run with LD_AUDIT as `sanitize_ld_audit` leaves it and ends with status 0, what
  -- it prints is not empty up to its first NUL, or up to its first newline if it has no NUL, and
  -- `la_version` sets the four paths from that text.
  pub la_version_written-silent :
      (self_path path_env ld_audit env : Option Bytes) (backup : LdAuditBackup) (buf : Bytes)
      → (la_version_written access popen strerror self_path path_env ld_audit buf).0 ≡ []
      → sanitize_ld_audit self_path ld_audit no_backup ≡ some (env, backup)
      → Located self_path path_env ld_audit env buf
  unfolding la_version_written
  la_version_written-silent self_path path_env ld_audit env backup buf h clean =
      let sanitized = sanitize_ld_audit_written self_path ld_audit no_backup in
      let run = run_search_written access popen strerror self_path path_env buf in
      let same : sanitized.1 ≡ some (env, backup) =
        sanitize_ld_audit_written-sanitize_ld_audit self_path ld_audit no_backup ∙ clean in
      let text : (run sanitized.1).0 ≡ [] = append-empty sanitized.0 (run sanitized.1).0 h in
      let positive =
        run_search_written-silent self_path path_env env buf backup
          (subst (λ c. (run c).0 ≡ []) same text) in
      let (helper, stream, found, ran, printed, known) =
        find_libcuda-located access (popen (Option.map c_string env)) self_path path_env buf
          positive in
      record {
        helper = helper;
        stream = stream;
        found = found;
        ran = ran;
        printed = printed;
        state =
            ld_audit-la_version access popen self_path path_env ld_audit buf clean
            ∙ ap (λ r. some (set_paths r env)) known;
      }
