-- ===== src/Audit.antt =====
-- rtld-audit/audit.c: the audit library. `la_version` hides the library from the helper that it
-- runs, finds the driver's directory and fixes four paths; `la_objsearch` redirects the driver's
-- libraries to them, and `la_objopen` marks them. The static variables are a record, and so is the
-- backup, which exists always: its tests for NULL have no counterpart. Stderr has the messages.
mod Tests
pub mod Backup
pub mod Sanitize
pub mod Version
pub mod Names
pub mod Redirect
pub mod Unset
pub mod Start
pub mod Stderr
use cuda_autocompat.Base.{
  ℕ, zero, suc, ◌+◌, ◌-◌, ◌^◌, ◌≡◌, Bool, true, false, not, ◌&&◌, ◌||◌, Option, none, some, List,
  [], ◌∷◌, ◌++◌, if◌then◌else◌, ltb, leb, ◌==◌, length, take, drop, Bytes, codes, c_head, c_string,
  zeros, write, strncmp_eq,
}
use mathlib.Core.Option
use cuda_autocompat.PathUtils.{Token, path_max, path_join, tokens, path_filename, path_filename2}
use cuda_autocompat.SearchHelper.{Pipe, find_libcuda}

-- ld_audit_backup. `slot` is an offset into the value of LD_AUDIT, `none` for NULL.
pub record LdAuditBackup : Type 0 where
  pub contents : Bytes
  pub slot : Option ℕ
  pub slot_len : ℕ
  pub trailing_len : ℕ

-- `memset(backup, 0, sizeof(ld_audit_backup))`
abbrev pub no_backup : LdAuditBackup
no_backup = record { contents = zeros path_max; slot = none; slot_len = 0; trailing_len = 0 }

-- A call that may write past the end of a buffer gives `none` if it does.
abbrev Checked : Type 0 → Type 0
Checked A = Option A

-- The body of the loop at an entry that matches: the entry and its delimiter go to the backup, the
-- rest moves down, and the bytes that are left over are cleared.
unfoldable pub take_slot : Bytes → Token → Checked (Bytes × LdAuditBackup)
take_slot ld_audit t =
    let slot = length ld_audit - length t.token in
    let slot_len = length t.token - length t.next in
    let trailing_len = length (c_string t.next) in
    let moved = write ld_audit slot (take trailing_len t.next) in
    if ltb path_max slot_len
    then none
    else some (
      write moved (slot + trailing_len) (zeros slot_len),
      record {
        contents = take slot_len t.token ++ zeros (path_max - slot_len);
        slot = some slot;
        slot_len = slot_len;
        trailing_len = trailing_len;
      },
    )

-- The test of the loop: the entry's file name is the library's own.
unfoldable pub is_self : Bytes → ℕ → Token → Bool
is_self self_fname self_fname_len t = elim (path_filename (some t.token) t.token_len) [
  | none ↦ false
  | some token_fname ↦
      let token_fname_len = t.token_len - (length t.token - length token_fname) in
      token_fname_len == self_fname_len && strncmp_eq token_fname self_fname self_fname_len
]

-- The loop over the entries of LD_AUDIT.
unfoldable pub audit_loop :
    Bytes → Bytes → ℕ → List Token → LdAuditBackup → Checked (Bytes × LdAuditBackup)
unfolding take_slot is_self
audit_loop ld_audit self_fname self_fname_len [] backup = some (ld_audit, backup)
audit_loop ld_audit self_fname self_fname_len (t ∷ ts) backup =
    let rest = audit_loop ld_audit self_fname self_fname_len ts backup in
    if ltb t.token_len self_fname_len
    then rest
    else if is_self self_fname self_fname_len t
    then take_slot ld_audit t
    else rest

-- `backup->slot = NULL;` behind the loop, on every way out of it.
abbrev forget_slot : Checked (Bytes × LdAuditBackup) → Checked (Option Bytes × LdAuditBackup)
forget_slot none = none
forget_slot (some (ld_audit, backup)) = some (some ld_audit, record backup { slot = none })

sanitize_with : Bytes → Option (Bytes × ℕ) → LdAuditBackup → Checked (Option Bytes × LdAuditBackup)
sanitize_with ld_audit none backup = some (some ld_audit, record backup { slot = none })
sanitize_with ld_audit (some (self_fname, self_fname_len)) backup =
    if self_fname_len == 0
    then some (some ld_audit, record backup { slot = none })
    else forget_slot (audit_loop ld_audit self_fname self_fname_len (tokens ld_audit b':') backup)

sanitize_unused :
    Option Bytes → Option Bytes → LdAuditBackup → Checked (Option Bytes × LdAuditBackup)
sanitize_unused self_path none backup = some (none, record backup { slot = none })
sanitize_unused self_path (some ld_audit) backup = elim self_path [
  | none ↦ some (some ld_audit, record backup { slot = none })
  | some path ↦ sanitize_with ld_audit (path_filename2 (some path)) backup
]

-- From `get_path_to_self()` and `secure_getenv("LD_AUDIT")`, the new value and the backup.
unfoldable pub sanitize_ld_audit :
    Option Bytes → Option Bytes → LdAuditBackup → Checked (Option Bytes × LdAuditBackup)
unfolding audit_loop sanitize_with sanitize_unused
sanitize_ld_audit self_path ld_audit backup = elim backup.slot [
  | some _ ↦ some (ld_audit, backup)
  | none ↦ sanitize_unused self_path ld_audit backup
]

unfoldable pub restore_ld_audit : Bytes → LdAuditBackup → Bytes × LdAuditBackup
restore_ld_audit ld_audit backup = elim backup.slot [
  | none ↦ (ld_audit, backup)
  | some slot ↦
      let moved =
        write ld_audit (slot + backup.slot_len) (take backup.trailing_len (drop slot ld_audit)) in
      (write moved slot (take backup.slot_len backup.contents), no_backup)
]

-- One of the four buffers, and the length of its path, none for -1.
pub record DriverPath : Type 0 where
  pub path : Bytes
  pub path_len : Option ℕ

abbrev unset : DriverPath
unset = record { path = zeros path_max; path_len = none }

pub record AuditState : Type 0 where
  pub libcuda : DriverPath
  pub libnvidia_nvvm : DriverPath
  pub libnvidia_ptxjitcompiler : DriverPath
  pub libcudadebugger : DriverPath
  pub ld_audit : Option Bytes

abbrev pub libcuda_soname : Bytes
libcuda_soname = codes "libcuda.so.1"

abbrev pub libnvidia_nvvm_soname : Bytes
libnvidia_nvvm_soname = codes "libnvidia-nvvm.so.4"

abbrev pub libnvidia_ptxjitcompiler_soname : Bytes
libnvidia_ptxjitcompiler_soname = codes "libnvidia-ptxjitcompiler.so.1"

abbrev pub libcudadebugger_soname : Bytes
libcudadebugger_soname = codes "libcudadebugger.so.1"

-- The path of a library in the driver's directory; nothing is set if no directory was found.
unfoldable pub set_path : ℕ × Bytes → Bytes → DriverPath
set_path found soname =
    let joined = path_join (zeros path_max) found.1 found.0 soname in
    if found.0 == 0 then unset else record { path = joined.1; path_len = joined.0 }

unfoldable pub set_paths : ℕ × Bytes → Option Bytes → AuditState
unfolding set_path
set_paths found ld_audit = record {
  libcuda = set_path found libcuda_soname;
  libnvidia_nvvm = set_path found libnvidia_nvvm_soname;
  libnvidia_ptxjitcompiler = set_path found libnvidia_ptxjitcompiler_soname;
  libcudadebugger = set_path found libcudadebugger_soname;
  ld_audit = ld_audit;
}

-- `if (backup.slot) restore_ld_audit(&backup);`
abbrev restore_if_active : Option Bytes → LdAuditBackup → Option Bytes
restore_if_active none backup = none
restore_if_active (some ld_audit) backup = elim backup.slot [
  | none ↦ some ld_audit
  | some _ ↦ some (restore_ld_audit ld_audit backup).0
]

-- The helper inherits LD_AUDIT as it is when it is run, so `popen` takes it too. `buf` is the local
-- array of `find_libcuda`. The result, LAV_CURRENT, is left out.
module _ (access : Bytes → Bool) (popen : Option Bytes → Bytes → Option Pipe) where
  run_search :
      Option Bytes
      → Option Bytes
      → Bytes
      → Checked (Option Bytes × LdAuditBackup)
      → Checked AuditState
  run_search self_path path_env buf none = none
  run_search self_path path_env buf (some (ld_audit, backup)) =
      let found =
        find_libcuda access (popen (Option.map c_string ld_audit)) self_path path_env buf in
      some (set_paths found (restore_if_active ld_audit backup))

  unfoldable pub la_version :
      Option Bytes → Option Bytes → Option Bytes → Bytes → Checked AuditState
  unfolding run_search sanitize_ld_audit restore_ld_audit set_paths
  la_version self_path path_env ld_audit buf =
      run_search self_path path_env buf (sanitize_ld_audit self_path ld_audit no_backup)

-- The bytes at the returned pointer.
unfoldable pub la_objsearch : AuditState → Bytes → Bytes
la_objsearch s name =
    let is = λ (soname : Bytes). strncmp_eq name soname (length soname) in
    if c_head s.libcuda.path == 0
    then name
    else if is libcuda_soname
    then s.libcuda.path
    else if is libnvidia_nvvm_soname
    then s.libnvidia_nvvm.path
    else if is libnvidia_ptxjitcompiler_soname
    then s.libnvidia_ptxjitcompiler.path
    else if is libcudadebugger_soname
    then s.libcudadebugger.path
    else name

-- SIZE_MAX, the `size_t` that the `int` -1 is converted to for `strncmp`.
unfoldable pub size_max : ℕ
size_max = 2 ^ 64 - 1

abbrev as_size : Option ℕ → ℕ
as_size none = size_max
as_size (some n) = n

abbrev pub at_path : Bytes → DriverPath → Bool
at_path name d = strncmp_eq name d.path (as_size d.path_len)

-- LA_FLG_BINDTO | LA_FLG_BINDFROM
abbrev pub bind_flags : ℕ
bind_flags = 3

unfoldable pub la_objopen : AuditState → Option Bytes → ℕ
la_objopen s none = 0
la_objopen s (some name) =
    if c_head name == 0
    then 0
    else if at_path name s.libcuda
        || at_path name s.libnvidia_nvvm
        || at_path name s.libnvidia_ptxjitcompiler
        || at_path name s.libcudadebugger
    then bind_flags
    else 0
