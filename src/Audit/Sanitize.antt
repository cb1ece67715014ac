-- ===== src/Audit/Sanitize.antt =====
-- Which entry of LD_AUDIT `sanitize_ld_audit` hides, and what it leaves in the backup.
use cuda_autocompat.Base.{
  ℕ, zero, suc, ◌-◌, ◌≤◌, ◌<◌, ◌≡◌, refl, ap, Bool, true, false, ◌&&◌, List, [], ◌∷◌, ◌++◌,
  append_assoc, append-nil, some, none, arith, ◌==◌, length, length-append, Bytes, Lacks, bytes_eq,
  strncmp_eq, All, if◌then◌else◌,
}
use mathlib.Core.Option
use cuda_autocompat.PathUtils.{Token, path_max, tokens, tokens_from}
use cuda_autocompat.PathUtils.Words.{terminated, AreWords}
use cuda_autocompat.PathUtils.Tokens.{
  tokens_from-word, tokens_from-end, tokens_from-nil, length-word,
}
use cuda_autocompat.PathUtils.Filename.{base_name, base_name_lem, path_filename-base_name}
use cuda_autocompat.Audit.{
  LdAuditBackup, no_backup, restore_ld_audit, is_self, take_slot, audit_loop, sanitize_ld_audit,
  sanitize_with, sanitize_unused, forget_slot,
}
use cuda_autocompat.Audit.Backup.{hidden, backup_of, take_slot_lem, restore-hidden}

abbrev pub colon : ℕ
colon = b':'

-- An entry has the library's file name.
abbrev names : Bytes → Bytes → Bool
names self v = bytes_eq (base_name v) (base_name self)

strncmp_eq-bytes_eq :
    (f g r : Bytes)
    → Lacks 0 f
    → (length f == length g && strncmp_eq (f ++ r) g (length g)) ≡ bytes_eq f g
unfolding strncmp_eq bytes_eq
strncmp_eq-bytes_eq [] [] r hz = refl
strncmp_eq-bytes_eq [] (y ∷ g) r hz = ground arith
strncmp_eq-bytes_eq (x ∷ f) [] r hz = ground arith
strncmp_eq-bytes_eq (x ∷ f) (y ∷ g) r (nz, hz) = ground (arith, strncmp_eq-bytes_eq f g r hz)

bytes_eq-length : (f g : Bytes) → bytes_eq f g ≡ true → length f ≡ length g
unfolding bytes_eq
bytes_eq-length [] [] h = refl
bytes_eq-length [] (y ∷ g) h = cc
bytes_eq-length (x ∷ f) [] h = cc
bytes_eq-length (x ∷ f) (y ∷ g) h = ground (arith, bytes_eq-length f g)

module _ (self ld_audit : Bytes) where
  is_self-names :
      (v r next : Bytes)
      → Lacks 0 v
      → is_self
          (base_name self)
          (length (base_name self))
          (record { token = v ++ r; token_len = length v; next = next })
        ≡ names self v
  unfolding is_self
  is_self-names v r next hz =
      let (whole, short, fz) = base_name_lem v hz in
      let n : length v - (length (v ++ r) - length (base_name v ++ r)) ≡ length (base_name v) =
        omega (arith, length-append v r, length-append (base_name v) r) in
      rw (path_filename-base_name v r hz, is_self, n)
        (strncmp_eq-bytes_eq (base_name v) (base_name self) r fz)

  -- One round of the loop. The test for a short entry only saves time.
  audit_loop-word :
      (v r next : Bytes) (ts : List Token) (b : LdAuditBackup)
      → Lacks 0 v
      → let t : Token = record { token = v ++ r; token_len = length v; next = next } in
        audit_loop ld_audit (base_name self) (length (base_name self)) (t ∷ ts) b ≡ (
          if names self v
          then take_slot ld_audit t
          else audit_loop ld_audit (base_name self) (length (base_name self)) ts b)
  unfolding audit_loop
  audit_loop-word v r next ts b hz =
      let (whole, short, fz) = base_name_lem v hz in
      rw (is_self-names v r next hz)
        (ground (arith, bytes_eq-length (base_name v) (base_name self)))

  -- The entries in front of the first match are passed over.
  audit_loop-skip :
      (fuel : ℕ) (ws : List Bytes) (s : Bytes) (b : LdAuditBackup)
      → AreWords colon ws
      → All (λ u. names self u ≡ false) ws
      → length (terminated colon ws ++ s) ≤ fuel
      → (k : ℕ) × (length s ≤ k)
        × (audit_loop ld_audit
              (base_name self)
              (length (base_name self))
              (tokens_from fuel (terminated colon ws ++ s) colon)
              b
            ≡ audit_loop ld_audit
                (base_name self)
                (length (base_name self))
                (tokens_from k s colon)
                b)
  audit_loop-skip fuel [] s b hw hn fits = (fuel, fits, refl)
  audit_loop-skip zero (u ∷ ws) s b (ud, uz, hw) (un, hn) fits =
      absurd (omega (arith, length-word colon u (terminated colon ws) s))
  audit_loop-skip (suc fuel) (u ∷ ws) s b (ud, uz, hw) (un, hn) fits =
      let (k, small, e) =
        audit_loop-skip fuel ws s b hw hn
          (omega (arith, length-word colon u (terminated colon ws) s)) in
      (
        k,
        small,
        rw
            (
              append_assoc,
              tokens_from-word colon fuel u (terminated colon ws ++ s) (omega arith) ud uz,
              audit_loop-word,
              un,
            )
            e,
      )

module _ (self : Bytes) where
  -- `sanitize_ld_audit` in terms of its loop.
  sanitize-loop :
      (env : Bytes)
      → Lacks 0 self
      → 0 < length (base_name self)
      → sanitize_ld_audit (some self) (some env) no_backup
        ≡ forget_slot
            (audit_loop env (base_name self) (length (base_name self)) (tokens env colon) no_backup)
  unfolding sanitize_ld_audit
  sanitize-loop env hz pos =
      rw ((base_name_lem self hz).0, sanitize_unused, sanitize_with) (ground arith)

  module _ (ws : List Bytes) (v rest : Bytes) where
    abbrev value : Bytes
    value = terminated colon ws ++ ((v ++ colon ∷ []) ++ rest)

    hit_round :
        (k : ℕ) (b : LdAuditBackup)
        → length ((v ++ colon ∷ []) ++ rest) ≤ k
        → Lacks colon v × Lacks 0 v
        → names self v ≡ true
        → audit_loop value
            (base_name self)
            (length (base_name self))
            (tokens_from k ((v ++ colon ∷ []) ++ rest) colon)
            b
          ≡ take_slot value
              (record { token = (v ++ colon ∷ []) ++ rest; token_len = length v; next = rest })
    hit_round zero b small (vd, vz) hit = absurd (omega (arith, length-word colon v [] rest))
    hit_round (suc k) b small (vd, vz) hit = rw (
      append_assoc v (colon ∷ []) rest,
      tokens_from-word colon k v rest (omega arith) vd vz,
      audit_loop-word,
      hit,
    )

    -- The backup that the loop records is the one that `restore_ld_audit` needs.
    pub audit_loop-hidden :
        AreWords colon ws
        → All (λ u. names self u ≡ false) ws
        → Lacks colon v × Lacks 0 v
        → names self v ≡ true
        → Lacks 0 rest
        → length v < path_max
        → audit_loop value (base_name self) (length (base_name self)) (tokens value colon) no_backup
          ≡ some (
            hidden (terminated colon ws) (v ++ colon ∷ []) rest,
            backup_of (terminated colon ws) (v ++ colon ∷ []) rest,
          )
    unfolding tokens
    audit_loop-hidden hw hn (vd, vz) hit hr fits =
        let s = (v ++ colon ∷ []) ++ rest in
        let (k, small, e) =
          audit_loop-skip self value (length value) ws s no_backup hw hn (omega arith) in
        rw (e, hit_round k no_backup small (vd, vz) hit)
          (take_slot_lem (terminated colon ws) (v ++ colon ∷ []) rest (length v) hr
            (omega (arith, length-append v (colon ∷ []))))

    -- Restoring from the backup that the loop records gives LD_AUDIT back byte for byte, for an
    -- entry with the library's file name that stands behind entries with other names and in front
    -- of a colon.
    pub restore-audit_loop :
        AreWords colon ws
        → All (λ u. names self u ≡ false) ws
        → Lacks colon v × Lacks 0 v
        → names self v ≡ true
        → Lacks 0 rest
        → length v < path_max
        → Option.map
            (λ (env, b). restore_ld_audit env b)
            (audit_loop value
              (base_name self)
              (length (base_name self))
              (tokens value colon)
              no_backup)
          ≡ some (value, no_backup)
    restore-audit_loop hw hn (vd, vz) hit hr fits =
        rw (audit_loop-hidden hw hn (vd, vz) hit hr fits)
          (ap some (restore-hidden (terminated colon ws) (v ++ colon ∷ []) rest))

    -- `sanitize_ld_audit` on an LD_AUDIT whose first entry with the library's file name stands in
    -- front of a colon and is shorter than PATH_MAX: the entry is hidden with its colon, the rest
    -- moves down, and the backup has the entry but no slot. The library's path has a file name.
    pub sanitize-hidden :
        Lacks 0 self
        → 0 < length (base_name self)
        → AreWords colon ws
        → All (λ u. names self u ≡ false) ws
        → Lacks colon v × Lacks 0 v
        → names self v ≡ true
        → Lacks 0 rest
        → length v < path_max
        → sanitize_ld_audit (some self) (some value) no_backup
          ≡ some (
            some (hidden (terminated colon ws) (v ++ colon ∷ []) rest),
            record (backup_of (terminated colon ws) (v ++ colon ∷ []) rest) { slot = none },
          )
    sanitize-hidden hs pos hw hn (vd, vz) hit hr fits =
        rw (sanitize-loop value hs pos, audit_loop-hidden hw hn (vd, vz) hit hr fits)

  audit_loop-last :
      (env w : Bytes) (k : ℕ) (b : LdAuditBackup)
      → length w ≤ k
      → Lacks colon w × Lacks 0 w
      → names self w ≡ false
      → audit_loop env (base_name self) (length (base_name self)) (tokens_from k w colon) b
        ≡ some (env, b)
  audit_loop-last env [] k b small (wd, wz) miss = rw tokens_from-nil (unfold audit_loop in refl)
  audit_loop-last env (c ∷ w) zero b small (wd, wz) miss = elim small [ ]
  audit_loop-last env (c ∷ w) (suc k) b small (wd, wz) miss =
      let round = rw (append-nil (c ∷ w)) at (audit_loop-word self env (c ∷ w) [] [] [] b wz) in
      rw (tokens_from-end colon k c w (omega arith) wd wz, round, miss) (unfold audit_loop in refl)

  -- If no entry of LD_AUDIT has the library's file name, then `sanitize_ld_audit` leaves LD_AUDIT
  -- as it is and records no backup. The library's path has a file name.
  sanitize-unmatched :
      (ws : List Bytes) (w : Bytes)
      → Lacks 0 self
      → 0 < length (base_name self)
      → AreWords colon ws
      → All (λ u. names self u ≡ false) ws
      → Lacks colon w × Lacks 0 w
      → names self w ≡ false
      → sanitize_ld_audit (some self) (some (terminated colon ws ++ w)) no_backup
        ≡ some (some (terminated colon ws ++ w), no_backup)
  unfolding tokens
  sanitize-unmatched ws w hs pos hw hn hl miss =
      let env = terminated colon ws ++ w in
      let (k, small, e) =
        audit_loop-skip self env (length env) ws w no_backup hw hn (omega arith) in
      rw (sanitize-loop env hs pos, e, audit_loop-last env w k no_backup small hl miss)
