-- ===== src/Audit/Backup.antt =====
-- What hiding an entry of LD_AUDIT, and the backup, do to its memory, in rtld-audit/audit.c.
use cuda_autocompat.Base.{
  ℕ, ◌+◌, ◌-◌, ◌≤◌, ◌≡◌, refl, ap, sym, ◌∙◌, ◌++◌, append_assoc, some, arith, length, take, drop,
  length-append, length-take, length-drop, length-replicate, take-append-drop, take-length_append,
  drop-length_append, take_all, Bytes, Lacks, zeros, write, write-middle, write-tail, c_string_self,
}
use cuda_autocompat.PathUtils.{path_max}
use cuda_autocompat.Audit.{LdAuditBackup, no_backup, take_slot, restore_ld_audit}

module _ (pre s rest : Bytes) where
  -- The entry, with its delimiter, gone; the bytes left over at the end are cleared.
  abbrev pub hidden : Bytes
  hidden = pre ++ (rest ++ zeros (length s))

  abbrev pub backup_of : LdAuditBackup
  backup_of = record {
    contents = s ++ zeros (path_max - length s);
    slot = some (length pre);
    slot_len = length s;
    trailing_len = length rest;
  }

  moved_down :
      write (pre ++ (s ++ rest)) (length pre) rest ≡ pre ++ (rest ++ drop (length rest) (s ++ rest))
  moved_down =
      let n : length rest ≡ length (take (length rest) (s ++ rest)) =
        omega (arith, length-take (length rest) (s ++ rest), length-append s rest) in
      let parts = take-append-drop (length rest) (s ++ rest) in
      ap (λ t. write (pre ++ t) (length pre) rest) (sym parts)
      ∙ write-middle pre (take (length rest) (s ++ rest)) (drop (length rest) (s ++ rest)) rest refl
          n

  cleared :
      write
        (pre ++ (rest ++ drop (length rest) (s ++ rest)))
        (length pre + length rest)
        (zeros (length s))
      ≡ hidden
  cleared =
      let x = drop (length rest) (s ++ rest) in
      let n : length (zeros (length s)) ≡ length x = omega (
        arith,
        length-replicate {A = ℕ} (length s) 0,
        length-drop (length rest) (s ++ rest),
        length-append s rest,
      ) in
      rw (← append_assoc pre rest x) (
        write-tail (pre ++ rest) x (zeros (length s)) (length-append pre rest) n
        ∙ append_assoc pre rest (zeros (length s)))

  pub take_slot_lem :
      (n : ℕ)
      → Lacks 0 rest
      → length s ≤ path_max
      → take_slot (pre ++ (s ++ rest)) (record { token = s ++ rest; token_len = n; next = rest })
        ≡ some (hidden, backup_of)
  unfolding take_slot
  take_slot_lem n hz fits =
      let at : length (pre ++ (s ++ rest)) - length (s ++ rest) ≡ length pre =
        omega (arith, length-append pre (s ++ rest)) in
      let size : length (s ++ rest) - length rest ≡ length s =
        omega (arith, length-append s rest) in
      rw
        (
          at,
          size,
          c_string_self rest hz,
          take_all (length rest) rest (omega arith),
          moved_down,
          cleared,
          take-length_append s rest,
        )
        (ground arith)

  -- The bytes that the entry is written over, once the rest has moved up again.
  abbrev gap : Bytes
  gap = take (length s) (rest ++ zeros (length s))

  length-gap : length gap ≡ length s
  length-gap = omega (
    arith,
    length-take (length s) (rest ++ zeros (length s)),
    length-append rest (zeros (length s)),
    length-replicate {A = ℕ} (length s) 0,
  )

  moved_up : write hidden (length pre + length s) rest ≡ (pre ++ gap) ++ rest
  moved_up =
      let x = drop (length s) (rest ++ zeros (length s)) in
      let at : length (pre ++ gap) ≡ length pre + length s =
        omega (arith, length-append pre gap, length-gap) in
      let n : length rest ≡ length x = omega (
        arith,
        length-drop (length s) (rest ++ zeros (length s)),
        length-append rest (zeros (length s)),
        length-replicate {A = ℕ} (length s) 0,
      ) in
      ap (λ (t : Bytes). write (pre ++ t) (length pre + length s) rest)
        (sym (take-append-drop (length s) (rest ++ zeros (length s))))
      ∙ ap (λ (t : Bytes). write t (length pre + length s) rest) (sym (append_assoc pre gap x))
      ∙ write-tail (pre ++ gap) x rest at n

  put_back : write ((pre ++ gap) ++ rest) (length pre) s ≡ pre ++ (s ++ rest)
  put_back =
      ap (λ (t : Bytes). write t (length pre) s) (append_assoc pre gap rest)
      ∙ write-middle pre gap rest s refl (sym length-gap)

  -- The backup gives the value back as it was, byte for byte, and is cleared.
  pub restore-hidden : restore_ld_audit hidden backup_of ≡ (pre ++ (s ++ rest), no_backup)
  unfolding restore_ld_audit
  restore-hidden = rw (
    take-length_append s (zeros (path_max - length s)),
    drop-length_append pre (rest ++ zeros (length s)),
    take-length_append rest (zeros (length s)),
    moved_up,
    put_back,
  )
