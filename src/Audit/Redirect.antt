-- ===== src/Audit/Redirect.antt =====
-- `la_objsearch` and `la_objopen` on the paths that `la_version` sets.
use cuda_autocompat.Base.{
  ◌+◌, ◌≤◌, ◌<◌, ◌≡◌, ◌∙◌, Bool, true, false, ◌||◌, [], ◌++◌, append-nil, Option, some, inl, inr,
  ◌⊎◌, arith, ◌==◌, length, Bytes, Lacks, c_head, c_string, if◌then◌else◌, c_string-append_zeros,
  c_string_self,
}
use cuda_autocompat.PathUtils.{path_max}
use cuda_autocompat.PathUtils.Join.{joined, Lacks-joined, length-joined}
use cuda_autocompat.PathUtils.Prefix.{starts_with}
use cuda_autocompat.SearchHelper.Read.{delivered}
use cuda_autocompat.Audit.{
  AuditState, set_path, set_paths, la_objsearch, la_objopen, at_path, bind_flags, libcuda_soname,
  libnvidia_nvvm_soname, libnvidia_ptxjitcompiler_soname, libcudadebugger_soname,
}
use cuda_autocompat.Audit.Names.{
  strncmp_eq-starts_with, strncmp_eq-more, filled, set_path-delivered, head-joined, c_string-if,
  choose4, any4, starts_with_self,
}

-- A name is redirected.
abbrev redirected : Bytes → Bool
redirected name =
    starts_with libcuda_soname name
    || starts_with libnvidia_nvvm_soname name
    || starts_with libnvidia_ptxjitcompiler_soname name
    || starts_with libcudadebugger_soname name

module _ (dir : Bytes) where
  -- Where the loader is sent.
  abbrev pub target : Bytes → Bytes
  target name =
      if starts_with libcuda_soname name
      then joined dir libcuda_soname
      else if starts_with libnvidia_nvvm_soname name
      then joined dir libnvidia_nvvm_soname
      else if starts_with libnvidia_ptxjitcompiler_soname name
      then joined dir libnvidia_ptxjitcompiler_soname
      else if starts_with libcudadebugger_soname name
      then joined dir libcudadebugger_soname
      else name

  -- The names that the loader is to bind through.
  abbrev bound : Bytes → Bool
  bound name =
      starts_with (joined dir libcuda_soname) name
      || starts_with (joined dir libnvidia_nvvm_soname) name
      || starts_with (joined dir libnvidia_ptxjitcompiler_soname) name
      || starts_with (joined dir libcudadebugger_soname) name

-- The program's conditions on the directory: it is not empty, and the longest path fits.
module _ (dir : Bytes) (hd : Lacks 0 dir) (pos : 0 < length dir)
    (short : length dir + 30 < path_max) where
  abbrev ready : Option Bytes → AuditState
  ready ld_audit = record {
    libcuda = filled (joined dir libcuda_soname);
    libnvidia_nvvm = filled (joined dir libnvidia_nvvm_soname);
    libnvidia_ptxjitcompiler = filled (joined dir libnvidia_ptxjitcompiler_soname);
    libcudadebugger = filled (joined dir libcudadebugger_soname);
    ld_audit = ld_audit;
  }

  set_soname :
      (soname : Bytes)
      → length soname ≤ 29
      → set_path (delivered dir) soname ≡ filled (joined dir soname)
  set_soname soname small =
      set_path-delivered dir soname hd pos (omega (arith, length-joined dir soname pos))

  set_paths-ready : (ld_audit : Option Bytes) → set_paths (delivered dir) ld_audit ≡ ready ld_audit
  unfolding set_paths
  set_paths-ready ld_audit = rw (
    set_soname libcuda_soname (omega arith),
    set_soname libnvidia_nvvm_soname (omega arith),
    set_soname libnvidia_ptxjitcompiler_soname (omega arith),
    set_soname libcudadebugger_soname (omega arith),
  )

  c_string-filled :
      (soname : Bytes)
      → Lacks 0 soname
      → c_string (filled (joined dir soname)).path ≡ joined dir soname
  c_string-filled soname hz =
      c_string-append_zeros (joined dir soname) _ (Lacks-joined dir soname hd hz)

  head_joined : (soname more : Bytes) → (c_head (joined dir soname ++ more) == 0) ≡ false
  head_joined soname more = head-joined dir soname more hd pos

  -- For a directory whose name is not empty and leaves room for the longest soname, a name that
  -- starts with one of the four sonames is sent to that library in the directory, and any other
  -- name is returned as it is.
  pub la_objsearch-target :
      (ld_audit : Option Bytes) (name : Bytes)
      → Lacks 0 name
      → c_string (la_objsearch (set_paths (delivered dir) ld_audit) name) ≡ target dir name
  unfolding la_objsearch
  la_objsearch-target ld_audit name hn =
      rw
        (
          set_paths-ready ld_audit,
          head_joined libcuda_soname,
          strncmp_eq-starts_with name libcuda_soname hn (omega arith),
          strncmp_eq-starts_with name libnvidia_nvvm_soname hn (omega arith),
          strncmp_eq-starts_with name libnvidia_ptxjitcompiler_soname hn (omega arith),
          strncmp_eq-starts_with name libcudadebugger_soname hn (omega arith),
        )
        (simp (
          c_string-if,
          c_string-filled libcuda_soname (omega arith),
          c_string-filled libnvidia_nvvm_soname (omega arith),
          c_string-filled libnvidia_ptxjitcompiler_soname (omega arith),
          c_string-filled libcudadebugger_soname (omega arith),
          c_string_self name hn,
        ))

  at_path-starts_with :
      (soname name : Bytes)
      → Lacks 0 soname
      → Lacks 0 name
      → at_path name (filled (joined dir soname)) ≡ starts_with (joined dir soname) name
  at_path-starts_with soname name hs hn =
      strncmp_eq-more name (joined dir soname) _
      ∙ strncmp_eq-starts_with name (joined dir soname) hn (Lacks-joined dir soname hd hs)

  la_objopen-bound :
      (ld_audit : Option Bytes) (name : Bytes)
      → Lacks 0 name
      → la_objopen (set_paths (delivered dir) ld_audit) (some name)
        ≡ (if c_head name == 0 then 0 else if bound dir name then bind_flags else 0)
  unfolding la_objopen
  la_objopen-bound ld_audit name hn = rw (
    set_paths-ready ld_audit,
    at_path-starts_with libcuda_soname name (omega arith) hn,
    at_path-starts_with libnvidia_nvvm_soname name (omega arith) hn,
    at_path-starts_with libnvidia_ptxjitcompiler_soname name (omega arith) hn,
    at_path-starts_with libcudadebugger_soname name (omega arith) hn,
  )

  head-clear : (soname : Bytes) → (c_head (joined dir soname) == 0) ≡ false
  head-clear soname = rw (append-nil (joined dir soname)) at (head_joined soname [])

  covers :
      (t : Bytes)
      → (starts_with (joined dir libcuda_soname) t ≡ true)
        ⊎ (starts_with (joined dir libnvidia_nvvm_soname) t ≡ true)
        ⊎ (starts_with (joined dir libnvidia_ptxjitcompiler_soname) t ≡ true)
        ⊎ (starts_with (joined dir libcudadebugger_soname) t ≡ true)
      → bound dir t ≡ true
  covers t h =
      any4 (starts_with (joined dir libcuda_soname) t)
        (starts_with (joined dir libnvidia_nvvm_soname) t)
        (starts_with (joined dir libnvidia_ptxjitcompiler_soname) t)
        (starts_with (joined dir libcudadebugger_soname) t) h

  -- A path of the program's own is not empty, has no NUL, and is marked.
  abbrev IsMarked : Bytes → Type 0
  IsMarked t = ((c_head t == 0) ≡ false) × Lacks 0 t × (bound dir t ≡ true)

  target-IsMarked : (name : Bytes) → redirected name ≡ true → IsMarked (target dir name)
  target-IsMarked name h =
      choose4 IsMarked (starts_with libcuda_soname name) (starts_with libnvidia_nvvm_soname name)
        (starts_with libnvidia_ptxjitcompiler_soname name) (starts_with libcudadebugger_soname name)
        (joined dir libcuda_soname) (joined dir libnvidia_nvvm_soname)
        (joined dir libnvidia_ptxjitcompiler_soname) (joined dir libcudadebugger_soname) name
        (
          (
            head-clear libcuda_soname,
            Lacks-joined dir libcuda_soname hd (omega arith),
            covers (joined dir libcuda_soname) (inl (starts_with_self (joined dir libcuda_soname))),
          ),
          (
            head-clear libnvidia_nvvm_soname,
            Lacks-joined dir libnvidia_nvvm_soname hd (omega arith),
            covers (joined dir libnvidia_nvvm_soname)
                (inr (inl (starts_with_self (joined dir libnvidia_nvvm_soname)))),
          ),
          (
            head-clear libnvidia_ptxjitcompiler_soname,
            Lacks-joined dir libnvidia_ptxjitcompiler_soname hd (omega arith),
            covers (joined dir libnvidia_ptxjitcompiler_soname)
                (inr (inr (inl (starts_with_self (joined dir libnvidia_ptxjitcompiler_soname))))),
          ),
          (
            head-clear libcudadebugger_soname,
            Lacks-joined dir libcudadebugger_soname hd (omega arith),
            covers (joined dir libcudadebugger_soname)
                (inr (inr (inr (starts_with_self (joined dir libcudadebugger_soname))))),
          ),
        )
        h

  -- For a directory whose name is not empty and leaves room for the longest soname, `la_objopen`
  -- returns the two bind flags for what `la_objsearch` returns on a name that starts with one of the
  -- four sonames.
  pub la_objopen-la_objsearch :
      (ld_audit : Option Bytes) (name : Bytes)
      → Lacks 0 name
      → redirected name ≡ true
      → let s = set_paths (delivered dir) ld_audit in
        la_objopen s (some (c_string (la_objsearch s name))) ≡ bind_flags
  la_objopen-la_objsearch ld_audit name hn h =
      let (full, clear, marked) = target-IsMarked name h in
      rw (
        la_objsearch-target ld_audit name hn,
        la_objopen-bound ld_audit (target dir name) clear,
        full,
        marked,
      )
