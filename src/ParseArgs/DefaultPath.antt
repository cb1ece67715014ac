-- ===== src/ParseArgs/DefaultPath.antt =====
-- `get_default_search_path` of search/parse_args.cxx: the directories that the dynamic linker
-- searches, for a command line without paths. `dlopen` and `dlinfo` are a record.
use cuda_autocompat.Base.{
  ℕ, ◌≡◌, Bool, true, false, Option, none, some, List, [], ◌∷◌, if◌then◌else◌, ◌==◌, take, Bytes,
  arith,
}
use cuda_autocompat.Search.{Throws, returned, ◌>>=◌, System}
use cuda_autocompat.ParseArgs.{Paths, add_directories}

-- The handle of the program itself; `dls_cnt` for RTLD_DI_SERINFOSIZE; and the names that
-- RTLD_DI_SERINFO writes into a buffer for so many.
pub record SelfLinker : Type 0 where
  pub dlopen_self : Option ℕ
  pub serinfo_size : ℕ → Option ℕ
  pub serinfo : ℕ → ℕ → Option (List Bytes)

-- The directories, or nothing on an error, and the handles that were passed to `dlclose`.
pub record Query : Type 0 where
  pub directories : Option (List Bytes)
  pub closed : List ℕ

unfoldable pub query_linker : SelfLinker → Query
query_linker linker = elim linker.dlopen_self [
  | none ↦ record { directories = none; closed = [] }
  | some handle ↦ elim (linker.serinfo_size handle) [
    | none ↦ record { directories = none; closed = handle ∷ [] }
    | some dls_cnt ↦
        if dls_cnt == 0
        then record { directories = none; closed = handle ∷ [] }
        else elim (linker.serinfo handle dls_cnt) [
          | none ↦ record { directories = none; closed = handle ∷ [] }
          | some names ↦ record { directories = some (take dls_cnt names); closed = handle ∷ [] }
        ]
  ]
]

-- The result is false on an error, and then the paths are as before.
unfoldable pub get_default_search_path : System → SelfLinker → Paths → Throws (Bool × Paths)
get_default_search_path sys linker ps = elim (query_linker linker).directories [
  | none ↦ returned (false, ps)
  | some names ↦ add_directories sys names ps >>= λ ps'. returned (true, ps')
]

-- Every way out closes the handle that was opened, once.
query_linker-closed :
    (linker : SelfLinker)
    → (query_linker linker).closed
      ≡ elim linker.dlopen_self [ none ↦ [] | some handle ↦ handle ∷ [] ]
unfolding query_linker
query_linker-closed linker = ground arith
