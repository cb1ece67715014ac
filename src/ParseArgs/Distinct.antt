-- ===== src/ParseArgs/Distinct.antt =====
-- What `add_path` of search/parse_args.cxx adds to a vector of paths.
use cuda_autocompat.Base.{
  ℕ, zero, suc, Option, none, some, ◌≡◌, refl, ◌∙◌, inl, inr, Bool, true, false, not, List, [], ◌∷◌,
  ◌++◌, if◌then◌else◌, All, All-map, length, arith, Bool-cases, Bytes, bytes_eq_iff, codes,
}
use cuda_autocompat.FilePath.{FilePath, collapse, path_eq}
use cuda_autocompat.FilePath.Names.{path_eq_refl}
use cuda_autocompat.Search.{Throws, returned, thrown, ◌>>=◌, System, contains_path}
use cuda_autocompat.Search.Scan.{Loop, answer, out_of_fuel}
use cuda_autocompat.ParseArgs.{
  Paths, status_exists, status_is, find_colon, add_new, add_unless_seen, add_path, parse_fields,
  loop_paths, parse_paths,
}

-- No two paths of a list are equal.
abbrev pub Distinct : List FilePath → Type 0
Distinct [] = Unit
Distinct (p ∷ ps) = All (λ q. path_eq p q ≡ false) ps × Distinct ps

path_eq_trans : (r q p : FilePath) → path_eq r q ≡ true → path_eq q p ≡ true → path_eq r p ≡ true
unfolding path_eq
path_eq_trans r q p h k =
    (bytes_eq_iff (collapse r) (collapse p)).1
      ((bytes_eq_iff (collapse r) (collapse q)).0 h ∙ (bytes_eq_iff (collapse q) (collapse p)).0 k)

-- A path that is in a list, and one that is not, differ.
contains_path-differ :
    (p q : FilePath) (cache : List FilePath)
    → contains_path p cache ≡ false
    → contains_path q cache ≡ true
    → path_eq q p ≡ false
contains_path-differ p q [] h k = absurd (ground arith)
contains_path-differ p q (r ∷ cache) h k =
    ground (arith, contains_path-differ p q cache, path_eq_trans r q p)

All-snoc :
    (P : FilePath → Type 0) (ps : List FilePath) (p : FilePath)
    → All P ps
    → P p
    → All P (ps ++ p ∷ [])
All-snoc P [] p h k = (k, tt)
All-snoc P (q ∷ ps) p (h, hs) k = (h, All-snoc P ps p hs k)

Distinct-snoc :
    (ps : List FilePath) (p : FilePath)
    → Distinct ps
    → All (λ q. path_eq q p ≡ false) ps
    → Distinct (ps ++ p ∷ [])
Distinct-snoc [] p d h = (tt, tt)
Distinct-snoc (q ∷ ps) p (a, d) (h, hs) =
    (All-snoc (λ r. path_eq q r ≡ false) ps p a h, Distinct-snoc ps p d hs)

module _ (sys : System) (dir_mode : Bool) where
  -- The vector holds no path twice, only paths that the set has, and only files that are there:
  -- directories, or regular files.
  pub record Good (ps : Paths) : Type 0 where
    pub distinct : Distinct ps.out
    pub cached : All (λ p. contains_path p ps.cache ≡ true) ps.out
    pub kinds : All (λ p. status_is dir_mode (sys.stat p) ≡ returned true) ps.out

  abbrev pub Keeps : Throws Paths → Type 0
  Keeps thrown = Unit
  Keeps (returned ps) = Good ps

  -- A path that is not added.
  seen-Good : (p : FilePath) (ps : Paths) → Good ps → Good (record ps { cache = p ∷ ps.cache })
  seen-Good p ps g = record {
    distinct = g.distinct;
    cached = All-map ps.out g.cached λ q h. ground (arith, h);
    kinds = g.kinds;
  }

  added-Good :
      (p : FilePath) (ps : Paths)
      → Good ps
      → contains_path p ps.cache ≡ false
      → status_is dir_mode (sys.stat p) ≡ returned true
      → Good (record { out = ps.out ++ p ∷ []; cache = p ∷ ps.cache })
  added-Good p ps g new fits = record {
    distinct =
        Distinct-snoc ps.out p g.distinct
          (All-map ps.out g.cached λ q h. contains_path-differ p q ps.cache new h);
    cached =
        All-snoc (λ q. contains_path q (p ∷ ps.cache) ≡ true) ps.out p (seen-Good p ps g).cached
          (rw (path_eq_refl p) refl);
    kinds = All-snoc (λ q. status_is dir_mode (sys.stat q) ≡ returned true) ps.out p g.kinds fits;
  }

  add_unless_seen-Good :
      (p : FilePath) (ps : Paths) → Good ps → Keeps (add_unless_seen sys p dir_mode ps)
  unfolding add_unless_seen add_new
  add_unless_seen-Good p ps g = elim (Bool-cases (contains_path p ps.cache)) [
    | inl old ↦ rw old g
    | inr new ↦
        rw new (
          go (status_exists (sys.stat p)) (status_is dir_mode (sys.stat p)) (added-Good p ps g new))
  ]
    where
      go :
          (m n : Throws Bool)
          → (n ≡ returned true → Good (record { out = ps.out ++ p ∷ []; cache = p ∷ ps.cache }))
          → Keeps (
              m >>= λ there.
              if not there
              then returned (record ps { cache = p ∷ ps.cache })
              else (n >>= λ fits. returned (
                  if fits
                  then record { out = ps.out ++ p ∷ []; cache = p ∷ ps.cache }
                  else record ps { cache = p ∷ ps.cache })))
      go (returned false) n h = seen-Good p ps g
      go (returned true) (returned true) h = h refl
      go (returned true) (returned false) h = seen-Good p ps g
      go (returned true) thrown h = tt
      go thrown n h = tt

  pub add_path-Good : (src : Bytes) (ps : Paths) → Good ps → Keeps (add_path sys src dir_mode ps)
  unfolding add_path
  add_path-Good [] ps g = go dir_mode
    where
      go :
          (b : Bool)
          → Keeps (if not b then returned ps else add_unless_seen sys (codes ".") dir_mode ps)
      go true = add_unless_seen-Good (codes ".") ps g
      go false = g
  add_path-Good (c ∷ src) ps g = add_unless_seen-Good (c ∷ src) ps g

  -- A call, and what is done with its result.
  pub Keeps_bind :
      {A : Type 0} (K : Throws A → Type 0) (m : Throws Paths) (f : Paths → Throws A)
      → K thrown
      → Keeps m
      → ((ps : Paths) → Good ps → K (f ps))
      → K (m >>= f)
  Keeps_bind K (returned ps) f t k h = h ps k
  Keeps_bind K thrown f t k h = t

  abbrev KeepsLoop : Throws (Loop Paths) → Type 0
  KeepsLoop thrown = Unit
  KeepsLoop (returned out_of_fuel) = Unit
  KeepsLoop (returned (answer ps)) = Good ps

  parse_fields-Good :
      (fuel : ℕ) (src : Bytes) (ps : Paths)
      → Good ps
      → KeepsLoop (parse_fields sys fuel src dir_mode ps)
  unfolding parse_fields
  parse_fields-Good zero src ps g = tt
  parse_fields-Good (suc fuel) src ps g = go (find_colon src) (parse_fields-Good fuel)
    where
      go :
          (r : Option (Bytes × Bytes))
          → ((rest : Bytes) (qs : Paths)
              → Good qs
              → KeepsLoop (parse_fields sys fuel rest dir_mode qs))
          → KeepsLoop (elim r [
            | none ↦ add_path sys src dir_mode ps >>= λ qs. returned (answer qs)
            | some (field, rest) ↦
                add_path sys field dir_mode ps >>= λ qs. parse_fields sys fuel rest dir_mode qs
          ])
      go none h =
          Keeps_bind KeepsLoop (add_path sys src dir_mode ps) (λ qs. returned (answer qs)) tt
            (add_path-Good src ps g) λ qs k. k
      go (some (field, rest)) h =
          Keeps_bind KeepsLoop (add_path sys field dir_mode ps)
            (λ qs. parse_fields sys fuel rest dir_mode qs) tt (add_path-Good field ps g) (h rest)

  pub parse_paths-Good :
      (src : Bytes) (ps : Paths) → Good ps → Keeps (parse_paths sys src dir_mode ps)
  unfolding parse_paths
  parse_paths-Good [] ps g = g
  parse_paths-Good (c ∷ src) ps g =
      go (parse_fields sys (suc (length (c ∷ src))) (c ∷ src) dir_mode ps)
        (parse_fields-Good (suc (length (c ∷ src))) (c ∷ src) ps g)
    where
      go :
          (m : Throws (Loop Paths))
          → KeepsLoop m
          → Keeps (m >>= λ r. returned (loop_paths sys ps r))
      go thrown k = tt
      go (returned out_of_fuel) k = g
      go (returned (answer qs)) k = k
