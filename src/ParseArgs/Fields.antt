-- ===== src/ParseArgs/Fields.antt =====
-- `parse_paths` of search/parse_args.cxx over the fields of a colon-separated list.
use cuda_autocompat.Base.{
  ℕ, zero, suc, ◌<◌, ◌≡◌, refl, sym, ◌∙◌, Bool, true, false, Option, none, some, List, [], ◌∷◌,
  if◌then◌else◌, ◌==◌, length, arith, Bytes,
}
use cuda_autocompat.Search.{Throws, returned, thrown, ◌>>=◌, System}
use cuda_autocompat.Search.Scan.{Loop, answer}
use cuda_autocompat.ParseArgs.{Paths, find_colon, add_path, parse_fields, loop_paths, parse_paths}

abbrev to_first : ℕ → List Bytes → List Bytes
to_first c [] = (c ∷ []) ∷ []
to_first c (f ∷ fs) = (c ∷ f) ∷ fs

-- The fields between the colons: one more than there are colons, and any of them may be empty.
unfoldable pub fields : Bytes → List Bytes
fields [] = [] ∷ []
fields (c ∷ s) = let rest = fields s in if c == b':' then [] ∷ rest else to_first c rest

abbrev fields_of : Bytes → Option (Bytes × Bytes) → List Bytes
fields_of s none = s ∷ []
fields_of s (some (field, rest)) = field ∷ fields rest

find_colon-fields : (s : Bytes) → fields s ≡ fields_of s (find_colon s)
unfolding find_colon fields
find_colon-fields [] = refl
find_colon-fields (c ∷ s) = ground (arith, find_colon-fields s)

abbrev Shorter : ℕ → Option (Bytes × Bytes) → Type 0
Shorter n none = Unit
Shorter n (some (field, rest)) = length rest < n

find_colon-Shorter : (s : Bytes) → Shorter (length s) (find_colon s)
unfolding find_colon
find_colon-Shorter [] = tt
find_colon-Shorter (c ∷ s) = go (c == b':') (find_colon s) (find_colon-Shorter s)
  where
    go :
        (b : Bool) (r : Option (Bytes × Bytes))
        → Shorter (length s) r
        → Shorter
            (suc (length s))
            (if b then some ([], s) else elim r [ none ↦ none | some (f, t) ↦ some (c ∷ f, t) ])
    go true r h = omega arith
    go false none h = tt
    go false (some (f, t)) h = omega (arith, h)

module _ (sys : System) (dir_mode : Bool) where
  -- The paths of a list, added one after the other.
  unfoldable pub add_all : List Bytes → Paths → Throws Paths
  add_all [] ps = returned ps
  add_all (f ∷ fs) ps = do qs ← add_path sys f dir_mode ps; add_all fs qs

  bind_cong :
      {A B : Type 0} (m : Throws A) (f g : A → Throws B)
      → ((a : A) → f a ≡ g a)
      → (m >>= f) ≡ (m >>= g)
  bind_cong (returned a) f g h = h a
  bind_cong thrown f g h = refl

  bind_assoc :
      {A B C : Type 0} (m : Throws A) (f : A → Throws B) (g : B → Throws C)
      → ((m >>= f) >>= g) ≡ (m >>= λ a. f a >>= g)
  bind_assoc (returned a) f g = refl
  bind_assoc thrown f g = refl

  abbrev finished_loop : Throws Paths → Throws (Loop Paths)
  finished_loop m = m >>= λ qs. returned (answer qs)

  -- The loop ends after as many rounds as there are fields, and enough fuel is one more than there
  -- are bytes.
  parse_fields-fields :
      (fuel : ℕ) (src : Bytes) (ps : Paths)
      → length src < fuel
      → parse_fields sys fuel src dir_mode ps ≡ finished_loop (add_all (fields src) ps)
  unfolding parse_fields add_all
  parse_fields-fields zero src ps h = absurd (omega (arith, h))
  parse_fields-fields (suc fuel) src ps h =
      rw (find_colon-fields src)
        (go (find_colon src) (find_colon-Shorter src) (parse_fields-fields fuel))
    where
      go :
          (r : Option (Bytes × Bytes))
          → Shorter (length src) r
          → ((rest : Bytes) (qs : Paths)
              → length rest < fuel
              → parse_fields sys fuel rest dir_mode qs ≡ finished_loop (add_all (fields rest) qs))
          → elim r [
            | none ↦ add_path sys src dir_mode ps >>= λ qs. returned (answer qs)
            | some (field, rest) ↦
                add_path sys field dir_mode ps >>= λ qs. parse_fields sys fuel rest dir_mode qs
          ]
            ≡ finished_loop (add_all (fields_of src r) ps)
      go none k next =
          sym (bind_assoc (add_path sys src dir_mode ps) returned λ qs. returned (answer qs))
      go (some (field, rest)) k next =
          bind_cong (add_path sys field dir_mode ps) (λ qs. parse_fields sys fuel rest dir_mode qs)
            (λ qs. finished_loop (add_all (fields rest) qs))
            (λ qs. next rest qs (omega (arith, h, k)))
          ∙ sym (
              bind_assoc (add_path sys field dir_mode ps) (add_all (fields rest))
                λ qs. returned (answer qs))

  -- `parse_paths` on a text that is not empty adds the fields between its colons in their order,
  -- and its fuel is enough.
  pub parse_paths-fields :
      (c : ℕ) (src : Bytes) (ps : Paths)
      → parse_paths sys (c ∷ src) dir_mode ps ≡ add_all (fields (c ∷ src)) ps
  unfolding parse_paths
  parse_paths-fields c src ps =
      rw (parse_fields-fields (suc (length (c ∷ src))) (c ∷ src) ps (omega arith))
        (go (add_all (fields (c ∷ src)) ps))
    where
      go : (m : Throws Paths) → (finished_loop m >>= λ r. returned (loop_paths sys ps r)) ≡ m
      go (returned qs) = refl
      go thrown = refl
