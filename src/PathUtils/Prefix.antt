-- ===== src/PathUtils/Prefix.antt =====
-- Which component `path_prefix` of utils/c/path_utils.c finds.
use cuda_autocompat.Base.{
  ℕ, zero, ◌<◌, suc, ◌+◌, ◌-◌, ◌≤◌, ◌≡◌, refl, ap, sym, subst, ◌∙◌, Bool, true, false, ◌&&◌, List,
  [], ◌∷◌, ◌++◌, append_assoc, Option, some, none, arith, ◌==◌, leb, length, take, length-append,
  take-length_append, drop-length_append, take-append_le, drop_all, Bytes, Lacks, bytes_eq,
  if◌then◌else◌, bytes_eq_refl,
}
use native.Mathlib.Nat.{zero-add}
use cuda_autocompat.PathUtils.{separator, tokens_from, prefix_loop, prefix_result, path_prefix}
use cuda_autocompat.PathUtils.Words.{terminated, AreWords, last_word, split_words}
use cuda_autocompat.PathUtils.Tokens.{
  tokens_from-word, tokens_from-end, tokens_from-nil, length-word,
}

-- A component starts with the prefix.
abbrev pub starts_with : Bytes → Bytes → Bool
starts_with child w = leb (length child) (length w) && bytes_eq (take (length child) w) child

-- The offset of the last component that starts with the prefix; the first one stands at `offset`.
abbrev last_match : Bytes → ℕ → List Bytes → Option ℕ → Option ℕ
last_match child offset [] found = found
last_match child offset (w ∷ ws) found =
    last_match child (offset + suc (length w)) ws
      (if starts_with child w then some offset else found)

-- The components that are looked at: the last one only in a directory's path.
abbrev components : Bool → List Bytes → Bytes → List Bytes
components true ws w = ws ++ last_word w
components false ws w = ws

and-false : (b : Bool) → (b && false) ≡ false
and-false true = refl
and-false false = refl

hit_word :
    (child w s : Bytes)
    → (leb (length child) (length w) && bytes_eq (take (length child) (w ++ s)) child)
      ≡ starts_with child w
hit_word child w s = ground (arith, take-append_le (length child) w s)

module _ (path child : Bytes) where
  last_round :
      (fuel offset : ℕ) (is_dir : Bool) (w : Bytes) (found : Option ℕ)
      → Lacks separator w
      → Lacks 0 w
      → length w ≤ fuel
      → offset + length w ≡ length path
      → prefix_loop path child is_dir (tokens_from fuel w separator) found
        ≡ last_match child offset (components is_dir [] w) found
  unfolding prefix_loop
  last_round fuel offset true [] found hd hz fits at = rw (tokens_from-nil separator fuel)
  last_round fuel offset false [] found hd hz fits at = rw (tokens_from-nil separator fuel)
  last_round zero offset is_dir (c ∷ w) found hd hz fits at = elim fits [ ]
  last_round (suc fuel) offset true (c ∷ w) found hd hz fits at =
      let here : length path - suc (length w) ≡ offset = omega arith in
      rw (tokens_from-end separator fuel c w (omega arith) hd hz, here)
  last_round (suc fuel) offset false (c ∷ w) found hd hz fits at =
      rw (tokens_from-end separator fuel c w (omega arith) hd hz, drop_all w)

  last_match-components :
      (is_dir : Bool) (offset : ℕ) (v : Bytes) (ws : List Bytes) (w : Bytes) (found : Option ℕ)
      → last_match child offset (components is_dir (v ∷ ws) w) found
        ≡ last_match child
            (offset + suc (length v))
            (components is_dir ws w)
            (if starts_with child v then some offset else found)
  last_match-components true offset v ws w found = refl
  last_match-components false offset v ws w found = refl

  words-prefix_loop :
      (fuel offset : ℕ) (is_dir : Bool) (ws : List Bytes) (w : Bytes) (found : Option ℕ)
      → AreWords separator ws
      → Lacks separator w
      → Lacks 0 w
      → length (terminated separator ws ++ w) ≤ fuel
      → offset + length (terminated separator ws ++ w) ≡ length path
      → prefix_loop path child is_dir
          (tokens_from fuel (terminated separator ws ++ w) separator)
          found
        ≡ last_match child offset (components is_dir ws w) found
  unfolding prefix_loop
  words-prefix_loop fuel offset is_dir [] w found hws hd hz fits at =
      last_round fuel offset is_dir w found hd hz fits at
  words-prefix_loop zero offset is_dir (v ∷ ws) w found (vd, vz, hws) hd hz fits at =
      absurd (omega (arith, length-word separator v (terminated separator ws) w))
  words-prefix_loop (suc fuel) offset is_dir (v ∷ ws) w found (vd, vz, hws) hd hz fits at =
      let here : length path - length (v ++ separator ∷ (terminated separator ws ++ w)) ≡ offset =
        omega (
          arith,
          length-word separator v (terminated separator ws) w,
          length-append v (separator ∷ (terminated separator ws ++ w)),
        ) in
      rw
        (
          append_assoc,
          tokens_from-word separator fuel v (terminated separator ws ++ w) (omega arith) vd vz,
          prefix_loop,
          hit_word child v,
          drop-length_append v,
          here,
          and-false,
          last_match-components,
        )
        (words-prefix_loop fuel (offset + suc (length v)) is_dir ws w _ hws hd hz
          (omega (arith, length-word separator v (terminated separator ws) w))
          (omega (arith, length-word separator v (terminated separator ws) w)))

-- `path_prefix` returns the offset of the separator in front of the last component that starts
-- with `child`, and -1 if there is none, if it is the first one of a relative path, or if `child`
-- is empty. A file's path is searched without its last component.
pub path_prefix-words :
    (child : Bytes) (is_dir : Bool) (ws : List Bytes) (w : Bytes)
    → AreWords separator ws
    → Lacks separator w
    → Lacks 0 w
    → path_prefix (some (terminated separator ws ++ w)) (some child) is_dir ≡ (
        if length child == 0
        then none
        else prefix_result (last_match child 0 (components is_dir ws w) none))
unfolding path_prefix
path_prefix-words child is_dir ws w hws hd hz = rw (
    words-prefix_loop (terminated separator ws ++ w) child (length (terminated separator ws ++ w)) 0
      is_dir ws w none hws hd hz (omega arith) (omega arith))

last_match-last :
    (child : Bytes) (offset : ℕ) (ws : List Bytes) (v : Bytes) (found : Option ℕ)
    → starts_with child v ≡ true
    → last_match child offset (ws ++ v ∷ []) found
      ≡ some (offset + length (terminated separator ws))
last_match-last child offset [] v found h = rw h (ap some (omega arith))
last_match-last child offset (u ∷ ws) v found h =
    last_match-last child (offset + suc (length u)) ws v _ h
    ∙ ap some (omega (arith, length-append u (separator ∷ terminated separator ws)))

terminated-append :
    (us vs : List Bytes)
    → terminated separator (us ++ vs) ≡ terminated separator us ++ terminated separator vs
terminated-append [] vs = refl
terminated-append (u ∷ us) vs = rw (terminated-append us vs) (sym (append_assoc u _ _))

AreWords-append :
    (us vs : List Bytes)
    → AreWords separator us
    → AreWords separator vs
    → AreWords separator (us ++ vs)
AreWords-append [] vs hu hv = hv
AreWords-append (u ∷ us) vs (d, z, hu) hv = (d, z, AreWords-append us vs hu hv)

pub starts_with-append : (child more : Bytes) → starts_with child (child ++ more) ≡ true
starts_with-append child more =
    rw (take-length_append child more, bytes_eq_refl child)
      (ground (arith, length-append child more))

regroup :
    (ws : List Bytes) (r v name : Bytes)
    → (terminated separator ws ++ r) ++ separator ∷ (v ++ separator ∷ name)
      ≡ terminated separator ((ws ++ r ∷ []) ++ v ∷ []) ++ name
regroup ws r v name = simp (terminated-append, append_assoc)

length-regroup :
    (ws : List Bytes) (r : Bytes)
    → length (terminated separator (ws ++ r ∷ [])) ≡ suc (length (terminated separator ws ++ r))
length-regroup ws r = rw terminated-append (
    omega (
      arith,
      length-append (terminated separator ws) (r ++ separator ∷ []),
      length-append (terminated separator ws) r,
      length-append r (separator ∷ []),
    ))

-- For a file that stands right in a directory whose name starts with `child`, whatever other
-- components the path has, the prefix is the path in front of that directory.
pub path_prefix-installed :
    (pre child more name : Bytes)
    → 0 < length child
    → Lacks 0 pre
    → Lacks separator (child ++ more) × Lacks 0 (child ++ more)
    → Lacks separator name × Lacks 0 name
    → path_prefix
        (some (pre ++ separator ∷ ((child ++ more) ++ separator ∷ name)))
        (some child)
        false
      ≡ some (length pre)
path_prefix-installed pre child more name pos hp (cd, cz) (nd, nz) =
    let r = split_words separator pre hp in
    let v = child ++ more in
    let ok : AreWords separator ((r.words ++ r.rest ∷ []) ++ v ∷ []) =
      AreWords-append (r.words ++ r.rest ∷ []) (v ∷ [])
        (AreWords-append r.words (r.rest ∷ []) r.words_ok (r.rest_ok.0, r.rest_ok.1, tt))
        (cd, cz, tt) in
    subst
      (λ t.
        path_prefix (some (t ++ separator ∷ (v ++ separator ∷ name))) (some child) false
        ≡ some (length t))
      (sym r.parts)
      (rw
        (
          regroup r.words r.rest v name,
          path_prefix-words child false _ name ok nd nz,
          last_match-last child 0 (r.words ++ r.rest ∷ []) v none (starts_with-append child more),
          length-regroup r.words r.rest,
          zero-add,
        )
        (ground arith))
