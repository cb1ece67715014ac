-- ===== src/PathUtils/Tokens.antt =====
-- The loop over `next_token` of utils/c/path_utils.c, and the words of a delimited list.
use cuda_autocompat.Base.{
  ℕ, zero, suc, ◌+◌, ◌≤◌, ◌≡◌, ◌≢◌, refl, ap, ap₂, List, [], ◌∷◌, ◌++◌, append_assoc, some, map,
  arith, length, drop, length-append, All, Option-cases, inl, inr, length-drop, take-length_append,
  drop-length_append, take_all, drop_all, Bytes, Lacks,
}
use cuda_autocompat.PathUtils.{Token, text, token_span, next_token, tokens_from, tokens}
use cuda_autocompat.PathUtils.Words.{terminated, AreWords, last_word}

module _ (delim : ℕ) where
  token_span_word :
      (w s : Bytes) → Lacks delim w → Lacks 0 w → token_span delim (w ++ delim ∷ s) ≡ length w
  unfolding token_span
  token_span_word [] s hd hz = ground arith
  token_span_word (c ∷ w) s (hd, hds) (hz, hzs) = ground (arith, token_span_word w s hds hzs)

  token_span_end : (w : Bytes) → Lacks delim w → Lacks 0 w → token_span delim w ≡ length w
  unfolding token_span
  token_span_end [] hd hz = refl
  token_span_end (c ∷ w) (hd, hds) (hz, hzs) = ground (arith, token_span_end w hds hzs)

  next_token_word :
      (w s : Bytes)
      → delim ≢ 0
      → Lacks delim w
      → Lacks 0 w
      → next_token (some (w ++ delim ∷ s)) delim
        ≡ some (record { token = w ++ delim ∷ s; token_len = length w; next = s })
  unfolding next_token
  next_token_word [] s nz hd hz = rw (token_span_word [] s hd hz) (ground arith)
  next_token_word (c ∷ w) s nz hd hz =
      rw (token_span_word (c ∷ w) s hd hz, drop-length_append w (delim ∷ s)) (ground arith)

  next_token_end :
      (c : ℕ) (w : Bytes)
      → delim ≢ 0
      → Lacks delim (c ∷ w)
      → Lacks 0 (c ∷ w)
      → next_token (some (c ∷ w)) delim
        ≡ some (record { token = c ∷ w; token_len = length (c ∷ w); next = [] })
  unfolding next_token
  next_token_end c w nz hd hz = rw (token_span_end (c ∷ w) hd hz, drop_all w) (ground arith)

  pub tokens_from-nil : (fuel : ℕ) → tokens_from fuel [] delim ≡ []
  unfolding tokens_from next_token
  tokens_from-nil zero = refl
  tokens_from-nil (suc fuel) = refl

  pub tokens_from-word :
      (fuel : ℕ) (w s : Bytes)
      → delim ≢ 0
      → Lacks delim w
      → Lacks 0 w
      → tokens_from (suc fuel) (w ++ delim ∷ s) delim
        ≡ record { token = w ++ delim ∷ s; token_len = length w; next = s }
          ∷ tokens_from fuel s delim
  unfolding tokens_from
  tokens_from-word fuel w s nz hd hz = rw (next_token_word w s nz hd hz, tokens_from)

  pub tokens_from-end :
      (fuel c : ℕ) (w : Bytes)
      → delim ≢ 0
      → Lacks delim (c ∷ w)
      → Lacks 0 (c ∷ w)
      → tokens_from (suc fuel) (c ∷ w) delim
        ≡ record { token = c ∷ w; token_len = length (c ∷ w); next = [] } ∷ []
  unfolding tokens_from
  tokens_from-end fuel c w nz hd hz =
      rw (next_token_end c w nz hd hz, tokens_from, tokens_from-nil fuel)

  -- The bytes of a first word and its delimiter, over those of the rest.
  pub length-word :
      (v s w : Bytes) → length ((v ++ delim ∷ s) ++ w) ≡ length v + suc (length (s ++ w))
  length-word v s w = rw append_assoc (length-append v (delim ∷ (s ++ w)))

  last-word :
      (fuel : ℕ) (w : Bytes)
      → delim ≢ 0
      → length w ≤ fuel
      → Lacks delim w
      → Lacks 0 w
      → map text (tokens_from fuel w delim) ≡ last_word w
  last-word zero [] nz fits hd hz = rw tokens_from-nil
  last-word zero (c ∷ w) nz fits hd hz = elim fits [ ]
  last-word (suc fuel) [] nz fits hd hz = rw tokens_from-nil
  last-word (suc fuel) (c ∷ w) nz fits hd hz =
      rw (tokens_from-end fuel c w nz hd hz)
        (ap (λ t. (c ∷ t) ∷ []) (take_all (length w) w (omega arith)))

  words-tokens_from :
      (fuel : ℕ) (ws : List Bytes) (w : Bytes)
      → delim ≢ 0
      → length (terminated delim ws ++ w) ≤ fuel
      → AreWords delim ws
      → Lacks delim w
      → Lacks 0 w
      → map text (tokens_from fuel (terminated delim ws ++ w) delim) ≡ ws ++ last_word w
  words-tokens_from fuel [] w nz fits _ hd hz = last-word fuel w nz fits hd hz
  words-tokens_from zero (v ∷ ws) w nz fits (vd, vz, hws) hd hz =
      absurd (omega (arith, length-word v (terminated delim ws) w))
  words-tokens_from (suc fuel) (v ∷ ws) w nz fits (vd, vz, hws) hd hz =
      rw (append_assoc, tokens_from-word fuel v (terminated delim ws ++ w) nz vd vz)
        (ap₂ (λ (t : Bytes) (ts : List Bytes). t ∷ ts) (take-length_append v _)
          (words-tokens_from fuel ws w nz (omega (arith, length-word v (terminated delim ws) w)) hws
            hd hz))

  -- The loop over `next_token` sees the words of a delimited list, the empty ones among them, and a last word
  -- without a delimiter unless it is empty.
  pub tokens-words :
      (ws : List Bytes) (w : Bytes)
      → delim ≢ 0
      → AreWords delim ws
      → Lacks delim w
      → Lacks 0 w
      → map text (tokens (terminated delim ws ++ w) delim) ≡ ws ++ last_word w
  unfolding tokens
  tokens-words ws w nz hws hd hz = words-tokens_from _ ws w nz (omega arith) hws hd hz

token_span-le : (delim : ℕ) (s : Bytes) → token_span delim s ≤ length s
unfolding token_span
token_span-le delim [] = omega arith
token_span-le delim (c ∷ s) = ground (arith, token_span-le delim s)

next_token-le :
    (delim : ℕ) (s : Bytes) (t : Token)
    → next_token (some s) delim ≡ some t
    → (t.token_len ≤ length s) × (length t.next ≤ length s)
unfolding next_token
next_token-le delim s t h =
    let n = token_span delim s in
    ground (arith, token_span-le delim s, length-drop n s, length-drop 1 (drop n s))

tokens_from-token_len :
    (delim fuel : ℕ) (s : Bytes) (n : ℕ)
    → length s ≤ n
    → All (λ t. t.token_len ≤ n) (tokens_from fuel s delim)
unfolding tokens_from
tokens_from-token_len delim zero s n fits = tt
tokens_from-token_len delim (suc fuel) s n fits = elim (Option-cases (next_token (some s) delim)) [
  | inl e ↦ rw (e, tokens_from) tt
  | inr (t, e) ↦
      let (small, left) = next_token-le delim s t e in
      rw (e, tokens_from) (omega arith, tokens_from-token_len delim fuel t.next n (omega arith))
]

-- No token is longer than the string.
pub tokens-token_len : (s : Bytes) (delim : ℕ) → All (λ t. t.token_len ≤ length s) (tokens s delim)
unfolding tokens
tokens-token_len s delim = tokens_from-token_len delim _ s _ (omega arith)
