-- ===== src/SearchHelper/Read.antt =====
-- What `find_libcuda` keeps of the helper's output.
use cuda_autocompat.Base.{
  ℕ, suc, ◌+◌, ◌-◌, ◌≤◌, ◌≡◌, refl, ap, sym, Bool, true, false, ◌||◌, [], ◌∷◌, ◌++◌, Option, some,
  none, inl, inr, Bool-cases, Option-cases, arith, ◌==◌, c_string, subst, length, take, drop,
  length-take, length-drop, length-replicate, drop-append_length, replicate-append, drop-replicate,
  take-append_le, Bytes, zeros, write, if◌then◌else◌,
}
use native.Mathlib.Nat.{zero-add}
use cuda_autocompat.PathUtils.{path_max}
use cuda_autocompat.SearchHelper.{
  memchr, end_of_input, read_loop, read_pipe, Pipe, CloseStatus, find_libcuda, run_helper,
  find_search_helper, success, failure, close_error, close_pipe,
}

-- The bytes in front of the first `c`.
abbrev pub before : ℕ → Bytes → Bytes
before c [] = []
before c (x ∷ xs) = let rest = before c xs in if x == c then [] else x ∷ rest

abbrev pub contains : ℕ → Bytes → Bool
contains c [] = false
contains c (x ∷ xs) = x == c || contains c xs

-- Up to the first NUL if there is one, and otherwise up to the first newline.
abbrev first_line : Bytes → Bytes
first_line s = if contains 0 s then before 0 s else before b'\n' s

memchr-some :
    (c : ℕ) (s : Bytes) (i : ℕ)
    → memchr c s ≡ some i
    → (contains c s ≡ true) × (take i s ≡ before c s) × (i ≤ length s)
unfolding memchr
memchr-some c [] i h = ground arith
memchr-some c (x ∷ xs) i h = elim (Bool-cases (x == c)) [
  | inl e ↦ ground arith
  | inr e ↦ elim (Option-cases (memchr c xs)) [
    | inl n ↦ ground arith
    | inr (j, m) ↦
        let (found, cut, fits) = memchr-some c xs j m in
        let at : i ≡ suc j = ground arith in rw (at, e) (found, ap (λ t. x ∷ t) cut, omega arith)
  ]
]

memchr-none : (c : ℕ) (s : Bytes) → memchr c s ≡ none → (contains c s ≡ false) × (before c s ≡ s)
unfolding memchr
memchr-none c [] h = (refl, refl)
memchr-none c (x ∷ xs) h = ground (arith, memchr-none c xs)

end_of_input-some :
    (s : Bytes) (i : ℕ) → end_of_input s ≡ some i → (take i s ≡ first_line s) × (i ≤ length s)
unfolding end_of_input
end_of_input-some s i h = elim (Option-cases (memchr 0 s)) [
  | inl n ↦ ground (arith, memchr-none 0 s, memchr-some b'\n' s i)
  | inr (j, m) ↦ ground (arith, memchr-some 0 s i)
]

end_of_input-none : (s : Bytes) → end_of_input s ≡ none → first_line s ≡ s
unfolding end_of_input
end_of_input-none s h = ground (arith, memchr-none 0 s, memchr-none b'\n' s)

write-start : (m : ℕ) (got : Bytes) → write (zeros m) 0 got ≡ got ++ zeros (m - length got)
write-start m got = let e : 0 + length got ≡ length got = omega arith in rw (e, drop-replicate)

write-end :
    (m eod : ℕ) (got : Bytes)
    → eod ≤ length got
    → length got ≤ m
    → write (got ++ zeros (m - length got)) eod (zeros (length got - eod))
      ≡ take eod got ++ zeros (m - eod)
write-end m eod got h k =
    let at : eod + (length got - eod) ≡ length got + 0 = omega arith in
    let all : (length got - eod) + (m - length got) ≡ m - eod = omega arith in
    rw (length-replicate, at, drop-append_length, take-append_le eod got _ h, replicate-append, all)

-- The second round of the loop ends it: the buffer is full, or the stream is at its end.
second_round :
    (fuel rem cur : ℕ) (out stream : Bytes)
    → read_loop (suc fuel) out cur (rem - length (take rem stream)) (drop rem stream) ≡ (out, cur)
unfolding read_loop
second_round fuel rem cur out stream = ground (
  arith,
  length-take rem stream,
  length-drop rem stream,
  length-take (rem - length (take rem stream)) (drop rem stream),
)

-- A round that goes on.
round_on :
    (fuel cur rem : ℕ) (out stream : Bytes)
    → (rem == 0 || length (take rem stream) == 0) ≡ false
    → end_of_input (take rem stream) ≡ none
    → read_loop (suc fuel) out cur rem stream
      ≡ read_loop fuel
          (write out cur (take rem stream))
          (cur + length (take rem stream))
          (rem - length (take rem stream))
          (drop rem stream)
unfolding read_loop
round_on fuel cur rem out stream go n = rw (go, n)

-- A round that finds the end of the input.
round_end :
    (fuel cur rem i : ℕ) (out stream : Bytes)
    → (rem == 0 || length (take rem stream) == 0) ≡ false
    → end_of_input (take rem stream) ≡ some i
    → read_loop (suc fuel) out cur rem stream ≡ (
      write (write out cur (take rem stream)) (cur + i) (zeros (length (take rem stream) - i)),
      cur + i,
    )
unfolding read_loop
round_end fuel cur rem i out stream go e = rw (go, e)

round_stop :
    (fuel cur rem : ℕ) (out stream : Bytes)
    → (rem == 0 || length (take rem stream) == 0) ≡ true
    → read_loop (suc fuel) out cur rem stream ≡ (out, cur)
unfolding read_loop
round_stop fuel cur rem out stream stop = rw stop

-- A text at the start of a cleared buffer of `m` bytes, and its length.
abbrev pub kept : ℕ → Bytes → Bytes × ℕ
kept m s = (s ++ zeros (m - length s), length s)

eq-nil : (s : Bytes) → length s ≡ 0 → s ≡ []
eq-nil [] h = refl
eq-nil (x ∷ s) h = absurd (omega arith)

kept-nil : (m : ℕ) (s : Bytes) → length s ≡ 0 → (zeros m, 0) ≡ kept m (first_line s)
kept-nil m s h = let all : m - 0 ≡ m = omega arith in rw (eq-nil s h, all)

kept-take :
    (m i : ℕ) (got : Bytes)
    → (take i got ≡ first_line got) × (i ≤ length got)
    → length got ≤ m
    → (write (got ++ zeros (m - length got)) i (zeros (length got - i)), i)
      ≡ kept m (first_line got)
kept-take m i got (cut, at) fits =
    let n : length (take i got) ≡ i = omega (arith, length-take i got) in
    rw (← cut, write-end m i got at fits, n)

read_loop-first_line :
    (fuel m rem : ℕ) (stream : Bytes)
    → rem ≤ m
    → read_loop (suc (suc fuel)) (zeros m) 0 rem stream ≡ kept m (first_line (take rem stream))
read_loop-first_line fuel m rem stream fits =
    let got = take rem stream in
    let small : length got ≤ m = omega (arith, length-take rem stream) in
    elim (Bool-cases (rem == 0 || length got == 0)) [
      | inl stop ↦
          rw (round_stop (suc fuel) 0 rem (zeros m) stream stop)
            (kept-nil m got (ground (arith, length-take rem stream)))
      | inr go ↦ elim (Option-cases (end_of_input got)) [
        | inl n ↦ rw (
          round_on (suc fuel) 0 rem (zeros m) stream go n,
          second_round,
          write-start,
          zero-add,
          end_of_input-none got n,
        )
        | inr (i, e) ↦
            rw (round_end (suc fuel) 0 rem i (zeros m) stream go e, write-start, zero-add)
              (kept-take m i got (end_of_input-some got i e) small)
      ]
    ]

-- The whole input that counts: of what fits in front of the NUL of the buffer, the text up to the
-- first NUL, or up to the first newline if it has no NUL.
abbrev pub line_of : Bytes → Bytes
line_of stream = first_line (take (path_max - 1) stream)

-- The result and the buffer for a text; `PATH_MAX` bytes hold it with its NUL.
abbrev pub delivered : Bytes → ℕ × Bytes
delivered s = (length s, s ++ zeros (path_max - length s))

read_loop-line_of :
    (stream : Bytes)
    → read_loop path_max (zeros path_max) 0 (path_max - 1) stream ≡ kept path_max (line_of stream)
read_loop-line_of stream =
    let fuel : path_max ≡ suc (suc (path_max - 2)) = unfold path_max in omega arith in
    subst
      (λ k. read_loop k (zeros path_max) 0 (path_max - 1) stream ≡ kept path_max (line_of stream))
      (sym fuel) (read_loop-first_line (path_max - 2) path_max (path_max - 1) stream (omega arith))

-- What the caller gets from a helper that is run.
abbrev pub answer : Option Pipe → ℕ × Bytes
answer none = (0, zeros path_max)
answer (some pipe) = elim pipe.status [
  | success ↦ delivered (line_of pipe.stream)
  | _ ↦ (0, zeros path_max)
]

close_pipe-kept :
    (status : CloseStatus) (s : Bytes)
    → close_pipe status (kept path_max s)
      ≡ (elim status [ success ↦ delivered s | _ ↦ (0, zeros path_max) ])
unfolding close_pipe
close_pipe-kept success s = refl
close_pipe-kept failure s = refl
close_pipe-kept close_error s = refl

read_pipe-answer : (p : Option Pipe) → read_pipe p (zeros path_max) ≡ answer p
unfolding read_pipe
read_pipe-answer none = refl
read_pipe-answer (some pipe) =
    rw read_loop-line_of (close_pipe-kept pipe.status (line_of pipe.stream))

run_helper-answer :
    (popen : Bytes → Option Pipe) (r : Bool × Bytes)
    → run_helper popen r (zeros path_max)
      ≡ (if r.0 then answer (popen (c_string r.1)) else (0, zeros path_max))
unfolding run_helper
run_helper-answer popen (false, path) = refl
run_helper-answer popen (true, path) = read_pipe-answer (popen (c_string path))

-- All that `find_libcuda` can return. For a helper that was found and ended with status 0 it is what
-- the helper wrote, cut to fit the buffer with its NUL, up to its first NUL, or up to its first
-- newline if it has no NUL. Otherwise it is 0 with a cleared buffer.
pub find_libcuda-answer :
    (access : Bytes → Bool) (popen : Bytes → Option Pipe) (self_path path_env : Option Bytes)
    (buf : Bytes)
    → find_libcuda access popen self_path path_env buf ≡ (
        let (found, path) = find_search_helper access self_path path_env buf in
        if found then answer (popen (c_string path)) else (0, zeros path_max))
unfolding find_libcuda
find_libcuda-answer access popen self_path path_env buf =
    run_helper-answer popen (find_search_helper access self_path path_env buf)
