-- ===== src/Base/CStrings.antt =====
-- Memory that C code reads through `const char *`, and the parts of <string.h> that the program
-- calls. A pointer is the list of the bytes from there to the end of the object. The end of the
-- list reads as the terminating NUL, and so does a byte 0 inside it.
use Prim.Native.Char.{code}
use Prim.Native.String.{String}
use Prim.Native.Nat.{ℕ, zero, suc, ◌+◌}
use mathlib.Core.Path.{◌≡◌, refl}
use mathlib.Core.Logic.{◌≢◌, ◌↔◌}
use mathlib.Core.Bool.{Bool, true, false, ◌&&◌, ◌||◌}
use mathlib.Core.List.{List, [], ◌∷◌, ◌++◌, append-nil}
use native.Mathlib.Omega.{arith}
use cuda_autocompat.Base.Tests.{◌==◌, ==_refl, if◌then◌else◌}
use cuda_autocompat.Base.Lists.{
  take-length_append, drop-append_length, drop-length_append, length, take, drop, replicate,
}

abbrev pub Bytes : Type 0
Bytes = List ℕ

-- The bytes of an ASCII literal, without its NUL.
abbrev pub codes : String → Bytes
codes String.[] = []
codes (String.◌∷◌ c s) = code c ∷ codes s

-- `*p`
abbrev pub c_head : Bytes → ℕ
c_head [] = 0
c_head (c ∷ cs) = c

-- The string at `p`: the bytes in front of the first NUL. Its length is `strlen(p)`.
abbrev pub c_string : Bytes → Bytes
c_string [] = []
c_string (c ∷ cs) = let rest = c_string cs in if c == 0 then [] else c ∷ rest

-- `memset(p, 0, n)` on a whole array.
abbrev pub zeros : ℕ → Bytes
zeros n = replicate n 0

-- `memcpy` and `memset` over the bytes from the offset `i` on.
abbrev pub write : Bytes → ℕ → Bytes → Bytes
write mem i src = take i mem ++ (src ++ drop (i + length src) mem)

-- Equality of byte sequences: `memcmp` of equal lengths, and `==` of std::string.
unfoldable pub bytes_eq : Bytes → Bytes → Bool
bytes_eq [] [] = true
bytes_eq [] (y ∷ ys) = false
bytes_eq (x ∷ xs) [] = false
bytes_eq (x ∷ xs) (y ∷ ys) = x == y && bytes_eq xs ys

pub bytes_eq_iff : (xs ys : Bytes) → (bytes_eq xs ys ≡ true) ↔ (xs ≡ ys)
unfolding bytes_eq
bytes_eq_iff [] [] = (λ _. refl, λ _. refl)
bytes_eq_iff [] (y ∷ ys) = (λ h. cc, λ h. cc)
bytes_eq_iff (x ∷ xs) [] = (λ h. cc, λ h. cc)
bytes_eq_iff (x ∷ xs) (y ∷ ys) = ground (arith, bytes_eq_iff xs ys)

pub bytes_eq_refl : (xs : Bytes) → bytes_eq xs xs ≡ true
bytes_eq_refl xs = (bytes_eq_iff xs xs).1 refl

-- `strncmp(a, b, n) == 0`
unfoldable pub strncmp_eq : Bytes → Bytes → ℕ → Bool
strncmp_eq a b zero = true
strncmp_eq [] b (suc n) = c_head b == 0
strncmp_eq (x ∷ a) [] (suc n) = x == 0
strncmp_eq (x ∷ a) (y ∷ b) (suc n) = x == y && (x == 0 || strncmp_eq a b n)

-- Every byte is something else than `c`.
abbrev pub Lacks : ℕ → Bytes → Type 0
Lacks c [] = Unit
Lacks c (x ∷ xs) = (x ≢ c) × Lacks c xs

pub Lacks-append : (c : ℕ) (xs ys : Bytes) → Lacks c xs → Lacks c ys → Lacks c (xs ++ ys)
Lacks-append c [] ys hx hy = hy
Lacks-append c (x ∷ xs) ys (p, hx) hy = (p, Lacks-append c xs ys hx hy)

c_string_lem : (xs ys : Bytes) → Lacks 0 xs → c_string (xs ++ 0 ∷ ys) ≡ xs
c_string_lem [] ys h = refl
c_string_lem (x ∷ xs) ys (p, h) = ground (arith, c_string_lem xs ys h)

pub c_string_self : (xs : Bytes) → Lacks 0 xs → c_string xs ≡ xs
c_string_self [] h = refl
c_string_self (x ∷ xs) (p, h) = ground (arith, c_string_self xs h)

Lacks-c_string : (xs : Bytes) → Lacks 0 (c_string xs)
Lacks-c_string [] = tt
Lacks-c_string (x ∷ xs) = ground (arith, Lacks-c_string xs)

pub c_string-append_zeros : (s : Bytes) (n : ℕ) → Lacks 0 s → c_string (s ++ zeros n) ≡ s
c_string-append_zeros s zero hz = rw append-nil (c_string_self s hz)
c_string-append_zeros s (suc n) hz = c_string_lem s (zeros n) hz

pub c_string-zeros : (n : ℕ) → c_string (zeros n) ≡ []
c_string-zeros zero = refl
c_string-zeros (suc n) = refl

-- On strings without NUL, `strncmp` over the length of the second tests for a prefix.
strncmp_eq-prefix :
    (a b : Bytes)
    → Lacks 0 a
    → Lacks 0 b
    → strncmp_eq a b (length b) ≡ true
    → (rest : Bytes) × (a ≡ b ++ rest)
unfolding strncmp_eq
strncmp_eq-prefix a [] ha hb h = (a, refl)
strncmp_eq-prefix [] (y ∷ b) ha (hy, hb) h = absurd (ground arith)
strncmp_eq-prefix (x ∷ a) (y ∷ b) (hx, ha) (hy, hb) h =
    let (rest, e) = strncmp_eq-prefix a b ha hb (ground arith) in
    let same : x ≡ y = ground arith in (rest, cc)

strncmp_eq_of_prefix : (b rest : Bytes) → Lacks 0 b → strncmp_eq (b ++ rest) b (length b) ≡ true
unfolding strncmp_eq
strncmp_eq_of_prefix [] rest hb = refl
strncmp_eq_of_prefix (y ∷ b) rest (hy, hb) =
    rw (==_refl, strncmp_eq_of_prefix b rest hb) (ground arith)

-- A write over a part of the same length.
pub write-middle :
    (a b c src : Bytes) {i : ℕ}
    → length a ≡ i
    → length src ≡ length b
    → write (a ++ (b ++ c)) i src ≡ a ++ (src ++ c)
write-middle a b c src {i} at same = rw (
  ← at,
  take-length_append a (b ++ c),
  drop-append_length (length src) a (b ++ c),
  same,
  drop-length_append b c,
)

-- A write up to the end of the memory.
pub write-tail :
    (a b src : Bytes) {i : ℕ}
    → length a ≡ i
    → length src ≡ length b
    → write (a ++ b) i src ≡ a ++ src
write-tail a b src {i} at same =
    let whole = write-middle a b [] src at same in rw (append-nil b, append-nil src) at whole
