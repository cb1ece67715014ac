-- ===== src/DlLibrary/Lifetime.antt =====
-- Sequences of calls of the class of utils/cpp/dl_library.cxx, and the handles they open and close.
use cuda_autocompat.Base.{
  ℕ, ◌≡◌, refl, sym, ap, ◌∙◌, Bool, true, false, Option, none, some, List, [], ◌∷◌, ◌++◌,
  append-nil, if◌then◌else◌, Bytes, arith,
}
use cuda_autocompat.FilePath.{FilePath}
use cuda_autocompat.DlLibrary.{
  Linker, DlLibrary, no_library, handles, open_library, close_library, get_path, get_symbol_pointer,
}

-- A call of the class.
pub data Call : Type 0 where
  call_open : FilePath → ℕ → Call
  call_close : Call
  call_path : Call
  call_symbol : Bytes → Call

module _ (linker : Linker) where
  abbrev call : Call → DlLibrary → DlLibrary
  call (call_open lib_path flags) s = (open_library linker lib_path flags s).1
  call call_close s = close_library linker s
  call call_path s = (get_path linker s).1
  call (call_symbol name) s = (get_symbol_pointer linker name s).1

  unfoldable pub calls : List Call → DlLibrary → DlLibrary
  calls [] s = s
  calls (c ∷ cs) s = calls cs (call c s)

  -- A call of `open` finds the library closed.
  abbrev IsClosedFor : Call → DlLibrary → Type 0
  IsClosedFor (call_open lib_path flags) s = s.handle ≡ none
  IsClosedFor _ s = Unit

  abbrev Proper : List Call → DlLibrary → Type 0
  Proper [] s = Unit
  Proper (c ∷ cs) s = IsClosedFor c s × Proper cs (call c s)

  abbrev Balanced : DlLibrary → Type 0
  Balanced s = s.closed ++ handles s.handle ≡ s.opened

  close_library-Balanced : (s : DlLibrary) → Balanced s → Balanced (close_library linker s)
  unfolding close_library
  close_library-Balanced s b = go s.handle refl
    where
      go :
          (r : Option ℕ)
          → s.handle ≡ r
          → Balanced (elim r [
            | none ↦ s
            | some h ↦ record {
              handle = none;
              last_error = if linker.dlclose h then s.last_error else linker.dlerror;
              opened = s.opened;
              closed = s.closed ++ h ∷ [];
            }
          ])
      go none e = b
      go (some h) e =
          append-nil (s.closed ++ h ∷ []) ∙ (ap (λ x. s.closed ++ handles x) (sym e) ∙ b)

  call-Balanced : (c : Call) (s : DlLibrary) → IsClosedFor c s → Balanced s → Balanced (call c s)
  unfolding open_library close_library get_path get_symbol_pointer
  call-Balanced (call_open lib_path flags) s h b =
      go (linker.dlopen lib_path flags)
        (sym (append-nil s.closed) ∙ (ap (λ x. s.closed ++ handles x) (sym h) ∙ b))
    where
      result : Option ℕ → Bool × DlLibrary
      result none = (false, record s { handle = none; last_error = linker.dlerror })
      result (some x) = (true, record s { handle = some x; opened = s.opened ++ x ∷ [] })

      go : (r : Option ℕ) → s.closed ≡ s.opened → Balanced (result r).1
      go none e = append-nil s.closed ∙ e
      go (some x) e = ap (λ xs. xs ++ x ∷ []) e
  call-Balanced call_close s h b = close_library-Balanced s b
  call-Balanced call_path s h b = ground arith
  call-Balanced (call_symbol name) s h b = ground arith

  calls-Balanced :
      (cs : List Call) (s : DlLibrary) → Proper cs s → Balanced s → Balanced (calls cs s)
  unfolding calls
  calls-Balanced [] s p b = b
  calls-Balanced (c ∷ cs) s (h, p) b = calls-Balanced cs (call c s) p (call-Balanced c s h b)

  all_closed :
      (s : DlLibrary)
      → Balanced (close_library linker s)
      → (close_library linker s).closed ≡ s.opened
  unfolding close_library
  all_closed s b = go s.handle refl b
    where
      after : Option ℕ → DlLibrary
      after none = s
      after (some h) = record {
        handle = none;
        last_error = if linker.dlclose h then s.last_error else linker.dlerror;
        opened = s.opened;
        closed = s.closed ++ h ∷ [];
      }

      go : (r : Option ℕ) → s.handle ≡ r → Balanced (after r) → (after r).closed ≡ s.opened
      go none e k = sym (append-nil s.closed) ∙ (ap (λ x. s.closed ++ handles x) (sym e) ∙ k)
      go (some h) e k = sym (append-nil (s.closed ++ h ∷ [])) ∙ k

  -- After any calls on a new object, of which no `open` finds it open, the destructor has closed
  -- each handle that was opened once, in the order of opening.
  pub close_library-calls :
      (cs : List Call)
      → Proper cs no_library
      → (close_library linker (calls cs no_library)).closed ≡ (calls cs no_library).opened
  unfolding close_library
  close_library-calls cs p =
      let s = calls cs no_library in
      all_closed s (close_library-Balanced s (calls-Balanced cs no_library p refl))
