-- ===== src/Messages/Post.antt =====
-- Postconditions: what holds of the messages and of the result of a computation that returns.
use cuda_autocompat.Base.{
  ℕ, ◌≡◌, refl, subst, Bool, true, false, Option, none, some, List, [], ◌∷◌, ◌++◌, All, All-append,
  if◌then◌else◌, Bytes,
}
use cuda_autocompat.Search.{
  Throws, returned, thrown, Stat, StatResult, stat_ok, not_found, stat_error,
}
use cuda_autocompat.Messages.{Message, Logged, pure, lift, ◌>>=◌, ◌>>◌, say}
use cuda_autocompat.Messages.Refine.{Refines}

abbrev Holds : {A : Type 0} → (List Message → A → Type 0) → List Message → Throws A → Type 0
Holds E ms thrown = Unit
Holds E ms (returned a) = E ms a

pub record Post {A : Type 0} (E : List Message → A → Type 0) (m : Logged A) : Type 0 where
  holds : Holds E m.0 m.1

pub pure-Post : {A : Type 0} {E : List Message → A → Type 0} {a : A} → E [] a → Post E (pure a)
pure-Post h = record { holds = h }

lift-Post :
    {A : Type 0} {E : List Message → A → Type 0} (t : Throws A)
    → ((a : A) → E [] a)
    → Post E (lift t)
lift-Post thrown h = record { holds = tt }
lift-Post (returned a) h = record { holds = h a }

prepend-Post :
    {A : Type 0} {E : List Message → A → Type 0} (ms : List Message) (m : Logged A)
    → Post (λ ns a. E (ms ++ ns) a) m
    → Post E (ms ++ m.0, m.1)
prepend-Post ms (ns, thrown) h = record { holds = tt }
prepend-Post ms (ns, returned a) h = record { holds = h.holds }

pub bind-Post :
    {A B : Type 0} {D : List Message → A → Type 0} {E : List Message → B → Type 0} {m : Logged A}
    {f : A → Logged B}
    → Post D m
    → ((ms : List Message) (a : A) → D ms a → Post (λ ns b. E (ms ++ ns) b) (f a))
    → Post E (m >>= f)
bind-Post {m = (ms, thrown)} h k = record { holds = tt }
bind-Post {m = (ms, returned a)} {f = f} h k = prepend-Post ms (f a) (k ms a h.holds)

pub say-Post :
    {B : Type 0} {E : List Message → B → Type 0} {level : ℕ} {text : Bytes} {k : Logged B}
    → Post (λ ns b. E (record { level = level; text = text } ∷ ns) b) k
    → Post E (say level text >> k)
say-Post {level = level} {text = text} {k = k} h =
    prepend-Post (record { level = level; text = text } ∷ []) k h

pub if-Post :
    {A : Type 0} {E : List Message → A → Type 0} (b : Bool) {m n : Logged A}
    → (b ≡ true → Post E m)
    → (b ≡ false → Post E n)
    → Post E (if b then m else n)
if-Post true h k = h refl
if-Post false h k = k refl

pub option-Post :
    {A B : Type 0} {E : List Message → A → Type 0} (o : Option B) {m : Logged A} {f : B → Logged A}
    → (o ≡ none → Post E m)
    → ((b : B) → o ≡ some b → Post E (f b))
    → Post E (elim o [ none ↦ m | some b ↦ f b ])
option-Post none h k = h refl
option-Post (some b) h k = k b refl

pub stat-Post :
    {A : Type 0} {E : List Message → A → Type 0} (r : StatResult) {m n : Logged A}
    {f : Stat → Logged A}
    → Post E m
    → Post E n
    → ((st : Stat) → Post E (f st))
    → Post E (elim r [ not_found ↦ m | stat_error ↦ n | stat_ok st ↦ f st ])
stat-Post not_found h k l = h
stat-Post stat_error h k l = k
stat-Post (stat_ok st) h k l = l st

pub any-Post : {A : Type 0} (m : Logged A) → Post (λ ms a. Unit) m
any-Post (ms, thrown) = record { holds = tt }
any-Post (ms, returned a) = record { holds = tt }

pub weaken-Post :
    {A : Type 0} {D E : List Message → A → Type 0} {m : Logged A}
    → Post D m
    → ((ms : List Message) (a : A) → D ms a → E ms a)
    → Post E m
weaken-Post {m = (ms, thrown)} h k = record { holds = tt }
weaken-Post {m = (ms, returned a)} h k = record { holds = k ms a h.holds }

pub messages-Post :
    {A : Type 0} {P : Message → Type 0} {m : Logged A} {t : Throws A}
    → Refines P m t
    → Post (λ ms a. All P ms) m
messages-Post {m = (ms, thrown)} h = record { holds = tt }
messages-Post {m = (ms, returned a)} h = record { holds = h.messages }

pub holds-Post :
    {A : Type 0} {E : List Message → A → Type 0} {m : Logged A} {a : A}
    → Post E m
    → m.1 ≡ returned a
    → E m.0 a
holds-Post {E = E} {m = m} h e = subst (λ t. Holds E m.0 t) e h.holds

-- The result itself may be used too.
pub result-Post :
    {A : Type 0} {E : List Message → A → Type 0} {m : Logged A}
    → Post E m
    → Post (λ ms a. E ms a × (m.1 ≡ returned a)) m
result-Post {m = (ms, thrown)} h = record { holds = tt }
result-Post {m = (ms, returned a)} h = record { holds = (h.holds, refl) }

pub list-Post :
    {A B : Type 0} {E : List Message → A → Type 0} (xs : List B) {m : Logged A}
    {f : B → List B → Logged A}
    → (xs ≡ [] → Post E m)
    → ((x : B) (rest : List B) → xs ≡ x ∷ rest → Post E (f x rest))
    → Post E (elim xs [ [] ↦ m | x ∷ rest ↦ f x rest ])
list-Post [] h k = h refl
list-Post (x ∷ rest) h k = k x rest refl

-- The messages of two calls, of which the second runs if the first returns.
pub bind-All :
    {A B : Type 0} (P : Message → Type 0) (m : Logged A) (f : A → Logged B)
    → All P m.0
    → ((a : A) → m.1 ≡ returned a → All P (f a).0)
    → All P (m >>= f).0
bind-All P (ms, thrown) f h k = h
bind-All P (ms, returned a) f h k = All-append P ms (f a).0 h (k a refl)
