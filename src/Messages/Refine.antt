-- ===== src/Messages/Refine.antt =====
-- The rules by which a computation with messages is compared with one without them.
pub mod Load
pub mod Update
pub mod Scan
pub mod Main
pub mod Args
pub mod CommandLine
use cuda_autocompat.Base.{
  ℕ, ◌≡◌, refl, subst, Bool, true, false, Option, none, some, List, ◌∷◌, ◌++◌, All, All-append,
  All-map, leb, if◌then◌else◌, Bytes,
}
use cuda_autocompat.Search.{
  Throws, returned, thrown, ◌>>=◌ as bind, Stat, StatResult, stat_ok, not_found, stat_error,
}
use cuda_autocompat.Logging.{level_info}
use cuda_autocompat.Messages.{Message, Logged, pure, lift, ◌>>=◌, ◌>>◌, say}

-- At level `info` or above it.
abbrev pub IsVerbose : Message → Type 0
IsVerbose m = leb level_info m.level ≡ true

-- The result of the first without its messages is the second, and all messages fulfil a predicate.
pub record Refines {A : Type 0} (P : Message → Type 0) (m : Logged A) (t : Throws A) : Type 0 where
  pub erased : m.1 ≡ t
  pub messages : All P m.0

abbrev pub AnyMessage : Message → Type 0
AnyMessage m = Unit

pub any-Refines :
    {A : Type 0} {P : Message → Type 0} {m : Logged A} {t : Throws A}
    → Refines P m t
    → Refines AnyMessage m t
any-Refines {m = (ms, t)} e = record {
  erased = e.erased;
  messages = All-map ms e.messages (λ x h. tt);
}

pub pure-Refines : {A : Type 0} {P : Message → Type 0} (a : A) → Refines P (pure a) (returned a)
pure-Refines a = record { erased = refl; messages = tt }

pub lift-Refines : {A : Type 0} {P : Message → Type 0} (t : Throws A) → Refines P (lift t) t
lift-Refines t = record { erased = refl; messages = tt }

-- A call and what follows.
pub bind-Refines :
    {A B : Type 0} {P : Message → Type 0} {m : Logged A} {f : A → Logged B} {t : Throws A}
    {g : A → Throws B}
    → Refines P m t
    → ((a : A) → Refines P (f a) (g a))
    → Refines P (m >>= f) (bind t g)
bind-Refines {P = P} {m = (ms, thrown)} {g = g} e h = record {
  erased = subst (λ x. thrown ≡ bind x g) e.erased refl;
  messages = e.messages;
}
bind-Refines {P = P} {m = (ms, returned a)} {f = f} {g = g} e h = record {
  erased = subst (λ x. (f a).1 ≡ bind x g) e.erased ((h a).erased);
  messages = All-append P ms (f a).0 e.messages ((h a).messages);
}

-- A message and what follows.
pub say-Refines :
    {B : Type 0} {P : Message → Type 0} {level : ℕ} {text : Bytes} {k : Logged B} {t : Throws B}
    → P (record { level = level; text = text })
    → Refines P k t
    → Refines P (say level text >> k) t
say-Refines h e = record { erased = e.erased; messages = (h, e.messages) }

pub if-Refines :
    {A : Type 0} {P : Message → Type 0} (b : Bool) {m n : Logged A} {t u : Throws A}
    → Refines P m t
    → Refines P n u
    → Refines P (if b then m else n) (if b then t else u)
if-Refines true h k = h
if-Refines false h k = k

pub option-Refines :
    {A B : Type 0} {P : Message → Type 0} (o : Option B) {m : Logged A} {f : B → Logged A}
    {t : Throws A} {g : B → Throws A}
    → Refines P m t
    → ((b : B) → o ≡ some b → Refines P (f b) (g b))
    → Refines P (elim o [ none ↦ m | some b ↦ f b ]) (elim o [ none ↦ t | some b ↦ g b ])
option-Refines none h k = h
option-Refines (some b) h k = k b refl

pub stat-Refines :
    {A : Type 0} {P : Message → Type 0} (r : StatResult) {m n : Logged A} {f : Stat → Logged A}
    {t u : Throws A} {g : Stat → Throws A}
    → Refines P m t
    → Refines P n u
    → ((st : Stat) → Refines P (f st) (g st))
    → Refines P
        (elim r [ not_found ↦ m | stat_error ↦ n | stat_ok st ↦ f st ])
        (elim r [ not_found ↦ t | stat_error ↦ u | stat_ok st ↦ g st ])
stat-Refines not_found h k l = h
stat-Refines stat_error h k l = k
stat-Refines (stat_ok st) h k l = l st

pub if_same : {A : Type 0} (b : Bool) (a : A) → (if b then a else a) ≡ a
if_same true a = refl
if_same false a = refl

-- `returned` outside the cases.
pub if_returned :
    {A : Type 0} (b : Bool) (a c : A)
    → (if b then returned a else returned c) ≡ returned (if b then a else c)
if_returned true a c = refl
if_returned false a c = refl

pub stat_returned :
    {A : Type 0} (r : StatResult) (a c : A) (f : Stat → A)
    → (elim r [ not_found ↦ returned a | stat_error ↦ returned c | stat_ok st ↦ returned (f st) ])
      ≡ returned (elim r [ not_found ↦ a | stat_error ↦ c | stat_ok st ↦ f st ])
stat_returned not_found a c f = refl
stat_returned stat_error a c f = refl
stat_returned (stat_ok st) a c f = refl

pub option_returned :
    {A B : Type 0} (o : Option B) (a : A) (f : B → A)
    → (elim o [ none ↦ returned a | some b ↦ returned (f b) ])
      ≡ returned (elim o [ none ↦ a | some b ↦ f b ])
option_returned none a f = refl
option_returned (some b) a f = refl
