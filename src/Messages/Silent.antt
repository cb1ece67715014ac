-- ===== src/Messages/Silent.antt =====
-- What the search program writes to std::cerr when CUDA_AUTOCOMPAT_VERBOSE is not set, or is 0.
use cuda_autocompat.Base.{
  ℕ, suc, ◌≡◌, ◌<◌, refl, subst, ◌||◌, ltb, Bool, Option, none, some, List, [], ◌∷◌, All, ◌⊎◌, inl,
  inr, arith, Bytes,
}
use cuda_autocompat.Search.{System, returned}
use cuda_autocompat.Search.Main.{init_logging}
use cuda_autocompat.Logging.{Settings, level_info, log_write, log_trace}
use cuda_autocompat.Messages.{Message, Texts, write_message, write_messages}
use cuda_autocompat.Messages.Main.{invalid_verbosity, init_logging_logged, banner}
use cuda_autocompat.Messages.Refine.{
  Refines, AnyMessage, IsVerbose, pure-Refines, if-Refines, bind-Refines, if_same,
}

write_message-IsVerbose :
    (ndebug : Bool) (cfg : Settings) (now : Bytes) (m : Message)
    → cfg.max_level < level_info
    → IsVerbose m
    → write_message ndebug cfg now m ≡ []
unfolding log_write log_trace
write_message-IsVerbose ndebug cfg now m h v = ground arith

-- Below level `info` nothing is written of messages that are all at `info` or above.
pub write_messages-IsVerbose :
    (ndebug : Bool) (cfg : Settings) (clock : ℕ → Bytes) (ms : List Message)
    → cfg.max_level < level_info
    → All IsVerbose ms
    → write_messages ndebug cfg clock ms ≡ []
unfolding write_messages
write_messages-IsVerbose ndebug cfg clock [] h v = refl
write_messages-IsVerbose ndebug cfg clock (m ∷ ms) h (v, vs) =
    rw (write_message-IsVerbose ndebug cfg (clock 0) m h v)
      (write_messages-IsVerbose ndebug cfg (λ i. clock (suc i)) ms h vs)

pub init_logging-silent :
    (value : Option Bytes)
    → (value ≡ none) ⊎ (value ≡ some (b'0' ∷ []))
    → init_logging value < level_info
unfolding init_logging
init_logging-silent value (inl e) = rw e (omega arith)
init_logging-silent value (inr e) = rw e (omega arith)

pub banner-IsVerbose :
    (sys : System) (texts : Texts) (value : Option Bytes)
    → (value ≡ none) ⊎ (value ≡ some (b'0' ∷ []))
    → All IsVerbose (banner sys texts value).0
unfolding banner init_logging_logged
banner-IsVerbose sys texts value (inl e) = rw e (refl, tt)
banner-IsVerbose sys texts value (inr e) = rw e (refl, tt)

invalid_verbosity-Refines : Refines AnyMessage invalid_verbosity (returned tt)
invalid_verbosity-Refines = record { erased = refl; messages = (tt, tt) }

init_logging_logged-Refines :
    (value : Option Bytes) → Refines AnyMessage (init_logging_logged value) (returned tt)
unfolding init_logging_logged
init_logging_logged-Refines none = pure-Refines tt
init_logging_logged-Refines (some []) = invalid_verbosity-Refines
init_logging_logged-Refines (some (c ∷ d ∷ rest)) = invalid_verbosity-Refines
init_logging_logged-Refines (some (c ∷ [])) =
    subst (Refines AnyMessage _) (if_same (ltb c b'0' || ltb b'9' c) (returned tt))
      (if-Refines (ltb c b'0' || ltb b'9' c) invalid_verbosity-Refines (pure-Refines tt))

pub banner-Refines :
    (sys : System) (texts : Texts) (value : Option Bytes)
    → Refines AnyMessage (banner sys texts value) (returned tt)
unfolding banner
banner-Refines sys texts value =
    bind-Refines (init_logging_logged-Refines value)
      (λ u. record { erased = refl; messages = (tt, tt) })
