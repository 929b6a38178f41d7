-- ===== src/Base/Cleaner.antt =====
-- internal/base/cleaner.go: what is run when the server ends. The signal, the time limits, which
-- the functions may heed, and the log are left out.
pub mod Order
use netwingfs.Prelude.{ℕ, Bool, true, false, Option, none, some, List, [], ◌∷◌, ◌++◌, if◌then◌else◌}
use netwingfs.Utils.Slices.{reverse_for_each}

-- `Callable`: its `Invoke` answers an error or nil.
abbrev pub Callable : Type 0 → Type 0 → Type 0
Callable E X = E → Option X × E

pub record Cleaner (E X : Type 0) : Type 0 where
  pub cleaners : List (Callable E X)
  pub cleaning : Bool
  pub logger_shutdown : Callable E X

-- What `Clean` leaves before it ends the process: the cleaner, the errors of the functions, and the
-- error of the logger's shutdown.
pub record Cleaned (E X : Type 0) : Type 0 where
  pub cleaner : Cleaner E X
  pub errs : List X
  pub logger_err : Option X
  pub outside : E

module _ {E X : Type 0} where
  -- `NewCleaner`.
  unfoldable pub new_cleaner : Callable E X → Cleaner E X
  new_cleaner logger_shutdown = record {
    cleaners = [];
    cleaning = false;
    logger_shutdown = logger_shutdown;
  }

  -- `Add`.
  unfoldable pub add : Cleaner E X → Callable E X → Cleaner E X
  add c callable = if c.cleaning then c else record c { cleaners = c.cleaners ++ callable ∷ [] }

  -- The body of the loop of `Clean`: the errors so far, and the state.
  unfoldable pub invoke : ℕ → Callable E X → List X × E → List X × E
  invoke index callback (errs, e) =
      let (err, e) = callback e in elim err [ none ↦ (errs, e) | some x ↦ (errs ++ x ∷ [], e) ]

  -- `Clean`.
  unfoldable pub clean : Cleaner E X → E → Cleaned E X
  unfolding reverse_for_each invoke
  clean c e =
      let (errs, e) = reverse_for_each c.cleaners invoke ([], e) in
      let (logger_err, e) = c.logger_shutdown e in
      record {
        cleaner = record c { cleaning = true };
        errs = errs;
        logger_err = logger_err;
        outside = e;
      }
