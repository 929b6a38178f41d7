-- ===== src/Packet/Monad.antt =====
-- Code of the server: from a state to a value and a state, or a run-time panic, or a goroutine that
-- blocks for ever. A panic of one goroutine ends the whole process, since nothing recovers it.
use netwingfs.Prelude.{ℕ, Bool, Option, none, some, List, [], ◌∷◌, ◌++◌, get_elem?, true, false}
use netwingfs.Prelude.Bytes.{Bytes}
use netwingfs.Packet.State.{Server, Client, Session, Task, Timer, update}

pub data Run (F D A : Type 0) : Type 0 where
  done : A → Server F D → Run F D A
  panic : Run F D A
  blocked : Run F D A

abbrev pub M : Type 0 → Type 0 → Type 0 → Type 0
M F D A = Server F D → Run F D A

module _ {F D A B : Type 0} where
  abbrev pub continue : Run F D A → (A → M F D B) → Run F D B
  continue (done a s) f = f a s
  continue panic f = panic
  continue blocked f = blocked

  infixl 5 ◌>>=◌
  unfoldable pub ◌>>=◌ : M F D A → (A → M F D B) → M F D B
  ◌>>=◌ m f s = continue (m s) f

module _ {F D A B : Type 0} where
  -- The test of a pointer, or of an error, for nil.
  unfoldable pub if_nil : Option A → M F D B → (A → M F D B) → M F D B
  if_nil none m f s = m s
  if_nil (some a) m f s = f a s

module _ {F D B : Type 0} where
  infixl 5 ◌>>◌
  abbrev pub ◌>>◌ : M F D (Unit {0}) → M F D B → M F D B
  m >> k = m >>= λ _. k

module _ {F D A : Type 0} where
  unfoldable pub pure : A → M F D A
  pure a s = done a s

  unfoldable pub crash : M F D A
  crash s = panic

  -- A send to a channel that nothing receives from.
  unfoldable pub block : M F D A
  block s = blocked

  -- A pointer that is used, or the result of an operation that may panic.
  unfoldable pub deref : Option A → M F D A
  deref none s = panic
  deref (some a) s = done a s

  unfoldable pub gets : (Server F D → A) → M F D A
  gets f s = done (f s) s

module _ {F D : Type 0} where
  -- `data[i]`.
  unfoldable pub field : List Bytes → ℕ → M F D Bytes
  unfolding deref
  field fields i = deref (get_elem? fields i)

  unfoldable pub modify : (Server F D → Server F D) → M F D (Unit {0})
  modify f s = done tt (f s)

  unfoldable pub get_client : ℕ → M F D (Client F)
  get_client c s = done (s.clients c) s

  unfoldable pub modify_client : ℕ → (Client F → Client F) → M F D (Unit {0})
  modify_client c f s = done tt (record s { clients = update s.clients c (f (s.clients c)) })

  unfoldable pub get_session : ℕ → M F D Session
  get_session i s = done (s.sessions i) s

  unfoldable pub modify_session : ℕ → (Session → Session) → M F D (Unit {0})
  modify_session i f s = done tt (record s { sessions = update s.sessions i (f (s.sessions i)) })

  -- `go f(…)`.
  unfoldable pub start : Task F → M F D (Unit {0})
  start t s = done tt (record s { tasks = s.tasks ++ t ∷ [] })

  -- `time.AfterFunc(…)`.
  unfoldable pub after_func : Timer → M F D (Unit {0})
  after_func t s = done tt (record s { timers = t ∷ s.timers })

  -- `conn.Write(…)`; an error of the write is only logged.
  unfoldable pub write : ℕ → Bytes → M F D (Unit {0})
  write i line s = done tt (record s { sent = s.sent ++ (i, line) ∷ [] })

  -- A call of the database.
  unfoldable pub with_db : {A : Type 0} → (D → A × D) → M F D A
  with_db f s = let (a, d) = f s.db in done a (record s { db = d })

  -- `if … { … }` with no value.
  unfoldable pub when : Bool → M F D (Unit {0}) → M F D (Unit {0})
  when true m s = m s
  when false m s = done tt s
