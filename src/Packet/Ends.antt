-- ===== src/Packet/Ends.antt =====
-- Total correctness of the server's code: a run ends without a panic, in a result and a state with a
-- property.
use netwingfs.Prelude.{
  ℕ, ◌≡◌, refl, Bool, true, false, not, ◌&&◌, Option, none, some, List, ltb, if◌then◌else◌,
  get_elem?, length, get_elem?-some, arith,
}
use netwingfs.Prelude.Bytes.{Bytes}
use netwingfs.Packet.State.{Server, Client, Session, Task, Timer}
use netwingfs.Packet.Monad.{
  M, Run, done, panic, blocked, continue, ◌>>=◌, if_nil, pure, deref, field, gets, modify,
  get_client, modify_client, get_session, modify_session, start, after_func, write, with_db, when,
}

-- The run ends, without a panic and without blocking, and with the property.
abbrev pub Ends : {F D A : Type 0} → (A → Server F D → Type 0) → Run F D A → Type 0
Ends Q (done a s) = Q a s
Ends Q panic = ⊥
Ends Q blocked = ⊥

-- Code that never panics.
pub record Safe {F D A : Type 0} (m : M F D A) : Type 0 where
  pub at : (s : Server F D) → Ends (λ _ _. Unit) (m s)

pub Ends-if :
    {F D A : Type 0} (Q : A → Server F D → Type 0) (b : Bool) (m n : M F D A) (s : Server F D)
    → (b ≡ true → Ends Q (m s))
    → (b ≡ false → Ends Q (n s))
    → Ends Q ((if b then m else n) s)
Ends-if Q true m n s h k = h refl
Ends-if Q false m n s h k = k refl

pub Ends-map :
    {F D A : Type 0} (P Q : A → Server F D → Type 0) (r : Run F D A)
    → ((a : A) (s : Server F D) → P a s → Q a s)
    → Ends P r
    → Ends Q r
Ends-map P Q (done a s) f h = f a s h
Ends-map P Q panic f h = h
Ends-map P Q blocked f h = h

pub Ends-continue :
    {F D A B : Type 0} (P : A → Server F D → Type 0) (Q : B → Server F D → Type 0) (r : Run F D A)
    (f : A → M F D B)
    → Ends P r
    → ((a : A) (s : Server F D) → P a s → Ends Q (f a s))
    → Ends Q (continue r f)
Ends-continue P Q (done a s) f h k = k a s h
Ends-continue P Q panic f h k = elim h [ ]
Ends-continue P Q blocked f h k = elim h [ ]

module _ {F D A B : Type 0} where
  pub Safe-bind : {m : M F D A} {f : A → M F D B} → Safe m → ((a : A) → Safe (f a)) → Safe (m >>= f)
  unfolding ◌>>=◌
  Safe-bind {m} {f} h k = record {
    at = λ s.
        Ends-continue (λ _ _. Unit {0}) (λ _ _. Unit {0}) (m s) f (h.at s) (λ a t _. (k a).at t);
  }

  pub Safe-if_nil :
      (o : Option A) {m : M F D B} {f : A → M F D B}
      → Safe m
      → ((a : A) → Safe (f a))
      → Safe (if_nil o m f)
  unfolding if_nil
  Safe-if_nil none h k = record { at = λ s. h.at s }
  Safe-if_nil (some a) h k = record { at = λ s. (k a).at s }

module _ {F D A : Type 0} where
  pub Safe-if : (b : Bool) {m n : M F D A} → Safe m → Safe n → Safe (if b then m else n)
  Safe-if true h k = h
  Safe-if false h k = k

  -- The first branch may use the second half of its condition.
  pub Safe-guarded :
      (b n : Bool) {m k : M F D A}
      → (n ≡ false → Safe m)
      → Safe k
      → Safe (if b && not n then m else k)
  Safe-guarded true false h k = h refl
  Safe-guarded true true h k = k
  Safe-guarded false n h k = k

  pub Safe-pure : (a : A) → Safe {F = F} {D = D} (pure a)
  unfolding pure
  Safe-pure a = record { at = λ s. tt }

  pub Safe-gets : (f : Server F D → A) → Safe (gets f)
  unfolding gets
  Safe-gets f = record { at = λ s. tt }

  pub Safe-deref : (o : Option A) (a : A) → o ≡ some a → Safe {F = F} {D = D} (deref o)
  unfolding deref
  Safe-deref o a e = rw e (record { at = λ s. tt })

  pub Safe-with_db : (f : D → A × D) → Safe {F = F} (with_db f)
  unfolding with_db
  Safe-with_db f = record { at = λ s. tt }

module _ {F D : Type 0} where
  pub Safe-modify : (f : Server F D → Server F D) → Safe (modify f)
  unfolding modify
  Safe-modify f = record { at = λ s. tt }

  pub Safe-get_client : (c : ℕ) → Safe {F = F} {D = D} (get_client c)
  unfolding get_client
  Safe-get_client c = record { at = λ s. tt }

  pub Safe-modify_client : (c : ℕ) (f : Client F → Client F) → Safe {D = D} (modify_client c f)
  unfolding modify_client
  Safe-modify_client c f = record { at = λ s. tt }

  pub Safe-get_session : (i : ℕ) → Safe {F = F} {D = D} (get_session i)
  unfolding get_session
  Safe-get_session i = record { at = λ s. tt }

  pub Safe-modify_session :
      (i : ℕ) (f : Session → Session) → Safe {F = F} {D = D} (modify_session i f)
  unfolding modify_session
  Safe-modify_session i f = record { at = λ s. tt }

  pub Safe-start : (t : Task F) → Safe {D = D} (start t)
  unfolding start
  Safe-start t = record { at = λ s. tt }

  pub Safe-after_func : (t : Timer) → Safe {F = F} {D = D} (after_func t)
  unfolding after_func
  Safe-after_func t = record { at = λ s. tt }

  pub Safe-write : (i : ℕ) (line : Bytes) → Safe {F = F} {D = D} (write i line)
  unfolding write
  Safe-write i line = record { at = λ s. tt }

  pub Safe-when : (b : Bool) {m : M F D (Unit {0})} → Safe m → Safe (when b m)
  unfolding when
  Safe-when true h = record { at = λ s. h.at s }
  Safe-when false h = record { at = λ s. tt }

  -- An index below a length that the fields are known to have.
  pub Safe-field :
      (fields : List Bytes) (n : ℕ)
      → ltb (length fields) n ≡ false
      → (i : ℕ) → ltb i n ≡ true
      → Safe {F = F} {D = D} (field fields i)
  unfolding field
  Safe-field fields n long i h =
      let (a, e) = get_elem?-some fields i (ground arith) in Safe-deref (get_elem? fields i) a e

pub ruleset safe_rules = (
  Safe-bind, Safe-if_nil, Safe-if, Safe-pure, Safe-gets, Safe-with_db, Safe-modify, Safe-get_client,
  Safe-modify_client, Safe-get_session, Safe-modify_session, Safe-start, Safe-after_func,
  Safe-write, Safe-when,
)
