-- ===== src/Packet/Invariant.antt =====
-- What every step of the server keeps: the client manager's table has one entry for a callsign, and
-- an entry leads to an allocated client of just that callsign.
pub mod Primitives
pub mod Clients
pub mod Handlers
pub mod Commands
pub mod Reachable
pub mod Lookup
use netwingfs.Prelude.{ℕ, ◌<◌, ◌≡◌, none, List, [], ◌∷◌}
use netwingfs.Prelude.Bytes.{Bytes}
use netwingfs.Packet.State.{Server, Client}
use netwingfs.Packet.Monad.{M, Run, done, panic, blocked, continue, ◌>>=◌}
use netwingfs.Packet.Registry.{Registry, lookup}

-- No callsign has two entries.
abbrev pub Distinct : Registry → Type 0
Distinct [] = Unit
Distinct ((k, c) ∷ r) = (lookup k r ≡ none) × Distinct r

-- Every entry leads to an allocated client of that callsign.
abbrev pub Entries : {F : Type 0} → (ℕ → Client F) → ℕ → Registry → Type 0
Entries clients next [] = Unit
Entries clients next ((k, c) ∷ r) = (c < next) × ((clients c).callsign ≡ k) × Entries clients next r

pub record WellFormed {F D : Type 0} (s : Server F D) : Type 0 where
  pub distinct : Distinct s.registry
  pub entries : Entries s.clients s.next_client s.registry

-- A postcondition of a run; a panic, which ends the process, meets any, and so does a goroutine that
-- blocks.
abbrev pub After : {F D A : Type 0} → (A → Server F D → Type 0) → Run F D A → Type 0
After Q (done a s) = Q a s
After Q panic = Unit
After Q blocked = Unit

-- Code that leads from states with `P` to results and states with `Q`.
pub record Triple {F D A : Type 0} (P : Server F D → Type 0) (m : M F D A)
    (Q : A → Server F D → Type 0) : Type 0 where
  pub at : (s : Server F D) → P s → After Q (m s)

-- Code that keeps the invariant.
abbrev pub Keeps : {F D A : Type 0} → M F D A → Type 0
Keeps m = Triple WellFormed m (λ _. WellFormed)

module _ {F D A B : Type 0} where
  After-continue :
      {Q : A → Server F D → Type 0} {R : B → Server F D → Type 0} (r : Run F D A) (f : A → M F D B)
      → After Q r
      → ((a : A) → Triple (Q a) (f a) R)
      → After R (continue r f)
  After-continue (done a s) f q k = (k a).at s q
  After-continue panic f q k = tt
  After-continue blocked f q k = tt

  pub Triple-bind :
      {P : Server F D → Type 0} {Q : A → Server F D → Type 0} {R : B → Server F D → Type 0}
      {m : M F D A} {f : A → M F D B}
      → Triple P m Q
      → ((a : A) → Triple (Q a) (f a) R)
      → Triple P (m >>= f) R
  unfolding ◌>>=◌
  Triple-bind {m} {f} t k = record { at = λ s p. After-continue (m s) f (t.at s p) k }
