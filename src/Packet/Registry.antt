-- ===== src/Packet/Registry.antt =====
-- internal/fsd_server/packet/client_manager.go: the table of clients by callsign.
pub mod Laws
use netwingfs.Prelude.{ℕ, Bool, true, false, Option, none, some, List, [], ◌∷◌, if◌then◌else◌}
use netwingfs.Prelude.Bytes.{Bytes, bytes_eq}
use netwingfs.Packet.State.{Server}
use netwingfs.Packet.Monad.{M, Run}

abbrev pub Registry : Type 0
Registry = List (Bytes × ℕ)

-- `cm.clients[callsign]`.
unfoldable pub lookup : Bytes → Registry → Option ℕ
unfolding bytes_eq
lookup k [] = none
lookup k ((j, c) ∷ r) = if bytes_eq j k then some c else lookup k r

-- `delete(cm.clients, callsign)`.
unfoldable pub remove : Bytes → Registry → Registry
remove k [] = []
remove k ((j, c) ∷ r) = if bytes_eq j k then remove k r else (j, c) ∷ remove k r

abbrev pub is_some {ℓ} : {A : Type ℓ} → Option A → Bool
is_some none = false
is_some (some a) = true

module _ {F D : Type 0} where
  -- `AddClient`: whether there was no error.
  unfoldable pub add_client : ℕ → M F D Bool
  add_client c s =
      let k = (s.clients c).callsign in
      if s.shutting_down
      then Run.done false s
      else if is_some (lookup k s.registry)
      then Run.done false s
      else Run.done true (record s { registry = (k, c) ∷ s.registry })

  -- `GetClient`.
  unfoldable pub find_client : Bytes → M F D (Option ℕ)
  find_client callsign s = Run.done (if s.shutting_down then none else lookup callsign s.registry) s

  -- `DeleteClient`.
  unfoldable pub delete_client : Bytes → M F D Bool
  delete_client callsign s =
      if is_some (lookup callsign s.registry)
      then Run.done true (record s { registry = remove callsign s.registry })
      else Run.done false s
