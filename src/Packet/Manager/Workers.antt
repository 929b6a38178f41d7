-- ===== src/Packet/Manager/Workers.antt =====
-- The channel that limits the goroutines of a broadcast and of the shutdown.
use netwingfs.Prelude.{ℕ, ◌≡◌, refl, true, false, List, [], ◌∷◌, arith}
use netwingfs.Prelude.Int.{ℤ, pos, negsuc, ltb_ℤ, eq_ℤ}
use netwingfs.Packet.State.{Env}
use netwingfs.Packet.Monad.{pure}
use netwingfs.Packet.Manager.{make_workers, acquire_worker}

not_negative : (n : ℤ) → ltb_ℤ (pos 0) n ≡ true → ltb_ℤ n (pos 0) ≡ false
not_negative (pos n) h = ground arith
not_negative (negsuc n) h = ground (arith, h)

not_zero : (n : ℤ) → ltb_ℤ (pos 0) n ≡ true → eq_ℤ n (pos 0) ≡ false
not_zero (pos n) h = ground (arith, h)
not_zero (negsuc n) h = ground (arith, h)

module _ {F D : Type 0} (env : Env F D) where
  -- With a positive number of workers the channel is made, and has a place for each goroutine.
  pub make_workers_lem :
      (cs : List ℕ) → ltb_ℤ (pos 0) env.max_broadcast_workers ≡ true → make_workers env cs ≡ pure tt
  unfolding make_workers
  make_workers_lem [] h = refl
  make_workers_lem (c ∷ cs) h = rw (not_negative env.max_broadcast_workers h) refl

  pub acquire_worker_lem :
      ltb_ℤ (pos 0) env.max_broadcast_workers ≡ true → acquire_worker env ≡ pure tt
  unfolding acquire_worker
  acquire_worker_lem h = rw (not_zero env.max_broadcast_workers h) refl
