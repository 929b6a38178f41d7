-- ===== src/Packet/PlanHandlers/Authority.antt =====
-- Who may remove others from the server and edit their plans.
use netwingfs.Prelude.{
  ℕ, ◌≡◌, refl, Bool, true, false, ◌&&◌, none, some, List, ◌∷◌, arith, Option-cases, Bool-cases,
  inl, inr, ◌⊎◌, get_elem?, if◌then◌else◌,
}
use netwingfs.Prelude.Bytes.{Bytes}
use netwingfs.Fsd.Outcome.{Outcome}
use netwingfs.Fsd.Rating.{allow_kill_rating, allow_atc_facility, facility_string}
use netwingfs.Packet.State.{Server, Env}
use netwingfs.Packet.Monad.{
  Run, done, panic, blocked, ◌>>=◌, if_nil, pure, deref, field, get_client, get_session,
}
use netwingfs.Packet.Ends.{Ends, Ends-continue}
use netwingfs.Packet.Invariant.{After}
use netwingfs.Packet.Client.{marked_disconnect}
use netwingfs.Packet.Client.Cut.{Gone, marked_disconnect-Gone}
use netwingfs.Packet.Registry.{lookup, find_client}
use netwingfs.Packet.Updates.{client_check_rating, client_check_facility}
use netwingfs.Packet.Positions.{with_client}
use netwingfs.Packet.PlanHandlers.{handle_kill_client, handle_atc_edit_plan, edit_plan}

module _ {F D : Type 0} (env : Env F D) where
  -- Whether the client may remove others: a controller with a rating of a supervisor or above.
  abbrev pub may_kill : ℕ → Server F D → Bool
  may_kill c s = (s.clients c).is_atc && client_check_rating (s.clients c) allow_kill_rating

  -- The packet's session has a client that may remove others, and the client of the named callsign
  -- is disconnected.
  abbrev pub Killed : ℕ → List Bytes → Server F D → Server F D → Type 0
  Killed i fields s t =
      (c target : ℕ) × (name : Bytes) × ((s.sessions i).client ≡ some c)
      × (may_kill c s ≡ true)
      × (get_elem? fields 1 ≡ some name)
      × (lookup name s.registry ≡ some target)
      × Gone env s target t

  -- The answer says whether somebody was removed.
  abbrev pub KilledOrNot : ℕ → List Bytes → Server F D → Outcome → Server F D → Type 0
  KilledOrNot i fields s answer t =
      ((answer.success ≡ false) × (t ≡ s)) ⊎ ((answer.success ≡ true) × Killed i fields s t)

  After-Ends : {A : Type 0} (Q : A → Server F D → Type 0) (r : Run F D A) → Ends Q r → After Q r
  After-Ends Q (done a t) h = h
  After-Ends Q panic h = tt
  After-Ends Q blocked h = tt

  running_client :
      (s : Server F D) (name : Bytes) (c : ℕ)
      → (if s.shutting_down then none else lookup name s.registry) ≡ some c
      → lookup name s.registry ≡ some c
  running_client s name c h = ground (arith, h)

  -- Where a packet `$!!` does not end the server in a panic, its answer is an error and the server is
  -- as before, or it came from a controller with the rating of a supervisor or an administrator, and
  -- the client of the callsign that it names is disconnected: it was so before and nothing has
  -- changed, or its session's connection is closed and the timer that deletes it is armed.
  pub handle_kill_client-Killed :
      (i : ℕ) (fields : List Bytes) (s : Server F D)
      → After (KilledOrNot i fields s) (handle_kill_client env i fields s)
  unfolding handle_kill_client with_client ◌>>=◌ if_nil pure deref get_client get_session field
      find_client
  handle_kill_client-Killed i fields s = elim (Option-cases (s.sessions i).client) [
    | inl e ↦ rw e (inl (refl, refl))
    | inr (c, e) ↦ elim (Bool-cases (may_kill c s)) [
      | inr weak ↦ elim (Option-cases (facility_string (s.clients c).facility)) [
        | inl f ↦ rw (e, weak, f) tt
        | inr (text, f) ↦ rw (e, weak, f) (inl (refl, refl))
      ]
      | inl may ↦ elim (Option-cases (get_elem? fields 1)) [
        | inl f ↦ rw (e, may, f) tt
        | inr (name, f) ↦
            elim (Option-cases (if s.shutting_down then none else lookup name s.registry)) [
              | inl nobody ↦ rw (e, may, f, nobody) (inl (refl, refl))
              | inr (target, known) ↦
                  rw (e, may, f, known)
                    (After-Ends (KilledOrNot i fields s) _ (
                      Ends-continue (λ _ t. Gone env s target t) (KilledOrNot i fields s)
                        (marked_disconnect env target false s) _
                        (marked_disconnect-Gone env s target)
                        (λ _ t gone. inr (
                          refl,
                          (c, target, name, e, may, f, running_client s name target known, gone),
                        ))))
            ]
      ]
    ]
  ]

  -- The handler of a packet `$AM` of a controller who may edit plans, for a client of the table that
  -- has no plan, panics while the server runs, whatever plan the packet carries.
  pub handle_atc_edit_plan_panic :
      (i c t : ℕ) (d0 d1 name : Bytes) (fields : List Bytes) (s : Server F D)
      → (s.sessions i).client ≡ some c
      → (s.clients c).is_atc ≡ true
      → client_check_facility (s.clients c) allow_atc_facility ≡ true
      → s.shutting_down ≡ false
      → lookup name s.registry ≡ some t
      → (s.clients t).flight_plan ≡ none
      → handle_atc_edit_plan env i (d0 ∷ d1 ∷ name ∷ fields) s ≡ panic
  unfolding handle_atc_edit_plan with_client edit_plan ◌>>=◌ if_nil pure deref get_client
      get_session field find_client
  handle_atc_edit_plan_panic i c t d0 d1 name fields s known atc may running found missing =
      ground (arith, known, atc, may, running, found, missing)
