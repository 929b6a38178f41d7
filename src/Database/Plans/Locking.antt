-- ===== src/Database/Plans/Locking.antt =====
-- Who may change a filed plan that a controller has locked, and what a change leaves alone.
use mathlib.Core.Path.{subst}
use netwingfs.Prelude.{
  ◌≡◌, refl, sym, Bool, true, false, not, ◌&&◌, none, some, List, ◌∷◌, length, ltb, arith,
  Option-cases, Bool-cases, inl, inr, ◌⊎◌, if◌then◌else◌,
}
use netwingfs.Prelude.Bytes.{Bytes}
use netwingfs.Database.Model.{FlightPlan, Database, Saved, stamped, duplicated, save_failed}
use netwingfs.Database.Plans.{PlanReply, update_flight_plan_data, after_update, update_flight_plan}

-- The plan's owner, its lock and its origin.
abbrev pub SamePlan : FlightPlan → FlightPlan → Type 0
SamePlan p q =
    (q.cid ≡ p.cid) × (q.callsign ≡ p.callsign) × (q.locked ≡ p.locked) × (q.from_web ≡ p.from_web)

update_flight_plan_data-SamePlan :
    (p q : FlightPlan) (fields : List Bytes)
    → update_flight_plan_data p fields ≡ some q
    → SamePlan p q
unfolding update_flight_plan_data
update_flight_plan_data-SamePlan p q
      (a0 ∷ a1 ∷ a2 ∷ a3 ∷ a4 ∷ a5 ∷ a6 ∷ a7 ∷ a8 ∷ a9 ∷ a10 ∷ a11 ∷ a12 ∷ a13 ∷ a14 ∷ a15 ∷ a16
        ∷ rest)
      h =
    (ground arith, ground arith, ground arith, ground arith)
update_flight_plan_data-SamePlan p q _ h = absurd (ground arith)

module _ {D : Type 0} (db : Database D) where
  -- Who may change a plan: on a simulator server anyone, else a controller who edits it, or its
  -- pilot while it is not locked.
  abbrev pub MayChange : Bool → FlightPlan → Bool → Type 0
  MayChange simulator p atc_edit = (simulator ≡ true) ⊎ ((atc_edit ≡ true) ⊎ (p.locked ≡ false))

  -- The plan in memory is the filed one, but for its time stamp.
  abbrev pub Filed : FlightPlan → List Bytes → FlightPlan → Type 0
  Filed p fields q =
      (r : FlightPlan) × (update_flight_plan_data p fields ≡ some r)
      × (q ≡ record r { updated_at = q.updated_at })

  abbrev pub Refused : FlightPlan → D → PlanReply D → Type 0
  Refused p d reply = (¬ (reply.error ≡ none)) × (reply.flight_plan ≡ p) × (reply.state ≡ d)

  abbrev pub Changed : Bool → FlightPlan → List Bytes → Bool → D → PlanReply D → Type 0
  Changed simulator p fields atc_edit d reply =
      MayChange simulator p atc_edit
      × Filed p fields reply.flight_plan
      × ((simulator ≡ false) ⊎ ((reply.error ≡ none) × (reply.state ≡ d)))

  may_change :
      (simulator atc_edit : Bool) (p : FlightPlan)
      → (not simulator && (not atc_edit && p.locked)) ≡ false
      → MayChange simulator p atc_edit
  may_change true atc_edit p h = inl refl
  may_change false true p h = inr (inl refl)
  may_change false false p h = inr (inr h)

  saved_of :
      (p q : FlightPlan) (fields : List Bytes) (answer : Saved × D)
      → update_flight_plan_data p fields ≡ some q
      → Filed p fields (after_update db false q answer).flight_plan
  saved_of p q fields (stamped time, d) e = (q, e, refl)
  saved_of p q fields (duplicated, d) e = (q, e, refl)
  saved_of p q fields (save_failed, d) e = (q, e, refl)

  -- The reply of a change to the plan `q`.
  abbrev reply : Bool → FlightPlan → D → PlanReply D
  reply simulator q d =
      if simulator
      then record { flight_plan = q; error = none; state = d }
      else after_update db simulator q (db.save_plan q d)

  reply_of :
      (simulator : Bool) (p q : FlightPlan) (fields : List Bytes) (atc_edit : Bool) (d : D)
      → ltb (length fields) 17 ≡ false
      → (not simulator && (not atc_edit && p.locked)) ≡ false
      → update_flight_plan_data p fields ≡ some q
      → update_flight_plan db simulator p fields atc_edit d ≡ reply simulator q d
  unfolding update_flight_plan
  reply_of simulator p q fields atc_edit d long free e = rw (update_flight_plan, long, free, e) refl

  change_of :
      (simulator : Bool) (p q : FlightPlan) (fields : List Bytes) (atc_edit : Bool) (d : D)
      → MayChange simulator p atc_edit
      → update_flight_plan_data p fields ≡ some q
      → Changed simulator p fields atc_edit d (reply simulator q d)
  change_of true p q fields atc_edit d may e = (may, (q, e, refl), inr (refl, refl))
  change_of false p q fields atc_edit d may e =
      (may, saved_of p q fields (db.save_plan q d) e, inl refl)

  -- Every call of `UpdateFlightPlan` is refused with an error, and then neither the plan in memory
  -- nor the database changes; or the change is permitted, and the plan in memory is the filed one but
  -- for its time stamp, also where saving it fails; on a simulator server there is then no error, and
  -- the database stays as it is.
  pub update_flight_plan-Permitted :
      (simulator : Bool) (p : FlightPlan) (fields : List Bytes) (atc_edit : Bool) (d : D)
      → Refused p d (update_flight_plan db simulator p fields atc_edit d)
        ⊎ Changed simulator p fields atc_edit d
            (update_flight_plan db simulator p fields atc_edit d)
  unfolding update_flight_plan
  update_flight_plan-Permitted simulator p fields atc_edit d =
      elim (Bool-cases (ltb (length fields) 17)) [
        | inl e ↦ rw (update_flight_plan, e) (inl ((λ h. cc), refl, refl))
        | inr long ↦ elim (Bool-cases (not simulator && (not atc_edit && p.locked))) [
          | inl e ↦ rw (update_flight_plan, long, e) (inl ((λ h. cc), refl, refl))
          | inr free ↦ elim (Option-cases (update_flight_plan_data p fields)) [
            | inl e ↦ rw (update_flight_plan, long, free, e) (inl ((λ h. cc), refl, refl))
            | inr (q, e) ↦ inr (
                subst (Changed simulator p fields atc_edit d)
                  (sym (reply_of simulator p q fields atc_edit d long free e))
                  (change_of simulator p q fields atc_edit d (may_change simulator atc_edit p free)
                    e))
          ]
        ]
      ]

  -- Whatever branch `UpdateFlightPlan` takes, the plan in memory keeps its owner, its callsign, its
  -- lock and its origin.
  pub update_flight_plan-SamePlan :
      (simulator : Bool) (p : FlightPlan) (fields : List Bytes) (atc_edit : Bool) (d : D)
      → SamePlan p (update_flight_plan db simulator p fields atc_edit d).flight_plan
  unfolding update_flight_plan
  update_flight_plan-SamePlan simulator p fields atc_edit d =
      elim (Option-cases (update_flight_plan_data p fields)) [
        | inl e ↦ (ground (arith, e), ground (arith, e), ground (arith, e), ground (arith, e))
        | inr (q, e) ↦
            let h = update_flight_plan_data-SamePlan p q fields e in
            (
              ground (arith, e, h.0),
              ground (arith, e, h.1),
              ground (arith, e, h.2),
              ground (arith, e, h.3),
            )
      ]
