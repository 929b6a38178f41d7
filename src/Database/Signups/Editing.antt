-- ===== src/Database/Signups/Editing.antt =====
-- internal/interfaces/operation/model.go: `Diff` of an activity; and activity_operation.go: how an
-- activity is written.
use netwingfs.Prelude.{
  ℕ, Bool, true, false, not, ◌&&◌, Option, none, some, List, [], ◌∷◌, ◌==◌, if◌then◌else◌,
}
use netwingfs.Prelude.Bytes.{Bytes, bytes_eq}
use netwingfs.Prelude.Int.{ℤ, pos, eq_ℤ}
use netwingfs.Database.Accounts.{Op, ok, err, other_error, inconsistent_data, no_error}
use netwingfs.Database.Activity.{ActivityFacility, Diff, Edits, update_activity_facilities}
use netwingfs.Database.Signups.{Activity, ActivityDiff, Signups, committed}

-- A field that is set and differs, and one that differs.
abbrev pub changed_text : Bytes → Bytes → Option Bytes
changed_text new old = if not (bytes_eq new []) && not (bytes_eq new old) then some new else none

abbrev pub changed_number : ℤ → ℤ → Option ℤ
changed_number new old = if not (eq_ℤ new (pos 0)) && not (eq_ℤ new old) then some new else none

-- The entries of `Diff`.
unfoldable pub activity_diff : Activity → Activity → ActivityDiff
unfolding bytes_eq
activity_diff activity other = record {
  publisher = changed_number activity.publisher other.publisher;
  title = changed_text activity.title other.title;
  image_url = changed_text activity.image_url other.image_url;
  active_time =
      if not (activity.active_time == other.active_time) then some activity.active_time else none;
  departure_airport = changed_text activity.departure_airport other.departure_airport;
  arrival_airport = changed_text activity.arrival_airport other.arrival_airport;
  route = changed_text activity.route other.route;
  distance = changed_number activity.distance other.distance;
  status = if not (eq_ℤ activity.status other.status) then some activity.status else none;
  notams = if not (bytes_eq activity.notams other.notams) then some activity.notams else none;
}

abbrev pub or_else : {A : Type 0} → Option A → A → A
or_else none a = a
or_else (some b) a = b

-- `other` after `Diff`, which writes every entry into it.
unfoldable pub with_diff : ActivityDiff → Activity → Activity
with_diff diff other = record {
  id = other.id;
  publisher = or_else diff.publisher other.publisher;
  title = or_else diff.title other.title;
  image_url = or_else diff.image_url other.image_url;
  active_time = or_else diff.active_time other.active_time;
  departure_airport = or_else diff.departure_airport other.departure_airport;
  arrival_airport = or_else diff.arrival_airport other.arrival_airport;
  route = or_else diff.route other.route;
  distance = or_else diff.distance other.distance;
  status = or_else diff.status other.status;
  notams = or_else diff.notams other.notams;
  activity_facilities = other.activity_facilities;
}

module _ {D : Type 0} (signups : Signups D) where
  -- The steps of the transaction of `UpdateActivityInfo`: the answer, and the database after it.
  abbrev andalso : Bool × D → (D → Bool × D) → Bool × D
  andalso (true, d) f = f d
  andalso (false, d) f = (false, d)

  -- A write of a list, which is left out for an empty one.
  abbrev unless_empty :
      List ActivityFacility → (List ActivityFacility → D → Bool × D) → D → Bool × D
  unless_empty [] write d = (true, d)
  unless_empty (f ∷ fs) write d = write (f ∷ fs) d

  unfoldable pub update_facilities : List (ℕ × Diff) → D → Bool × D
  update_facilities [] d = (true, d)
  update_facilities ((id, diff) ∷ rest) d =
      andalso (signups.update_facility id diff d) (update_facilities rest)

  unfoldable pub write_edits : Activity → ActivityDiff → Edits → D → Bool × D
  unfolding update_facilities
  write_edits activity info edits d =
      andalso
        (andalso
          (andalso (signups.update_activity activity info d)
            (unless_empty edits.deleted signups.delete_facilities))
          (unless_empty edits.inserted signups.create_facilities))
        (update_facilities edits.updated)

  abbrev write_planned : Activity → ActivityDiff → Option Edits → D → Op (Unit {0}) × D
  write_planned activity info none d = (err inconsistent_data, d)
  write_planned activity info (some edits) d =
      let (fine, d') = write_edits activity info edits d in committed (no_error tt fine, d') d

  -- `UpdateActivityInfo`.
  unfoldable pub update_activity_info : Activity → Activity → ActivityDiff → D → Op (Unit {0}) × D
  unfolding update_activity_facilities write_edits
  update_activity_info old new info d =
      write_planned old info
        (update_activity_facilities new.id old.activity_facilities new.activity_facilities) d

  abbrev saved : Activity → Option ℕ → Op Activity
  saved activity none = err other_error
  saved activity (some id) = ok (record activity { id = id })

  -- `SaveActivity`, with the activity as it is after it.
  unfoldable pub save_activity : Activity → D → Op Activity × D
  save_activity activity d =
      let (answer, d') = signups.save_activity activity d in committed (saved activity answer, d') d

  -- `DeleteActivity`.
  unfoldable pub delete_activity : Activity → D → Op (Unit {0}) × D
  delete_activity activity d =
      let (fine, d') = signups.remove_activity activity d in committed (no_error tt fine, d') d
