-- ===== src/Packet/Invariant/Primitives.antt =====
-- The invariant under the primitive steps and the table's operations.
use netwingfs.Prelude.{
  ℕ, suc, ◌<◌, ◌≡◌, refl, Bool, true, false, Option, none, some, List, [], ◌∷◌, arith,
  if◌then◌else◌, Bool-cases, inl, inr,
}
use netwingfs.Prelude.Bytes.{Bytes, bytes_eq}
use netwingfs.Packet.State.{Server, Client, Session, Env, Task, Timer, update}
use netwingfs.Packet.Monad.{
  M, Run, pure, crash, block, deref, field, gets, get_client, modify_client, get_session,
  modify_session, start, after_func, write, with_db, when, ◌>>=◌, if_nil,
}
use netwingfs.Packet.Registry.{
  Registry, lookup, remove, is_some, add_client, find_client, delete_client,
}
use netwingfs.Packet.Registry.Laws.{lookup-remove}
use netwingfs.Prelude.Int.{ℤ}
use netwingfs.Packet.Client.{allocate}
use netwingfs.Packet.Updates.{set_position}
use netwingfs.Packet.Invariant.{Distinct, Entries, WellFormed, After, Triple, Keeps, Triple-bind}

After-if :
    {F D A : Type 0} (Q : A → Server F D → Type 0) (b : Bool) (r r' : Run F D A)
    → (b ≡ true → After Q r)
    → (b ≡ false → After Q r')
    → After Q (if b then r else r')
After-if Q true r r' h k = h refl
After-if Q false r r' h k = k refl

is_some-false : {A : Type 0} (o : Option A) → is_some o ≡ false → o ≡ none
is_some-false none h = refl
is_some-false (some a) h = cc

module _ {F : Type 0} where
  Entries-update :
      (clients : ℕ → Client F) (next c : ℕ) (x : Client F) (r : Registry)
      → x.callsign ≡ (clients c).callsign
      → Entries clients next r
      → Entries (update clients c x) next r
  Entries-update clients next c x [] e h = tt
  Entries-update clients next c x ((k, d) ∷ r) e (lt, same, rest) =
      (lt, ground arith, Entries-update clients next c x r e rest)

  Entries-fresh :
      (clients : ℕ → Client F) (next : ℕ) (x : Client F) (r : Registry)
      → Entries clients next r
      → Entries (update clients next x) (suc next) r
  Entries-fresh clients next x [] h = tt
  Entries-fresh clients next x ((k, d) ∷ r) (lt, same, rest) =
      (omega arith, ground arith, Entries-fresh clients next x r rest)

  Entries-remove :
      (clients : ℕ → Client F) (next : ℕ) (k : Bytes) (r : Registry)
      → Entries clients next r
      → Entries clients next (remove k r)
  unfolding remove
  Entries-remove clients next k [] h = tt
  Entries-remove clients next k ((j, d) ∷ r) (lt, same, rest) = elim (Bool-cases (bytes_eq j k)) [
    | inl e ↦ rw (e, remove) (Entries-remove clients next k r rest)
    | inr e ↦ rw (e, remove) (lt, same, Entries-remove clients next k r rest)
  ]

Distinct-remove : (k : Bytes) (r : Registry) → Distinct r → Distinct (remove k r)
unfolding remove
Distinct-remove k [] h = tt
Distinct-remove k ((j, d) ∷ r) (fresh, rest) = elim (Bool-cases (bytes_eq j k)) [
  | inl e ↦ rw (e, remove) (Distinct-remove k r rest)
  | inr e ↦ rw (e, remove) (ground (arith, lookup-remove k j r, fresh), Distinct-remove k r rest)
]

module _ {F D A : Type 0} where
  pub Keeps-pure : (a : A) → Keeps {F = F} {D = D} (pure a)
  unfolding pure
  Keeps-pure a = record { at = λ s v. v }

  pub Keeps-crash : Keeps {F = F} {D = D} {A = A} crash
  unfolding crash
  Keeps-crash = record { at = λ s v. tt }

  pub Keeps-block : Keeps {F = F} {D = D} {A = A} block
  unfolding block
  Keeps-block = record { at = λ s v. tt }

  pub Keeps-deref : (o : Option A) → Keeps {F = F} {D = D} (deref o)
  unfolding deref
  Keeps-deref none = record { at = λ s v. tt }
  Keeps-deref (some a) = record { at = λ s v. v }

  pub Keeps-gets : (f : Server F D → A) → Keeps (gets f)
  unfolding gets
  Keeps-gets f = record { at = λ s v. v }

  pub Keeps-with_db : (f : D → A × D) → Keeps {F = F} (with_db f)
  unfolding with_db
  Keeps-with_db f = record { at = λ s v. record { distinct = v.distinct; entries = v.entries } }

  pub Keeps-if : (b : Bool) {m n : M F D A} → Keeps m → Keeps n → Keeps (if b then m else n)
  Keeps-if true h k = h
  Keeps-if false h k = k

module _ {F D A B : Type 0} where
  pub Keeps-bind :
      {m : M F D A} {f : A → M F D B} → Keeps m → ((a : A) → Keeps (f a)) → Keeps (m >>= f)
  Keeps-bind h k = Triple-bind h k

  pub Keeps-if_nil :
      (o : Option A) {m : M F D B} {f : A → M F D B}
      → Keeps m
      → ((a : A) → Keeps (f a))
      → Keeps (if_nil o m f)
  unfolding if_nil
  Keeps-if_nil none h k = record { at = h.at }
  Keeps-if_nil (some a) h k = record { at = (k a).at }

module _ {F D : Type 0} where
  pub Keeps-field : (fields : List Bytes) (i : ℕ) → Keeps {F = F} {D = D} (field fields i)
  unfolding field
  Keeps-field fields i = Keeps-deref _

  pub Keeps-get_client : (c : ℕ) → Keeps {F = F} {D = D} (get_client c)
  unfolding get_client
  Keeps-get_client c = record { at = λ s v. v }

  pub Keeps-get_session : (i : ℕ) → Keeps {F = F} {D = D} (get_session i)
  unfolding get_session
  Keeps-get_session i = record { at = λ s v. v }

  pub Keeps-modify_client :
      (c : ℕ) (f : Client F → Client F)
      → ((x : Client F) → (f x).callsign ≡ x.callsign)
      → Keeps {D = D} (modify_client c f)
  unfolding modify_client
  Keeps-modify_client c f same = record {
    at = λ s v. record {
      distinct = v.distinct;
      entries =
          Entries-update s.clients s.next_client c (f (s.clients c)) s.registry (same (s.clients c))
            v.entries;
    };
  }

  pub Keeps-modify_session :
      (i : ℕ) (f : Session → Session) → Keeps {F = F} {D = D} (modify_session i f)
  unfolding modify_session
  Keeps-modify_session i f = record {
    at = λ s v. record { distinct = v.distinct; entries = v.entries };
  }

  pub Keeps-start : (t : Task F) → Keeps {D = D} (start t)
  unfolding start
  Keeps-start t = record { at = λ s v. record { distinct = v.distinct; entries = v.entries } }

  pub Keeps-after_func : (t : Timer) → Keeps {F = F} {D = D} (after_func t)
  unfolding after_func
  Keeps-after_func t = record { at = λ s v. record { distinct = v.distinct; entries = v.entries } }

  pub Keeps-write : (i : ℕ) (line : Bytes) → Keeps {F = F} {D = D} (write i line)
  unfolding write
  Keeps-write i line = record { at = λ s v. record { distinct = v.distinct; entries = v.entries } }

  pub Keeps-when : (b : Bool) {m : M F D (Unit {0})} → Keeps m → Keeps (when b m)
  unfolding when
  Keeps-when true h = record { at = h.at }
  Keeps-when false h = record { at = λ s v. v }

  pub Keeps-find_client : (k : Bytes) → Keeps {F = F} {D = D} (find_client k)
  unfolding find_client
  Keeps-find_client k = record { at = λ s v. v }

  pub Keeps-delete_client : (k : Bytes) → Keeps {F = F} {D = D} (delete_client k)
  unfolding delete_client
  Keeps-delete_client k = record {
    at = λ s v. elim (Bool-cases (is_some (lookup k s.registry))) [
      | inl e ↦ rw e (record {
        distinct = Distinct-remove k s.registry v.distinct;
        entries = Entries-remove s.clients s.next_client k s.registry v.entries;
      })
      | inr e ↦ rw e v
    ];
  }

  -- A client that is allocated.
  abbrev pub Allocated : ℕ → Server F D → Type 0
  Allocated c s = WellFormed s × (c < s.next_client)

  pub allocate-Allocated :
      (env : Env F D) (x : Client F) → Triple WellFormed (allocate env x) Allocated
  unfolding allocate
  allocate-Allocated env x = record {
    at = λ s v. (
      record {
        distinct = v.distinct;
        entries = Entries-fresh s.clients s.next_client x s.registry v.entries;
      },
      omega arith,
    );
  }

  -- `AddClient` enters an allocated client under its callsign, if that is free.
  pub Allocated-add_client : (c : ℕ) → Triple (Allocated c) (add_client c) (λ _. Allocated c)
  unfolding add_client
  Allocated-add_client c = record {
    at = λ s v.
        After-if _ s.shutting_down _ _ (λ _. v)
          (λ _.
            After-if _ (is_some (lookup (s.clients c).callsign s.registry)) _ _ (λ _. v)
              (λ free. (
                record {
                  distinct = (is_some-false _ free, v.0.distinct);
                  entries = (v.1, refl, v.0.entries);
                },
                v.1,
              )));
  }

  pub Allocated-modify_session :
      (c i : ℕ) (f : Session → Session)
      → Triple (Allocated c) (modify_session i f) (λ _. Allocated c)
  unfolding modify_session
  Allocated-modify_session c i f = record {
    at = λ s v. (record { distinct = v.0.distinct; entries = v.0.entries }, v.1);
  }

  pub Allocated-modify_client :
      (c d : ℕ) (f : Client F → Client F)
      → ((x : Client F) → (f x).callsign ≡ x.callsign)
      → Triple (Allocated c) (modify_client d f) (λ _. Allocated c)
  unfolding modify_client
  Allocated-modify_client c d f same = record {
    at = λ s v. ((Keeps-modify_client d f same).at s v.0, v.1);
  }

  pub Allocated-set_position :
      (c : ℕ) (lat lon : F)
      → Triple (Allocated c) (set_position c (ℤ.pos 0) lat lon) (λ _. Allocated c)
  unfolding set_position pure
  Allocated-set_position c lat lon =
      Triple-bind (Allocated-modify_client c c _ (λ x. refl)) λ _. record { at = λ s v. v }

pub ruleset keeps_rules = (
  Keeps-bind, Keeps-pure, Keeps-crash, block, Keeps-block, Keeps-deref, Keeps-gets, Keeps-with_db,
  Keeps-if, Keeps-if_nil, Keeps-field, Keeps-get_client, Keeps-get_session, Keeps-modify_client,
  Keeps-modify_session, Keeps-start, Keeps-after_func, Keeps-write, Keeps-when, Keeps-find_client,
  Keeps-delete_client,
)
