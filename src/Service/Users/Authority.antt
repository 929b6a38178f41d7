-- ===== src/Service/Users/Authority.antt =====
-- Who may change the permissions of an account, and to what.
use netwingfs.Prelude.{
  ℕ, ◌≡◌, refl, sym, Bool, true, false, List, [], ◌∷◌, ◌++◌, inl, inr, ◌⊎◌, ap, All, ==_iff, ◌==◌,
  ◌∙◌, Bool-cases, Option, none, some, arith,
}
use netwingfs.Prelude.Bytes.{Bytes}
use netwingfs.Prelude.Int.{ℤ}
use netwingfs.Database.Model.{User}
use netwingfs.Database.Permission.{node, has_permission, permission_map}
use netwingfs.Database.Permission.Nodes.{
  held, NodeSet, add_node, drop_node, held-grant, held-revoke,
}
use netwingfs.Service.Web.{AuditLog}
use netwingfs.Service.Users.Admin.{
  Request, JsonValue, json_bool, json_other, Changes, change_log, change_node, change_nodes,
  set_node,
}

distinct :
    (operator : ℤ) {k j : ℕ}
    → k ≡ j
    → has_permission operator (node k) ≡ true
    → held operator j ≡ false
    → true ≡ false
distinct operator e h g = cc

other_place :
    (operator : ℤ) (k j : ℕ)
    → has_permission operator (node k) ≡ true
    → held operator j ≡ false
    → (k == j) ≡ false
other_place operator k j h g = elim (Bool-cases (k == j)) [
  | inl e ↦ ground (arith, distinct operator ((==_iff k j).0 e) h g)
  | inr e ↦ e
]

-- The changes that a request asks for, by their places, where it can be read.
unfoldable asked_one : Option ℕ → JsonValue → Option (List (ℕ × Bool)) → Option (List (ℕ × Bool))
asked_one (some k) (json_bool value) (some rest) = some ((k, value) ∷ rest)
asked_one place value rest = none

unfoldable pub asked : List (Bytes × JsonValue) → Option (List (ℕ × Bool))
unfolding permission_map asked_one
asked [] = some []
asked ((key, value) ∷ rest) = asked_one (permission_map key) value (asked rest)

-- A set after these changes, one after the other.
unfoldable pub follow : List (ℕ × Bool) → NodeSet → NodeSet
follow [] s = s
follow ((k, true) ∷ rest) s = follow rest (add_node k s)
follow ((k, false) ∷ rest) s = follow rest (drop_node k s)

-- What a loop that accepts every entry has done.
abbrev pub Followed : ℤ → List (Bytes × JsonValue) → ℤ → ℤ → Type 0
Followed operator permissions p p' =
    (cs : List (ℕ × Bool)) × (asked permissions ≡ some cs)
    × All (λ c. held operator c.0 ≡ true) cs
    × (held p' ≡ follow cs (held p))

follow-set_node :
    (value : Bool) (k : ℕ) (cs : List (ℕ × Bool)) (p : ℤ)
    → follow cs (held (set_node value p k)) ≡ follow ((k, value) ∷ cs) (held p)
unfolding follow
follow-set_node true k cs p = ap (follow cs) (held-grant p k)
follow-set_node false k cs p = ap (follow cs) (held-revoke p k)

-- What an entry that is accepted is, and does.
abbrev Accepted :
    Request → ℤ → User → Bytes → Option ℕ → JsonValue → ℤ → List AuditLog → Changes → Type 0
Accepted req operator target key place value p logs changes =
    (k : ℕ) × (b : Bool) × (place ≡ some k)
    × (value ≡ json_bool b)
    × (held operator k ≡ true)
    × (changes ≡ (set_node b p k, logs ++ change_log req target key b ∷ []))

change_node-Accepted :
    (req : Request) (operator : ℤ) (target : User) (key : Bytes) (place : Option ℕ)
    (value : JsonValue) (p : ℤ) (logs : List AuditLog) (changes : Changes)
    → change_node req operator target key place value (p, logs) ≡ inl changes
    → Accepted req operator target key place value p logs changes
unfolding change_node
change_node-Accepted req operator target key none value p logs changes h = ground arith
change_node-Accepted req operator target key (some k) (json_bool b) p logs changes h =
    elim (Bool-cases (has_permission operator (node k))) [
      | inl e ↦ (k, b, refl, refl, e, ground (arith, e, h))
      | inr e ↦ ground (arith, e, h)
    ]
change_node-Accepted req operator target key (some k) json_other p logs changes h = ground arith

after-inl :
    {A B C : Type 0} (r : A ⊎ C) (f : A → B ⊎ C) (b : B)
    → (elim r [ inl a ↦ f a | inr e ↦ inr e ]) ≡ inl b
    → (a : A) × (r ≡ inl a) × (f a ≡ inl b)
after-inl (inl a) f b h = (a, refl, h)
after-inl (inr e) f b h = ground arith

asked-nil : asked [] ≡ some []
unfolding asked
asked-nil = refl

follow-nil : (p p' : ℤ) → p' ≡ p → held p' ≡ follow [] (held p)
unfolding follow
follow-nil p p' e = ap held e

asked-cons :
    (key : Bytes) (k : ℕ) (b : Bool) (value : JsonValue) (rest : List (Bytes × JsonValue))
    (cs : List (ℕ × Bool))
    → permission_map key ≡ some k
    → value ≡ json_bool b
    → asked rest ≡ some cs
    → asked ((key, value) ∷ rest) ≡ some ((k, b) ∷ cs)
unfolding asked asked_one
asked-cons key k b value rest cs h v e = rw h (rw v (rw e refl))

-- Where the loop over the permissions of a request accepts them all, every entry names a permission
-- that the operator holds and gives a Boolean, and the new value stands for the old set after the
-- insertions and deletions that the entries ask for, in their order.
pub change_nodes-Followed :
    (req : Request) (operator : ℤ) (target : User) (permissions : List (Bytes × JsonValue)) (p : ℤ)
    (logs : List AuditLog) (p' : ℤ) (logs' : List AuditLog)
    → change_nodes req operator target permissions (p, logs) ≡ inl (p', logs')
    → Followed operator permissions p p'
unfolding change_nodes
change_nodes-Followed req operator target [] p logs p' logs' h =
    ([], asked-nil, tt, follow-nil p p' (ground arith))
change_nodes-Followed req operator target ((key, value) ∷ rest) p logs p' logs' h =
    let (changes, e, more) = after-inl _ _ _ h in
    let (k, b, place, bool, allowed, made) =
      change_node-Accepted req operator target key _ value p logs _ e in
    let (cs, read, all, done) =
      change_nodes-Followed req operator target rest (set_node b p k) _ p' logs'
        (ap (change_nodes req operator target rest) (sym made) ∙ more) in
    (
      (k, b) ∷ cs,
      asked-cons key k b value rest cs place bool read,
      (allowed, all),
      done ∙ follow-set_node b k cs p,
    )

follow-same :
    (operator : ℤ) (cs : List (ℕ × Bool)) (s : NodeSet) (j : ℕ)
    → All (λ c. held operator c.0 ≡ true) cs
    → held operator j ≡ false
    → follow cs s j ≡ s j
unfolding follow
follow-same operator [] s j h g = refl
follow-same operator ((k, true) ∷ cs) s j (h, hs) g =
    follow-same operator cs (add_node k s) j hs g ∙ ground (arith, other_place operator k j h g)
follow-same operator ((k, false) ∷ cs) s j (h, hs) g =
    follow-same operator cs (drop_node k s) j hs g ∙ ground (arith, other_place operator k j h g)

-- Two values agree on every permission, but for those that `operator` holds.
abbrev pub Within : ℤ → ℤ → ℤ → Type 0
Within operator old new = (k : ℕ) → (held new k ≡ held old k) ⊎ (held operator k ≡ true)

pub Followed-Within :
    (operator : ℤ) (permissions : List (Bytes × JsonValue)) (p p' : ℤ)
    → Followed operator permissions p p'
    → Within operator p p'
Followed-Within operator permissions p p' (cs, _, all, done) j =
    elim (Bool-cases (held operator j)) [
      | inl h ↦ inr h
      | inr g ↦ inl (ap (λ s. s j) done ∙ follow-same operator cs (held p) j all g)
    ]
