-- ===== src/Service/Users/Drafts.antt =====
-- What the draft of an edited profile keeps of the account.
use netwingfs.Prelude.{◌≡◌, refl, ◌∙◌, Bool, true, false, none, arith, if◌then◌else◌}
use netwingfs.Database.Model.{User}
use netwingfs.Service.Users.Profile.{
  RequestUserEditProfile, Draft, no_update, set_username, set_email, set_qq,
}

-- The parts of an account that no edit of a profile changes.
abbrev pub Kept : User → User → Type 0
Kept old new =
    (new.uid ≡ old.uid)
    × (new.cid ≡ old.cid)
    × (new.rating ≡ old.rating)
    × (new.permission ≡ old.permission)
    × (new.total_pilot_time ≡ old.total_pilot_time)
    × (new.total_atc_time ≡ old.total_atc_time)

-- The same, and the password.
abbrev pub KeptAll : User → User → Type 0
KeptAll old new = Kept old new × (new.password ≡ old.password)

pub Kept-trans : (a b c : User) → Kept a b → Kept b c → Kept a c
Kept-trans a b c h k = (k.0 ∙ h.0, k.1 ∙ h.1, k.2 ∙ h.2, k.3 ∙ h.3, k.4 ∙ h.4, k.5 ∙ h.5)

pub KeptAll-trans : (a b c : User) → KeptAll a b → KeptAll b c → KeptAll a c
KeptAll-trans a b c (h, p) (k, q) = (Kept-trans a b c h k, q ∙ p)

Kept-if :
    (old : User) (b : Bool) (draft draft' : Draft)
    → KeptAll old draft.0
    → KeptAll old draft'.0
    → KeptAll old ((if b then draft else draft').0)
Kept-if old true draft draft' h k = h
Kept-if old false draft draft' h k = k

pub KeptAll-refl : (a : User) → KeptAll a a
KeptAll-refl a = ((refl, refl, refl, refl, refl, refl), refl)

set_username-Kept :
    (req : RequestUserEditProfile) (draft : Draft) → KeptAll draft.0 ((set_username req draft).0)
set_username-Kept req (user, info) =
    Kept-if user _ _ (user, info) (KeptAll-refl user) (KeptAll-refl user)

set_email-Kept :
    (req : RequestUserEditProfile) (draft : Draft) → KeptAll draft.0 ((set_email req draft).0)
set_email-Kept req (user, info) =
    Kept-if user _ _ (user, info) (KeptAll-refl user) (KeptAll-refl user)

set_qq-Kept :
    (req : RequestUserEditProfile) (draft : Draft) → KeptAll draft.0 ((set_qq req draft).0)
unfolding set_qq
set_qq-Kept req (user, info) =
    Kept-if user _ _ (user, info) (Kept-if user _ _ _ (KeptAll-refl user) (KeptAll-refl user))
      (KeptAll-refl user)

-- The draft of the account `old`, before the avatar and the password.
abbrev pub drafted : RequestUserEditProfile → User → Draft
drafted req old = set_qq req (set_email req (set_username req (old, no_update)))

pub drafted-Kept : (req : RequestUserEditProfile) (old : User) → KeptAll old ((drafted req old).0)
drafted-Kept req old =
    let one = set_username req (old, no_update) in
    let two = set_email req one in
    KeptAll-trans old (two.0) ((drafted req old).0)
      (KeptAll-trans old (one.0) (two.0) (set_username-Kept req (old, no_update))
        (set_email-Kept req one))
      (set_qq-Kept req two)

-- The update of a draft has no column for the password yet.
abbrev pub NoPassword : Draft → Type 0
NoPassword draft = draft.1.password ≡ none

set_username-NoPassword :
    (req : RequestUserEditProfile) (draft : Draft)
    → NoPassword draft
    → NoPassword (set_username req draft)
set_username-NoPassword req (user, info) h = ground (arith, h)

set_email-NoPassword :
    (req : RequestUserEditProfile) (draft : Draft)
    → NoPassword draft
    → NoPassword (set_email req draft)
set_email-NoPassword req (user, info) h = ground (arith, h)

set_qq-NoPassword :
    (req : RequestUserEditProfile) (draft : Draft)
    → NoPassword draft
    → NoPassword (set_qq req draft)
unfolding set_qq
set_qq-NoPassword req (user, info) h = ground (arith, h)

pub drafted-NoPassword : (req : RequestUserEditProfile) (old : User) → NoPassword (drafted req old)
drafted-NoPassword req old =
    let one = set_username req (old, no_update) in
    set_qq-NoPassword req (set_email req one)
      (set_email-NoPassword req one (set_username-NoPassword req (old, no_update) refl))
