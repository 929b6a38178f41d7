-- ===== src/Service/Outcome.antt =====
-- What holds after a handler of the web services: one thing where it goes on, another where it
-- returns an error.
use netwingfs.Prelude.{◌≡◌, refl, Bool, true, false, Option, none, some, if◌then◌else◌}
use netwingfs.Database.Accounts.{Op, ok, err, OpError, no_error}
use netwingfs.Service.Response.{ApiStatus, error_status}
use netwingfs.Service.Web.{
  Web, W, Step, done, refused, ◌>>=◌, ◌>>◌, continue, refuse_if, refuse_some, check_error, when,
  start, Job,
}

module _ {D : Type 0} where
  abbrev pub Yields :
      {A : Type 0} → (A → Web D → Type 0) → (ApiStatus → Web D → Type 0) → Step D A → Type 0
  Yields Q R (done a w) = Q a w
  Yields Q R (refused e w) = R e w

  -- A request that is refused leaves the database as it was.
  abbrev pub Unchanged : Web D → ApiStatus → Web D → Type 0
  Unchanged w e w' = w'.db ≡ w.db

  -- Nothing is said of a refusal.
  abbrev pub Anything : ApiStatus → Web D → Type 0
  Anything e w = Unit

module _ {D A : Type 0} (Q : A → Web D → Type 0) (R : ApiStatus → Web D → Type 0) where
  pub after-refuse_if :
      (b : Bool) (e : ApiStatus) (w : Web D) (k : W D A)
      → (b ≡ true → R e w)
      → (b ≡ false → Yields Q R (k w))
      → Yields Q R ((refuse_if b e >> k) w)
  unfolding ◌>>=◌ refuse_if
  after-refuse_if true e w k h g = h refl
  after-refuse_if false e w k h g = g refl

  pub after-refuse_some :
      (o : Option ApiStatus) (w : Web D) (k : W D A)
      → ((e : ApiStatus) → o ≡ some e → R e w)
      → (o ≡ none → Yields Q R (k w))
      → Yields Q R ((refuse_some o >> k) w)
  unfolding ◌>>=◌ refuse_some
  after-refuse_some none w k h g = g refl
  after-refuse_some (some e) w k h g = h e refl

  pub after-check_error :
      {B : Type 0} (o : Op B) (w : Web D) (k : B → W D A)
      → ((e : OpError) → o ≡ err e → R (error_status e) w)
      → ((b : B) → o ≡ ok b → Yields Q R (k b w))
      → Yields Q R ((check_error o >>= k) w)
  unfolding ◌>>=◌ check_error
  after-check_error (ok b) w k h g = g b refl
  after-check_error (err e) w k h g = h e refl

  pub after-bind :
      {B : Type 0} (P : B → Web D → Type 0) (m : Step D B) (k : B → W D A)
      → Yields P R m
      → ((b : B) (w : Web D) → P b w → Yields Q R (k b w))
      → Yields Q R (continue m k)
  after-bind P (done b w) k h g = g b w h
  after-bind P (refused e w) k h g = h

  -- A transaction that writes, or leaves the database as it was.
  pub after-transaction :
      {B : Type 0} (answer : Bool × D) (b : B) (w : Web D) (k : B → W D A)
      → ((e : ApiStatus) → R e w)
      → ((d : D) → answer ≡ (true, d) → Yields Q R (k b (record w { db = d })))
      → Yields Q R (
          (check_error (no_error b answer.0) >>= k)
            (record w { db = if answer.0 then answer.1 else w.db }))
  unfolding ◌>>=◌ check_error
  after-transaction (true, d) b w k h g = g d refl
  after-transaction (false, d) b w k h g = h _

  pub after-start :
      (b : Bool) (job : Job) (w : Web D) (k : W D A)
      → ((w' : Web D) → w'.db ≡ w.db → Yields Q R (k w'))
      → Yields Q R ((when b (start job) >> k) w)
  unfolding ◌>>=◌ when start
  after-start true job w k g = g _ refl
  after-start false job w k g = g w refl

  pub Yields-if :
      (b : Bool) (m n : W D A) (w : Web D)
      → (b ≡ true → Yields Q R (m w))
      → (b ≡ false → Yields Q R (n w))
      → Yields Q R ((if b then m else n) w)
  Yields-if true m n w h k = h refl
  Yields-if false m n w h k = k refl
