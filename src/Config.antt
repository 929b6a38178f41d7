-- ===== src/Config.antt =====
-- internal/interfaces/config/result.go: the results of the checks of a configuration, and checks
-- as code that reads and writes files and ends with the checked configuration or with a failure.
pub mod Outcome
pub mod Files
pub mod Version
pub mod Limits
pub mod Ssl
pub mod Tokens
pub mod Mail
pub mod Stores
pub mod Database
pub mod Servers
pub mod Whole
use netwingfs.Prelude.{Bool, true, false, Option, none, some, ◌≡◌, ◌⊎◌, inl, inr, ℕ}
use netwingfs.Prelude.Bytes.{Bytes}
use netwingfs.Prelude.Int.{ℤ}

pub data ValidType : Type 0 where
  pass fail : ValidType

pub record ValidResult : Type 0 where
  pub valid_type : ValidType
  pub err : Option Bytes
  pub origin_err : Option Bytes

abbrev pub valid_pass : ValidResult
valid_pass = record { valid_type = pass; err = none; origin_err = none }

abbrev pub valid_fail : Bytes → ValidResult
valid_fail e = record { valid_type = fail; err = some e; origin_err = none }

abbrev pub valid_fail_with : Bytes → Bytes → ValidResult
valid_fail_with e origin = record { valid_type = fail; err = some e; origin_err = some origin }

-- `IsFail`.
abbrev pub is_fail : ValidResult → Bool
is_fail r = elim r.valid_type [ pass ↦ false | fail ↦ true ]

-- What reading a file gives: the content, or an error, where `missing` is one with
-- `os.IsNotExist(err)`.
pub data ReadFile : Type 0 where
  content : Bytes → ReadFile
  missing : Bytes → ReadFile
  unreadable : Bytes → ReadFile

-- The response of `http.Get`: whether its status is 200, the status, and what reading the body
-- gives.
pub record Reply : Type 0 where
  pub ok : Bool
  pub status : Bytes
  pub body : Bytes ⊎ Bytes

pub record Dialer : Type 0 where
  pub host : Bytes
  pub port : ℤ
  pub username : Bytes
  pub password : Bytes

-- What the checks use of other code, with errors on the left: the state is of type `E`, a parsed
-- template of type `T`, the airports of type `A`. The limits of the
-- bcrypt library and the flag that skips the mail server are here too.
pub record Outside (E T A : Type 0) : Type 0 where
  pub parse_duration : Bytes → Bytes ⊎ ℤ
  pub read_file : Bytes → E → ReadFile
  pub http_get : Bytes → E → (Bytes ⊎ Reply) × E
  pub mkdir_all : Bytes → E → Option Bytes × E
  pub write_file : Bytes → Bytes → E → Option Bytes × E
  pub dir : Bytes → Bytes
  pub clean : Bytes → Bytes
  pub join : Bytes → Bytes → Bytes
  pub parse_template : Bytes → Bytes → Bytes ⊎ T
  pub unmarshal_airports : Bytes → Bytes ⊎ A
  pub num_cpu : ℕ
  pub random_string : E → Bytes × E
  pub dial : Dialer → E → Option Bytes × E
  pub skip_email_verification : Bool
  pub min_cost : ℤ
  pub max_cost : ℤ

-- A check that passes ends with the configuration as it left it; one that fails ends with its
-- result, and the server does not start.
pub data Checked (E C : Type 0) : Type 0 where
  passed : C → E → Checked E C
  failed : ValidResult → E → Checked E C

pub passed_inj : {E C : Type 0} {c d : C} {e e' : E} → passed c e ≡ passed d e' → c ≡ d
passed_inj h = cc

abbrev pub Check : Type 0 → Type 0 → Type 0
Check E C = E → Checked E C

module _ {E C D : Type 0} where
  abbrev pub proceed : Checked E C → (C → Check E D) → Checked E D
  proceed (passed c e) f = f c e
  proceed (failed r e) f = failed r e

  -- `if result := check; result.IsFail() { return result }`.
  infixl 5 ◌>>=◌
  unfoldable pub ◌>>=◌ : Check E C → (C → Check E D) → Check E D
  ◌>>=◌ m f e = proceed (m e) f

module _ {E D : Type 0} where
  infixl 5 ◌>>◌
  abbrev pub ◌>>◌ : Check E (Unit {0}) → Check E D → Check E D
  m >> k = m >>= λ _. k

module _ {E C : Type 0} where
  unfoldable pub pure : C → Check E C
  pure c e = passed c e

  -- `return ValidFail(err)` and `return ValidFailWith(err, origin)`.
  unfoldable pub stop : ValidResult → Check E C
  stop r e = failed r e

  -- An operation whose error fails the check with a message.
  unfoldable pub attempt : Bytes → Bytes ⊎ C → Check E C
  attempt message (inl e) = stop (valid_fail_with message e)
  attempt message (inr c) = pure c

  -- An operation of the outside.
  unfoldable pub perform : (E → C × E) → Check E C
  perform f e = let (c, e') = f e in passed c e'

module _ {E : Type 0} where
  -- `if b { return ValidFail(errors.New(message)) }`.
  unfoldable pub fail_if : Bool → Bytes → Check E (Unit {0})
  fail_if true message = stop (valid_fail message)
  fail_if false message = pure tt

  unfoldable pub fail_some : Bytes → Option Bytes → Check E (Unit {0})
  fail_some message none = pure tt
  fail_some message (some e) = stop (valid_fail_with message e)
