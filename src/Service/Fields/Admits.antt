-- ===== src/Service/Fields/Admits.antt =====
-- The validators that the web services make of limits that have passed their check.
use netwingfs.Prelude.{
  ℕ, ◌≡◌, none, some, [], length-replicate, replicate, arith, sym, ◌∙◌, inl, inr,
}
use netwingfs.Prelude.Bytes.{Bytes}
use netwingfs.Prelude.Int.{ℤ, pos, negsuc, ◌≤ℤ◌, ◌<ℤ◌}
use netwingfs.Config.{Outside, passed, passed_inj}
use netwingfs.Config.Limits.{HttpServerLimit, check_valid}
use netwingfs.Config.Limits.Bounds.{check_valid-InBounds}
use netwingfs.Service.Response.{ApiStatus}
use netwingfs.Service.Fields.{FieldValidator, check_int, check_string, init_validator}

-- The validator refuses the empty text and admits some text.
abbrev pub Selective : FieldValidator → Type 0
Selective v =
    (check_string v [] ≡ some v.err_short) × ((text : Bytes) × (check_string v text ≡ none))

checked :
    (min max : ℤ) (short long : ApiStatus)
    → pos 1 ≤ℤ min
    → min <ℤ max
    → Selective (record { min = min; max = max; err_short = short; err_long = long })
unfolding check_string
checked min (negsuc n) short long low high = absurd (ground (arith, low, high))
checked min (pos n) short long low high =
    (ground (arith, low), (replicate n 0, rw (length-replicate {A = ℕ} n 0) (ground (arith, high))))

-- Where limits have passed the check of the configuration, the validators of names, passwords and
-- addresses that the web services make of them refuse the empty text and admit some text; the one
-- of numbers refuses 0 and admits the least number.
pub check_valid-init_validator :
    {E T A : Type 0} (out : Outside E T A) (config passing : HttpServerLimit) (duration : ℤ)
    (e e' : E)
    → out.parse_duration config.rate_limit_window ≡ inr duration
    → check_valid out config e ≡ passed passing e'
    → Selective (init_validator passing).username_validator
      × Selective (init_validator passing).password_validator
      × Selective (init_validator passing).email_validator
      × (check_int (init_validator passing).cid_validator (pos 0)
          ≡ some (init_validator passing).cid_validator.err_short)
      × (check_int (init_validator passing).cid_validator passing.cid_min ≡ none)
unfolding init_validator check_int
check_valid-init_validator out config passing duration e e' h passes =
    elim (check_valid-InBounds out config duration e h) [
      | inl (same, (username, (email, (password, cid)))) ↦
          let kept = passed_inj (sym same ∙ passes) in
          rw (← kept) (
            checked _ _ _ _ username.0 username.1,
            checked _ _ _ _ password.0 password.1,
            checked _ _ _ _ email.0 email.1,
            ground (arith, cid),
            ground (arith, cid),
          )
      | inr (r, fails, _) ↦ absurd (ground (arith, fails, passes))
    ]
