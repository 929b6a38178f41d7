-- ===== src/Tests/Others.antt =====
-- The theorems on ratings, plans, activities, codes and limits, on concrete inputs.
use netwingfs.Prelude.{◌⊎◌, ℕ, List, ◌≡◌, ◌≤◌, refl, ◌+◌, true, false, none, some, [], ◌∷◌, arith}
use netwingfs.Prelude.Bytes.{codes, bytes_eq}
use netwingfs.Prelude.Int.{pos}
use netwingfs.Examples.{one_user_database, locked_plan}
use netwingfs.Database.Plans.{update_flight_plan}
use netwingfs.Database.Plans.Locking.{
  SamePlan, Refused, Changed, update_flight_plan-Permitted, update_flight_plan-SamePlan,
}
use netwingfs.Database.Activity.{ActivityFacility, Edits, facility_diff}
use netwingfs.Database.Activity.Stations.{apply_diff, apply_diff-facility_diff}
use netwingfs.Middleware.Limiter.{SlidingWindowLimiter}
use netwingfs.Middleware.Limiter.Runs.{Event, request, sweep, serve, times, count_between, fresh}
use netwingfs.Middleware.Limiter.Runs.Bound.{serve-bounded}
use netwingfs.Service.Email.{
  EmailConfig, EmailService, email_code_not_found, email_send_interval, send_email_code,
  verify_code, find_key, use_code, check_code,
}
use netwingfs.Service.Email.Notices.{
  RequestEmailVerifyCode, send_email_verify_code, code_answer, send_email_verify_code-verify_code,
}
use netwingfs.Service.Email.Codes.{
  verify_code-once, verify_code-send_email_code, send_email_code-interval,
}

update_flight_plan-Permitted_example :
    Refused one_user_database locked_plan tt
      (update_flight_plan one_user_database false locked_plan [] false tt)
    ⊎ Changed one_user_database false locked_plan [] false tt
        (update_flight_plan one_user_database false locked_plan [] false tt)
update_flight_plan-Permitted_example =
    update_flight_plan-Permitted one_user_database false locked_plan [] false tt

update_flight_plan-SamePlan_example :
    SamePlan locked_plan
      (update_flight_plan one_user_database false locked_plan [] true tt).flight_plan
update_flight_plan-SamePlan_example =
    update_flight_plan-SamePlan one_user_database false locked_plan [] true tt

abbrev tower : ActivityFacility
tower = record {
  id = 4;
  activity_id = 1;
  min_rating = pos 3;
  callsign = codes "ZBAA_TWR";
  frequency = codes "118.500";
}

abbrev renamed_tower : ActivityFacility
renamed_tower = record tower { callsign = codes "ZBAA_1_TWR" }

abbrev ground_station : ActivityFacility
ground_station = record tower { id = 5; callsign = codes "ZBAA_GND" }

apply_diff-facility_diff_example :
    apply_diff (facility_diff renamed_tower tower) tower ≡ renamed_tower
apply_diff-facility_diff_example = apply_diff-facility_diff renamed_tower tower refl refl

abbrev planned : Edits
planned = record {
  deleted = ground_station ∷ [];
  inserted = [];
  updated = (4, facility_diff renamed_tower tower) ∷ [];
}

abbrev some_limiter : SlidingWindowLimiter
some_limiter = record {
  window_size = 10;
  max_requests = 2;
  request_records = (codes "ip", 1 ∷ 95 ∷ []) ∷ [];
}

-- Requests at the times 1, 5, 6, 12 and 40, and a cleanup at 30; the third is refused.
abbrev requests : List (ℕ × Event)
requests =
    (1, request (codes "ip"))
    ∷ (5, request (codes "ip"))
    ∷ (6, request (codes "ip"))
    ∷ (12, request (codes "ip"))
    ∷ (30, sweep)
    ∷ (40, request (codes "ip"))
    ∷ []

serve-bounded_example :
    count_between 1 (1 + 10) (times (codes "ip") (serve (fresh 10 2) requests).passed) ≤ 2
serve-bounded_example =
    serve-bounded 10 2 0 requests
      (omega arith, (omega arith, (omega arith, (omega arith, (omega arith, (omega arith, tt))))))
      (codes "ip") 1

abbrev some_config : EmailConfig
some_config = record {
  has_server = true;
  verify_expired_duration = 300;
  send_duration = 60;
  to_lower = λ s. s;
}

abbrev no_codes : EmailService
no_codes = record { email_codes = []; last_send_time = [] }

abbrev mailed : EmailService
mailed = record {
  email_codes = (codes "a@b", record { code = pos 123456; cid = pos 7; send_time = 1000 }) ∷ [];
  last_send_time = (codes "a@b", 1000) ∷ [];
}

verify_code-once_example :
    (verify_code some_config
      (verify_code some_config mailed (codes "a@b") (pos 123456) (pos 7) 1100).1
      (codes "a@b")
      (pos 123456)
      (pos 7)
      1101).0
    ≡ some email_code_not_found
unfolding verify_code use_code check_code find_key bytes_eq
verify_code-once_example =
    verify_code-once some_config mailed (codes "a@b") (pos 123456) (pos 7) (pos 123456) (pos 7) 1100
      1101 refl refl

verify_code-send_email_code_example :
    (verify_code some_config
      (send_email_code some_config no_codes (codes "a@b") (pos 7) 1000 23456 true true).1
      (codes "a@b")
      (pos 123456)
      (pos 7)
      (1000 + 100)).0
    ≡ none
unfolding send_email_code find_key
verify_code-send_email_code_example =
    verify_code-send_email_code some_config no_codes (codes "a@b") (pos 7) 1000 23456 100
      (pos 123456) (pos 7) refl refl (ground arith)

abbrev asked : RequestEmailVerifyCode
asked = record { email = codes "a@b"; cid = pos 7 }

send_email_verify_code-verify_code_example :
    (verify_code some_config
      (send_email_verify_code some_config no_codes asked 1000 23456 true true).1
      (codes "a@b")
      (pos 123456)
      (pos 7)
      (1000 + 300)).0
    ≡ none
unfolding send_email_verify_code send_email_code code_answer find_key bytes_eq
send_email_verify_code-verify_code_example =
    send_email_verify_code-verify_code some_config no_codes asked 1000 23456 300 true true
      (codes "a@b") refl refl (ground arith)

send_email_code-interval_example :
    (send_email_code some_config
      (send_email_code some_config no_codes (codes "a@b") (pos 7) 1000 23456 true true).1
      (codes "a@b")
      (pos 8)
      (1000 + 30)
      5
      true
      true)
    ≡ (
      some email_send_interval,
      (send_email_code some_config no_codes (codes "a@b") (pos 7) 1000 23456 true true).1,
    )
unfolding send_email_code find_key
send_email_code-interval_example =
    send_email_code-interval some_config no_codes (codes "a@b") (pos 7) (pos 8) 1000 23456 5 30 true
      true refl refl (ground arith)
