-- ===== src/Tests/Settings.antt =====
-- The configuration at concrete settings, over a table of files and a network that always answers.
use netwingfs.Prelude.{
  if◌then◌else◌, ◌≡◌, refl, ap, true, false, Option, none, some, ◌⊎◌, inl, inr, List, [], ◌∷◌, ◌++◌,
  length, arith,
}
use netwingfs.Prelude.Bytes.{Bytes, codes, bytes_eq, bytes_eq_refl}
use netwingfs.Prelude.Int.{ℤ, pos}
use netwingfs.Config.{
  stop, Outside, ReadFile, content, missing, passed, failed, perform, attempt, fail_if, pure, ◌>>=◌,
}
use netwingfs.Config.Outcome.{Passes, Succeeds}
use netwingfs.Config.Files.{cached_content, download, store_content, create_file_with_content}
use netwingfs.Config.Files.Cached.{Persistent, cached_content-again}
use netwingfs.Config.Limits
use netwingfs.Config.Limits.{HttpServerLimit, default_limits, check_lengths, check_cids}
use netwingfs.Service.Fields.{init_validator, check_int}
use netwingfs.Service.Fields.Admits.{Selective, check_valid-init_validator}
use netwingfs.Config.Limits.Bounds.{Decides, InBounds, check_valid-InBounds}
use netwingfs.Config.Servers.{load_airports}
use netwingfs.Config.Whole.{Config, default_config, check_valid, created}
use netwingfs.Config.Whole.Valid.{Ready, check_valid-Ready}
use netwingfs.Config.Whole.FirstStart.{Defaults, Stored, start, read_config-first_start}
use netwingfs.Service.Email.{find_key}

abbrev Disk : Type 0
Disk = List (Bytes × Bytes)

abbrev read_of : Option Bytes → ReadFile
read_of none = missing (codes "no such file")
read_of (some text) = content text

abbrev duration : Bytes → Bytes ⊎ ℤ
duration [] = inl (codes "invalid duration")
duration (c ∷ text) = inr (pos (length text))

abbrev outside : Outside Disk Bytes Bytes
outside = record {
  parse_duration = duration;
  read_file = λ path files. read_of (find_key path files);
  http_get = λ url files.
      (inr (record { ok = true; status = codes "200 OK"; body = inr (codes "{}") }), files);
  mkdir_all = λ path files. (none, files);
  write_file = λ path text files. (none, (path, text) ∷ files);
  dir = λ path. path;
  clean = λ path. path;
  join = λ a b. a ++ b'/' ∷ b;
  parse_template = λ name bytes. inr bytes;
  unmarshal_airports =
      λ bytes. if bytes_eq bytes (codes "{}") then inr bytes else inl (codes "unexpected end");
  num_cpu = 2;
  random_string = λ files. (codes "secret", files);
  dial = λ dialer files. (none, files);
  skip_email_verification = false;
  min_cost = pos 4;
  max_cost = pos 31;
}

read_back :
    (path text : Bytes) (files later : Disk)
    → Path (Option Bytes × Disk) (none, (path, text) ∷ files) (none, later)
    → read_of (find_key path later) ≡ content text
unfolding find_key
read_back path text files later h =
    let kept : (path, text) ∷ files ≡ later = ap (λ p. p.1) h in
    rw (← kept) (rw (bytes_eq_refl path) refl)

outside-Persistent : Persistent outside
outside-Persistent path text files later h = read_back path text files later h

cached_content-again_example :
    cached_content outside (codes "a.json") (codes "there") ((codes "a.json", codes "{}") ∷ [])
    ≡ (inr (codes "{}"), (codes "a.json", codes "{}") ∷ [])
unfolding cached_content download store_content create_file_with_content find_key bytes_eq
cached_content-again_example =
    cached_content-again outside outside-Persistent (codes "a.json") (codes "here") (codes "there")
      (codes "{}") [] ((codes "a.json", codes "{}") ∷ []) refl

check_valid-InBounds_example :
    Decides
      (Limits.check_valid outside default_limits)
      (record default_limits { rate_limit_duration = pos 1 })
      (InBounds default_limits)
      []
check_valid-InBounds_example = check_valid-InBounds outside default_limits (pos 1) [] refl

abbrev passing_limits : HttpServerLimit
passing_limits = record default_limits { rate_limit_duration = pos 1 }

limits_pass : Limits.check_valid outside default_limits [] ≡ passed passing_limits []
unfolding Limits.check_valid check_lengths check_cids fail_if attempt pure ◌>>=◌
limits_pass = refl

-- A configuration whose servers are all enabled.
abbrev whole : Config Bytes Bytes
whole =
    let c : Config Bytes Bytes = default_config (codes "secret") in
    record c {
      server = record c.server {
        http_server = record c.server.http_server { enabled = true };
        grpc_server = record c.server.grpc_server { enabled = true };
      };
    }

check_valid-Ready_example : Passes (Ready outside whole) (check_valid outside whole [])
check_valid-Ready_example = check_valid-Ready outside whole []

-- The accounts' names may have four letters or more, and the numbers start with 1.
check_valid-init_validator_example :
    Selective (init_validator passing_limits).username_validator
    × Selective (init_validator passing_limits).password_validator
    × Selective (init_validator passing_limits).email_validator
    × (check_int (init_validator passing_limits).cid_validator (pos 0)
        ≡ some (init_validator passing_limits).cid_validator.err_short)
    × (check_int (init_validator passing_limits).cid_validator (pos 1) ≡ none)
check_valid-init_validator_example =
    check_valid-init_validator outside default_limits passing_limits (pos 1) [] [] refl limits_pass

abbrev outside_defaults : Defaults outside
outside_defaults = record {
  hour = pos 1;
  seconds_5 = pos 1;
  seconds_40 = pos 2;
  seconds_60 = pos 2;
  hour_is = refl;
  seconds_5_is = refl;
  seconds_40_is = refl;
  seconds_60_is = refl;
  low = omega arith;
  high = omega arith;
}

abbrev write_new : Bytes → Bytes → Disk → Option Bytes × Disk
write_new path text files = (none, (path, text) ∷ files)

abbrev to_json : Config Bytes Bytes → Bytes
to_json c = codes "{}"

abbrev from_json : Bytes → Config Bytes Bytes → Bytes ⊎ Config Bytes Bytes
from_json bytes c =
    if bytes_eq bytes (codes "{}")
    then inr (default_config (codes "secret"))
    else inl (codes "unexpected end")

abbrev after_start : Disk
after_start = (codes "config.json", codes "{}") ∷ []

airports_load : Succeeds (load_airports outside (codes "data/airport.json") after_start)
unfolding load_airports cached_content download store_content create_file_with_content find_key
    bytes_eq perform pure stop ◌>>=◌
airports_load = tt

first-Stored : Stored outside (codes "config.json") write_new to_json from_json [] after_start
unfolding find_key bytes_eq
first-Stored = record {
  secret = codes "secret";
  drawn = [];
  err = codes "no such file";
  draws = refl;
  absent = refl;
  writes = refl;
  other = codes "secret";
  drawn_again = after_start;
  draws_again = refl;
  keeps = refl;
  reads = refl;
  airports = airports_load;
}

read_config-first_start_example :
    (start outside (codes "config.json") write_new to_json from_json []
      ≡ failed created after_start)
    × Succeeds (start outside (codes "config.json") write_new to_json from_json after_start)
read_config-first_start_example =
    read_config-first_start outside (codes "config.json") write_new to_json from_json
      outside_defaults [] after_start first-Stored
