-- ===== src/Config/Whole/FirstStart.antt =====
-- The first and the second start of a server that has no configuration file.
use netwingfs.Prelude.{false, ◌≡◌, refl, ◌⊎◌, inr, Option, none, arith}
use netwingfs.Prelude.Bytes.{Bytes, codes}
use netwingfs.Prelude.Int.{ℤ, pos, ◌≤ℤ◌}
use netwingfs.Config.{Check, Outside, failed, content, missing, attempt, pure, stop, fail_if, ◌>>=◌}
use netwingfs.Config.Outcome.{Succeeds, Succeeds-bind, Quiet, Quiet-bind}
use netwingfs.Config.Version.{
  config_version, check_port, new_version, version_of, split_dot, check_version,
}
use netwingfs.Config.Servers.{
  check_general, check_fsd_server, check_http_server, check_grpc_server, load_airports, duration_of,
}
use netwingfs.Config.Database
use netwingfs.Config.Database.{DatabaseConfig, is_allowed, default_database_config}
use netwingfs.Config.Whole.{
  Config, default_config, default_other_config, default_fsd_server_config, check_server,
  check_config_version, accept_version, check_valid, save_config, read_config, read_with,
  first_start, created,
}
use netwingfs.Utils.Cast.{str_to_int, atoi, digits, digits_from, in_range}

abbrev airport_file : Bytes
airport_file = codes "data/airport.json"

module _ {E T A : Type 0} (out : Outside E T A) where
  -- The default times are durations, and the default cost is one of the library's.
  pub record Defaults : Type 0 where
    pub hour : ℤ
    pub seconds_5 : ℤ
    pub seconds_40 : ℤ
    pub seconds_60 : ℤ
    pub hour_is : out.parse_duration (codes "1h") ≡ inr hour
    pub seconds_5_is : out.parse_duration (codes "5s") ≡ inr seconds_5
    pub seconds_40_is : out.parse_duration (codes "40s") ≡ inr seconds_40
    pub seconds_60_is : out.parse_duration (codes "60s") ≡ inr seconds_60
    pub low : out.min_cost ≤ℤ pos 12
    pub high : pos 12 ≤ℤ out.max_cost

  version_passes : (e : E) → Quiet e (check_config_version out config_version e)
  unfolding check_config_version new_version version_of split_dot str_to_int atoi digits digits_from
      in_range check_version accept_version attempt pure ◌>>=◌
  version_passes e = refl

  attempt_passes :
      {C D : Type 0} (message : Bytes) (answer : Bytes ⊎ C) (f : C → Check E D) (c : C) (e : E)
      → answer ≡ inr c
      → Succeeds (f c e)
      → Succeeds ((attempt message answer >>= f) e)
  unfolding attempt pure ◌>>=◌
  attempt_passes message answer f c e h s = rw h s

  module _ (d : Defaults) where
    database_passes : (e : E) → Quiet e (Database.check_valid out default_database_config e)
    unfolding Database.check_valid is_allowed fail_if attempt pure ◌>>=◌
    database_passes e = rw (d.hour_is, d.seconds_5_is) refl

    general_passes : (e : E) → Quiet e (check_general out default_other_config e)
    unfolding check_general fail_if pure stop ◌>>=◌
    general_passes e = ground (arith, d.low, d.high)

    duration_passes :
        (field text : Bytes) (v : ℤ) (e : E)
        → out.parse_duration text ≡ inr v
        → Succeeds (duration_of out field text e)
    unfolding duration_of pure stop
    duration_passes field text v e h = rw (duration_of, h) tt

    port_passes : (e : E) → Quiet e (check_port 6809 e)
    unfolding check_port fail_if pure ◌>>=◌
    port_passes e = refl

    points_pass : {C : Type 0} (message : Bytes) (c : C) (e : E) → Quiet e (fail_if false message e)
    unfolding fail_if pure
    points_pass message c e = refl

    always : {C : Type 0} (c : C) (e : E) → Succeeds (pure c e)
    unfolding pure
    always c e = tt

    fsd_passes :
        (e : E)
        → Succeeds (load_airports out airport_file e)
        → Succeeds (check_fsd_server out default_fsd_server_config e)
    unfolding check_fsd_server
    fsd_passes e loaded = Quiet-bind _ _ e (port_passes e) (λ _.
        Quiet-bind _ _ e (points_pass _ tt e) (λ _. Succeeds-bind _ _ e loaded (λ airports e.
          Succeeds-bind _ _ e (duration_passes (codes "session_clean_time") _ _ e d.seconds_40_is)
            (λ clean e.
              Succeeds-bind _ _ e
                (duration_passes (codes "heartbead_interval") _ _ e d.seconds_60_is)
                (λ beat e. always _ e)))))

    server_passes :
        (secret : Bytes) (e : E)
        → Succeeds (load_airports out airport_file e)
        → Succeeds (check_server out (default_config secret).server e)
    unfolding check_server check_http_server check_grpc_server
    server_passes secret e loaded = Quiet-bind _ _ e (general_passes e) (λ _.
        Succeeds-bind _ _ e (fsd_passes e loaded) (λ _ e.
          Succeeds-bind _ _ e (always _ e)
            (λ _ e. Succeeds-bind _ _ e (always _ e) (λ _ e. always _ e))))

    pub check_valid-default :
        (secret : Bytes) (e : E)
        → Succeeds (load_airports out airport_file e)
        → Succeeds (check_valid out (default_config secret) e)
    unfolding check_valid
    check_valid-default secret e loaded = Quiet-bind _ _ e (version_passes e) (λ _.
        Quiet-bind _ _ e (database_passes e)
          (λ _. Succeeds-bind _ _ e (server_passes secret e loaded) (λ _ e. always _ e)))

  module _ (path : Bytes) (write_over : Bytes → Bytes → E → Option Bytes × E)
      (marshal : Config T A → Bytes) (unmarshal : Bytes → Config T A → Bytes ⊎ Config T A) where
    abbrev pub start : Check E (Config T A)
    start = read_config out path write_over marshal unmarshal

    -- What a first start leaves: the file has the default configuration, and drawing a secret keeps
    -- it there. The JSON library reads what it has written over the defaults with another secret, and
    -- the file of airports can then be loaded, or is not there.
    pub record Stored (e e' : E) : Type 0 where
      pub secret : Bytes
      pub drawn : E
      pub err : Bytes
      pub draws : out.random_string e ≡ (secret, drawn)
      pub absent : out.read_file path drawn ≡ missing err
      pub writes : write_over path (marshal (default_config secret)) drawn ≡ (none, e')
      pub other : Bytes
      pub drawn_again : E
      pub draws_again : out.random_string e' ≡ (other, drawn_again)
      pub keeps : out.read_file path drawn_again ≡ content (marshal (default_config secret))
      pub reads :
          unmarshal (marshal (default_config secret)) (default_config other)
          ≡ inr (default_config secret)
      pub airports : Succeeds (load_airports out airport_file drawn_again)

    creates :
        (secret err : Bytes) (e e' : E)
        → out.read_file path e ≡ missing err
        → write_over path (marshal (default_config secret)) e ≡ (none, e')
        → read_with out path write_over marshal unmarshal (secret, e) ≡ failed created e'
    unfolding read_with save_config first_start
    creates secret err e e' absent writes = rw (read_with, absent, writes) refl

    loads :
        Defaults
        → {e e' : E} (s : Stored e e')
        → Succeeds (read_with out path write_over marshal unmarshal (s.other, s.drawn_again))
    unfolding read_with
    loads d s =
        rw (read_with, s.keeps)
          (attempt_passes _ _ _ _ _ s.reads
            (check_valid-default d s.secret s.drawn_again s.airports))

    -- Without a configuration file a start fails, having written the default configuration; where
    -- the file keeps it, the libraries take the defaults, and the airports can be loaded or are not
    -- there, the next start succeeds.
    pub read_config-first_start :
        Defaults → (e e' : E) → Stored e e' → (start e ≡ failed created e') × Succeeds (start e')
    unfolding read_config
    read_config-first_start d e e' s = (
      rw s.draws (creates s.secret s.err s.drawn e' s.absent s.writes),
      rw (read_config, s.draws_again) (loads d s),
    )
