-- ===== src/Config/Whole/Valid.antt =====
-- A configuration that passes its check, with which the server starts.
use netwingfs.Prelude.{Bool, true, false, not, ◌≡◌, refl, ◌⊎◌, inr, arith}
use netwingfs.Prelude.Bytes.{Bytes}
use netwingfs.Prelude.Int.{pos, eq_ℤ_iff}
use netwingfs.Config.{Outside, pure, stop}
use netwingfs.Config.Outcome.{Passes, Passes-pure, Passes-bind, Passes-fail_if, Passes-attempt}
use netwingfs.Config.Version.{
  Version, new_version, check_version, CheckVersionResult, all_match, major_unmatch, minor_unmatch,
  patch_unmatch, conf_version,
}
use netwingfs.Config.Servers.Ready.{
  Costs, FsdReady, HttpReady, GrpcReady, check_general-Costs, check_fsd_server-FsdReady,
  check_http_server-HttpReady, check_grpc_server-GrpcReady,
}
use netwingfs.Config.Database
use netwingfs.Config.Database.{DatabaseConfig, is_allowed}
use netwingfs.Config.Whole.{
  Config, ServerConfig, check_server, check_config_version, accept_version, check_valid,
}

-- A text of the program's own version.
abbrev pub Current : Bytes → Type 0
Current text =
    (v : Version) × (new_version text ≡ inr v)
    × (v.major ≡ pos 0)
    × (v.minor ≡ pos 6)
    × (v.patch ≡ pos 0)

not-false : (b : Bool) → not b ≡ false → b ≡ true
not-false b h = ground (arith, h)

module _ {E T A : Type 0} (out : Outside E T A) where
  -- The database is of a known type, and its times are those that were written.
  abbrev pub DatabaseReady : DatabaseConfig → Type 0
  DatabaseReady c =
      (is_allowed c.db_type ≡ true)
      × (out.parse_duration c.connect_idle_timeout ≡ inr c.connect_idle_duration)
      × (out.parse_duration c.query_timeout ≡ inr c.query_duration)

  abbrev pub ServersReady : ServerConfig T A → ServerConfig T A → Type 0
  ServersReady old c =
      Costs out c.general
      × FsdReady out old.fsd_server c.fsd_server
      × ((c.http_server.enabled ≡ false) ⊎ HttpReady out c.http_server)
      × ((c.grpc_server.enabled ≡ false) ⊎ GrpcReady out c.grpc_server)

  abbrev pub Ready : Config T A → Config T A → Type 0
  Ready old c =
      Current c.config_version × DatabaseReady c.database × ServersReady old.server c.server

  database-Passes :
      (c : DatabaseConfig) (e : E) → Passes DatabaseReady (Database.check_valid out c e)
  unfolding Database.check_valid
  database-Passes c e = Passes-fail_if DatabaseReady _ _ _ e (λ allowed.
      Passes-attempt DatabaseReady _ _ _ e (λ idle idle_is.
        Passes-attempt DatabaseReady _ _ _ e (λ query query_is.
          Passes-pure DatabaseReady _ e (not-false _ allowed, idle_is, query_is))))

  servers-Passes : (c : ServerConfig T A) (e : E) → Passes (ServersReady c) (check_server out c e)
  unfolding check_server
  servers-Passes c e =
      Passes-bind _ (ServersReady c) _ _ e (check_general-Costs out c.general e) (λ general e costs.
        Passes-bind _ (ServersReady c) _ _ e (check_fsd_server-FsdReady out c.fsd_server e)
          (λ fsd e fsd_is.
            Passes-bind _ (ServersReady c) _ _ e (check_http_server-HttpReady out c.http_server e)
              (λ http e http_is.
                Passes-bind _ (ServersReady c) _ _ e
                  (check_grpc_server-GrpcReady out c.grpc_server e)
                  (λ grpc e grpc_is.
                    Passes-pure (ServersReady c) _ e (costs, fsd_is, http_is, grpc_is)))))

  accept_version-Passes :
      (v : Version) (r : CheckVersionResult) (P : Type 0) (e : E)
      → (r ≡ all_match → P)
      → Passes (λ _. P) (accept_version out v r e)
  unfolding accept_version pure stop
  accept_version-Passes v all_match P e h = h refl
  accept_version-Passes v major_unmatch P e h = tt
  accept_version-Passes v minor_unmatch P e h = tt
  accept_version-Passes v patch_unmatch P e h = tt

  matched :
      (v : Version)
      → check_version conf_version v ≡ all_match
      → (v.major ≡ pos 0) × (v.minor ≡ pos 6) × (v.patch ≡ pos 0)
  unfolding check_version
  matched v h =
      ground
        (arith, h, eq_ℤ_iff (pos 0) v.major, eq_ℤ_iff (pos 6) v.minor, eq_ℤ_iff (pos 0) v.patch)

  version-Passes :
      (text : Bytes) (e : E) → Passes (λ _. Current text) (check_config_version out text e)
  unfolding check_config_version
  version-Passes text e =
      Passes-attempt (λ _. Current text) _ (new_version text) _ e
        (λ v read.
          accept_version-Passes v _ (Current text) e
            (λ h. let (major, minor, patch) = matched v h in (v, read, major, minor, patch)))

  -- A configuration that passes its check is for the program's version. Its database is of an
  -- allowed type and its times are those written; the cost of a hash is within the library's
  -- limits; its FSD server has a port and the address with it, no negative rate of positions, no
  -- more workers than fifty for a processor, the welcome in front of the configured message of the
  -- day, and its times. The web server is off, or has a port, its address and its time, limits
  -- within their bounds, normal settings of SSL and a usable store; the gRPC server is off, or has a
  -- port, its address and its time.
  pub check_valid-Ready : (old : Config T A) (e : E) → Passes (Ready old) (check_valid out old e)
  unfolding check_valid
  check_valid-Ready old e =
      Passes-bind _ (Ready old) _ _ e (version-Passes old.config_version e) (λ _ e current.
        Passes-bind _ (Ready old) _ _ e (database-Passes old.database e) (λ database e database_is.
          Passes-bind _ (Ready old) _ _ e (servers-Passes old.server e)
            (λ server e server_is. Passes-pure (Ready old) _ e (current, database_is, server_is))))
