-- ===== src/Config/Servers/Ready.antt =====
-- The settings of the servers that pass their checks.
use netwingfs.Prelude.{ℕ, ◌*◌, ◌≤◌, false, ◌≡◌, refl, ◌⊎◌, inl, inr, ◌∷◌, arith}
use netwingfs.Prelude.Bytes.{Bytes, codes}
use netwingfs.Prelude.Int.{pos, ◌≤ℤ◌}
use netwingfs.Config.{Outside, fail_if, pure, stop, ◌>>=◌}
use netwingfs.Config.Outcome.{
  Passes, Passes-any, Passes-pure, Passes-if, Passes-bind, Passes-fail_if, Passes-attempt,
}
use netwingfs.Config.Version.{check_port}
use netwingfs.Config.Limits.Bounds.{InBounds, check_valid-Passes}
use netwingfs.Config.Ssl
use netwingfs.Config.Ssl.Normal.{Normal, check_valid-Normal}
use netwingfs.Config.Stores.Usable.{Usable, check_valid-Usable}
use netwingfs.Config.Servers.{
  GeneralConfig, FsdServerConfig, HttpServerConfig, GrpcServerConfig, address_of, welcome,
  check_general, check_fsd_server, check_http_server, check_grpc_server, duration_of,
}

abbrev Port : ℕ → Type 0
Port port = (1 ≤ port) × (port ≤ 65535)

check_port-Passes : {E : Type 0} (port : ℕ) (e : E) → Passes (λ _. Port port) (check_port port e)
unfolding check_port fail_if stop pure ◌>>=◌
check_port-Passes port e = ground arith

module _ {E T A : Type 0} (out : Outside E T A) where
  -- The cost of a hash is within the library's limits.
  abbrev pub Costs : GeneralConfig → Type 0
  Costs c = (out.min_cost ≤ℤ c.bcrypt_cost) × (c.bcrypt_cost ≤ℤ out.max_cost)

  pub check_general-Costs : (c : GeneralConfig) (e : E) → Passes Costs (check_general out c e)
  unfolding check_general fail_if stop pure ◌>>=◌
  check_general-Costs c e = ground arith

  -- What the FSD server starts with, from the configuration as it was read.
  abbrev pub FsdReady : FsdServerConfig A → FsdServerConfig A → Type 0
  FsdReady old c =
      Port c.port
      × (c.address ≡ address_of c.host c.port)
      × (pos 0 ≤ℤ c.pos_update_points)
      × (c.max_broadcast_workers ≤ℤ pos (out.num_cpu * 50))
      × (c.motd ≡ welcome c.fsd_name ∷ old.motd)
      × (out.parse_duration c.session_clean_time ≡ inr c.session_clean_duration)
      × (out.parse_duration c.heartbeat_interval ≡ inr c.heartbeat_duration)

  duration_of-Passes :
      (field text : Bytes) (e : E)
      → Passes (λ d. out.parse_duration text ≡ inr d) (duration_of out field text e)
  unfolding duration_of stop pure
  duration_of-Passes field text e = ground arith

  pub check_fsd_server-FsdReady :
      (c : FsdServerConfig A) (e : E) → Passes (FsdReady c) (check_fsd_server out c e)
  unfolding check_fsd_server
  check_fsd_server-FsdReady c e =
      Passes-bind _ (FsdReady c) _ _ e (check_port-Passes c.port e) (λ _ e port.
        Passes-fail_if (FsdReady c) _ _ _ e (λ points.
          Passes-bind _ (FsdReady c) _ _ e (Passes-any _) (λ airports e _.
            Passes-bind _ (FsdReady c) _ _ e
              (duration_of-Passes (codes "session_clean_time") c.session_clean_time e)
              (λ clean e clean_is.
                Passes-bind _ (FsdReady c) _ _ e
                  (duration_of-Passes (codes "heartbead_interval") c.heartbeat_interval e)
                  (λ beat e beat_is.
                    Passes-pure (FsdReady c) _ e (
                      port,
                      refl,
                      ground (arith, points),
                      ground arith,
                      refl,
                      clean_is,
                      beat_is,
                    ))))))

  -- What the web server starts with, where it is enabled.
  abbrev pub HttpReady : HttpServerConfig T → Type 0
  HttpReady c =
      Port c.port
      × (c.address ≡ address_of c.host c.port)
      × (out.parse_duration c.cache_time ≡ inr c.cache_duration)
      × InBounds c.limits
      × Normal c.ssl
      × Usable c.store

  pub check_http_server-HttpReady :
      (c : HttpServerConfig T) (e : E)
      → Passes (λ c. (c.enabled ≡ false) ⊎ HttpReady c) (check_http_server out c e)
  unfolding check_http_server
  check_http_server-HttpReady c e =
      Passes-if Result c.enabled _ (pure c) e
        (λ _. Passes-bind _ Result _ _ e (check_port-Passes c.port e) (λ _ e port.
          Passes-attempt Result _ _ _ e (λ d dated.
            Passes-bind _ Result _ _ e (check_valid-Passes out c.limits e) (λ limits e bounds.
              Passes-bind _ Result _ _ e (Passes-any _) (λ email e _.
                Passes-bind _ Result _ _ e (Passes-any _) (λ jwt e _.
                  Passes-bind _ Result _ _ e (check_valid-Usable out c.store e) (λ store e usable.
                    Passes-pure Result _ e (
                      inr (
                        port,
                        refl,
                        dated,
                        bounds,
                        (check_valid-Normal (Ssl.check_valid c.ssl)).0,
                        usable,
                      )))))))))
        (λ off. Passes-pure Result c e (inl off))
    where
      Result : HttpServerConfig T → Type 0
      Result c = (c.enabled ≡ false) ⊎ HttpReady c

  abbrev pub GrpcReady : GrpcServerConfig → Type 0
  GrpcReady c =
      Port c.port
      × (c.address ≡ address_of c.host c.port)
      × (out.parse_duration c.cache_time ≡ inr c.cache_duration)

  pub check_grpc_server-GrpcReady :
      (c : GrpcServerConfig) (e : E)
      → Passes (λ c. (c.enabled ≡ false) ⊎ GrpcReady c) (check_grpc_server out c e)
  unfolding check_grpc_server
  check_grpc_server-GrpcReady c e =
      Passes-if Result c.enabled _ (pure c) e
        (λ _. Passes-bind _ Result _ _ e (check_port-Passes c.port e) (λ _ e port.
          Passes-attempt Result _ _ _ e
            (λ d dated. Passes-pure Result _ e (inr (port, refl, dated)))))
        (λ off. Passes-pure Result c e (inl off))
    where
      Result : GrpcServerConfig → Type 0
      Result c = (c.enabled ≡ false) ⊎ GrpcReady c
