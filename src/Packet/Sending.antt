-- ===== src/Packet/Sending.antt =====
-- internal/fsd_server/packet/client.go: what a client is sent.
use netwingfs.Prelude.{ℕ, true, not, Option, none, some, List, [], ◌∷◌, ◌++◌, if◌then◌else◌}
use netwingfs.Prelude.Bytes.{Bytes, codes}
use netwingfs.Prelude.Int.{pos}
use netwingfs.Utils.Format.{show_padded}
use netwingfs.Fsd.Command.{message, error, fsd_server_name}
use netwingfs.Fsd.Outcome.{Outcome, errno_index, errno_string}
use netwingfs.Packet.State.{Env, delete_timer}
use netwingfs.Packet.Monad.{
  M, ◌>>=◌, if_nil, ◌>>◌, pure, get_client, modify_client, modify_session, after_func, write, when,
}
use netwingfs.Packet.Client.{packet, with_sign}

module _ {F D : Type 0} (env : Env F D) where
  -- `SendLine`, and `SendLineWithoutLog`, which differs in its logging only.
  unfoldable pub send_line : ℕ → Bytes → M F D (Unit {0})
  unfolding with_sign
  send_line c line = do
    client ← get_client c
    when (not client.disconnect) (write client.socket (with_sign line))

  -- `SendError` of a client. The source spells the server's name as this literal.
  unfoldable pub client_send_error : ℕ → Outcome → M F D (Unit {0})
  unfolding packet send_line
  client_send_error c result = if result.success then pure tt else do
    client ← get_client c
    line ← packet env error (
        codes "global.FSDServerName"
        ∷ client.callsign
        ∷ show_padded 3 (pos (errno_index result.errno))
        ∷ result.env
        ∷ errno_string result.errno
        ∷ [])
    send_line c line
    when result.fatal (do
      modify_session client.socket (λ x. record x { disconnected = true })
      modify_client c (λ x. record x { disconnect = true })
      after_func (delete_timer client.callsign))

  -- The buffer of `SendMotd`.
  unfoldable pub motd_packets : Bytes → List Bytes → M F D Bytes
  unfolding packet
  motd_packets callsign [] = pure []
  motd_packets callsign (line ∷ lines) = do
    first ← packet env message (fsd_server_name ∷ callsign ∷ line ∷ [])
    rest ← motd_packets callsign lines
    pure (first ++ rest)

  -- An empty `bytes.Buffer` has a nil slice.
  abbrev buffer_bytes : List Bytes → Bytes → Option Bytes
  buffer_bytes [] bytes = none
  buffer_bytes (_ ∷ _) bytes = some bytes

  -- The first `SendMotd`, which fills the buffer.
  unfoldable pub make_motd : ℕ → Bytes → M F D (Unit {0})
  unfolding send_line motd_packets
  make_motd c callsign = do
    bytes ← motd_packets callsign env.motd
    modify_client c (λ x. record x { motd_bytes = buffer_bytes env.motd bytes })
    send_line c bytes

  -- `SendMotd`.
  unfoldable pub send_motd : ℕ → M F D (Unit {0})
  unfolding make_motd
  send_motd c = do
    client ← get_client c
    if_nil client.motd_bytes (make_motd c client.callsign) (λ bytes. send_line c bytes)
