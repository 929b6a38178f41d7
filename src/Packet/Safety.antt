-- ===== src/Packet/Safety.antt =====
-- Which handlers cannot panic once `checkPacketLength` has let the packet through.
pub mod Lines
use netwingfs.Prelude.{
  ℕ, ◌≡◌, refl, Bool, true, false, Option, none, some, List, [], ◌∷◌, ltb, length, Bool-cases, inl,
  inr,
}
use netwingfs.Prelude.Bytes.{Bytes, has_prefix}
use netwingfs.Prelude.Int.{ℤ, negsuc}
use netwingfs.Fsd.Command.{Command}
use netwingfs.Fsd.Outcome.{Outcome}
use netwingfs.Packet.Lines.{split_sign}
use netwingfs.Packet.Lines.MakePacket.{join, make_packet-eq}
use netwingfs.Packet.State.{Env, BroadcastFilter}
use netwingfs.Packet.Monad.{M}
use netwingfs.Packet.Ends.{Safe, Safe-deref, Safe-field, Safe-guarded, safe_rules}
use netwingfs.Packet.Client.{packet}
use netwingfs.Packet.Sending.{send_line}
use netwingfs.Packet.Manager.{send_message_to}
use netwingfs.Packet.Registry.{find_client}
use netwingfs.Packet.Messages.{
  handle_request, handle_squawk_box, keep_atis, atis_line, handle_client_response, handle_message,
  send_frequency_message, after_first, pass_on,
}
use netwingfs.Packet.Positions.{with_client, handle_pilot_pos_update, handle_atc_vis_point_update}
use netwingfs.Packet.Updates.{
  set_position, update_pilot_pos, update_atc_vis_point, add_atc_atis_info,
}

module _ {F D : Type 0} (env : Env F D) where
  Safe-packet : (command : Command) (parts : List Bytes) → Safe (packet env command parts)
  unfolding packet
  Safe-packet command parts = Safe-deref _ _ (make_packet-eq command parts)

  Safe-send_line : (c : ℕ) (line : Bytes) → Safe (send_line env c line)
  unfolding send_line
  Safe-send_line c line = search safe_rules depth 20

  Safe-find_client : (k : Bytes) → Safe {F = F} {D = D} (find_client k)
  unfolding find_client
  Safe-find_client k = record { at = λ s. tt }

  Safe-send_message_to : (k line : Bytes) → Safe (send_message_to env k line)
  unfolding send_message_to
  Safe-send_message_to k line = search (safe_rules, Safe-find_client, Safe-send_line) depth 20

  Safe-handle_request :
      (fs : List Bytes) (line : Bytes)
      → ltb (length fs) 3 ≡ false
      → Safe (handle_request env fs line)
  unfolding handle_request
  Safe-handle_request fs line long =
      search (safe_rules, Safe-field {F = F} {D = D} fs 3 long, Safe-send_message_to) depth 20

  Safe-with_client :
      (i : ℕ) {k : ℕ → M F D Outcome} → ((c : ℕ) → Safe (k c)) → Safe (with_client i k)
  unfolding with_client
  Safe-with_client i h = search safe_rules depth 20

  Safe-handle_squawk_box :
      (i : ℕ) (fs : List Bytes) (line : Bytes)
      → ltb (length fs) 2 ≡ false
      → Safe (handle_squawk_box env i fs line)
  unfolding handle_squawk_box
  Safe-handle_squawk_box i fs line long =
      search
        (
          safe_rules,
          Safe-with_client,
          Safe-field {F = F} {D = D} fs 2 long,
          Safe-find_client,
          Safe-send_line,
        )
        depth 20

  Safe-set_position : (c n : ℕ) (lat lon : F) → Safe {D = D} (set_position c (ℤ.pos n) lat lon)
  unfolding set_position
  Safe-set_position c n lat lon = search safe_rules depth 20

  Safe-update_pilot_pos :
      (c : ℕ) (transponder : ℤ) (lat lon : F) (alt ground_speed : ℤ) (pbh : ℕ)
      → Safe {D = D} (update_pilot_pos c transponder lat lon alt ground_speed pbh)
  unfolding update_pilot_pos
  Safe-update_pilot_pos c transponder lat lon alt ground_speed pbh =
      search (safe_rules, Safe-set_position) depth 20

  Safe-handle_pilot_pos_update :
      (i : ℕ) (fs : List Bytes) (line : Bytes)
      → ltb (length fs) 10 ≡ false
      → Safe (handle_pilot_pos_update env i fs line)
  unfolding handle_pilot_pos_update
  Safe-handle_pilot_pos_update i fs line long =
      search
        (safe_rules, Safe-with_client, Safe-field {F = F} {D = D} fs 10 long, Safe-update_pilot_pos)
        depth 30

  Safe-update_atc_vis_point :
      (c : ℕ) (n : ℤ) (lat lon : F) → Safe {D = D} (update_atc_vis_point c n lat lon)
  unfolding update_atc_vis_point
  Safe-update_atc_vis_point c (negsuc n) lat lon = search safe_rules
  Safe-update_atc_vis_point c (ℤ.pos n) lat lon = search (safe_rules, Safe-set_position)

  Safe-handle_atc_vis_point_update :
      (i : ℕ) (fs : List Bytes)
      → ltb (length fs) 4 ≡ false
      → Safe (handle_atc_vis_point_update env i fs)
  unfolding handle_atc_vis_point_update
  Safe-handle_atc_vis_point_update i fs long =
      search
        (
          safe_rules,
          Safe-with_client,
          Safe-field {F = F} {D = D} fs 4 long,
          Safe-update_atc_vis_point,
        )
        depth 30

  Safe-send_frequency_message :
      (i c : ℕ) (k line : Bytes) → Safe (send_frequency_message env i (c ∷ k) line)
  unfolding send_frequency_message after_first
  Safe-send_frequency_message i c k line = search safe_rules depth 30

  Safe-pass_on : (i : ℕ) (k line : Bytes) → Safe (pass_on env i k line)
  unfolding pass_on has_prefix
  Safe-pass_on i [] line = search (safe_rules, Safe-send_message_to) depth 20
  Safe-pass_on i (c ∷ k) line =
      search (safe_rules, Safe-send_message_to, Safe-send_frequency_message) depth 20

  Safe-handle_message :
      (i : ℕ) (fs : List Bytes) (line : Bytes)
      → ltb (length fs) 3 ≡ false
      → Safe (handle_message env i fs line)
  unfolding handle_message
  Safe-handle_message i fs line long =
      search (safe_rules, Safe-field {F = F} {D = D} fs 3 long, Safe-pass_on) depth 30

  -- The two fields that an answer "ATIS" adds are there, by its own test of the length.
  Safe-atis_line :
      (c : ℕ) (fs : List Bytes)
      → ltb (length fs) 5 ≡ false
      → Safe {F = F} {D = D} (atis_line env c fs)
  unfolding atis_line add_atc_atis_info
  Safe-atis_line c fs long = search (safe_rules, Safe-field {F = F} {D = D} fs 5 long) depth 20

  Safe-keep_atis :
      (c : ℕ) (fs : List Bytes) (k : Bytes)
      → ltb (length fs) 3 ≡ false
      → Safe (keep_atis env c fs k)
  unfolding keep_atis
  Safe-keep_atis c fs k long =
      search (Safe-guarded, safe_rules, Safe-field {F = F} {D = D} fs 3 long, Safe-atis_line) depth
        20

  Safe-handle_client_response :
      (i : ℕ) (fs : List Bytes) (line : Bytes)
      → ltb (length fs) 3 ≡ false
      → Safe (handle_client_response env i fs line)
  unfolding handle_client_response
  Safe-handle_client_response i fs line long =
      search
        (
          safe_rules,
          Safe-with_client,
          Safe-field {F = F} {D = D} fs 3 long,
          Safe-keep_atis,
          Safe-pass_on,
          long,
        )
        depth 20
