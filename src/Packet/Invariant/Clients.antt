-- ===== src/Packet/Invariant/Clients.antt =====
-- The invariant under the operations of clients.
use netwingfs.Prelude.{ℕ, Bool, List, Option, none, some, [], ◌∷◌}
use netwingfs.Prelude.Bytes.{Bytes}
use netwingfs.Prelude.Int.{ℤ, pos, negsuc}
use netwingfs.Fsd.Command.{Command}
use netwingfs.Fsd.Outcome.{Outcome}
use netwingfs.Database.Model.{FlightPlan}
use netwingfs.Database.Plans.{PlanError}
use netwingfs.Packet.State.{Env}
use netwingfs.Packet.Monad.{modify}
use netwingfs.Packet.Client.{
  packet, stop_timer, load_plan, new_client, record_path_point, tick_path, end_history, add_time,
  delete, reconnect, mark, marked_disconnect,
}
use netwingfs.Packet.Updates.{
  set_position, update_pilot_pos, update_atc_pos, update_atc_vis_point, add_atc_atis_info,
  keep_plan, create_plan, change_plan, unlock_changed, amend_plan, client_upsert_flight_plan,
}
use netwingfs.Packet.Sending.{send_line, client_send_error, motd_packets, make_motd, send_motd}
use netwingfs.Packet.Invariant.{WellFormed, Triple, Keeps, Triple-bind}
use netwingfs.Packet.Invariant.Primitives.{
  keeps_rules, Allocated, allocate-Allocated, Keeps-get_session, Keeps-modify_session, Keeps-deref,
  Keeps-gets,
}

module _ {F D : Type 0} (env : Env F D) where
  Keeps-stop_timer : (c : ℕ) → Keeps (stop_timer env c)
  unfolding stop_timer modify
  Keeps-stop_timer c = record { at = λ s v. record { distinct = v.distinct; entries = v.entries } }

  Keeps-record_path_point : (c : ℕ) → Keeps (record_path_point env c)
  unfolding record_path_point
  Keeps-record_path_point c = search keeps_rules depth 20

  Keeps-end_history : (c : ℕ) → Keeps (end_history env c)
  unfolding end_history
  Keeps-end_history c = search keeps_rules depth 20

  pub Keeps-reconnect : (c i : ℕ) → Keeps (reconnect env c i)
  unfolding reconnect
  Keeps-reconnect c i = search (keeps_rules, Keeps-stop_timer) depth 20

  Keeps-mark : (c : ℕ) (immediate : Bool) → Keeps (mark env c immediate)
  unfolding mark
  Keeps-mark c immediate = search (keeps_rules, Keeps-stop_timer) depth 20

  Keeps-add_time : (c : ℕ) → Keeps (add_time env c)
  unfolding add_time
  Keeps-add_time c = search keeps_rules depth 20

  pub Keeps-delete : (c : ℕ) → Keeps (delete env c)
  unfolding delete
  Keeps-delete c =
      search (keeps_rules, Keeps-stop_timer, Keeps-end_history, Keeps-add_time) depth 20

  pub Keeps-marked_disconnect :
      (c : ℕ) (immediate : Bool) → Keeps (marked_disconnect env c immediate)
  unfolding marked_disconnect
  Keeps-marked_disconnect c immediate = search (keeps_rules, Keeps-mark, Keeps-delete) depth 20

  pub Keeps-tick_path : (c : ℕ) → Keeps (tick_path env c)
  unfolding tick_path
  Keeps-tick_path c = search (keeps_rules, Keeps-record_path_point) depth 20

  pub Keeps-packet : (command : Command) (parts : List Bytes) → Keeps (packet env command parts)
  unfolding packet
  Keeps-packet command parts = search keeps_rules

  Keeps-load_plan : (is_atc : Bool) (cid : ℤ) → Keeps (load_plan env is_atc cid)
  unfolding load_plan
  Keeps-load_plan is_atc cid = search keeps_rules depth 20

  pub new_client-Allocated :
      (callsign : Bytes) (rating protocol : ℤ) (real_name : Bytes) (session : ℕ) (is_atc : Bool)
      → Triple WellFormed
          (new_client env callsign rating protocol real_name session is_atc)
          Allocated
  unfolding new_client
  new_client-Allocated callsign rating protocol real_name session is_atc =
      Triple-bind (Keeps-modify_session session _) λ _.
        Triple-bind (Keeps-get_session session) λ current.
          Triple-bind (Keeps-deref current.user) λ user.
            Triple-bind (Keeps-load_plan is_atc user.cid)
              λ plan. Triple-bind (Keeps-gets _) λ now. allocate-Allocated env _

module _ {F D : Type 0} where
  pub Keeps-set_position : (c : ℕ) (i : ℤ) (lat lon : F) → Keeps {D = D} (set_position c i lat lon)
  unfolding set_position
  Keeps-set_position c (pos i) lat lon = search keeps_rules depth 20
  Keeps-set_position c (negsuc i) lat lon = search keeps_rules

  pub Keeps-update_pilot_pos :
      (c : ℕ) (t : ℤ) (lat lon : F) (alt speed : ℤ) (pbh : ℕ)
      → Keeps {D = D} (update_pilot_pos c t lat lon alt speed pbh)
  unfolding update_pilot_pos
  Keeps-update_pilot_pos c t lat lon alt speed pbh =
      search (keeps_rules, Keeps-set_position) depth 20

  pub Keeps-update_atc_pos :
      (c : ℕ) (frequency : ℤ) (facility : ℕ) (range lat lon : F)
      → Keeps {D = D} (update_atc_pos c frequency facility range lat lon)
  unfolding update_atc_pos
  Keeps-update_atc_pos c frequency facility range lat lon =
      search (keeps_rules, Keeps-set_position) depth 20

  pub Keeps-update_atc_vis_point :
      (c : ℕ) (i : ℤ) (lat lon : F) → Keeps {D = D} (update_atc_vis_point c i lat lon)
  unfolding update_atc_vis_point
  Keeps-update_atc_vis_point c (pos i) lat lon = search (keeps_rules, Keeps-set_position) depth 20
  Keeps-update_atc_vis_point c (negsuc i) lat lon = search keeps_rules

  pub Keeps-add_atc_atis_info :
      (c : ℕ) (info : Bytes) → Keeps {F = F} {D = D} (add_atc_atis_info c info)
  unfolding add_atc_atis_info
  Keeps-add_atc_atis_info c info = search keeps_rules depth 20

module _ {F D : Type 0} (env : Env F D) where
  Keeps-keep_plan :
      (c : ℕ) (made : Option FlightPlan) (e : Option PlanError) → Keeps (keep_plan env c made e)
  unfolding keep_plan
  Keeps-keep_plan c made none = search keeps_rules depth 20
  Keeps-keep_plan c made (some e) = search keeps_rules

  pub Keeps-change_plan :
      (c : ℕ) (p : FlightPlan) (fields : List Bytes) (atc : Bool)
      → Keeps (change_plan env c p fields atc)
  unfolding change_plan
  Keeps-change_plan c p fields atc = search keeps_rules depth 20

  Keeps-unlock_changed :
      (p : FlightPlan) (fields : List Bytes) → Keeps (unlock_changed env p fields)
  unfolding unlock_changed
  Keeps-unlock_changed p fields = search keeps_rules depth 20

  Keeps-create_plan : (c : ℕ) (fields : List Bytes) → Keeps (create_plan env c fields)
  unfolding create_plan
  Keeps-create_plan c fields = search (keeps_rules, Keeps-keep_plan) depth 20

  Keeps-amend_plan :
      (c : ℕ) (fields : List Bytes) (p : FlightPlan) → Keeps (amend_plan env c fields p)
  unfolding amend_plan
  Keeps-amend_plan c fields p =
      search (keeps_rules, Keeps-unlock_changed, Keeps-change_plan) depth 20

  pub Keeps-client_upsert_flight_plan :
      (c : ℕ) (fields : List Bytes) → Keeps (client_upsert_flight_plan env c fields)
  unfolding client_upsert_flight_plan
  Keeps-client_upsert_flight_plan c fields =
      search (keeps_rules, Keeps-create_plan, Keeps-amend_plan) depth 20

  pub Keeps-send_line : (c : ℕ) (line : Bytes) → Keeps (send_line env c line)
  unfolding send_line
  Keeps-send_line c line = search keeps_rules depth 20

  pub Keeps-client_send_error : (c : ℕ) (result : Outcome) → Keeps (client_send_error env c result)
  unfolding client_send_error
  Keeps-client_send_error c result = search (keeps_rules, Keeps-send_line) depth 20

  Keeps-motd_packets : (k : Bytes) (lines : List Bytes) → Keeps (motd_packets env k lines)
  unfolding motd_packets
  Keeps-motd_packets k [] = search keeps_rules
  Keeps-motd_packets k (line ∷ lines) =
      let rest = Keeps-motd_packets k lines in search keeps_rules depth 20

  Keeps-make_motd : (c : ℕ) (k : Bytes) → Keeps (make_motd env c k)
  unfolding make_motd
  Keeps-make_motd c k = search (keeps_rules, Keeps-motd_packets, Keeps-send_line) depth 20

  pub Keeps-send_motd : (c : ℕ) → Keeps (send_motd env c)
  unfolding send_motd
  Keeps-send_motd c = search (keeps_rules, Keeps-make_motd, Keeps-send_line) depth 20

pub ruleset client_rules = (
  keeps_rules, Keeps-reconnect, Keeps-delete, Keeps-marked_disconnect, Keeps-tick_path,
  Keeps-packet, Keeps-set_position, Keeps-update_pilot_pos, Keeps-update_atc_pos,
  Keeps-update_atc_vis_point, Keeps-add_atc_atis_info, Keeps-change_plan,
  Keeps-client_upsert_flight_plan, Keeps-send_line, Keeps-client_send_error, Keeps-send_motd,
)
