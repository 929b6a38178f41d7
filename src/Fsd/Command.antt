-- ===== src/Fsd/Command.antt =====
-- internal/interfaces/fsd/command.go and constant.go: the commands of the protocol.
use netwingfs.Prelude.{ℕ, Bool, true, false, Option, none, some, List, [], ◌∷◌}
use netwingfs.Prelude.Bytes.{Bytes, codes}

-- `ClientCommand`; the server makes no value but these.
pub data Command : Type 0 where
  add_atc remove_atc add_pilot remove_pilot pro_controller pilot_position atc_position
        atc_sub_vis_point message wind_delta squawk_box request_handoff accept_handoff plan
        atc_edit_plan kill_client error client_query client_response temp_data :
      Command

-- The text that a command stands for.
abbrev pub text : Command → Bytes
text add_atc = codes "#AA"
text remove_atc = codes "#DA"
text add_pilot = codes "#AP"
text remove_pilot = codes "#DP"
text pro_controller = codes "#PC"
text pilot_position = codes "@"
text atc_position = codes "%"
text atc_sub_vis_point = codes "'"
text message = codes "#TM"
text wind_delta = codes "#DL"
text squawk_box = codes "#SB"
text request_handoff = codes "$HO"
text accept_handoff = codes "$HA"
text plan = codes "$FP"
text atc_edit_plan = codes "$AM"
text kill_client = codes "$!!"
text error = codes "$ER"
text client_query = codes "$CQ"
text client_response = codes "$CR"
text temp_data = codes "$TD"

-- `PossibleClientCommands`, in its order.
abbrev pub possible_client_commands : List Command
possible_client_commands =
    pilot_position ∷ atc_position ∷ atc_sub_vis_point ∷ message ∷ client_query ∷ client_response
    ∷ plan ∷ atc_edit_plan ∷ request_handoff ∷ accept_handoff ∷ pro_controller ∷ squawk_box
    ∷ add_atc ∷ remove_atc ∷ add_pilot ∷ remove_pilot ∷ kill_client ∷ []

-- Whether a client may send the command.
abbrev pub is_possible : Command → Bool
is_possible wind_delta = false
is_possible error = false
is_possible temp_data = false
is_possible _ = true

pub record CommandRequirement : Type 0 where
  pub require_length : ℕ
  pub fatal : Bool

abbrev require : ℕ → Bool → Option CommandRequirement
require n fatal = some (record { require_length = n; fatal = fatal })

-- `CommandRequirements`.
abbrev pub command_requirements : Command → Option CommandRequirement
command_requirements add_atc = require 12 true
command_requirements add_pilot = require 8 true
command_requirements atc_position = require 8 false
command_requirements pilot_position = require 10 false
command_requirements atc_sub_vis_point = require 4 false
command_requirements client_query = require 3 false
command_requirements client_response = require 3 false
command_requirements message = require 3 false
command_requirements plan = require 17 false
command_requirements atc_edit_plan = require 18 false
command_requirements kill_client = require 2 false
command_requirements request_handoff = require 3 false
command_requirements accept_handoff = require 3 false
command_requirements pro_controller = require 3 false
command_requirements squawk_box = require 2 false
command_requirements _ = none

-- The station name of the server, and the broadcast stations.
abbrev pub fsd_server_name : Bytes
fsd_server_name = codes "SERVER"

abbrev pub all_client : Bytes
all_client = codes "*"

abbrev pub all_atc : Bytes
all_atc = codes "*A"

abbrev pub all_sup : Bytes
all_sup = codes "*S"

abbrev pub special_frequency : Bytes
special_frequency = codes "@94835"
