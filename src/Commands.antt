-- ===== src/Commands.antt =====
-- commands.rs: the validated form of a command, and how a request becomes one.
pub mod Decode
pub mod Dispatcher
pub mod Pending
pub mod InFlight
pub mod Told
pub mod Send
pub mod Late
use minerva_server.Std.Status.{Status, invalid}
use minerva_server.Ids.{GroupId, group_id}
use minerva_server.Proto.Commands.{CommandTarget, Oneof, SendCommandRequest}
use minerva_server.Prelude.{
  Bool, Option, List, [], ◌∷◌, String, string_eq, Result, ok, err, ◌>>=◌, ok_or, if◌then◌else◌,
}

pub data Command : Type 0 where
  move : GroupId → CommandTarget → Command
  search_and_destroy : GroupId → CommandTarget → Command
  defend_zone : GroupId → String → Option CommandTarget → Command
  patrol : GroupId → List CommandTarget → Bool → Command
  -- The supporter, the supported group and the type of support.
  support : GroupId → GroupId → String → Command

-- `Command::group_id`: the group that gets the order.
unfoldable pub ordered_group : Command → GroupId
ordered_group (move group position) = group
ordered_group (search_and_destroy group position) = group
ordered_group (defend_zone group zone_id position) = group
ordered_group (patrol group waypoints loop) = group
ordered_group (support supporter supported support_type) = supporter

unfoldable pub require_position : Option CommandTarget → Result CommandTarget Status
require_position position = ok_or position (invalid "position is required")

unfoldable pub require_group_id : String → Result GroupId Status
require_group_id id =
    if string_eq id "" then err (invalid "group_id is required") else ok (group_id id)

-- The match of `from_proto` on the request's oneof.
unfoldable pub from_oneof : Oneof → Result Command Status
from_oneof (Oneof.move c) = require_group_id c.group_id >>= λ group.
    require_position c.position >>= λ position. ok (move group position)
from_oneof (Oneof.search_and_destroy c) = require_group_id c.group_id >>= λ group.
    require_position c.position >>= λ position. ok (search_and_destroy group position)
from_oneof (Oneof.defend_zone c) =
    if string_eq c.zone_id ""
    then err (invalid "zone_id is required")
    else require_group_id c.group_id >>= λ group. ok (defend_zone group c.zone_id c.position)
from_oneof (Oneof.patrol c) = elim c.waypoints [
  | [] ↦ err (invalid "waypoints must not be empty")
  | target ∷ targets ↦
      require_group_id c.group_id >>= λ group. ok (patrol group (target ∷ targets) c.loop)
]
from_oneof (Oneof.support c) =
    if string_eq c.supported_group_id ""
    then err (invalid "supported_group_id is required")
    else if string_eq c.support_type ""
    then err (invalid "support_type is required")
    else require_group_id c.supporter_group_id >>= λ supporter.
        ok (support supporter (group_id c.supported_group_id) c.support_type)

unfoldable pub from_proto : SendCommandRequest → Result Command Status
from_proto request =
    ok_or request.command (invalid "command is required") >>= λ command. from_oneof command

pub data CommandOutcome : Type 0 where
  success : CommandOutcome
  failure : String → CommandOutcome
