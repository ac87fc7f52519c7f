-- ===== src/Commands/Decode.antt =====
-- `Command::from_proto`, and the requests that encode a command.
use minerva_server.Std.Status.{Status, invalid_argument}
use minerva_server.Proto.Commands.{CommandTarget, Oneof, SendCommandRequest}
use minerva_server.Commands.{
  Command, move, search_and_destroy, defend_zone, patrol, support, from_proto, from_oneof,
  require_position, require_group_id,
}
use minerva_server.Prelude.{
  ◌≡◌, ◌≢◌, ◌↔◌, inl, inr, refl, ◌∙◌, ap, subst, false, Bool-cases, Option, none, some,
  Option-cases, List, [], ◌∷◌, String, string_eq, eq_iff, Result, ok, err, arith,
}

-- The request that encodes a command.
unfoldable pub encode : Command → Oneof
encode (move group position) =
    Oneof.move (record { position = some position; group_id = group.as_str })
encode (search_and_destroy group position) =
    Oneof.search_and_destroy (record { position = some position; group_id = group.as_str })
encode (defend_zone group zone_id position) =
    Oneof.defend_zone (record { group_id = group.as_str; zone_id = zone_id; position = position })
encode (patrol group waypoints loop) =
    Oneof.patrol (record { group_id = group.as_str; waypoints = waypoints; loop = loop })
encode (support supporter supported support_type) = Oneof.support (record {
  supporter_group_id = supporter.as_str;
  supported_group_id = supported.as_str;
  support_type = support_type;
})

-- No required text or list is empty.
unfoldable pub IsComplete : Command → Type 0
IsComplete (move group position) = group.as_str ≢ ""
IsComplete (search_and_destroy group position) = group.as_str ≢ ""
IsComplete (defend_zone group zone_id position) = (group.as_str ≢ "") × (zone_id ≢ "")
IsComplete (patrol group waypoints loop) = (group.as_str ≢ "") × (waypoints ≢ [])
IsComplete (support supporter supported support_type) =
    (supporter.as_str ≢ "") × (supported.as_str ≢ "") × (support_type ≢ "")

-- A request is refused for its contents, or decodes to the complete command that it encodes.
abbrev pub Decodes : Oneof → Result Command Status → Type 0
Decodes request (err status) = status.code ≡ invalid_argument
Decodes request (ok command) = (request ≡ encode command) × IsComplete command

pub filled : (s : String) → string_eq s "" ≡ false → s ≢ ""
filled s e p = ground (arith, eq_iff s "")

from_oneof-Decodes : (request : Oneof) → Decodes request (from_oneof request)
unfolding from_oneof require_group_id require_position encode IsComplete
from_oneof-Decodes (Oneof.move c) = elim (Bool-cases (string_eq c.group_id "")) [
  | inl e ↦ rw e refl
  | inr e ↦ elim (Option-cases c.position) [
    | inl p ↦ rw (e, p) refl
    | inr (target, p) ↦ rw (e, p) (refl, filled c.group_id e)
  ]
]
from_oneof-Decodes (Oneof.search_and_destroy c) = elim (Bool-cases (string_eq c.group_id "")) [
  | inl e ↦ rw e refl
  | inr e ↦ elim (Option-cases c.position) [
    | inl p ↦ rw (e, p) refl
    | inr (target, p) ↦ rw (e, p) (refl, filled c.group_id e)
  ]
]
from_oneof-Decodes (Oneof.defend_zone c) = elim (Bool-cases (string_eq c.zone_id "")) [
  | inl z ↦ rw z refl
  | inr z ↦ elim (Bool-cases (string_eq c.group_id "")) [
    | inl e ↦ rw (z, e) refl
    | inr e ↦ rw (z, e) (refl, (filled c.group_id e, filled c.zone_id z))
  ]
]
from_oneof-Decodes (Oneof.patrol c) = patrol_cases c.waypoints refl
  where
    patrol_cases :
        (waypoints : List CommandTarget)
        → c.waypoints ≡ waypoints
        → Decodes (Oneof.patrol c) (from_oneof (Oneof.patrol c))
    patrol_cases [] w = rw w refl
    patrol_cases (target ∷ targets) w = elim (Bool-cases (string_eq c.group_id "")) [
      | inl e ↦ rw (w, e) refl
      | inr e ↦ rw (w, e) (refl, (filled c.group_id e, λ p. cc p))
    ]
from_oneof-Decodes (Oneof.support c) = elim (Bool-cases (string_eq c.supported_group_id "")) [
  | inl g ↦ rw g refl
  | inr g ↦ elim (Bool-cases (string_eq c.support_type "")) [
    | inl t ↦ rw (g, t) refl
    | inr t ↦ elim (Bool-cases (string_eq c.supporter_group_id "")) [
      | inl e ↦ rw (g, t, e) refl
      | inr e ↦
          rw (g, t, e)
            (
              refl,
              (
                filled c.supporter_group_id e,
                filled c.supported_group_id g,
                filled c.support_type t,
              ),
            )
    ]
  ]
]

not_empty : (s : String) → s ≢ "" → string_eq s "" ≡ false
not_empty s p = ground (arith, eq_iff s "")

from_oneof-encode : (c : Command) → IsComplete c → from_oneof (encode c) ≡ ok c
unfolding from_oneof require_group_id require_position encode IsComplete
from_oneof-encode (move group position) h = rw (not_empty group.as_str h) refl
from_oneof-encode (search_and_destroy group position) h = rw (not_empty group.as_str h) refl
from_oneof-encode (defend_zone group zone_id position) h =
    rw (not_empty zone_id h.1, not_empty group.as_str h.0) refl
from_oneof-encode (patrol group [] loop) h = absurd (h.1 refl)
from_oneof-encode (patrol group (target ∷ targets) loop) h = rw (not_empty group.as_str h.0) refl
from_oneof-encode (support supporter supported support_type) h =
    rw (not_empty supported.as_str h.1, not_empty support_type h.2, not_empty supporter.as_str h.0)
      refl

-- The request for a command.
unfoldable pub encode_request : Command → SendCommandRequest
unfolding encode
encode_request c = record { command = some (encode c) }

-- A request decodes to a command exactly when it encodes that command and the command is complete:
-- no text of it is empty, and no list of waypoints.
pub from_proto_iff :
    (request : SendCommandRequest) (command : Command)
    → (from_proto request ≡ ok command) ↔ ((request ≡ encode_request command) × IsComplete command)
unfolding from_proto encode_request
from_proto_iff request command = (forward request.command refl, λ h. back h.0 h.1)
  where
    forward :
        (o : Option Oneof)
        → request.command ≡ o
        → from_proto request ≡ ok command
        → (request ≡ encode_request command) × IsComplete command
    forward none e h = cc (e, h)
    forward (some x) e h =
        let decoded = subst (Decodes x) (rw e at h) (from_oneof-Decodes x) in
        (ap (λ o. record { command = o }) (e ∙ ap some decoded.0), decoded.1)

    back : request ≡ encode_request command → IsComplete command → from_proto request ≡ ok command
    back e c = rw e (from_oneof-encode command c)

-- Whatever is refused is refused as an invalid argument.
pub from_proto-refusal :
    (request : SendCommandRequest) (status : Status)
    → from_proto request ≡ err status
    → status.code ≡ invalid_argument
unfolding from_proto
from_proto-refusal request status h = elim (Option-cases request.command) [
  | inl e ↦ ground arith
  | inr (x, e) ↦ subst (Decodes x) (rw e at h) (from_oneof-Decodes x)
]
