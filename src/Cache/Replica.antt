-- ===== src/Cache/Replica.antt =====
-- A subscriber's copy of the joined groups of its side, and what one broadcast does to it.
pub mod Emit
pub mod Stale
pub mod Units
pub mod Fields
pub mod Snapshot
pub mod Groups
pub mod Writes
pub mod Subscriber
use minerva_server.Std.PartialEq.{Agrees, option_partial_eq}
use minerva_server.Ids.{GroupId, group_id, group_id_key}
use minerva_server.Proto.Groups.{
  Group, upserted, removed_id, SubscribeGroupUpdatesResponse, group_partial_eq,
}
use minerva_server.Cache.Inner.{joined_group}
use minerva_server.Cache.Writes.{StateCache, GroupEvent}
use minerva_server.Proto.Side.{Side, has_side}
use minerva_server.Services.Forward.{matches_side}
use minerva_server.Prelude.{
  if◌then◌else◌, is_none_or, ◌≡◌, refl, ite, Option, none, some, List, [], ◌∷◌, ◌++◌,
}

-- What a client that follows the contract keeps: the last group received under each id.
abbrev pub Replica : Type 0
Replica = GroupId → Option Group

abbrev pub update : Replica → GroupId → Option Group → Replica
update r id o g = ite (group_id_key.same id g) o (r g)

-- `Upserted` replaces the group of its id, and `RemovedId` forgets it.
unfoldable pub receive : Replica → SubscribeGroupUpdatesResponse → Replica
receive r response = elim response.event [
  | none ↦ r
  | some event ↦ elim event [
    | upserted group ↦ update r (group_id group.id) (some group)
    | removed_id id ↦ update r (group_id id) none
  ]
]

-- The service passes on what matches the side filter of the subscription.
unfoldable pub receive_filtered : Option Side → Replica → SubscribeGroupUpdatesResponse → Replica
receive_filtered side r response = if matches_side side response then receive r response else r

unfoldable pub receive_all : Option Side → Replica → List GroupEvent → Replica
receive_all side r [] = r
receive_all side r (e ∷ es) = receive_all side (receive_filtered side r e.response) es

pub receive_all-append :
    (side : Option Side) (r : Replica) (es fs : List GroupEvent)
    → receive_all side r (es ++ fs) ≡ receive_all side (receive_all side r es) fs
unfolding receive_all
receive_all-append side r [] fs = refl
receive_all-append side r (e ∷ es) fs =
    receive_all-append side (receive_filtered side r e.response) es fs

-- What a subscription with this filter is to show of a view.
abbrev pub visible : Option Side → Option Group → Option Group
visible side none = none
visible side (some group) = if is_none_or side (has_side group.side) then some group else none

-- Who started from `r` and received all that has been sent has the visible part of `o` for `g`, up
-- to `==`.
abbrev pub Has : Option Side → Replica → StateCache → GroupId → Option Group → Type 0
Has side r c g o = Agrees (receive_all side r c.group_updates g) (visible side o)

-- The subscriber has every group of its side as it is cached, and no other.
abbrev pub IsCurrent : Option Side → Replica → StateCache → Type 0
IsCurrent side r c = (g : GroupId) → Has side r c g (joined_group c.inner g)
