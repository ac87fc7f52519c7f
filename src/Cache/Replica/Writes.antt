-- ===== src/Cache/Replica/Writes.antt =====
-- Every write, as a subscriber to groups receives it.
use minerva_server.Std.HashMap
use minerva_server.Std.PartialEq.{option_partial_eq}
use minerva_server.Std.BTreeSet.{contains}
use minerva_server.Ids.{GroupId, group_id_key}
use minerva_server.Proto.Groups.{group_partial_eq}
use minerva_server.Proto.Side.{Side}
use minerva_server.Cache.Inner.{default, joined_group, member_ids, member_units, next_sequence}
use minerva_server.Cache.Writes.{StateCache, send_group_event, send_simulation_event, group_removed}
use minerva_server.Cache.Resets.{
  clear, send_removals, set_simulation_info, set_simulation_state, set_locations,
}
use minerva_server.Cache.Step.{
  Write, upserts_unit, removes_unit, upserts_group, upserts_group_with_units, removes_group,
  sets_info, sets_state, sets_locations, clears, step, run,
}
use minerva_server.Cache.Emit.{send_removals-SameTables}
use minerva_server.Cache.Index.{IsIndexed}
use minerva_server.Cache.Index.Writes.{step-IsIndexed}
use minerva_server.Cache.Frame.{joined_group-absent}
use minerva_server.Cache.Replica.{Replica, Has, IsCurrent}
use minerva_server.Cache.Replica.Emit.{Has-removed_self, Has-removed_ne}
use minerva_server.Cache.Replica.Stale.{joined_group-SameTables}
use minerva_server.Cache.Replica.Units.{upsert_unit-IsCurrent, remove_unit-IsCurrent}
use minerva_server.Cache.Replica.Snapshot.{contains-keys}
use minerva_server.Cache.Replica.Groups.{
  upsert_group-IsCurrent, upsert_group_with_units-IsCurrent, remove_group-IsCurrent,
}
use minerva_server.Prelude.{
  Option, ◌≡◌, subst, ◌⊎◌, inl, inr, if_neg, true, none, Option-cases, List, [], ◌∷◌, arith,
}

-- After the removals of `ids` the subscriber has none of these, nor what it had not before.
Has-send_removals :
    (side : Option Side) (r : Replica) (c : StateCache) (ids : List GroupId) (g : GroupId)
    → (contains ids g ≡ true) ⊎ Has side r c g none
    → Has side r (send_removals c ids) g none
unfolding send_removals contains
Has-send_removals side r c [] g (inl m) = cc m
Has-send_removals side r c [] g (inr h) = h
Has-send_removals side r c (id ∷ ids) g k =
    let next = send_group_event c (group_removed id.as_str) in
    Has-send_removals side r next ids g (elim (group_id_key.same id g) [
      | yes p ↦ inr (subst (λ i. Has side r next i none) p (Has-removed_self side r c id))
      | no p ↦ elim k [
        | inl m ↦ inl (rw (if_neg (group_id_key.same id g) p) at m)
        | inr h ↦ inr (Has-removed_ne side r c id g none p h)
      ]
    ])

clear-absent : (c : StateCache) (g : GroupId) → joined_group (clear c).inner g ≡ none
unfolding clear send_simulation_event next_sequence joined_group HashMap.get send_removals
    member_units member_ids
clear-absent c g =
    let emptied = record c { inner = record default { sequence = c.inner.sequence } } in
    joined_group-SameTables emptied.inner
      (send_removals emptied (HashMap.keys c.inner.groups)).inner g
      (send_removals-SameTables emptied (HashMap.keys c.inner.groups))

clear-IsCurrent :
    (side : Option Side) (r : Replica) (c : StateCache)
    → IsCurrent side r c
    → IsCurrent side r (clear c)
clear-IsCurrent side r c current g = rw (clear-absent c g) (
    unfold clear send_simulation_event next_sequence in
    Has-send_removals side r (record c { inner = record default { sequence = c.inner.sequence } })
      (HashMap.keys c.inner.groups) g
      (elim (Option-cases (HashMap.get c.inner.groups g)) [
        | inl e ↦ inr (rw (joined_group-absent c.inner g e) at (current g))
        | inr (x, e) ↦ inl (ground (arith, contains-keys c.inner.groups g))
      ]))

-- If the member index is exact and a subscriber, to all groups or to those of one side, has the
-- joined view of every cached group that its filter admits, up to `==`, and no other group, then it
-- has so again after any one write, by the messages of that write that its filter lets through.
pub step-IsCurrent :
    (side : Option Side) (r : Replica) (c : StateCache) (w : Write)
    → IsIndexed c.inner
    → IsCurrent side r c
    → IsCurrent side r (step c w)
unfolding step set_simulation_info set_simulation_state set_locations send_simulation_event
    next_sequence joined_group member_units member_ids
step-IsCurrent side r c (upserts_unit unit) v s = upsert_unit-IsCurrent side r c unit v s
step-IsCurrent side r c (removes_unit id) v s = remove_unit-IsCurrent side r c id v s
step-IsCurrent side r c (upserts_group group) v s = upsert_group-IsCurrent side r c group v s
step-IsCurrent side r c (upserts_group_with_units group units) v s =
    upsert_group_with_units-IsCurrent side r c group units v s
step-IsCurrent side r c (removes_group id) v s = remove_group-IsCurrent side r c id v s
step-IsCurrent side r c (sets_info info) v s = s
step-IsCurrent side r c (sets_state state) v s = s
step-IsCurrent side r c (sets_locations locations) v s = s
step-IsCurrent side r c clears v s = clear-IsCurrent side r c s

pub run-IsCurrent :
    (side : Option Side) (r : Replica) (c : StateCache) (ws : List Write)
    → IsIndexed c.inner
    → IsCurrent side r c
    → IsCurrent side r (run c ws)
unfolding run
run-IsCurrent side r c [] v s = s
run-IsCurrent side r c (w ∷ ws) v s =
    run-IsCurrent side r (step c w) ws (step-IsIndexed c w v) (step-IsCurrent side r c w v s)
