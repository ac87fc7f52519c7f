-- ===== src/Cache/Sequence/Writes.antt =====
-- The sequence numbers of what the writes send.
use minerva_server.Std.PartialEq.{option_partial_eq}
use minerva_server.Std.HashMap
use minerva_server.Std.HashMap.{HashMap}
use minerva_server.Ids.{GroupId, unit_id_key, group_id_key}
use minerva_server.Proto.Groups.{group_partial_eq}
use minerva_server.Cache.Inner.{next_sequence, default}
use minerva_server.Cache.Writes.{
  StateCache, GroupEvent, SimulationEvent, new, group_removed, send_group_event,
}
use minerva_server.Cache.Resets.{
  set_simulation_info, set_simulation_state, set_locations, clear, send_removals,
}
use minerva_server.Cache.Step.{
  Write, upserts_unit, removes_unit, upserts_group, upserts_group_with_units, removes_group,
  sets_info, sets_state, sets_locations, clears, step, run,
}
use minerva_server.Proto.Simulation.{SimulationStateUpdate}
use minerva_server.Cache.Passage
use minerva_server.Cache.Sequence.{
  Follows, Follows-tables, Follows-trans, Follows-Passage, shows_state, shows_state-Follows,
  IsNumbered, Between, group_number, simulation_number, total,
}
use minerva_server.Prelude.{
  ◌^◌, ◌<◌, ◌++◌, subst, sym, ◌≡◌, refl, Option, none, some, List, [], ◌∷◌, arith,
}

-- The removals of `clear` do not read the simulation state.
send_removals-state :
    (c : StateCache) (ids : List GroupId) (state : Option SimulationStateUpdate)
    → send_removals (record c { inner = record c.inner { simulation_state = state } }) ids
      ≡ record (send_removals c ids) {
        inner = record (send_removals c ids).inner { simulation_state = state };
      }
unfolding send_removals send_group_event next_sequence
send_removals-state c [] state = refl
send_removals-state c (id ∷ ids) state =
    send_removals-state (send_group_event c (group_removed id.as_str)) ids state

clear-Follows : (c : StateCache) → Follows c (clear c)
unfolding clear shows_state
clear-Follows c =
    let ids = HashMap.keys c.inner.groups in
    let state = c.inner.simulation_state in
    let kept = record default { sequence = c.inner.sequence; simulation_state = state } in
    let emptied = record c { inner = kept } in
    let removed = send_removals emptied ids in
    rw (send_removals-state emptied ids none) (
      Follows-trans c emptied (shows_state removed none) (Follows-tables c kept refl refl) (
        Follows-trans emptied removed (shows_state removed none)
          (Passage.sends_removals Follows-Passage emptied ids) (shows_state-Follows removed none)))

pub step-Follows : (c : StateCache) (w : Write) → Follows c (step c w)
unfolding step set_simulation_info set_simulation_state set_locations
step-Follows c (upserts_unit unit) = Passage.upserts_unit Follows-Passage c unit
step-Follows c (removes_unit id) = Passage.removes_unit Follows-Passage c id
step-Follows c (upserts_group group) = Passage.upserts_group Follows-Passage c group
step-Follows c (upserts_group_with_units group units) =
    Passage.upserts_group_with_units Follows-Passage c group units
step-Follows c (removes_group id) = Passage.removes_group Follows-Passage c id
step-Follows c (sets_info info) =
    Follows-tables c (record c.inner { simulation_info = some info }) refl refl
step-Follows c (sets_state state) = unfold shows_state in shows_state-Follows c (some state)
step-Follows c (sets_locations locations) =
    Follows-tables c (record c.inner { locations = locations }) refl refl
step-Follows c clears = clear-Follows c

pub run-Follows : (c : StateCache) (ws : List Write) → Follows c (run c ws)
unfolding run
run-Follows c [] = Follows-tables c c.inner refl refl
run-Follows c (w ∷ ws) =
    Follows-trans c (step c w) (run (step c w) ws) (step-Follows c w) (run-Follows (step c w) ws)

pub new-IsNumbered : IsNumbered new
new-IsNumbered = refl

-- The sequence number of a cache splits both logs of every later one, if fewer than 2 ^ 64 messages
-- are sent in all: what was sent before is numbered up to it, and what is sent after above it.
pub sequence_splits :
    (earlier later : List Write)
    → total (run (run new earlier) later) < 2 ^ 64
    → let middle = run new earlier in
      let final = run middle later in
      (news : List GroupEvent) × (simulation_news : List SimulationEvent) × (final.group_updates
        ≡ middle.group_updates ++ news)
      × (final.simulation_updates ≡ middle.simulation_updates ++ simulation_news)
      × Between group_number 0 middle.inner.sequence middle.group_updates
      × Between simulation_number 0 middle.inner.sequence middle.simulation_updates
      × Between group_number middle.inner.sequence final.inner.sequence news
      × Between simulation_number middle.inner.sequence final.inner.sequence simulation_news
sequence_splits earlier later fits =
    let middle = run new earlier in
    let final = run middle later in
    let first = run-Follows new earlier in
    let second = run-Follows middle later in
    let known = first.numbered new-IsNumbered (omega (arith, fits, second.grows)) in
    let after = second.numbered known.0 fits in
    (
      second.news,
      second.simulation_news,
      second.log,
      second.simulation_log,
      subst (λ k. Between group_number 0 k middle.group_updates) (sym known.0)
          (subst (λ es. Between group_number 0 (total middle) es) (sym first.log) known.1),
      subst (λ k. Between simulation_number 0 k middle.simulation_updates) (sym known.0)
          (subst (λ es. Between simulation_number 0 (total middle) es) (sym first.simulation_log)
            known.2),
      subst (λ k. Between group_number k final.inner.sequence second.news) (sym known.0)
          (subst (λ k. Between group_number (total middle) k second.news) (sym after.0) after.1),
      subst (λ k. Between simulation_number k final.inner.sequence second.simulation_news)
          (sym known.0)
          (subst (λ k. Between simulation_number (total middle) k second.simulation_news)
            (sym after.0) after.2),
    )
