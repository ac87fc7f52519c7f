-- ===== src/Cache/Spec/Units.antt =====
-- The unit writes, on the tables and in the world.
use minerva_server.Std.HashMap
use minerva_server.Std.HashMap.{get-remove, get-insert}
use minerva_server.Ids.{UnitId, GroupId, unit_id, group_id, unit_id_key, group_id_key}
use minerva_server.Proto.Units.{ProtoUnit}
use minerva_server.Proto.Groups.{Group}
use minerva_server.Cache.Inner.{Inner, joined_group, unlink_member}
use minerva_server.Cache.Writes.{
  StateCache, upsert_unit, remove_unit, group_left, emit_if_changed, emit_left, move_unit,
}
use minerva_server.Cache.Emit.{SameTables, emit-SameTables}
use minerva_server.Cache.Index.{units-unlink_member, groups-unlink_member}
use minerva_server.Cache.Index.Units.{groups-move_unit, get-move_unit}
use minerva_server.Cache.Tables.{
  Untouched, Untouched-trans, remove-Untouched, unlink_member-Untouched, move_unit-Untouched,
}
use minerva_server.Cache.Spec.{World, put_unit, Reflects}
use minerva_server.Prelude.{◌≡◌, refl, ◌∙◌, ap, ite, Option, Option-cases, none, some, inl, inr}

pub SameTables-Reflects : (i j : Inner) (w : World) → SameTables i j → Reflects i w → Reflects j w
SameTables-Reflects i j w (n, e) r = rw e (record {
  units = r.units;
  groups = r.groups;
  info = r.info;
  state = r.state;
  locations = r.locations;
})

-- The unit table changes as the world does, and no other does.
units-Reflects :
    (i j : Inner) (w : World) (id : UnitId) (unit : Option ProtoUnit)
    → ((u : UnitId)
        → HashMap.get j.units u ≡ ite (unit_id_key.same id u) unit (HashMap.get i.units u))
    → j.groups ≡ i.groups
    → Untouched i j
    → Reflects i w
    → Reflects j (put_unit w id unit)
units-Reflects i j w id unit gets same u r = record {
  units = λ v. gets v ∙ ap (ite (unit_id_key.same id v) unit) (r.units v);
  groups = λ g. ap (λ m. HashMap.get m g) same ∙ r.groups g;
  info = u.1 ∙ r.info;
  state = u.2 ∙ r.state;
  locations = u.3 ∙ r.locations;
}

pub emit-Reflects :
    (c : StateCache) (id : GroupId) (before : Option Group) (w : World)
    → Reflects c.inner w
    → Reflects (emit_if_changed c id before).inner w
emit-Reflects c id before w =
    SameTables-Reflects c.inner (emit_if_changed c id before).inner w (emit-SameTables c id before)

emit_left-Reflects :
    (c : StateCache) (leaving : Option GroupId) (earlier : Inner) (w : World)
    → Reflects c.inner w
    → Reflects (emit_left c leaving earlier).inner w
unfolding emit_left
emit_left-Reflects c none earlier w r = r
emit_left-Reflects c (some old) earlier w r = emit-Reflects c old (joined_group earlier old) w r

pub upsert_unit-Reflects :
    (c : StateCache) (unit : ProtoUnit) (w : World)
    → Reflects c.inner w
    → Reflects (upsert_unit c unit).inner (put_unit w (unit_id unit.id) (some unit))
unfolding upsert_unit
upsert_unit-Reflects c unit w r =
    let id = group_id unit.group_id in
    let leaving = group_left c.inner (unit_id unit.id) id in
    let moved = record c { inner = move_unit c.inner leaving unit } in
    let after = put_unit w (unit_id unit.id) (some unit) in
    emit_left-Reflects (emit_if_changed moved id (joined_group c.inner id)) leaving c.inner after (
      emit-Reflects moved id (joined_group c.inner id) after (
        units-Reflects c.inner moved.inner w (unit_id unit.id) (some unit)
          (get-move_unit c.inner leaving unit) (groups-move_unit c.inner leaving unit)
          (move_unit-Untouched c.inner leaving unit) r))

pub remove_unit-Reflects :
    (c : StateCache) (id : UnitId) (w : World)
    → Reflects c.inner w
    → Reflects (remove_unit c id).0.inner (put_unit w id none)
unfolding remove_unit
remove_unit-Reflects c id w r =
    let removed = record c.inner { units = HashMap.remove c.inner.units id } in
    let after = put_unit w id none in
    let gone =
      units-Reflects c.inner removed w id none (get-remove c.inner.units id) refl
        (remove-Untouched c.inner id) r in
    elim (Option-cases (HashMap.get c.inner.units id)) [
      | inl e ↦ rw (e, remove_unit) gone
      | inr (x, e) ↦
          let group = group_id x.group_id in
          let unlinked = record c { inner = unlink_member removed group id } in
          rw (e, remove_unit)
            (emit-Reflects unlinked group (joined_group c.inner group) after (
              units-Reflects c.inner unlinked.inner w id none
                (λ u.
                  ap (λ m. HashMap.get m u) (units-unlink_member removed group id)
                  ∙ get-remove c.inner.units id u)
                (groups-unlink_member removed group id)
                (Untouched-trans c.inner removed unlinked.inner (remove-Untouched c.inner id)
                  (unlink_member-Untouched removed group id))
                r))
    ]
