-- ===== src/Cache/Spec/Groups.antt =====
-- The group writes, on the tables and in the world.
use minerva_server.Std.HashMap
use minerva_server.Std.HashMap.{get-remove, get-insert}
use minerva_server.Std.BTreeSet
use minerva_server.Ids.{UnitId, GroupId, group_id, unit_id_key, group_id_key}
use minerva_server.Proto.Units.{ProtoUnit}
use minerva_server.Proto.Groups.{Group}
use minerva_server.Cache.Inner.{Inner, joined_group, member_ids}
use minerva_server.Cache.Writes.{
  StateCache, upsert_group, replace_group_fields, emit_if_changed, send_group_event, group_removed,
}
use minerva_server.Cache.Groups.{
  upsert_group_with_units, remove_group, replace_members, claim_units, erase_group, emit_others,
  snapshot_others,
}
use minerva_server.Cache.Loops.{listed}
use minerva_server.Cache.Emit.{replace-SameTables, send-SameTables, emit_others-SameTables}
use minerva_server.Cache.Index.{IsIndexed, in_group}
use minerva_server.Cache.Index.Groups.{get-replace_members, groups-replaced}
use minerva_server.Cache.Index.Erase.{get-erase_group, groups-erase_group}
use minerva_server.Cache.Tables.{replace_members-Untouched, erase_group-Untouched}
use minerva_server.Cache.Spec.{World, put_group, others, apply, Reflects}
use minerva_server.Cache.Step.{upserts_group_with_units, removes_group}
use minerva_server.Cache.Spec.Units.{SameTables-Reflects, emit-Reflects}
use minerva_server.Prelude.{
  ◌≡◌, sym, ◌∙◌, ap, ite, Bool, List, [], Option, Option-cases, none, some, inl, inr, if◌then◌else◌,
}

replace-Reflects :
    (c : StateCache) (id : GroupId) (group : Group) (w : World)
    → Reflects c.inner w
    → Reflects (replace_group_fields c id group).inner (put_group w id (some group))
replace-Reflects c id group w r =
    let stored = record c.inner { groups = HashMap.insert c.inner.groups id group } in
    SameTables-Reflects stored (replace_group_fields c id group).inner (put_group w id (some group))
      (replace-SameTables c id group)
      (record {
        units = r.units;
        groups = λ g.
            get-insert c.inner.groups id g group
            ∙ ap (ite (group_id_key.same id g) (some group)) (r.groups g);
        info = r.info;
        state = r.state;
        locations = r.locations;
      })

pub upsert_group-Reflects :
    (c : StateCache) (group : Group) (w : World)
    → Reflects c.inner w
    → Reflects
        (upsert_group c group).inner
        (put_group w (group_id group.id) (some (record group { units = [] })))
unfolding upsert_group
upsert_group-Reflects c group w r =
    let bare = record group { units = [] } in
    let id = group_id group.id in
    emit-Reflects (replace_group_fields c id bare) id (joined_group c.inner id)
      (put_group w id (some bare)) (replace-Reflects c id bare w r)

-- The units of a group, in the tables and in the world.
others-Reflects :
    (i : Inner) (w : World) (id : GroupId) (u : UnitId)
    → IsIndexed i
    → Reflects i w
    → (if BTreeSet.contains (member_ids i id) u then none else HashMap.get i.units u)
      ≡ others w id u
others-Reflects i w id u v r =
    ap (λ (b : Bool). if b then none else HashMap.get i.units u) (v.index id u)
    ∙ ap (λ (o : Option ProtoUnit). if in_group o id then none else o) (r.units u)

pub upsert_group_with_units-Reflects :
    (c : StateCache) (group : Group) (units : List ProtoUnit) (w : World)
    → IsIndexed c.inner
    → Reflects c.inner w
    → Reflects
        (upsert_group_with_units c group units).inner
        (apply w (upserts_group_with_units group units))
unfolding upsert_group_with_units
upsert_group_with_units-Reflects c group units w v r =
    let bare = record group { units = [] } in
    let id = group_id group.id in
    let xs = claim_units id units in
    let moved = record c { inner = replace_members c.inner id xs } in
    let after = apply w (upserts_group_with_units group units) in
    let u = replace_members-Untouched c.inner id xs in
    let members : World = record w { units = after.units } in
    let replaced : Reflects moved.inner members = record {
      units = λ x.
          get-replace_members c.inner id xs x
          ∙ ap
              (λ (o : Option ProtoUnit). elim (listed xs x) as (λ y. Option ProtoUnit) [
                | none ↦ o
                | some y ↦ some y
              ])
              (others-Reflects c.inner w id x v r);
      groups = λ g. ap (λ m. HashMap.get m g) (groups-replaced c.inner v id units) ∙ r.groups g;
      info = u.1 ∙ r.info;
      state = u.2 ∙ r.state;
      locations = u.3 ∙ r.locations;
    } in
    let stored = replace_group_fields moved id bare in
    let told = emit_if_changed stored id (joined_group c.inner id) in
    let lost = snapshot_others c.inner id xs [] in
    SameTables-Reflects told.inner (emit_others told lost).inner after
      (emit_others-SameTables told lost)
      (emit-Reflects stored id (joined_group c.inner id) after
        (replace-Reflects moved id bare members replaced))

pub remove_group-Reflects :
    (c : StateCache) (id : GroupId) (w : World)
    → IsIndexed c.inner
    → Reflects c.inner w
    → Reflects (remove_group c id).0.inner (apply w (removes_group id))
unfolding remove_group
remove_group-Reflects c id w v r =
    let erased = record c { inner = erase_group c.inner id } in
    let u = erase_group-Untouched c.inner id in
    elim (Option-cases (HashMap.get c.inner.groups id)) [
      | inl e ↦ rw (e, remove_group, sym (r.groups id) ∙ e, apply) r
      | inr (x, e) ↦
          rw (e, remove_group, sym (r.groups id) ∙ e, apply)
            (SameTables-Reflects erased.inner
              (send_group_event erased (group_removed id.as_str)).inner
              (record (put_group w id none) { units = others w id })
              (send-SameTables erased (group_removed id.as_str))
              (record {
                units = λ x. get-erase_group c.inner id x ∙ others-Reflects c.inner w id x v r;
                groups = λ g.
                    ap (λ m. HashMap.get m g) (groups-erase_group c.inner id)
                    ∙ get-remove c.inner.groups id g
                    ∙ ap (ite (group_id_key.same id g) none) (r.groups g);
                info = u.1 ∙ r.info;
                state = u.2 ∙ r.state;
                locations = u.3 ∙ r.locations;
              }))
    ]
