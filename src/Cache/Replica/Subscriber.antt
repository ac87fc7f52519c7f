-- ===== src/Cache/Replica/Subscriber.antt =====
-- A subscriber's copy depends on what it started from only where it received nothing.
use minerva_server.Std.HashMap
use minerva_server.Std.HashMap.{HashMap, Distinct}
use minerva_server.Ids.{GroupId, group_id, group_id_key}
use minerva_server.Proto.Groups.{
  Group, Event, upserted, removed_id, SubscribeGroupUpdatesResponse, group_partial_eq,
}
use minerva_server.Cache.Inner.{Inner, joined_group, member_units}
use minerva_server.Cache.Writes.{StateCache, GroupEvent}
use minerva_server.Cache.Reads.{list_groups}
use minerva_server.Cache.Index.{IsIndexed}
use minerva_server.Cache.Unique.{IsUnique}
use minerva_server.Cache.Replica.{Replica, update, receive, receive_filtered, receive_all, visible}
use minerva_server.Proto.Side.{Side, has_side}
use minerva_server.Services.Forward.{matches_side}
use minerva_server.Cache.Frame.{joined_group-absent, joined_group-stored}
use minerva_server.Prelude.{
  Option-cases, if◌then◌else◌, is_none_or, Bool-cases, ◌≡◌, refl, ◌∙◌, ◌⊎◌, inl, inr, if_pos,
  if_neg, Option, none, some, List, [], ◌∷◌, map, filter, arith, ap,
}

abbrev pub nothing : Replica
nothing = λ g. none

-- One message leaves `g` alone, or decides it.
receive-cases :
    (event : Option Event) (g : GroupId)
    → ((r : Replica) → receive r (record { event = event }) g ≡ r g)
      ⊎ ((o : Option Group) × ((r : Replica) → receive r (record { event = event }) g ≡ o))
unfolding receive
receive-cases none g = inl (λ r. refl)
receive-cases (some (upserted group)) g = elim (group_id_key.same (group_id group.id) g) [
  | yes p ↦
      inr (some group, λ r. if_pos (group_id_key.same (group_id group.id) g) p (some group) (r g))
  | no p ↦ inl (λ r. if_neg (group_id_key.same (group_id group.id) g) p (some group) (r g))
]
receive-cases (some (removed_id id)) g = elim (group_id_key.same (group_id id) g) [
  | yes p ↦ inr (none, λ r. if_pos (group_id_key.same (group_id id) g) p none (r g))
  | no p ↦ inl (λ r. if_neg (group_id_key.same (group_id id) g) p none (r g))
]

module _ (side : Option Side) where
  filtered-cases :
      (response : SubscribeGroupUpdatesResponse) (g : GroupId)
      → ((r : Replica) → receive_filtered side r response g ≡ r g)
        ⊎ ((o : Option Group) × ((r : Replica) → receive_filtered side r response g ≡ o))
  unfolding receive_filtered
  filtered-cases response g = elim (Bool-cases (matches_side side response)) [
    | inl m ↦ rw m (receive-cases response.event g)
    | inr m ↦ rw m (inl (λ r. refl))
  ]

  -- And so do any number of them, whatever the filter.
  pub receive_all-cases :
      (es : List GroupEvent) (g : GroupId)
      → ((r : Replica) → receive_all side r es g ≡ r g)
        ⊎ ((o : Option Group) × ((r : Replica) → receive_all side r es g ≡ o))
  unfolding receive_all
  receive_all-cases [] g = inl (λ r. refl)
  receive_all-cases (e ∷ es) g = elim (receive_all-cases es g) [
    | inr (o, h) ↦ inr (o, λ r. h (receive_filtered side r e.response))
    | inl h ↦ elim (filtered-cases e.response g) [
      | inl k ↦ inl (λ r. h (receive_filtered side r e.response) ∙ k r)
      | inr (o, k) ↦ inr (o, λ r. h (receive_filtered side r e.response) ∙ k r)
    ]
  ]

-- A snapshot is received group by group.
unfoldable pub receive_snapshot : Replica → List Group → Replica
receive_snapshot r [] = r
receive_snapshot r (group ∷ groups) =
    receive_snapshot (update r (group_id group.id) (some group)) groups

module _ (side : Option Side) (i : Inner) where
  abbrev listed_entries : HashMap GroupId Group → HashMap GroupId Group
  listed_entries = filter (λ (e : GroupId × Group). is_none_or side (has_side (e.1).side))

  abbrev joined_entries : HashMap GroupId Group → List Group
  joined_entries m =
      map (λ (e : GroupId × Group). record e.1 { units = member_units i e.0 }) (listed_entries m)

  joined_entry : Option Group → GroupId → Option Group → Option Group
  joined_entry o g before = elim o [
    | none ↦ before
    | some x ↦
        if is_none_or side (has_side x.side)
        then some (record x { units = member_units i g })
        else before
  ]

  receive_entries :
      (m : HashMap GroupId Group) (r : Replica) (g : GroupId)
      → Distinct m
      → ((h : GroupId) (x : Group) → HashMap.get m h ≡ some x → group_id x.id ≡ h)
      → receive_snapshot r (joined_entries m) g ≡ joined_entry (HashMap.get m g) g (r g)
  unfolding receive_snapshot HashMap.get joined_entry
  receive_entries [] r g d named = refl
  receive_entries ((a, x) ∷ m) r g d named =
      let own = named a x (if_pos (group_id_key.same a a) refl (some x) (HashMap.get m a)) in
      let rest : (h : GroupId) (y : Group) → HashMap.get m h ≡ some y → group_id y.id ≡ h =
        λ h y e. ground (arith, named h y) in
      let x_joined : Group = record x { units = member_units i a } in
      elim (Bool-cases (is_none_or side (has_side x.side))) [
        | inl shows ↦ rw shows (
            receive_entries m (update r (group_id x.id) (some x_joined)) g d.1 rest
            ∙ elim (group_id_key.same a g) [
              | yes p ↦ ground (arith, ap (member_units i) p)
              | no p ↦ ground arith
            ])
        | inr hides ↦ rw hides (
            receive_entries m r g d.1 rest ∙ elim (group_id_key.same a g) [
              | yes p ↦ ground (arith, ap (HashMap.get m) p)
              | no p ↦ ground arith
            ])
      ]

-- The snapshot of a cache is the visible part of the joined view of every group.
pub receive_snapshot-list_groups :
    (side : Option Side) (c : StateCache) (g : GroupId)
    → IsIndexed c.inner
    → IsUnique c.inner
    → receive_snapshot nothing (list_groups c side) g ≡ visible side (joined_group c.inner g)
unfolding list_groups joined_entry
receive_snapshot-list_groups side c g v u =
    receive_entries side c.inner c.inner.groups nothing g u.unique v.named
    ∙ elim (Option-cases (HashMap.get c.inner.groups g)) [
      | inl e ↦ rw (joined_group-absent c.inner g e, e, joined_entry) refl
      | inr (x, e) ↦ rw (joined_group-stored c.inner g x e, e, joined_entry) refl
    ]
