-- ===== src/Cache/Replica/Emit.antt =====
-- How a broadcast changes what a subscriber has.
use minerva_server.Std.PartialEq.{◌==◌, Agrees, Agrees-trans, symm, option_partial_eq}
use minerva_server.Std.Num.{int_eq_iff}
use minerva_server.Ids.{GroupId, group_id, group_id_key}
use minerva_server.Proto.Side.{Side, has_side}
use minerva_server.Proto.Groups.{Group, SubscribeGroupUpdatesResponse, group_eq, group_partial_eq}
use minerva_server.Services.Forward.{matches_side}
use minerva_server.Cache.Inner.{joined_group, next_sequence}
use minerva_server.Cache.Writes.{
  StateCache, send_group_event, emit_if_changed, changed_response, group_upserted, group_removed,
}
use minerva_server.Cache.Index.{IsIndexed}
use minerva_server.Cache.Frame.{joined_group-name}
use minerva_server.Cache.Replica.{
  Replica, receive, receive_filtered, receive_all, receive_all-append, visible, Has,
}
use minerva_server.Prelude.{
  ◌≡◌, ◌≢◌, refl, ap, ite, if_pos, if_neg, Option, none, some, inl, inr, true, false, Bool-cases,
  subst, sym, if◌then◌else◌, is_none_or, arith,
}

receive-removed :
    (side : Option Side) (r : Replica) (id g : GroupId)
    → receive_filtered side r (group_removed id.as_str) g ≡ ite (group_id_key.same id g) none (r g)
unfolding receive_filtered receive matches_side group_removed
receive-removed side r id g = refl

-- A view that the filter hides leaves the subscriber with what it had.
abbrev shown : Option Side → Option Group → Option Group → Option Group
shown side none before = none
shown side (some group) before =
    if is_none_or side (has_side group.side) then some group else before

receive-changed :
    (side : Option Side) (r : Replica) (id g : GroupId) (o : Option Group)
    → ((group : Group) → o ≡ some group → group_id group.id ≡ id)
    → receive_filtered side r (changed_response o id) g
      ≡ ite (group_id_key.same id g) (shown side o (r g)) (r g)
unfolding receive_filtered receive matches_side changed_response group_upserted group_removed
receive-changed side r id g none name = refl
receive-changed side r id g (some group) name =
    elim (Bool-cases (is_none_or side (has_side group.side))) [
      | inl shows ↦
          rw shows (ap (λ k. ite (group_id_key.same k g) (some group) (r g)) (name group refl))
      | inr hides ↦ rw hides (ground arith)
    ]

-- Two views of a group, if both are there, have the same side.
abbrev pub SameSide : Option Group → Option Group → Type 0
SameSide (some a) (some b) = a.side ≡ b.side
SameSide none b = Unit
SameSide a none = Unit

sides_agree : (a b : Group) → group_eq a b ≡ true → a.side ≡ b.side
unfolding group_eq
sides_agree a b h = ground (arith, int_eq_iff a.side b.side)

SameSide-refl : (o : Option Group) → SameSide o o
SameSide-refl none = tt
SameSide-refl (some a) = refl

-- Views that compare equal show the same.
visible-Agrees :
    (side : Option Side) (a b : Option Group)
    → (a == b) ≡ true
    → Agrees (visible side a) (visible side b)
visible-Agrees side none none h = inl refl
visible-Agrees side (some a) (some b) h =
    let agree = ap (λ n. is_none_or side (has_side n)) (sides_agree a b h) in
    elim (Bool-cases (is_none_or side (has_side b.side))) [
      | inl shows ↦ rw (agree, shows) (inr h)
      | inr hides ↦ rw (agree, hides) (inl refl)
    ]
visible-Agrees side none (some b) h = cc h
visible-Agrees side (some a) none h = cc h

-- If what the subscriber had is the visible part of a view of the same side, then after the new
-- view it has the visible part of that.
shown-Agrees :
    (side : Option Side) (before after had : Option Group)
    → SameSide before after
    → Agrees had (visible side before)
    → Agrees (shown side after had) (visible side after)
shown-Agrees side before none had same h = inl refl
shown-Agrees side none (some a) had same h = elim (Bool-cases (is_none_or side (has_side a.side))) [
  | inl shows ↦ rw shows (inl refl)
  | inr hides ↦ rw hides h
]
shown-Agrees side (some b) (some a) had same h =
    elim (Bool-cases (is_none_or side (has_side a.side))) [
      | inl shows ↦ rw shows (inl refl)
      | inr hides ↦ rw hides (rw (same, hides) at h)
    ]

module _ (side : Option Side) (r : Replica) (c : StateCache) where
  -- One more message is one more step of the replica.
  pub receive-send :
      (response : SubscribeGroupUpdatesResponse)
      → receive_all side r (send_group_event c response).group_updates
        ≡ receive_filtered side (receive_all side r c.group_updates) response
  unfolding send_group_event next_sequence
  receive-send response = rw receive_all-append (unfold receive_all in refl)

  -- A removal is sent: the id is gone, and the others stay.
  pub Has-removed_self :
      (id : GroupId) → Has side r (send_group_event c (group_removed id.as_str)) id none
  Has-removed_self id =
      inl (rw (receive-send, receive-removed, if_pos (group_id_key.same id id) refl))

  pub Has-removed_ne :
      (id g : GroupId) (o : Option Group)
      → id ≢ g
      → Has side r c g o
      → Has side r (send_group_event c (group_removed id.as_str)) g o
  Has-removed_ne id g o p h =
      rw (receive-send, receive-removed, if_neg (group_id_key.same id g) p) h

  module _ (valid : IsIndexed c.inner) (id : GroupId) (before : Option Group) where
    abbrev after : Option Group
    after = joined_group c.inner id

    abbrev told : StateCache
    told = send_group_event c (changed_response after id)

    receive-told :
        (g : GroupId)
        → receive_all side r told.group_updates g
          ≡ ite
              (group_id_key.same id g)
              (shown side after (receive_all side r c.group_updates g))
              (receive_all side r c.group_updates g)
    receive-told g =
        rw (receive-send, receive-changed side _ id g after (joined_group-name c.inner valid id))
          refl

    Has-told : SameSide before after → Has side r c id before → Has side r told id after
    Has-told same h =
        rw (receive-told, if_pos (group_id_key.same id id) refl)
          (shown-Agrees side before after (receive_all side r c.group_updates id) same h)

    -- The broadcast group is known afterwards if its old view, of the same side, was known before.
    pub Has-emit_self :
        SameSide before after
        → Has side r c id before
        → Has side r (emit_if_changed c id before) id after
    unfolding emit_if_changed
    Has-emit_self sides h = elim (Bool-cases (after == before)) [
      | inl same ↦ rw same (
          Agrees-trans _ (visible side before) (visible side after) h
            (visible-Agrees side before after (symm after before same)))
      | inr changed ↦ rw changed (Has-told sides h)
    ]

    -- It is known after a removal of the group, if the view did change.
    pub Has-emit_changed :
        (after == before) ≡ false
        → Has side r c id none
        → Has side r (emit_if_changed c id before) id after
    unfolding emit_if_changed
    Has-emit_changed changed h = rw changed (
        rw (receive-told, if_pos (group_id_key.same id id) refl)
          (shown-Agrees side none after (receive_all side r c.group_updates id) tt h))

    -- Nothing changes for another group.
    pub Has-emit_ne :
        (g : GroupId) (o : Option Group)
        → id ≢ g
        → Has side r c g o
        → Has side r (emit_if_changed c id before) g o
    unfolding emit_if_changed
    Has-emit_ne g o p h = elim (Bool-cases (after == before)) [
      | inl same ↦ rw same h
      | inr changed ↦ rw changed (rw (receive-told, if_neg (group_id_key.same id g) p) h)
    ]

    Has-told_current : Has side r c id after → Has side r told id after
    Has-told_current h =
        rw (receive-told, if_pos (group_id_key.same id id) refl)
          (shown-Agrees side after after (receive_all side r c.group_updates id)
            (SameSide-refl after) h)

    -- Who knows the current view still does.
    pub Has-emit_current :
        (g : GroupId)
        → Has side r c g (joined_group c.inner g)
        → Has side r (emit_if_changed c id before) g (joined_group c.inner g)
    unfolding emit_if_changed
    Has-emit_current g h = elim (Bool-cases (after == before)) [
      | inl same ↦ rw same h
      | inr changed ↦ rw changed (elim (group_id_key.same id g) [
        | yes p ↦
            subst (λ k. Has side r told k (joined_group c.inner k)) p
              (Has-told_current (subst (λ k. Has side r c k (joined_group c.inner k)) (sym p) h))
        | no p ↦ rw (receive-told, if_neg (group_id_key.same id g) p) h
      ])
    ]
