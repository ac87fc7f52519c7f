-- ===== src/Cache/Replica/Stale.antt =====
-- In the middle of a write the subscriber may still have the old view of some groups. Each
-- broadcast brings one of them up to date.
use minerva_server.Std.HashMap
use minerva_server.Std.HashMap.{HashMap}
use minerva_server.Std.BTreeSet.{contains}
use minerva_server.Ids.{GroupId, group_id_key}
use minerva_server.Proto.Side.{Side}
use minerva_server.Proto.Groups.{Group}
use minerva_server.Cache.Inner.{Inner, joined_group}
use minerva_server.Cache.Writes.{StateCache, emit_if_changed, emit_left}
use minerva_server.Cache.Groups.{emit_others}
use minerva_server.Cache.Emit.{SameTables, emit-SameTables}
use minerva_server.Cache.Index.{IsIndexed}
use minerva_server.Cache.Index.Writes.{SameTables-IsIndexed}
use minerva_server.Cache.Frame.{joined_group-absent, joined_group-stored, joined_group-sequence}
use minerva_server.Cache.Replica.{Replica, Has, IsCurrent}
use minerva_server.Cache.Replica.Emit.{SameSide, Has-emit_self, Has-emit_ne, Has-emit_current}
use minerva_server.Prelude.{
  Option-cases, ◌∙◌, refl, ◌≡◌, sym, ◌⊎◌, inl, inr, if_neg, true, Option, none, some, List, [], ◌∷◌,
  subst,
}

pub joined_group-SameTables :
    (i j : Inner) (g : GroupId) → SameTables i j → joined_group j g ≡ joined_group i g
joined_group-SameTables i j g (n, e) = rw e (joined_group-sequence i n g)

-- A group's stored fields give the side of its view.
pub SameSide-joined_group :
    (i j : Inner) (g : GroupId)
    → HashMap.get j.groups g ≡ HashMap.get i.groups g
    → SameSide (joined_group i g) (joined_group j g)
SameSide-joined_group i j g e = elim (Option-cases (HashMap.get i.groups g)) [
  | inl absent ↦ rw (joined_group-absent i g absent) tt
  | inr (x, stored) ↦
      rw (joined_group-stored i g x stored, joined_group-stored j g x (e ∙ stored)) refl
]

-- Every group is current, or is listed and the subscriber has its view in `earlier`, on the same side.
abbrev pub IsStale : Option Side → Replica → StateCache → Inner → List GroupId → Type 0
IsStale side r c earlier listed =
    (g : GroupId)
    → Has side r c g (joined_group c.inner g)
      ⊎ ((contains listed g ≡ true)
          × Has side r c g (joined_group earlier g)
          × SameSide (joined_group earlier g) (joined_group c.inner g))

pub IsStale-nil :
    (side : Option Side) (r : Replica) (c : StateCache) (earlier : Inner)
    → IsStale side r c earlier []
    → IsCurrent side r c
unfolding contains
IsStale-nil side r c earlier s g = elim (s g) [ inl h ↦ h | inr h ↦ cc (h.0) ]

module _ (side : Option Side) (r : Replica) (c : StateCache) (earlier : Inner)
    (valid : IsIndexed c.inner) (id : GroupId) (listed : List GroupId) where
  abbrev told : StateCache
  told = emit_if_changed c id (joined_group earlier id)

  view : (g : GroupId) → joined_group told.inner g ≡ joined_group c.inner g
  view g =
      joined_group-SameTables c.inner told.inner g (emit-SameTables c id (joined_group earlier id))

  abbrev StaleAt : GroupId → Type 0
  StaleAt g =
      Has side r c g (joined_group earlier g)
      × SameSide (joined_group earlier g) (joined_group c.inner g)

  stale_other :
      (g : GroupId)
      → contains (id ∷ listed) g ≡ true
      → StaleAt g
      → Has side r told g (joined_group told.inner g)
        ⊎ ((contains listed g ≡ true)
            × Has side r told g (joined_group earlier g)
            × SameSide (joined_group earlier g) (joined_group told.inner g))
  unfolding contains
  stale_other g m h = elim (group_id_key.same id g) [
    | yes p ↦
        let own = subst StaleAt (sym p) h in
        inl (
          rw (view g) (
            subst (λ k. Has side r told k (joined_group c.inner k)) p
              (Has-emit_self side r c valid id (joined_group earlier id) own.1 own.0)))
    | no p ↦ inr (
      rw (if_neg (group_id_key.same id g) p) at m,
      Has-emit_ne side r c valid id (joined_group earlier id) g (joined_group earlier g) p h.0,
      rw (view g) (h.1),
    )
  ]

  -- A broadcast takes its group off the list.
  pub emit-IsStale : IsStale side r c earlier (id ∷ listed) → IsStale side r told earlier listed
  emit-IsStale s g = elim (s g) [
    | inl h ↦ inl (rw (view g) (Has-emit_current side r c valid id (joined_group earlier id) g h))
    | inr h ↦ stale_other g h.0 (h.1, h.2)
  ]

  pub told-IsIndexed : IsIndexed told.inner
  told-IsIndexed =
      SameTables-IsIndexed c.inner told.inner (emit-SameTables c id (joined_group earlier id)) valid

abbrev pub left_list : Option GroupId → List GroupId
left_list none = []
left_list (some old) = old ∷ []

pub emit_left-IsCurrent :
    (side : Option Side) (r : Replica) (c : StateCache) (earlier : Inner) (leaving : Option GroupId)
    → IsIndexed c.inner
    → IsStale side r c earlier (left_list leaving)
    → IsCurrent side r (emit_left c leaving earlier)
unfolding emit_left
emit_left-IsCurrent side r c earlier none v s = IsStale-nil side r c earlier s
emit_left-IsCurrent side r c earlier (some old) v s =
    IsStale-nil side r (emit_if_changed c old (joined_group earlier old)) earlier
      (emit-IsStale side r c earlier v old [] s)

-- Every entry holds the view of its group in `earlier`.
abbrev pub AreViews : Inner → HashMap GroupId (Option Group) → Type 0
AreViews earlier [] = Unit
AreViews earlier ((id, before) ∷ others) =
    (before ≡ joined_group earlier id) × AreViews earlier others

pub emit_others-IsCurrent :
    (side : Option Side) (r : Replica) (c : StateCache) (earlier : Inner)
    (others : HashMap GroupId (Option Group))
    → AreViews earlier others
    → IsIndexed c.inner
    → IsStale side r c earlier (HashMap.keys others)
    → IsCurrent side r (emit_others c others)
unfolding emit_others
emit_others-IsCurrent side r c earlier [] a v s = IsStale-nil side r c earlier s
emit_others-IsCurrent side r c earlier ((id, before) ∷ others) a v s = rw a.0 (
    emit_others-IsCurrent side r (emit_if_changed c id (joined_group earlier id)) earlier others a.1
      (told-IsIndexed side r c earlier v id (HashMap.keys others))
      (emit-IsStale side r c earlier v id (HashMap.keys others) s))
