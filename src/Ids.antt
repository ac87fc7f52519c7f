-- ===== src/Ids.antt =====
-- ids.rs: the ids of units and groups, which are strings, and of commands in flight.
pub mod Alloc
use minerva_server.Std.Key.{
  Key, String_key, nat_key, String_discrete, newtype_discrete, newtype_key,
}
use minerva_server.Prelude.{ℕ, ◌+◌, ◌%◌, ◌^◌, ◌≡◌, ap, String, ℕ_discrete}

pub record UnitId : Type 0 where
  pub as_str : String

pub record GroupId : Type 0 where
  pub as_str : String

-- `UnitId::from` and `GroupId::from`.
abbrev pub unit_id : String → UnitId
unit_id s = record { as_str = s }

abbrev pub group_id : String → GroupId
group_id s = record { as_str = s }

pub UnitId_inj : (a b : UnitId) → a.as_str ≡ b.as_str → a ≡ b
UnitId_inj a b p = ap unit_id p

pub GroupId_inj : (a b : GroupId) → a.as_str ≡ b.as_str → a ≡ b
GroupId_inj a b p = ap group_id p

unfoldable pub UnitId_discrete : Discrete UnitId
unfolding newtype_discrete String_discrete
UnitId_discrete = newtype_discrete String_key (λ a. a.as_str) UnitId_inj

instance abbrev pub unit_id_key : Key UnitId
unit_id_key = newtype_key String_key (λ a. a.as_str) UnitId_inj UnitId_discrete

unfoldable pub GroupId_discrete : Discrete GroupId
unfolding newtype_discrete String_discrete
GroupId_discrete = newtype_discrete String_key (λ a. a.as_str) GroupId_inj

instance abbrev pub group_id_key : Key GroupId
group_id_key = newtype_key String_key (λ a. a.as_str) GroupId_inj GroupId_discrete

-- A `u64`; the field is below 2 ^ 64.
pub record CommandId : Type 0 where
  pub value : ℕ

-- `CommandId::from` and `u64::from`.
abbrev pub command_id : ℕ → CommandId
command_id n = record { value = n }

abbrev pub u64 : CommandId → ℕ
u64 id = id.value

pub CommandId_inj : (a b : CommandId) → a.value ≡ b.value → a ≡ b
CommandId_inj a b p = ap command_id p

unfoldable pub CommandId_discrete : Discrete CommandId
unfolding newtype_discrete ℕ_discrete
CommandId_discrete = newtype_discrete nat_key (λ a. a.value) CommandId_inj

instance abbrev pub command_id_key : Key CommandId
command_id_key = newtype_key nat_key (λ a. a.value) CommandId_inj CommandId_discrete

-- The `AtomicU64` of the allocator.
pub record CommandIdAllocator : Type 0 where
  pub counter : ℕ

-- `fetch_add(1)` returns the old value, and wraps.
unfoldable pub next : CommandIdAllocator → CommandId × CommandIdAllocator
next a = (record { value = a.counter }, record { counter = (a.counter + 1) % 2 ^ 64 })
