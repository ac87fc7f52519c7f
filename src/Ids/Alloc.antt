-- ===== src/Ids/Alloc.antt =====
-- `CommandIdAllocator`: the ids that it hands out.
use minerva_server.Prelude.{ℕ, zero, suc, ◌+◌, ◌%◌, ◌^◌, ◌<◌, ◌≡◌, ◌≢◌, ap, arith}
use minerva_server.Ids.{CommandId, CommandIdAllocator, next}

-- The allocator after `n` allocations.
unfoldable pub after : ℕ → CommandIdAllocator → CommandIdAllocator
after zero a = a
after (suc n) a = after n (next a).1

-- The id that the allocation after `n` others returns.
unfoldable pub nth : ℕ → CommandIdAllocator → CommandId
unfolding after
nth n a = (next (after n a)).0

after_counter :
    (n : ℕ) (a : CommandIdAllocator)
    → a.counter < 2 ^ 64
    → (after n a).counter ≡ (a.counter + n) % 2 ^ 64
unfolding after next
after_counter zero a h = omega arith
after_counter (suc n) a h =
    omega (arith, after_counter n (record { counter = (a.counter + 1) % 2 ^ 64 }) (omega arith))

-- If the counter is below 2 ^ 64, then the ids of two allocations that are at least one and fewer
-- than 2 ^ 64 apart differ, the counter's wrap included.
pub nth-distinct :
    (a : CommandIdAllocator) (m d : ℕ)
    → a.counter < 2 ^ 64
    → 0 < d
    → d < 2 ^ 64
    → nth m a ≢ nth (m + d) a
unfolding nth next
nth-distinct a m d h p q e =
    omega (arith, ap (λ (i : CommandId). i.value) e, after_counter m a h, after_counter (m + d) a h)
