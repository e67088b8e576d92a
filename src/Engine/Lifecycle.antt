-- ===== src/Engine/Lifecycle.antt =====
-- engine/service.py: the life of a memory, from status to status.
pub mod Keys
pub mod Conflicts
pub mod Writes
pub mod Runs
use memory_os.Base.{Bool, true, false, ◌≡◌, arith}
use memory_os.Domain.{MemoryStatus, is_candidate, is_active, is_terminal}

-- The statuses that a memory may have after it has had a given one.
unfoldable pub can_become : MemoryStatus → MemoryStatus → Bool
can_become MemoryStatus.candidate _ = true
can_become MemoryStatus.active MemoryStatus.active = true
can_become MemoryStatus.active MemoryStatus.superseded = true
can_become MemoryStatus.active MemoryStatus.expired = true
can_become MemoryStatus.active MemoryStatus.forgotten = true
can_become MemoryStatus.superseded MemoryStatus.superseded = true
can_become MemoryStatus.superseded MemoryStatus.forgotten = true
can_become MemoryStatus.expired MemoryStatus.expired = true
can_become MemoryStatus.expired MemoryStatus.forgotten = true
can_become MemoryStatus.rejected MemoryStatus.rejected = true
can_become MemoryStatus.forgotten MemoryStatus.forgotten = true
can_become _ _ = false

pub can_become_refl : (s : MemoryStatus) → can_become s s ≡ true
unfolding can_become
can_become_refl s = ground arith

pub can_become_trans :
    (r s t : MemoryStatus) → can_become r s ≡ true → can_become s t ≡ true → can_become r t ≡ true
unfolding can_become
can_become_trans r s t h k = ground arith

-- What a loop of one call may still move, with the rows that it has moved before.
abbrev pub can_lapse : MemoryStatus → Bool
can_lapse MemoryStatus.candidate = true
can_lapse MemoryStatus.active = true
can_lapse MemoryStatus.expired = true
can_lapse _ = false

abbrev pub can_yield : MemoryStatus → Bool
can_yield MemoryStatus.active = true
can_yield MemoryStatus.superseded = true
can_yield _ = false

pub candidate-can_become : (s t : MemoryStatus) → is_candidate s ≡ true → can_become s t ≡ true
unfolding can_become
candidate-can_become s t h = ground arith

pub lapse-can_become :
    (s : MemoryStatus) → can_lapse s ≡ true → can_become s MemoryStatus.expired ≡ true
unfolding can_become
lapse-can_become s h = ground arith

pub yield-can_become :
    (s : MemoryStatus) → can_yield s ≡ true → can_become s MemoryStatus.superseded ≡ true
unfolding can_become
yield-can_become s h = ground arith

pub forget-can_become :
    (s : MemoryStatus) → is_terminal s ≡ false → can_become s MemoryStatus.forgotten ≡ true
unfolding can_become
forget-can_become s h = ground arith
