-- ===== src/Tests/Health.antt =====
-- Concrete archives, and an instance of each result on them.
use memory_os.Base.{
  ◌≡◌, refl, true, ◌&&◌, [], ◌∷◌, any, All, ◌==◌, arith, Result, raise, invalid_transition,
}
use memory_os.Base.{any}
use memory_os.Engine.Calls.{run}
use memory_os.Health.{version_is_current, supports, archive, restore, evaluate}
use memory_os.Domain.{
  TruthState, CompressionPolicy, TokenCounterKind, BudgetProfile, QueryIntent, is_exact,
}
use memory_os.Health.{new_health, is_accepted_version, Math}
use memory_os.Health.Archive.{archive-supports}
use memory_os.Health.Events.{
  HasOrderedEvents, archive_call, restore_call, evaluate_call, health_run,
  health_run-HasOrderedEvents,
}
use memory_os.Health.Restore.{temperature_in, restore-archive, restore-evaluate}
use memory_os.Domain
use memory_os.Store.{Db}
use memory_os.Engine.Calls.{propose_call, run}
use memory_os.Tests.{empty, engine, payload, two, program, after}

-- The first memory in the archive needs another support for its claim.
archive_sole_support : archive 30 two 1 "owner" ≡ raise invalid_transition
unfolding program
archive_sole_support = refl

-- A second active memory with the same claim, and the first memory's health.
abbrev supported : Db
supported =
    record (run engine
      ((10, "owner", propose_call (payload "tabs" "tabs" true))
        ∷ (20, "owner", propose_call (payload "also tabs" "tabs" true))
        ∷ [])
      empty) {
        health = record (new_health 1 20) { temperature = Domain.MemoryTemperature.hot } ∷ [];
      }

abbrev archived_first : Result Db
archived_first = archive 30 supported 1 "owner"

archive-supports_example :
    All
      (λ v.
        (v.memory_id == 1 && is_accepted_version v && version_is_current v 30) ≡ true
        → any (supports (after archived_first) 30 v.identity_id) (after archived_first).versions
          ≡ true)
      supported.versions
unfolding program
archive-supports_example = archive-supports 30 supported 1 "owner" refl

restore-archive_example :
    temperature_in (after (restore 40 (after archived_first) 1 "owner")) 1
    ≡ temperature_in supported 1
unfolding program
restore-archive_example = restore-archive 30 40 supported 1 "owner" "owner" refl refl refl

abbrev steady : Math
steady = record { decay = λ age. 900_000; saturation = λ count. 100_000 }

abbrev restored_late : Result Db
restored_late = restore 50 (evaluate steady 40 (after archived_first)) 1 "owner"

restore-evaluate_example : temperature_in (after restored_late) 1 ≡ Domain.MemoryTemperature.cold
unfolding program
restore-evaluate_example = restore-evaluate steady 40 50 (after archived_first) 1 "owner" refl refl

supported-HasOrderedEvents : HasOrderedEvents supported
unfolding program
supported-HasOrderedEvents id = ground arith

-- The second call reads a clock that has gone back.
health_run-HasOrderedEvents_example : HasOrderedEvents (
    health_run steady
      (archive_call 30 1 "owner" ∷ restore_call 25 1 "owner" ∷ evaluate_call 40 ∷ [])
      supported)
health_run-HasOrderedEvents_example =
    health_run-HasOrderedEvents steady
      (archive_call 30 1 "owner" ∷ restore_call 25 1 "owner" ∷ evaluate_call 40 ∷ []) supported
      supported-HasOrderedEvents
