-- ===== src/Tests/Entities.antt =====
-- Concrete entities, and an instance of each result on them.
use memory_os.Base.{
  ℕ, ◌≡◌, ◌≢◌, ◌↔◌, refl, String, Option, none, some, [], ◌∷◌, arith, Result, ok, raise,
  value_error, runtime_error,
}
use memory_os.Entities.{follow_redirect, new_entity, merge}
use memory_os.Store.{get_entity}
use memory_os.Domain.{
  TruthState, CompressionPolicy, TokenCounterKind, BudgetProfile, QueryIntent, is_exact,
}
use memory_os.Entities.Redirects.{Resolves, follow_redirect_terminates, follow_redirect_iff}
use memory_os.Entities.Merge.{merge-follow_redirect, merge-cycle}
use memory_os.Domain
use memory_os.Store.{Db, EntityRow, get_entity}
use memory_os.Claims.Canonical.{plain_texts}
use memory_os.Tests.{empty, program}

-- Two names of one database, the second merged into the first or the other way round.
abbrev named : ℕ → String → Option ℕ → EntityRow
named id name redirect =
    record (new_entity plain_texts id Domain.ScopeType.repository "repo" Domain.EntityType.database
      name name [] none) { redirect_to_id = redirect }

abbrev people : Db
people = record empty { entities = named 1 "postgresql" none ∷ named 2 "pg" none ∷ []; next_id = 3 }

abbrev merged : Result (Db × EntityRow)
merged = merge plain_texts people 2 1 "owner"

abbrev merged_db : Result (Db × EntityRow) → Db
merged_db (ok r) = r.0
merged_db (raise e) = people

abbrev merged_row : Result (Db × EntityRow) → EntityRow
merged_row (ok r) = r.1
merged_row (raise e) = named 0 "" none

follow_redirect_terminates_example :
    follow_redirect (merged_db merged) (named 2 "pg" (some 1)) ≢ raise runtime_error
follow_redirect_terminates_example =
    follow_redirect_terminates (merged_db merged) (named 2 "pg" (some 1))

follow_redirect_iff_example :
    (follow_redirect (merged_db merged) (named 2 "pg" (some 1)) ≡ ok (merged_row merged))
    ↔ ((n : ℕ) × Resolves (merged_db merged) n (named 2 "pg" (some 1)) (merged_row merged))
unfolding program
follow_redirect_iff_example =
    follow_redirect_iff (merged_db merged) (named 2 "pg" (some 1)) (merged_row merged) refl

merge-follow_redirect_example :
    (source : EntityRow) × (get_entity (merged_db merged) 2 ≡ some source)
    × (follow_redirect (merged_db merged) source ≡ ok (merged_row merged))
unfolding program
merge-follow_redirect_example =
    merge-follow_redirect plain_texts people 2 1 "owner" (omega arith) refl refl refl

abbrev merged_back : Result (Db × EntityRow)
merged_back = merge plain_texts (merged_db merged) 1 2 "owner"

merge-cycle_example :
    (source : EntityRow) × (get_entity (merged_db merged_back) 1 ≡ some source)
    × (follow_redirect (merged_db merged_back) source ≡ raise value_error)
unfolding program
merge-cycle_example =
    merge-cycle plain_texts (merged_db merged) 1 2 "owner" (omega arith) refl refl refl
