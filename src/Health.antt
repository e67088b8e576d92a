-- ===== src/Health.antt =====
-- health/service.py: `MemoryHealthService`. Scores and components are in millionths.
pub mod Archive
pub mod Events
pub mod Restore
use memory_os.Base.{
  ℕ, suc, ◌+◌, ◌-◌, ◌*◌, ◌/◌, ◌%◌, min, max, String, Bool, true, false, ◌&&◌, ◌||◌, not, Option,
  none, some, List, [], ◌∷◌, any, all, keep, map, length, is_none, leb, ltb, ◌==◌, or_default,
  if◌then◌else◌, Result, ok, raise, expect, require, not_found, invalid_transition, ◌>>=◌, ◌>>◌,
  distinct_ids,
}
use memory_os.Domain.{
  FeedbackValue, MemoryTemperature, is_accepted, is_active, is_archived, is_fresh_state, is_helpful,
  is_stale, is_suspect_state, is_unhelpful,
}
use memory_os.Temporal.{within}
use memory_os.Store.{
  Db, MemoryRow, ClaimRow, ClaimVersionRow, MemoryHealthRow, AuditEventRow, Action, get_memory,
  get_health, update_health,
}
use memory_os.Claims.Truth.Services.{claims_of, audit_event}
use memory_os.Claims.Truth.Ensure.{seconds}

-- The row of a memory that has none yet.
abbrev pub new_health : ℕ → ℕ → MemoryHealthRow
new_health memory_id now = record {
  memory_id = memory_id;
  temperature = MemoryTemperature.warm;
  pre_archive_temperature = none;
  health_score = 500_000;
  retrieval_count = 0;
  last_retrieved_at = none;
  archived_at = none;
  evaluated_at = now;
}

-- `if health is None: session.add(...)`
unfoldable pub ensure_health : ℕ → ℕ → List MemoryHealthRow → List MemoryHealthRow
ensure_health memory_id now rows =
    if any (λ row. row.memory_id == memory_id) rows then rows else new_health memory_id now ∷ rows

unfoldable pub version_is_current : ClaimVersionRow → ℕ → Bool
version_is_current version moment =
    not (is_stale version.stale_state) && within version.valid_from version.valid_to moment

unfoldable pub memory_is_current : MemoryRow → ℕ → Bool
memory_is_current memory moment =
    within memory.valid_from memory.valid_to moment && (elim memory.ttl_seconds [
      | none ↦ true
      | some ttl ↦ ltb moment (memory.created_at + seconds ttl)
    ])

-- An open version with status ACCEPTED.
abbrev pub is_accepted_version : ClaimVersionRow → Bool
is_accepted_version version = is_none version.transaction_to && is_accepted version.status

abbrev pub is_unarchived : Option MemoryHealthRow → Bool
is_unarchived none = true
is_unarchived (some health) = not (is_archived health.temperature)

-- An accepted version of the identity that can be used now, of an active memory not in the archive.
unfoldable pub supports : Db → ℕ → ℕ → ClaimVersionRow → Bool
unfolding version_is_current memory_is_current
supports db now identity_id version =
    version.identity_id == identity_id
    && is_accepted_version version
    && is_unarchived (get_health db version.memory_id)
    && version_is_current version now
    && (elim (get_memory db version.memory_id) [
      | none ↦ false
      | some memory ↦ is_active memory.status && memory_is_current memory now
    ])

-- The loop of `_assert_truth_safe`: each current accepted version has an alternative.
unfoldable pub is_truth_safe : Db → ℕ → ℕ → Bool
unfolding supports
is_truth_safe db now memory_id =
    all
      (λ version.
        any
          (λ other. not (other.memory_id == memory_id) && supports db now version.identity_id other)
          db.versions)
      (keep
        (λ version.
          version.memory_id == memory_id
          && is_accepted_version version
          && version_is_current version now)
        db.versions)

abbrev pub is_archive_event : ℕ → AuditEventRow → Bool
is_archive_event memory_id event = event.entity_id == memory_id && (elim event.action [
  | Action.health_archive ↦ true
  | Action.health_restore ↦ true
  | _ ↦ false
])

-- `select(func.max(AuditEventRow.timestamp))`
unfoldable pub latest : List AuditEventRow → Option ℕ
latest [] = none
latest (event ∷ rest) = elim (latest rest) [
  | none ↦ some event.timestamp
  | some last ↦ some (max event.timestamp last)
]

unfoldable pub next_archive_event_moment : Db → ℕ → ℕ → ℕ
unfolding latest
next_archive_event_moment db now memory_id =
    elim (latest (keep (is_archive_event memory_id) db.audit)) [
      | none ↦ now
      | some last ↦ if leb now last then last + 1 else now
    ]

-- The assignments of `archive`.
abbrev pub archived : ℕ → MemoryHealthRow → MemoryHealthRow
archived moment health = record health {
  temperature = MemoryTemperature.archived;
  pre_archive_temperature =
      if is_archived health.temperature
      then health.pre_archive_temperature
      else some health.temperature;
  archived_at = some moment;
  evaluated_at = moment;
}

unfoldable pub archive : ℕ → Db → ℕ → String → Result Db
unfolding is_truth_safe next_archive_event_moment ensure_health
archive now db memory_id actor = do
  memory ← expect (get_memory db memory_id) not_found
  require (is_truth_safe db now memory_id) invalid_transition
  let moment = next_archive_event_moment db now memory_id
  let rows = update_health memory_id (archived moment) (ensure_health memory_id moment db.health)
  ok (audit_event Action.health_archive memory_id actor moment (record db { health = rows }))

-- The assignments of `restore`.
abbrev pub restored : ℕ → MemoryHealthRow → MemoryHealthRow
restored moment health = record health {
  temperature = or_default health.pre_archive_temperature MemoryTemperature.cold;
  archived_at = none;
  evaluated_at = moment;
}

unfoldable pub restore : ℕ → Db → ℕ → String → Result Db
unfolding next_archive_event_moment
restore now db memory_id actor = do
  memory ← expect (get_memory db memory_id) not_found
  health ← expect (get_health db memory_id) not_found
  let moment = next_archive_event_moment db now memory_id
  let rows = update_health memory_id (restored moment) db.health
  ok (audit_event Action.health_restore memory_id actor moment (record db { health = rows }))

-- The assignments of `record_retrieval`.
abbrev pub retrieved : ℕ → MemoryHealthRow → MemoryHealthRow
retrieved now health = record health {
  retrieval_count = health.retrieval_count + 1;
  last_retrieved_at = some now;
  temperature =
      if is_archived health.temperature then health.temperature else MemoryTemperature.hot;
}

unfoldable pub record_ids : ℕ → List ℕ → List MemoryHealthRow → List MemoryHealthRow
unfolding ensure_health
record_ids now [] rows = rows
record_ids now (id ∷ ids) rows =
    record_ids now ids (update_health id (retrieved now) (ensure_health id now rows))

unfoldable pub record_retrieval : ℕ → List ℕ → Db → Db
unfolding record_ids
record_retrieval now memory_ids db = record db {
  health = record_ids now (distinct_ids memory_ids) db.health;
}

-- `math.exp(-age / 90 days)` of an age in microseconds and `log1p(count) / log(21)`, each rounded to
-- millionths.
pub record Math : Type 0 where
  pub decay : ℕ → ℕ
  pub saturation : ℕ → ℕ

unfoldable pub freshness_component : List ClaimRow → ℕ
freshness_component claims =
    if any (λ c. is_stale c.stale_state) claims
    then 0
    else if any (λ c. is_suspect_state c.stale_state) claims
    then 300_000
    else if any (λ c. is_fresh_state c.stale_state) claims
    then 1_000_000
    else 550_000

-- `round(n / d, 6)` of millionths: the nearest number, and the even one of two. The quotients are
-- exact here, where the code has floating-point numbers.
unfoldable pub nearest : ℕ → ℕ → ℕ
nearest n d =
    let quotient = n / d in
    let rest = n % d in
    if ltb (2 * rest) d || (2 * rest == d && quotient % 2 == 0) then quotient else quotient + 1

-- The weighted components, each rounded, to the nearest millionth.
unfoldable pub health_score : Math → Db → ℕ → MemoryRow → MemoryHealthRow → ℕ
unfolding freshness_component nearest
health_score m db now memory health =
    let count = λ (p : FeedbackValue → Bool).
      length (keep (λ row. row.memory_id == memory.id && p row.helpful) db.feedback) in
    let helpful = count is_helpful in
    let unhelpful = count is_unhelpful in
    let recency = m.decay (now - memory.updated_at) in
    let usage = min 1_000_000 (m.saturation health.retrieval_count) in
    let feedback = nearest ((helpful + 1) * 1_000_000) (helpful + unhelpful + 2) in
    let freshness = freshness_component (claims_of db memory.id) in
    let sum =
      recency * 25
      + usage * 20
      + feedback * 20
      + freshness * 15
      + memory.importance * 10
      + memory.confidence * 10 in
    nearest sum 100

abbrev pub is_recent : ℕ → Option ℕ → Bool
is_recent now none = false
is_recent now (some last) = leb ((now - last) / 86_400_000_000) 7

-- The temperature of a memory that is not archived.
unfoldable pub temperature_of : ℕ → ℕ → Option ℕ → MemoryTemperature
temperature_of score now last =
    if leb 750_000 score || is_recent now last
    then MemoryTemperature.hot
    else if leb 450_000 score
    then MemoryTemperature.warm
    else MemoryTemperature.cold

-- The assignments of `evaluate`; the new components replace what `archive` stored among them.
abbrev pub evaluated : ℕ → ℕ → MemoryHealthRow → MemoryHealthRow
evaluated now score health = record health {
  temperature =
      if is_archived health.temperature
      then health.temperature
      else temperature_of score now health.last_retrieved_at;
  pre_archive_temperature = none;
  health_score = score;
  evaluated_at = now;
}

unfoldable pub evaluate_rows :
    Math → ℕ → Db → List MemoryRow → List MemoryHealthRow → List MemoryHealthRow
unfolding ensure_health health_score temperature_of
evaluate_rows m now db [] rows = rows
evaluate_rows m now db (memory ∷ rest) rows = evaluate_rows m now db rest (
    update_health memory.id (λ health. evaluated now (health_score m db now memory health) health)
      (ensure_health memory.id now rows))

unfoldable pub evaluate : Math → ℕ → Db → Db
unfolding evaluate_rows
evaluate m now db = record db { health = evaluate_rows m now db db.memories db.health }
