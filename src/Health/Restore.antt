-- ===== src/Health/Restore.antt =====
-- health/service.py: what `restore` gives back, after `archive` and after `evaluate`.
use memory_os.Base.{
  ℕ, String, false, Option, none, some, List, [], ◌∷◌, ◌≡◌, ◌≢◌, refl, sym, ap, subst, ◌∙◌, ◌==◌,
  ==_iff, or_default, Bool-cases, inl, inr, arith, ok, expect, expect-eq-ok, not_found, >>=-eq-ok,
  ok-injective, row_at, row_at-update_at, row_at-update_at_other, find,
}
use memory_os.Domain.{MemoryTemperature, is_archived}
use memory_os.Store.{Db, MemoryRow, MemoryHealthRow, get_memory, get_health, update_health}
use memory_os.Claims.Truth.Services.{audit_event}
use memory_os.Health.{
  ensure_health, next_archive_event_moment, archived, archive, restored, restore, Math, evaluate,
  evaluate_rows, evaluated, health_score,
}
use memory_os.Health.Archive.{
  ensured, get_health-archive, row_at-ensure_health, row_at-ensure_health_other,
}

-- The row after a restore that returned.
get_health-restore :
    (now : ℕ) (db : Db) (id : ℕ) (actor : String) {db' : Db}
    → restore now db id actor ≡ ok db'
    → (health : MemoryHealthRow) × (get_health db id ≡ some health)
      × (get_health db' id ≡ some (restored (next_archive_event_moment db now id) health))
unfolding restore get_health update_health audit_event
get_health-restore now db id actor h =
    let (memory, found, h1) = >>=-eq-ok (expect (get_memory db id) not_found) _ h in
    let (health, at, h2) = >>=-eq-ok (expect (get_health db id) not_found) _ h1 in
    let stored = expect-eq-ok (get_health db id) not_found at in
    (
      health,
      stored,
      ap (λ d. get_health d id) (sym (ok-injective h2))
          ∙ row_at-update_at (λ row. row.memory_id) (restored (next_archive_event_moment db now id))
              (λ row. refl) id db.health stored,
    )

-- The temperature of a memory, warm for one that was never evaluated.
abbrev pub heat : Option MemoryHealthRow → MemoryTemperature
heat none = MemoryTemperature.warm
heat (some health) = health.temperature

abbrev pub temperature_in : Db → ℕ → MemoryTemperature
temperature_in db id = heat (get_health db id)

pre_archive_of_ensured :
    (id now moment : ℕ) (o : Option MemoryHealthRow)
    → is_archived (heat o) ≡ false
    → (restored now (archived moment (ensured id moment o))).temperature ≡ heat o
pre_archive_of_ensured id now moment none h = refl
pre_archive_of_ensured id now moment (some row) h = rw h refl

-- If a memory that is not in the archive is archived and then restored, both with success, it has
-- the temperature that it had before.
pub restore-archive :
    (now now' : ℕ) (db : Db) (id : ℕ) (actor actor' : String) {db' db'' : Db}
    → is_archived (temperature_in db id) ≡ false
    → archive now db id actor ≡ ok db'
    → restore now' db' id actor' ≡ ok db''
    → temperature_in db'' id ≡ temperature_in db id
restore-archive now now' db id actor actor' {db'} {db''} fresh a r =
    let (health, at, after) = get_health-restore now' db' id actor' r in
    let moment = next_archive_event_moment db now id in
    let moment' = next_archive_event_moment db' now' id in
    let row : some health ≡ some (archived moment (ensured id moment (get_health db id))) =
      sym at ∙ get_health-archive now db id actor a in
    let same : health ≡ archived moment (ensured id moment (get_health db id)) = cc row in
    ap heat after
    ∙ ap (λ h. (restored moment' h).temperature) same
    ∙ pre_archive_of_ensured id moment' moment (get_health db id) fresh

-- The health row of a memory has no stored temperature.
abbrev Cleared : ℕ → List MemoryHealthRow → Type 0
Cleared id rows =
    (health : MemoryHealthRow) × (row_at (λ row. row.memory_id) id rows ≡ some health)
    × (health.pre_archive_temperature ≡ none)

module _ (m : Math) (now : ℕ) (db : Db) (id : ℕ) where
  evaluated_row : MemoryRow → List MemoryHealthRow → List MemoryHealthRow
  evaluated_row memory rows =
      update_health memory.id (λ health. evaluated now (health_score m db now memory health) health)
        (ensure_health memory.id now rows)

  Cleared-here :
      (memory : MemoryRow) (rows : List MemoryHealthRow)
      → memory.id ≡ id
      → Cleared id (evaluated_row memory rows)
  unfolding evaluated_row update_health
  Cleared-here memory rows here =
      let f : MemoryHealthRow → MemoryHealthRow =
        λ health. evaluated now (health_score m db now memory health) health in
      subst (λ i. Cleared i (evaluated_row memory rows)) here
        (
          f (ensured memory.id now (row_at (λ row. row.memory_id) memory.id rows)),
          row_at-update_at (λ row. row.memory_id) f (λ row. refl) memory.id _
              (row_at-ensure_health memory.id now rows),
          refl,
        )

  Cleared-there :
      (memory : MemoryRow) (rows : List MemoryHealthRow)
      → Cleared id rows
      → Cleared id (evaluated_row memory rows)
  unfolding evaluated_row update_health
  Cleared-there memory rows (health, at, clear) = elim (Bool-cases (memory.id == id)) [
    | inl e ↦ Cleared-here memory rows ((==_iff memory.id id).0 e)
    | inr e ↦
        let apart : memory.id ≢ id = ground (arith, e) in
        (
          health,
          row_at-update_at_other (λ row. row.memory_id)
                (λ health. evaluated now (health_score m db now memory health) health) (λ row. refl)
                memory.id id _ apart
              ∙ row_at-ensure_health_other memory.id now id rows apart
              ∙ at,
          clear,
        )
  ]

  Cleared-kept :
      (memories : List MemoryRow) (rows : List MemoryHealthRow)
      → Cleared id rows
      → Cleared id (evaluate_rows m now db memories rows)
  unfolding evaluate_rows evaluated_row
  Cleared-kept [] rows h = h
  Cleared-kept (memory ∷ rest) rows h = Cleared-kept rest _ (Cleared-there memory rows h)

  Cleared-evaluate_rows :
      (memories : List MemoryRow) (rows : List MemoryHealthRow) {memory : MemoryRow}
      → row_at (λ row. row.id) id memories ≡ some memory
      → Cleared id (evaluate_rows m now db memories rows)
  unfolding evaluate_rows evaluated_row find
  Cleared-evaluate_rows [] rows h = cc
  Cleared-evaluate_rows (x ∷ rest) rows {memory} h = elim (Bool-cases (x.id == id)) [
    | inl e ↦ Cleared-kept rest _ (Cleared-here x rows ((==_iff x.id id).0 e))
    | inr e ↦
        let later : row_at (λ row. row.id) id rest ≡ some memory = rw (e, find) at h in
        Cleared-evaluate_rows rest _ later
  ]

-- A restore of a stored memory that returns right after an evaluation leaves the memory cold,
-- whatever its temperature was before it was archived.
pub restore-evaluate :
    (m : Math) (now now' : ℕ) (db : Db) (id : ℕ) (actor : String) {memory : MemoryRow} {db' : Db}
    → get_memory db id ≡ some memory
    → restore now' (evaluate m now db) id actor ≡ ok db'
    → temperature_in db' id ≡ MemoryTemperature.cold
unfolding evaluate get_memory get_health
restore-evaluate m now now' db id actor {memory} {db'} stored r =
    let (health, at, after) = get_health-restore now' (evaluate m now db) id actor r in
    let (row, found, clear) = Cleared-evaluate_rows m now db id db.memories db.health stored in
    let same : row ≡ health = cc (at, found) in
    ap heat after
    ∙ ap (λ o. or_default o MemoryTemperature.cold)
        (ap (λ h. h.pre_archive_temperature) (sym same) ∙ clear)
