-- ===== src/Health/Events.antt =====
-- health/service.py: the order of the archive and restore events of a memory.
use memory_os.Base.{
  ℕ, ◌+◌, ◌≤◌, ◌<◌, max, String, Option, none, some, List, [], ◌∷◌, ◌≡◌, refl, sym, subst, keep,
  leb, ==_iff, if◌then◌else◌, All, All-map, Bool-cases, inl, inr, arith, Result, ok, raise, Returns,
  Returns-after, expect, require, not_found, invalid_transition,
}
use memory_os.Store.{Db, AuditEventRow, Action, get_memory, get_health}
use memory_os.Claims.Truth.Services.{audit_event}
use memory_os.Health.{
  Math, is_truth_safe, latest, is_archive_event, next_archive_event_moment, archive, restore,
  record_retrieval, evaluate,
}

-- A moment at or after which no event of the list happened.
abbrev UpTo : Option ℕ → List AuditEventRow → Type 0
UpTo none events = events ≡ []
UpTo (some last) events = All (λ e. e.timestamp ≤ last) events

latest-UpTo : (events : List AuditEventRow) → UpTo (latest events) events
unfolding latest
latest-UpTo [] = refl
latest-UpTo (event ∷ rest) = go (latest rest) (latest-UpTo rest)
  where
    go :
        (o : Option ℕ)
        → UpTo o rest
        → UpTo
            (elim o [ none ↦ some event.timestamp | some last ↦ some (max event.timestamp last) ])
            (event ∷ rest)
    go none h = (omega arith, subst (All (λ e. e.timestamp ≤ event.timestamp)) (sym h) tt)
    go (some last) h = (omega arith, All-map _ _ (λ e k. omega (arith, k)) rest h)

next_archive_event_moment-later :
    (db : Db) (now id : ℕ)
    → All
        (λ e. e.timestamp < next_archive_event_moment db now id)
        (keep (is_archive_event id) db.audit)
unfolding next_archive_event_moment
next_archive_event_moment-later db now id = go (latest events) (latest-UpTo events)
  where
    events : List AuditEventRow
    events = keep (is_archive_event id) db.audit

    go :
        (o : Option ℕ)
        → UpTo o events
        → All
            (λ e.
              e.timestamp
              < (elim o [ none ↦ now | some last ↦ if leb now last then last + 1 else now ]))
            events
    go none h = subst (All (λ e. e.timestamp < now)) (sym h) tt
    go (some last) h = All-map _ _ (λ e k. ground (arith, k)) events h

-- Newest first, each event later than those before it.
abbrev pub IsDecreasing : List AuditEventRow → Type 0
IsDecreasing [] = Unit
IsDecreasing (e ∷ rest) = All (λ x. x.timestamp < e.timestamp) rest × IsDecreasing rest

-- The archive and restore events of every memory are in order.
abbrev pub HasOrderedEvents : Db → Type 0
HasOrderedEvents db = (id : ℕ) → IsDecreasing (keep (is_archive_event id) db.audit)

-- A call of the health service, at its time.
pub data HealthCall : Type 0 where
  archive_call restore_call : ℕ → ℕ → String → HealthCall
  retrieval_call : ℕ → List ℕ → HealthCall
  evaluate_call : ℕ → HealthCall

-- A session that returned, or was rolled back.
abbrev committed : Db → Result Db → Db
committed db (ok d) = d
committed db (raise e) = db

unfoldable pub health_step : Math → HealthCall → Db → Db
unfolding archive restore record_retrieval evaluate
health_step m (archive_call now id actor) db = committed db (archive now db id actor)
health_step m (restore_call now id actor) db = committed db (restore now db id actor)
health_step m (retrieval_call now ids) db = record_retrieval now ids db
health_step m (evaluate_call now) db = evaluate m now db

unfoldable pub health_run : Math → List HealthCall → Db → Db
unfolding health_step
health_run m [] db = db
health_run m (call ∷ calls) db = health_run m calls (health_step m call db)

module _ (db : Db) (now id : ℕ) (actor : String) where
  -- An event stamped with the moment for its memory.
  stamped :
      (action : Action) (db1 : Db)
      → db1.audit ≡ db.audit
      → HasOrderedEvents db
      → HasOrderedEvents (audit_event action id actor (next_archive_event_moment db now id) db1)
  unfolding audit_event keep
  stamped action db1 same w other =
      let event : AuditEventRow = record {
        action = action;
        entity_id = id;
        actor = actor;
        timestamp = next_archive_event_moment db now id;
      } in
      subst (λ rows. IsDecreasing (keep (is_archive_event other) (event ∷ rows))) (sym same)
        (elim (Bool-cases (is_archive_event other event)) [
          | inl e ↦
              let mine : id ≡ other = (==_iff id other).0 (ground (arith, e)) in
              let later =
                subst
                  (λ i.
                    All (λ (x : AuditEventRow). x.timestamp < next_archive_event_moment db now id)
                      (keep (is_archive_event i) db.audit))
                  mine (next_archive_event_moment-later db now id) in
              rw e (later, w other)
          | inr e ↦ rw e (w other)
        ])

  archive-HasOrderedEvents :
      HasOrderedEvents db → Returns HasOrderedEvents (archive now db id actor)
  unfolding archive
  archive-HasOrderedEvents w =
      Returns-after HasOrderedEvents (expect (get_memory db id) not_found) _ (λ m _.
        Returns-after HasOrderedEvents (require (is_truth_safe db now id) invalid_transition) _
          (λ _ _. stamped Action.health_archive _ refl w))

  restore-HasOrderedEvents :
      HasOrderedEvents db → Returns HasOrderedEvents (restore now db id actor)
  unfolding restore
  restore-HasOrderedEvents w =
      Returns-after HasOrderedEvents (expect (get_memory db id) not_found) _ (λ m _.
        Returns-after HasOrderedEvents (expect (get_health db id) not_found) _
          (λ h _. stamped Action.health_restore _ refl w))

committed-HasOrderedEvents :
    (db : Db) (r : Result Db)
    → HasOrderedEvents db
    → Returns HasOrderedEvents r
    → HasOrderedEvents (committed db r)
committed-HasOrderedEvents db (ok d) w h = h
committed-HasOrderedEvents db (raise e) w h = w

health_step-HasOrderedEvents :
    (m : Math) (call : HealthCall) (db : Db)
    → HasOrderedEvents db
    → HasOrderedEvents (health_step m call db)
unfolding health_step record_retrieval evaluate
health_step-HasOrderedEvents m (archive_call now id actor) db w =
    committed-HasOrderedEvents db (archive now db id actor) w
      (archive-HasOrderedEvents db now id actor w)
health_step-HasOrderedEvents m (restore_call now id actor) db w =
    committed-HasOrderedEvents db (restore now db id actor) w
      (restore-HasOrderedEvents db now id actor w)
health_step-HasOrderedEvents m (retrieval_call now ids) db w = w
health_step-HasOrderedEvents m (evaluate_call now) db w = w

-- If the archive and restore events that the audit holds of each memory have strictly increasing
-- times, they still have after any sequence of calls of the health service, whatever times the calls
-- read from the clock and whether they return or raise and are rolled back.
pub health_run-HasOrderedEvents :
    (m : Math) (calls : List HealthCall) (db : Db)
    → HasOrderedEvents db
    → HasOrderedEvents (health_run m calls db)
unfolding health_run
health_run-HasOrderedEvents m [] db w = w
health_run-HasOrderedEvents m (call ∷ calls) db w =
    health_run-HasOrderedEvents m calls _ (health_step-HasOrderedEvents m call db w)
