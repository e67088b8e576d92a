-- ===== src/Engine/Timelines.antt =====
-- engine/service.py: no call breaks the timelines of the claims.
use memory_os.Base.{
  ℕ, ◌+◌, String, not, Option, none, some, List, [], ◌∷◌, keep, is_none, is_empty, if◌then◌else◌,
  ok, expect, require, for_each, Returns, Returns-bind, Returns-after, Returns-for_each, Returns-if,
  not_found, invalid_transition, conflict_detected, value_error, ◌||◌,
}
use memory_os.Domain.{
  MemoryStatus, ConflictStrategy, is_candidate, is_reject, is_supersede, is_keep_both, is_terminal,
}
use memory_os.Store.{Db, MemoryRow, get_memory}
use memory_os.Claims.Truth.Services.{audit_event, text_or}
use memory_os.Claims.Truth.Keeps.{ensure_claims-keeps}
use memory_os.Claims.Truth.Keeps.Instances.{HasTimelines, HasTimelines-IsClosed}
use memory_os.Claims.Truth.Keeps.Operations.{
  reject_claims-keeps, forget_claims-keeps, expire_claims-keeps, activate_claims-keeps,
  reset_claims-keeps,
}
use memory_os.Engine.{
  Engine, with_status, set_memory, is_due, expiry_reason, expire_memory, expire_due,
}
use memory_os.Engine.Keeps.{
  session-keeps, find_conflicts-keeps, check_activation-keeps, resolve_possible_conflict-keeps,
}
use memory_os.Engine.Calls.{
  MemoryCreate, MemoryUpdate, Call, propose_call, update_call, confirm_call, reject_call,
  forget_call, get_call, resolve_call, validate_create, new_memory, propose, edited, changes_text,
  replace_source, update, supersede_memory, supersede_all, keep_memory, relate_memories,
  reject_candidate, activate, confirm, reject, forget, get, is_reversed, body, run,
}

abbrev P : Db → Type 0
P = HasTimelines

abbrev F {ℓ} : {A : Type ℓ} → Db × A → Type 0
F r = P r.0

module _ (e : Engine) (now : ℕ) where
  expire_memory-P :
      (db : Db) (memory : MemoryRow) → P db → Returns P (expire_memory e now db memory)
  unfolding expire_memory set_memory audit_event
  expire_memory-P db memory w =
      Returns-bind P P _ _
        (expire_claims-keeps P HasTimelines-IsClosed e.truth.texts now
          (set_memory memory.id (with_status MemoryStatus.expired) db) w memory.id
          (expiry_reason now memory) now)
        (λ d h. h)

  expire_due-P : (db : Db) → P db → Returns P (expire_due e now db)
  unfolding expire_due
  expire_due-P db w =
      Returns-for_each P (expire_memory e now) expire_memory-P (keep (is_due now) db.memories) db w

  propose-P :
      (payload : MemoryCreate) (actor : String) (db : Db)
      → P db
      → Returns (F {A = ℕ}) (propose e now payload actor db)
  unfolding propose audit_event
  propose-P payload actor db w = Returns-after (F {A = ℕ}) (validate_create payload) _ (λ p _.
      let memory = new_memory e now db.next_id p in
      let db1 = record db { memories = memory ∷ db.memories; next_id = db.next_id + 2 } in
      Returns-bind F (F {A = ℕ}) _ _
        (ensure_claims-keeps P HasTimelines-IsClosed e.truth now db1 memory
          (some p.claim_candidates) w)
        (λ r h.
          Returns-bind P (F {A = ℕ}) _ _
            (check_activation-keeps P HasTimelines-IsClosed e now memory r.0 h) (λ d k. k)))

  replace_source-P :
      (memory : MemoryRow) (db : Db) → P db → Returns P (replace_source e now memory db)
  unfolding replace_source set_memory
  replace_source-P memory db w =
      Returns-bind F P _ _ (reset_claims-keeps P HasTimelines-IsClosed e.truth now _ w _ none)
        (λ r h. h)

  update-P :
      (id : ℕ) (u : MemoryUpdate) (actor : String) (db : Db)
      → P db
      → Returns (F {A = ℕ}) (update e now id u actor db)
  unfolding update set_memory audit_event
  update-P id u actor db w =
      Returns-after (F {A = ℕ}) (expect (get_memory db id) not_found) _ (λ m _.
        Returns-after (F {A = ℕ}) (require (is_candidate m.status) invalid_transition) _ (λ _ _.
          let row = edited e u m in
          Returns-after (F {A = ℕ})
            (require (not (is_reversed row.valid_from row.valid_to)) value_error) _
            (λ _ _.
              let db1 = set_memory id (λ m. row) db in
              Returns-bind P (F {A = ℕ}) _ _
                (Returns-if P (changes_text u) (replace_source e now row db1) (ok db1)
                  (replace_source-P row db1 w) w)
                (λ d h. h))))

  relate_memories-P :
      (strategy : Option ConflictStrategy) (by : ℕ) (actor : String) (conflicts : List MemoryRow)
      (db : Db)
      → P db
      → Returns P (relate_memories now strategy by actor conflicts db)
  unfolding relate_memories set_memory audit_event
  relate_memories-P strategy by actor conflicts db w =
      let kept = for_each (keep_memory by) conflicts db in
      Returns-if P (is_supersede strategy) (supersede_all now by actor conflicts db)
        (if is_keep_both strategy then kept else ok db) (superseded conflicts)
        (Returns-if P (is_keep_both strategy) kept (ok db)
          (Returns-for_each P (keep_memory by) (λ d m h. unfold keep_memory in h) conflicts db w) w)
    where
      superseded : (rows : List MemoryRow) → Returns P (supersede_all now by actor rows db)
      superseded [] = w
      superseded (first ∷ rest) =
          Returns-for_each P (supersede_memory now by actor) (λ d m h. h) (first ∷ rest) _ w

  activate-P :
      (memory : MemoryRow) (strategy : Option ConflictStrategy) (conflicts : List MemoryRow)
      (actor : String) (rationale : Option String) (db : Db)
      → P db
      → Returns P (activate e now memory strategy conflicts actor rationale db)
  unfolding activate set_memory audit_event
  activate-P memory strategy conflicts actor rationale db w =
      Returns-bind P P _ _ (relate_memories-P strategy memory.id actor conflicts db w) (λ d h.
        Returns-bind P P _ _
          (activate_claims-keeps P HasTimelines-IsClosed e.truth now _ h _ strategy conflicts
            rationale actor)
          (λ d k. k))

  reject_candidate-P :
      (id : ℕ) (actor : String) (rationale : Option String) (db : Db)
      → P db
      → Returns P (reject_candidate e now id actor rationale db)
  unfolding reject_candidate set_memory audit_event
  reject_candidate-P id actor rationale db w =
      Returns-bind P P _ _
        (reject_claims-keeps P HasTimelines-IsClosed e.truth.texts now _ w id actor
          (text_or rationale "Rejected during conflict resolution"))
        (λ d h. h)

  confirm-P :
      (id : ℕ) (strategy : Option ConflictStrategy) (actor : String) (rationale : Option String)
      (db : Db)
      → P db
      → Returns (F {A = ℕ}) (confirm e now id strategy actor rationale db)
  unfolding confirm
  confirm-P id strategy actor rationale db w =
      Returns-bind P (F {A = ℕ}) _ _ (expire_due-P db w) (λ d h.
        Returns-after (F {A = ℕ}) (expect (get_memory d id) not_found) _ (λ m _.
          Returns-after (F {A = ℕ}) (require (is_candidate m.status) invalid_transition) _ (λ _ _.
            Returns-bind (F {A = List MemoryRow}) (F {A = ℕ}) _ _
              (find_conflicts-keeps P HasTimelines-IsClosed e now d m h)
              (λ r k.
                Returns-after (F {A = ℕ})
                  (require (is_empty r.1 || not (is_none strategy)) conflict_detected) _
                  (λ _ _.
                    Returns-bind P (F {A = ℕ}) _ _
                      (Returns-if P (is_reject strategy)
                        (reject_candidate e now id actor rationale r.0)
                        (activate e now m strategy r.1 actor rationale r.0)
                        (reject_candidate-P id actor rationale r.0 k)
                        (activate-P m strategy r.1 actor rationale r.0 k))
                      (λ d k. k))))))

  reject-P :
      (id : ℕ) (actor : String) (db : Db) → P db → Returns (F {A = ℕ}) (reject e now id actor db)
  unfolding reject set_memory audit_event
  reject-P id actor db w = Returns-after (F {A = ℕ}) (expect (get_memory db id) not_found) _ (λ m _.
      Returns-after (F {A = ℕ}) (require (is_candidate m.status) invalid_transition) _ (λ _ _.
        Returns-bind P (F {A = ℕ}) _ _
          (reject_claims-keeps P HasTimelines-IsClosed e.truth.texts now _ w id actor
            "Candidate rejected")
          (λ d h. h)))

  forget-P :
      (id : ℕ) (actor : String) (db : Db) → P db → Returns (F {A = ℕ}) (forget e now id actor db)
  unfolding forget set_memory audit_event
  forget-P id actor db w = Returns-after (F {A = ℕ}) (expect (get_memory db id) not_found) _ (λ m _.
      Returns-after (F {A = ℕ}) (require (not (is_terminal m.status)) invalid_transition) _ (λ _ _.
        Returns-bind P (F {A = ℕ}) _ _
          (forget_claims-keeps P HasTimelines-IsClosed e.truth.texts now _ w id actor) (λ d h. h)))

  get-P : (id : ℕ) (db : Db) → P db → Returns (F {A = ℕ}) (get e now id db)
  unfolding get
  get-P id db w =
      Returns-bind P (F {A = ℕ}) _ _ (expire_due-P db w)
        (λ d h. Returns-after (F {A = ℕ}) (expect (get_memory d id) not_found) _ (λ m _. h))

  body-P :
      (actor : String) (call : Call) (db : Db)
      → P db
      → Returns (F {A = ℕ}) (body e now actor call db)
  unfolding body
  body-P actor (propose_call payload) db w = propose-P payload actor db w
  body-P actor (update_call id u) db w = update-P id u actor db w
  body-P actor (confirm_call id strategy rationale) db w =
      confirm-P id strategy actor rationale db w
  body-P actor (reject_call id) db w = reject-P id actor db w
  body-P actor (forget_call id) db w = forget-P id actor db w
  body-P actor (get_call id) db w = get-P id db w
  body-P actor (resolve_call id confirmed rationale) db w =
      resolve_possible_conflict-keeps P HasTimelines-IsClosed e now id confirmed actor rationale db
        w

-- If the histories of all claims are timelines, they are after any sequence of calls of the service,
-- each at any time and by any actor, whether a call returns or raises and is rolled back.
pub run-IsWellFormed :
    (e : Engine) (calls : List (ℕ × String × Call)) (db : Db)
    → HasTimelines db
    → HasTimelines (run e calls db)
unfolding run
run-IsWellFormed e [] db w = w
run-IsWellFormed e ((now, actor, call) ∷ rest) db w =
    run-IsWellFormed e rest _
      (session-keeps P (body e now actor call) db w (body-P e now actor call db w))
