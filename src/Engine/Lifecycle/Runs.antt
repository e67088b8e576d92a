-- ===== src/Engine/Lifecycle/Runs.antt =====
-- engine/service.py: no sequence of calls takes a memory out of its life.
use memory_os.Base.{
  ℕ, ◌+◌, ◌<◌, String, true, false, not, Option, none, some, List, [], ◌∷◌, ◌≡◌, refl, sym, subst,
  is_none, is_empty, ok, expect, expect-eq-ok, require, require-eq-ok, Returns, Returns-bind,
  Returns-after, Returns-if, Returns-of_eq, Returns-eq-ok, not_found, invalid_transition,
  conflict_detected, value_error, arith, ◌==◌, ==_iff, Bool-cases, inl, inr, find_sound, find, All,
  All-map, any, ◌||◌,
}
use memory_os.Domain.{MemoryStatus, ConflictStrategy, is_candidate, is_reject, is_terminal}
use memory_os.Store.{Db, MemoryRow, get_memory}
use memory_os.Claims.Truth.Services.{audit_event}
use memory_os.Claims.Truth.Keeps.{ensure_claims-keeps}
use memory_os.Claims.Truth.Keeps.Instances.{HasMemories}
use memory_os.Claims.Truth.Keeps.Operations.{
  reject_claims-keeps, forget_claims-keeps, reset_claims-keeps,
}
use memory_os.Engine.{Engine, with_status, set_memory, find_conflicts}
use memory_os.Engine.Keeps.{
  session-keeps, find_conflicts-keeps, check_activation-keeps, resolve_possible_conflict-keeps,
}
use memory_os.Engine.Calls.{
  MemoryCreate, MemoryUpdate, Call, propose_call, update_call, confirm_call, reject_call,
  forget_call, get_call, resolve_call, validate_create, new_memory, propose, edited, changes_text,
  replace_source, update, reject_candidate, activate, confirm, reject, forget, get, is_reversed,
  body, run,
}
use memory_os.Engine.Lifecycle.{
  can_become, can_become_refl, candidate-can_become, forget-can_become,
}
use memory_os.Engine.Lifecycle.Keys.{
  ids, at_id, HasDistinctIds, Keyed, Keyed-IsClosed, set_memory-Keyed, update_memory-become,
  update_memory-IsOn,
}
use memory_os.Engine.Lifecycle.Conflicts.{IsActive, find_conflicts-IsActive}
use memory_os.Engine.Lifecycle.Writes.{
  Alive, Deciding, set_candidate, expire_due-Alive, reject_candidate-Alive, activate-Alive,
}

fresh_id : (n : ℕ) (is : List ℕ) → All (λ i. i < n) is → any (λ j. j == n) is ≡ false
unfolding any
fresh_id n [] h = refl
fresh_id n (i ∷ is) h = ground (arith, h.0, fresh_id n is h.1)

module _ (s : MemoryStatus) (id : ℕ) (e : Engine) (now : ℕ) where
  abbrev P : Db → Type 0
  P = Keyed (Alive s id)

  abbrev F {ℓ} : {A : Type ℓ} → Db × A → Type 0
  F r = P r.0

  -- A stored candidate is one that a call may decide.
  deciding :
      (by : ℕ) (db : Db) {m : MemoryRow}
      → P db
      → get_memory db by ≡ some m
      → is_candidate m.status ≡ true
      → Keyed (Deciding s id by) db
  unfolding get_memory
  deciding by db {m} w at h = (w.0, (w.1, (m, at, h)))

  named : (by : ℕ) (db : Db) {m : MemoryRow} → get_memory db by ≡ some m → m.id ≡ by
  unfolding get_memory
  named by db {m} at =
      (==_iff m.id by).0 (find_sound (λ (row : MemoryRow). row.id == by) db.memories at)

  add_memory-Alive :
      (m : MemoryRow) (db : Db)
      → m.id ≡ db.next_id
      → P db
      → P (record db { memories = m ∷ db.memories; next_id = db.next_id + 2 })
  unfolding find
  add_memory-Alive m db new ((below, distinct), (x, at, h)) =
      let fresh =
        subst (λ n. any (λ j. j == n) (ids db.memories) ≡ false) (sym new)
          (fresh_id db.next_id (ids db.memories) below) in
      let other : (m.id == id) ≡ false = missed in
      (
        (
          (
            omega (arith, new),
            All-map (λ i. i < db.next_id) (λ i. i < db.next_id + 2) (λ i k. omega (arith, k))
                (ids db.memories) below,
          ),
          (fresh, distinct),
        ),
        (x, rw other at, h),
      )
    where
      below_found :
          (rows : List MemoryRow)
          → All (λ i. i < db.next_id) (ids rows)
          → at_id id rows ≡ some x
          → id < db.next_id
      below_found [] all k = cc
      below_found (y ∷ rows) all k = elim (Bool-cases (y.id == id)) [
        | inl e ↦ subst (λ i. i < db.next_id) ((==_iff y.id id).0 e) all.0
        | inr e ↦ below_found rows all.1 (rw e at k)
      ]

      missed : (m.id == id) ≡ false
      missed = ground (arith, new, below_found db.memories below at)

  propose-P :
      (payload : MemoryCreate) (actor : String) (db : Db)
      → P db
      → Returns (F {A = ℕ}) (propose e now payload actor db)
  unfolding propose audit_event new_memory
  propose-P payload actor db w = Returns-after (F {A = ℕ}) (validate_create payload) _ (λ p _.
      let memory = new_memory e now db.next_id p in
      let db1 = record db { memories = memory ∷ db.memories; next_id = db.next_id + 2 } in
      Returns-bind F (F {A = ℕ}) _ _
        (ensure_claims-keeps P (Keyed-IsClosed (Alive s id)) e.truth now db1 memory
          (some p.claim_candidates) (add_memory-Alive memory db refl w))
        (λ r h.
          Returns-bind P (F {A = ℕ}) _ _
            (check_activation-keeps P (Keyed-IsClosed (Alive s id)) e now memory r.0 h) (λ d k. k)))

  -- A write to the deciding candidate that leaves it one.
  edit-Deciding :
      (by : ℕ) (f : MemoryRow → MemoryRow) (db : Db)
      → ((m : MemoryRow) → m.id ≡ by → (f m).id ≡ by)
      → ((m : MemoryRow) → is_candidate m.status ≡ true → is_candidate (f m).status ≡ true)
      → Keyed (Deciding s id by) db
      → Keyed (Deciding s id by) (set_memory by f db)
  edit-Deciding by f db same stays =
      set_memory-Keyed (Deciding s id by) (Deciding s id by) by f db same (λ w. (
        update_memory-become by f same db.memories is_candidate s id
            (λ m h. candidate-can_become m.status (f m).status h) w.1 w.0,
        update_memory-IsOn by f same db.memories is_candidate by (λ m _ h. stays m h) w.1,
      ))

  abbrev D : ℕ → Db → Type 0
  D by = Keyed (Deciding s id by)

  replace_source-D :
      (by : ℕ) (row : MemoryRow) (db : Db)
      → row.id ≡ by
      → is_candidate row.status ≡ true
      → D by db
      → Returns (D by) (replace_source e now row db)
  unfolding replace_source set_memory
  replace_source-D by row db same still w =
      let sourced = record row {
        sources = record { id = db.next_id; excerpt = row.content } ∷ row.sources;
      } in
      let write = λ (i : ℕ). record (set_memory i (λ m. sourced) db) { next_id = db.next_id + 1 } in
      let edited = edit-Deciding by (λ m. sourced) db (λ m _. same) (λ m _. still) w in
      let there = subst (λ i. D by (set_memory i (λ m. sourced) db)) (sym same) edited in
      let closed = Keyed-IsClosed (Deciding s id by) in
      Returns-bind (λ r. D by r.0) (D by) _ _
        (reset_claims-keeps (D by) closed e.truth now (write row.id)
          (closed.rows_keep (set_memory row.id (λ m. sourced) db) (write row.id) refl refl
            (omega arith) there)
          sourced none)
        (λ r h. h)

  update-P :
      (by : ℕ) (u : MemoryUpdate) (actor : String) (db : Db)
      → P db
      → Returns (F {A = ℕ}) (update e now by u actor db)
  unfolding update audit_event edited
  update-P by u actor db w =
      Returns-after (F {A = ℕ}) (expect (get_memory db by) not_found) _ (λ m found.
        Returns-after (F {A = ℕ}) (require (is_candidate m.status) invalid_transition) _ (λ _ guard.
          let row = edited e u m in
          Returns-after (F {A = ℕ})
            (require (not (is_reversed row.valid_from row.valid_to)) value_error) _
            (λ _ _.
              let at = expect-eq-ok (get_memory db by) not_found found in
              let still = require-eq-ok (is_candidate m.status) invalid_transition guard in
              let same = named by db at in
              let db1 = set_memory by (λ m. row) db in
              let start =
                edit-Deciding by (λ m. row) db (λ m _. same) (λ m _. still)
                  (deciding by db w at still) in
              Returns-bind (D by) (F {A = ℕ}) _ _
                (Returns-if (D by) (changes_text u) (replace_source e now row db1) (ok db1)
                  (replace_source-D by row db1 same still start) start)
                (λ d h.
                  set_candidate s id by (λ m. record m { updated_at = now }) d (λ m k. k) h))))

  confirm-P :
      (by : ℕ) (strategy : Option ConflictStrategy) (actor : String) (rationale : Option String)
      (db : Db)
      → P db
      → Returns (F {A = ℕ}) (confirm e now by strategy actor rationale db)
  unfolding confirm
  confirm-P by strategy actor rationale db w =
      Returns-bind P (F {A = ℕ}) _ _ (expire_due-Alive s id e now db w) (λ d h.
        Returns-after (F {A = ℕ}) (expect (get_memory d by) not_found) _ (λ m found.
          Returns-after (F {A = ℕ}) (require (is_candidate m.status) invalid_transition) _
            (λ _ guard.
              let at = expect-eq-ok (get_memory d by) not_found found in
              let still = require-eq-ok (is_candidate m.status) invalid_transition guard in
              let start = deciding by d h at still in
              Returns-bind
                (λ (r : Db × List MemoryRow).
                  D by r.0 × All (IsActive d.memories) r.1 × HasMemories d.memories r.0)
                (F {A = ℕ}) (find_conflicts e now d m) _ (searched d m start)
                (λ r (k, active, same).
                  Returns-after (F {A = ℕ})
                    (require (is_empty r.1 || not (is_none strategy)) conflict_detected) _
                    (λ _ _.
                      Returns-bind P (F {A = ℕ}) _ _
                        (Returns-if P (is_reject strategy)
                          (reject_candidate e now by actor rationale r.0)
                          (activate e now m strategy r.1 actor rationale r.0)
                          (reject_candidate-Alive s id e now actor rationale by r.0 k)
                          (activate-Alive s id e now actor rationale m strategy r.1 r.0
                            (subst (λ rows. All (IsActive rows) r.1) (sym same) active)
                            (subst (λ i. D i r.0) (sym (named by d at)) k)))
                        (λ d k. k))))))
    where
      searched :
          (d : Db) (m : MemoryRow)
          → D by d
          → Returns
              (λ (r : Db × List MemoryRow).
                D by r.0 × All (IsActive d.memories) r.1 × HasMemories d.memories r.0)
              (find_conflicts e now d m)
      searched d m k = Returns-of_eq _ (find_conflicts e now d m) (λ r found.
          let (same, active) =
            Returns-eq-ok
              (λ (r : Db × List MemoryRow).
                HasMemories d.memories r.0 × All (IsActive d.memories) r.1)
              _ (find_conflicts-IsActive e now d m k.0.1) found in
          (
            Returns-eq-ok (λ (r : Db × List MemoryRow). D by r.0) _
                (find_conflicts-keeps (D by) (Keyed-IsClosed (Deciding s id by)) e now d m k) found,
            active,
            same,
          ))

  reject-P :
      (by : ℕ) (actor : String) (db : Db) → P db → Returns (F {A = ℕ}) (reject e now by actor db)
  unfolding reject audit_event
  reject-P by actor db w =
      Returns-after (F {A = ℕ}) (expect (get_memory db by) not_found) _ (λ m found.
        Returns-after (F {A = ℕ}) (require (is_candidate m.status) invalid_transition) _ (λ _ guard.
          let at = expect-eq-ok (get_memory db by) not_found found in
          let still = require-eq-ok (is_candidate m.status) invalid_transition guard in
          let db1 = set_memory by (with_status MemoryStatus.rejected) db in
          Returns-bind P (F {A = ℕ}) _ _
            (reject_claims-keeps P (Keyed-IsClosed (Alive s id)) e.truth.texts now db1
              (set_candidate s id by (with_status MemoryStatus.rejected) db (λ m k. k)
                (deciding by db w at still))
              by actor "Candidate rejected")
            (λ d h. h)))

  forget-P :
      (by : ℕ) (actor : String) (db : Db) → P db → Returns (F {A = ℕ}) (forget e now by actor db)
  unfolding forget audit_event get_memory
  forget-P by actor db (keys, alive) =
      Returns-after (F {A = ℕ}) (expect (get_memory db by) not_found) _ (λ m found.
        Returns-after (F {A = ℕ}) (require (not (is_terminal m.status)) invalid_transition) _
          (λ _ guard.
            let at = expect-eq-ok (get_memory db by) not_found found in
            let still = require-eq-ok (not (is_terminal m.status)) invalid_transition guard in
            let forgotten = with_status MemoryStatus.forgotten in
            Returns-bind P (F {A = ℕ}) _ _
              (forget_claims-keeps P (Keyed-IsClosed (Alive s id)) e.truth.texts now
                (set_memory by forgotten db)
                (set_memory-Keyed (Alive s id) (Alive s id) by forgotten db (λ m k. k)
                  (update_memory-become by forgotten (λ m k. k) db.memories
                    (λ status. not (is_terminal status)) s id
                    (λ m h. forget-can_become m.status (ground (arith, h))) (m, at, still))
                  (keys, alive))
                by actor)
              (λ d h. h)))

  get-P : (by : ℕ) (db : Db) → P db → Returns (F {A = ℕ}) (get e now by db)
  unfolding get
  get-P by db w =
      Returns-bind P (F {A = ℕ}) _ _ (expire_due-Alive s id e now db w)
        (λ d h. Returns-after (F {A = ℕ}) (expect (get_memory d by) not_found) _ (λ m _. h))

  body-P :
      (actor : String) (call : Call) (db : Db)
      → P db
      → Returns (F {A = ℕ}) (body e now actor call db)
  unfolding body
  body-P actor (propose_call payload) db w = propose-P payload actor db w
  body-P actor (update_call by u) db w = update-P by u actor db w
  body-P actor (confirm_call by strategy rationale) db w =
      confirm-P by strategy actor rationale db w
  body-P actor (reject_call by) db w = reject-P by actor db w
  body-P actor (forget_call by) db w = forget-P by actor db w
  body-P actor (get_call by) db w = get-P by db w
  body-P actor (resolve_call by confirmed rationale) db w =
      resolve_possible_conflict-keeps P (Keyed-IsClosed (Alive s id)) e now by confirmed actor
        rationale db w

run-Alive :
    (s : MemoryStatus) (id : ℕ) (e : Engine) (calls : List (ℕ × String × Call)) (db : Db)
    → Keyed (Alive s id) db
    → Keyed (Alive s id) (run e calls db)
unfolding run
run-Alive s id e [] db w = w
run-Alive s id e ((now, actor, call) ∷ rest) db w = run-Alive s id e rest _ (
    session-keeps (Keyed (Alive s id)) (body e now actor call) db w
      (body-P s id e now actor call db w))

-- If stored memories have distinct identities below the next one to give, then after any sequence of
-- calls of the service, each at any time and by any actor, a memory that was stored still is, with a
-- status that can follow the one it had: a rejected or forgotten memory stays so, an expired or
-- superseded one stays so or is forgotten, and an active one never becomes a candidate or rejected.
pub run-can_become :
    (e : Engine) (calls : List (ℕ × String × Call)) (db : Db) (id : ℕ) {m : MemoryRow}
    → HasDistinctIds db
    → get_memory db id ≡ some m
    → (m' : MemoryRow) × (get_memory (run e calls db) id ≡ some m')
      × (can_become m.status m'.status ≡ true)
unfolding get_memory
run-can_become e calls db id {m} keys at =
    (run-Alive m.status id e calls db (keys, (m, at, can_become_refl m.status))).1
