-- ===== src/Engine/Keeps.antt =====
-- engine/service.py: the calls that write no memory keep what all operations on claims keep.
use memory_os.Base.{
  ℕ, refl, arith, String, Bool, Option, List, is_none, is_empty, Result, ok, raise, expect, require,
  ◌>>=◌, ◌>>◌, Returns, Returns-bind, Returns-after, Returns-if, not_found, invalid_transition,
  conflict_detected,
}
use memory_os.Domain.{is_active}
use memory_os.Store.{Db, MemoryRow, Action, get_possible_conflict, update_possible_conflict}
use memory_os.Claims.Truth.Services.{audit_event}
use memory_os.Claims.Truth.Keeps.{IsClosed, find_semantic_conflict_memories-keeps}
use memory_os.Claims.Truth.Keeps.Operations.{apply_manual_conflict_resolution-keeps}
use memory_os.Engine.{Engine, session, settled, find_conflicts}
use memory_os.Engine.Calls.{check_activation, resolve_possible_conflict, decided}

pub session-keeps :
    (P : Db → Type 0) (f : Db → Result (Db × ℕ)) (db : Db)
    → P db
    → Returns (λ (r : Db × ℕ). P r.0) (f db)
    → P (session f db).0
unfolding session
session-keeps P f db w h = go (f db) h
  where
    go : (r : Result (Db × ℕ)) → Returns (λ (r : Db × ℕ). P r.0) r → P (settled db r).0
    go (ok x) h = h
    go (raise e) h = w

module _ (P : Db → Type 0) (c : IsClosed P) (e : Engine) (now : ℕ) where
  abbrev pub F {ℓ} : {A : Type ℓ} → Db × A → Type 0
  F r = P r.0

  pub find_conflicts-keeps :
      (db : Db) (candidate : MemoryRow)
      → P db
      → Returns (F {A = List MemoryRow}) (find_conflicts e now db candidate)
  unfolding find_conflicts
  find_conflicts-keeps db candidate w =
      Returns-bind (F {A = List MemoryRow}) (F {A = List MemoryRow}) _ _
        (find_semantic_conflict_memories-keeps P c e.truth now db candidate w) (λ r h. h)

  pub check_activation-keeps :
      (memory : MemoryRow) (db : Db) → P db → Returns P (check_activation e now memory db)
  unfolding check_activation
  check_activation-keeps memory db w =
      Returns-if P (is_active memory.status)
        (find_conflicts e now db memory >>= λ r. require (is_empty r.1) conflict_detected >> ok r.0)
        (ok db)
        (Returns-bind (F {A = List MemoryRow}) P (find_conflicts e now db memory) _
          (find_conflicts-keeps db memory w)
          (λ r h.
            Returns-after P (require (is_empty r.1) conflict_detected) (λ _. ok r.0) (λ _ _. h)))
        w

  pub resolve_possible_conflict-keeps :
      (id : ℕ) (confirmed : Bool) (actor : String) (rationale : Option String) (db : Db)
      → P db
      → Returns (F {A = ℕ}) (resolve_possible_conflict e now id confirmed actor rationale db)
  unfolding resolve_possible_conflict audit_event
  resolve_possible_conflict-keeps id confirmed actor rationale db w =
      Returns-after (F {A = ℕ}) (expect (get_possible_conflict db id) not_found) _ (λ row _.
        Returns-after (F {A = ℕ}) (require (is_none row.resolved_at) invalid_transition) _ (λ _ _.
          let rows =
            update_possible_conflict id (decided confirmed now actor) db.possible_conflicts in
          let db1 = record db { possible_conflicts = rows } in
          Returns-bind P (F {A = ℕ}) _ _
            (apply_manual_conflict_resolution-keeps P c e.truth.texts now actor db1
              row.left_claim_id row.right_claim_id confirmed rationale
              (c.rows_keep db db1 refl refl (omega arith) w))
            (λ d h.
              c.rows_keep d (audit_event Action.possible_conflict_resolved id actor now d) refl refl
                (omega arith) h)))
