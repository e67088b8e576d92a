-- ===== src/Engine/Statuses.antt =====
-- engine/service.py: the statuses that `reject`, `forget` and `confirm` leave.
use memory_os.Base.{
  ℕ, String, Bool, true, false, not, ◌||◌, Option, some, List, [], ◌∷◌, ◌≡◌, refl, sym, ap, subst,
  ◌∙◌, is_none, is_empty, if◌then◌else◌, or_default, ==_iff, ◌==◌, Bool-cases, inl, inr, arith, ok,
  expect, expect-eq-ok, require, require-eq-ok, >>=-eq-ok, ok_pair, ok-injective, for_each, Returns,
  Returns-for_each, Returns-if, Returns-eq-ok, not_found, invalid_transition, conflict_detected,
  find_sound, row_at, row_at-update_at, row_at-update_at_other,
}
use memory_os.Domain.{
  MemoryStatus, ConflictStrategy, is_candidate, is_reject, is_supersede, is_keep_both,
}
use memory_os.Store.{Db, MemoryRow, get_memory, update_memory}
use memory_os.Claims.Truth.Services.{audit_event, text_or}
use memory_os.Claims.Truth.Lifecycle.{reject_claims}
use memory_os.Claims.Truth.Activation.{activate_claims}
use memory_os.Claims.Truth.Ensure.{find_semantic_conflict_memories}
use memory_os.Claims.Truth.Keeps.{First, find_semantic_conflict_memories-keeps}
use memory_os.Claims.Truth.Keeps.Instances.{HasMemories, HasMemories-IsClosed}
use memory_os.Claims.Truth.Keeps.Operations.{reject_claims-keeps, activate_claims-keeps}
use memory_os.Engine.{Engine, with_status, set_memory, expire_due, find_conflicts}
use memory_os.Engine.Calls.{
  supersede_memory, supersede_all, keep_memory, relate_memories, reject_candidate, activate,
  confirm,
}

-- A memory of this id is stored.
abbrev Stored : ℕ → Db → Type 0
Stored id db = (m : MemoryRow) × (get_memory db id ≡ some m)

set_memory-Stored :
    (id other : ℕ) (f : MemoryRow → MemoryRow) (db : Db)
    → ((m : MemoryRow) → (f m).id ≡ m.id)
    → Stored id db
    → Stored id (set_memory other f db)
unfolding set_memory get_memory update_memory
set_memory-Stored id other f db same (m, at) = elim (Bool-cases (other == id)) [
  | inl e ↦
      let here : other ≡ id = (==_iff other id).0 e in
      subst
        (λ i.
          (m : MemoryRow) × (row_at (λ row. row.id) id (update_memory i f db.memories) ≡ some m))
        (sym here) (f m, row_at-update_at (λ row. row.id) f same id db.memories at)
  | inr e ↦ (
    m,
    row_at-update_at_other (λ row. row.id) f same other id db.memories (ground (arith, e)) ∙ at,
  )
]

relate_memories-Stored :
    (now : ℕ) (strategy : Option ConflictStrategy) (by id : ℕ) (actor : String)
    (conflicts : List MemoryRow) (db : Db)
    → Stored id db
    → Returns (Stored id) (relate_memories now strategy by actor conflicts db)
unfolding relate_memories get_memory audit_event set_memory
relate_memories-Stored now strategy by id actor conflicts db w =
    let kept = for_each (keep_memory by) conflicts db in
    Returns-if (Stored id) (is_supersede strategy) (supersede_all now by actor conflicts db)
      (if is_keep_both strategy then kept else ok db) (superseded conflicts)
      (Returns-if (Stored id) (is_keep_both strategy) kept (ok db)
        (Returns-for_each (Stored id) (keep_memory by) keeping conflicts db w) w)
  where
    keeping : (d : Db) (m : MemoryRow) → Stored id d → Returns (Stored id) (keep_memory by d m)
    keeping d m h = h

    superseding :
        (d : Db) (m : MemoryRow)
        → Stored id d
        → Returns (Stored id) (supersede_memory now by actor d m)
    superseding d m h =
        set_memory-Stored id m.id (with_status MemoryStatus.superseded) d (λ _. refl) h

    superseded : (rows : List MemoryRow) → Returns (Stored id) (supersede_all now by actor rows db)
    superseded [] = w
    superseded (first ∷ rest) =
        Returns-for_each (Stored id) (supersede_memory now by actor) superseding (first ∷ rest) _ (
          set_memory-Stored id by (λ m. record m { supersedes_id = some first.id }) db (λ _. refl)
            w)

-- The status of a stored memory.
abbrev pub HasStatus : ℕ → MemoryStatus → Db → Type 0
HasStatus id status db = (m : MemoryRow) × (get_memory db id ≡ some m) × (m.status ≡ status)

HasStatus-memories :
    (id : ℕ) (status : MemoryStatus) (db db' : Db)
    → db'.memories ≡ db.memories
    → HasStatus id status db
    → HasStatus id status db'
unfolding get_memory
HasStatus-memories id status db db' same (m, at, is) =
    (m, ap (row_at (λ row. row.id) id) same ∙ at, is)

set_memory-HasStatus :
    (id : ℕ) (f : MemoryRow → MemoryRow) (status : MemoryStatus) (db : Db)
    → ((m : MemoryRow) → (f m).id ≡ m.id)
    → ((m : MemoryRow) → (f m).status ≡ status)
    → Stored id db
    → HasStatus id status (set_memory id f db)
unfolding set_memory get_memory update_memory
set_memory-HasStatus id f status db same sets (m, at) =
    (f m, row_at-update_at (λ row. row.id) f same id db.memories at, sets m)

module _ (e : Engine) (now : ℕ) where
  reject_candidate-HasStatus :
      (id : ℕ) (actor : String) (rationale : Option String) (db : Db) {db' : Db}
      → Stored id db
      → reject_candidate e now id actor rationale db ≡ ok db'
      → HasStatus id MemoryStatus.rejected db'
  unfolding reject_candidate audit_event
  reject_candidate-HasStatus id actor rationale db {db'} w h =
      let db1 = set_memory id (with_status MemoryStatus.rejected) db in
      let reason = text_or rationale "Rejected during conflict resolution" in
      let (d, done, h1) = >>=-eq-ok (reject_claims e.truth.texts now db1 id actor reason) _ h in
      let kept : d.memories ≡ db1.memories =
        Returns-eq-ok (HasMemories db1.memories) _
          (reject_claims-keeps (HasMemories db1.memories) (HasMemories-IsClosed db1.memories)
            e.truth.texts now db1 refl id actor reason)
          done in
      HasStatus-memories id MemoryStatus.rejected db1 db'
        (ap (λ x. x.memories) (sym (ok-injective h1)) ∙ kept)
        (set_memory-HasStatus id (with_status MemoryStatus.rejected) MemoryStatus.rejected db
          (λ _. refl) (λ _. refl) w)

  activate-HasStatus :
      (memory : MemoryRow) (strategy : Option ConflictStrategy) (conflicts : List MemoryRow)
      (actor : String) (rationale : Option String) (db : Db) {db' : Db}
      → Stored memory.id db
      → activate e now memory strategy conflicts actor rationale db ≡ ok db'
      → HasStatus memory.id MemoryStatus.active db'
  unfolding activate audit_event
  activate-HasStatus memory strategy conflicts actor rationale db {db'} w h =
      let (d, related, h1) =
        >>=-eq-ok (relate_memories now strategy memory.id actor conflicts db) _ h in
      let activated : MemoryRow → MemoryRow =
        λ m. record m { status = MemoryStatus.active; updated_at = now } in
      let db2 = set_memory memory.id activated d in
      let loaded = or_default (get_memory db2 memory.id) memory in
      let (d', done, h2) =
        >>=-eq-ok (activate_claims e.truth now db2 loaded strategy conflicts rationale actor) _
          h1 in
      let kept : d'.memories ≡ db2.memories =
        Returns-eq-ok (HasMemories db2.memories) _
          (activate_claims-keeps (HasMemories db2.memories) (HasMemories-IsClosed db2.memories)
            e.truth now db2 refl loaded strategy conflicts rationale actor)
          done in
      let stored =
        Returns-eq-ok (Stored memory.id) _
          (relate_memories-Stored now strategy memory.id memory.id actor conflicts db w) related in
      HasStatus-memories memory.id MemoryStatus.active db2 db'
        (ap (λ x. x.memories) (sym (ok-injective h2)) ∙ kept)
        (set_memory-HasStatus memory.id activated MemoryStatus.active d (λ _. refl) (λ _. refl)
          stored)

  memories-find_conflicts :
      (db : Db) (candidate : MemoryRow) {db' : Db} {found : List MemoryRow}
      → find_conflicts e now db candidate ≡ ok (db', found)
      → db'.memories ≡ db.memories
  unfolding find_conflicts
  memories-find_conflicts db candidate h =
      let (r, searched, h1) =
        >>=-eq-ok (find_semantic_conflict_memories e.truth now db candidate) _ h in
      let kept : r.0.memories ≡ db.memories =
        Returns-eq-ok (First (HasMemories db.memories) (HasMemories-IsClosed db.memories)) _
          (find_semantic_conflict_memories-keeps (HasMemories db.memories)
            (HasMemories-IsClosed db.memories) e.truth now db candidate refl)
          searched in
      ap (λ d. d.memories) (sym (ok_pair h1).0) ∙ kept

  ending-HasStatus :
      (id : ℕ) (m : MemoryRow) (strategy : Option ConflictStrategy) (conflicts : List MemoryRow)
      (actor : String) (rationale : Option String) (db : Db) (b : Bool) {db' : Db}
      → m.id ≡ id
      → Stored id db
      → (if b
          then reject_candidate e now id actor rationale db
          else activate e now m strategy conflicts actor rationale db)
        ≡ ok db'
      → HasStatus id (if b then MemoryStatus.rejected else MemoryStatus.active) db'
  ending-HasStatus id m strategy conflicts actor rationale db true same w h =
      reject_candidate-HasStatus id actor rationale db w h
  ending-HasStatus id m strategy conflicts actor rationale db false {db'} same w h =
      subst (λ i. HasStatus i MemoryStatus.active db') same
        (activate-HasStatus m strategy conflicts actor rationale db
          (subst (λ i. Stored i db) (sym same) w) h)

  stored_row : (db : Db) (id : ℕ) {m : MemoryRow} → get_memory db id ≡ some m → m.id ≡ id
  unfolding get_memory
  stored_row db id {m} h =
      (==_iff m.id id).0 (find_sound (λ (x : MemoryRow). x.id == id) db.memories h)

  Stored-in :
      (id : ℕ) (d d' : Db) {m : MemoryRow}
      → get_memory d id ≡ some m
      → d'.memories ≡ d.memories
      → Stored id d'
  unfolding get_memory
  Stored-in id d d' {m} at same = (m, ap (row_at (λ row. row.id) id) same ∙ at)

  -- Once due memories are expired the memory is a candidate, and a strategy is given or no conflict
  -- is found.
  abbrev pub CanConfirm : ℕ → Option ConflictStrategy → Db → Type 0
  CanConfirm id strategy db =
      (d : Db) × (m : MemoryRow) × (d' : Db) × (conflicts : List MemoryRow) × (expire_due e now db
        ≡ ok d)
      × (get_memory d id ≡ some m)
      × (is_candidate m.status ≡ true)
      × (find_conflicts e now d m ≡ ok (d', conflicts))
      × ((is_empty conflicts || not (is_none strategy)) ≡ true)

  -- If `confirm` returns, then once due memories are expired the memory was a candidate, a strategy
  -- was given or no conflict was found, and the memory is rejected afterwards under the strategy
  -- REJECT and active under any other strategy and under none.
  pub confirm-HasStatus :
      (id : ℕ) (strategy : Option ConflictStrategy) (actor : String) (rationale : Option String)
      (db : Db) {db' : Db} {r : ℕ}
      → confirm e now id strategy actor rationale db ≡ ok (db', r)
      → CanConfirm id strategy db
        × HasStatus id
            (if is_reject strategy then MemoryStatus.rejected else MemoryStatus.active)
            db'
  unfolding confirm
  confirm-HasStatus id strategy actor rationale db {db'} h =
      let (d, expired, h1) = >>=-eq-ok (expire_due e now db) _ h in
      let (m, found, h2) = >>=-eq-ok (expect (get_memory d id) not_found) _ h1 in
      let (_, guard, h3) = >>=-eq-ok (require (is_candidate m.status) invalid_transition) _ h2 in
      let ((d', conflicts), searched, h4) = >>=-eq-ok (find_conflicts e now d m) _ h3 in
      let (_, settled, h5) =
        >>=-eq-ok (require (is_empty conflicts || not (is_none strategy)) conflict_detected) _ h4 in
      let (d'', ended, h6) =
        >>=-eq-ok
          (if is_reject strategy
            then reject_candidate e now id actor rationale d'
            else activate e now m strategy conflicts actor rationale d')
          _ h5 in
      let at = expect-eq-ok (get_memory d id) not_found found in
      let stored = Stored-in id d d' at (memories-find_conflicts d m searched) in
      let status =
        ending-HasStatus id m strategy conflicts actor rationale d' (is_reject strategy)
          (stored_row d id at) stored ended in
      (
        (
          d,
          m,
          d',
          conflicts,
          expired,
          at,
          require-eq-ok (is_candidate m.status) invalid_transition guard,
          searched,
          require-eq-ok (is_empty conflicts || not (is_none strategy)) conflict_detected settled,
        ),
        subst
            (HasStatus id
              (if is_reject strategy then MemoryStatus.rejected else MemoryStatus.active))
            (ok_pair h6).0 status,
      )
