-- ===== src/Engine/Lifecycle/Writes.antt =====
-- engine/service.py: the writes of one call keep to the life of a memory.
use memory_os.Base.{
  ℕ, String, Bool, true, ◌≡◌, refl, sym, subst, ◌∙◌, Option, some, some-injective, List, [], ◌∷◌,
  keep, arith, All, All-map, All-both, All-keep, All-keep_self, Returns, Returns-bind, Returns-if,
  for_each, or_default, if◌then◌else◌, ok,
}
use memory_os.Domain.{
  MemoryStatus, ConflictStrategy, is_active, is_candidate, is_supersede, is_keep_both,
}
use memory_os.Store.{Db, MemoryRow, get_memory, update_memory}
use memory_os.Claims.Truth.Services.{audit_event, text_or}
use memory_os.Claims.Truth.Keeps.Operations.{
  expire_claims-keeps, reject_claims-keeps, activate_claims-keeps,
}
use memory_os.Engine.{
  Engine, with_status, set_memory, is_due, expiry_reason, expire_memory, expire_due,
}
use memory_os.Engine.Calls.{
  supersede_memory, supersede_all, keep_memory, relate_memories, reject_candidate, activate,
}
use memory_os.Engine.Lifecycle.{
  can_become, can_become_refl, can_lapse, can_yield, lapse-can_become, yield-can_become,
  candidate-can_become,
}
use memory_os.Engine.Lifecycle.Keys.{
  at_id, at_id_self, IsOn, Keyed, Keyed-IsClosed, set_memory-Keyed, update_memory-IsOn,
  update_memory-become,
}

clash : (s t : MemoryStatus) → is_candidate s ≡ true → can_yield s ≡ true → is_candidate t ≡ true
clash s t h k = ground arith

-- A memory that had the status `s` at first.
module _ (s : MemoryStatus) (id : ℕ) where
  abbrev pub Alive : List MemoryRow → Type 0
  Alive = IsOn (can_become s) id

  -- The same, while a candidate is decided.
  abbrev pub Deciding : ℕ → List MemoryRow → Type 0
  Deciding by rows = Alive rows × IsOn is_candidate by rows

  pub set_candidate :
      (by : ℕ) (f : MemoryRow → MemoryRow) (db : Db)
      → ((m : MemoryRow) → m.id ≡ by → (f m).id ≡ by)
      → Keyed (Deciding by) db
      → Keyed Alive (set_memory by f db)
  set_candidate by f db same = set_memory-Keyed (Deciding by) Alive by f db same (λ w.
      update_memory-become by f same db.memories is_candidate s id
        (λ m h. candidate-can_become m.status (f m).status h) w.1 w.0)

  -- While the memories `xs` are moved, one after the other.
  abbrev Lapsing : List MemoryRow → List MemoryRow → Type 0
  Lapsing xs rows = Alive rows × All (λ x. IsOn can_lapse x.id rows) xs

  abbrev Yielding : ℕ → List MemoryRow → List MemoryRow → Type 0
  Yielding by xs rows = Deciding by rows × All (λ x. IsOn can_yield x.id rows) xs

  still-IsOn :
      (p : MemoryStatus → Bool) (i : ℕ) (f : MemoryRow → MemoryRow) (rows : List MemoryRow)
      → ((m : MemoryRow) → m.id ≡ i → (f m).id ≡ i)
      → ((m : MemoryRow) → p m.status ≡ true → p (f m).status ≡ true)
      → (xs : List MemoryRow) → All (λ x. IsOn p x.id rows) xs
      → All (λ x. IsOn p x.id (update_memory i f rows)) xs
  still-IsOn p i f rows same keeps =
      All-map (λ x. IsOn p x.id rows) (λ x. IsOn p x.id (update_memory i f rows))
        (λ x h. update_memory-IsOn i f same rows p x.id (λ m _ k. keeps m k) h)

  module _ (e : Engine) (now : ℕ) where
    expire_memory-Lapsing :
        (x : MemoryRow) (xs : List MemoryRow) (db : Db)
        → Keyed (Lapsing (x ∷ xs)) db
        → Returns (Keyed (Lapsing xs)) (expire_memory e now db x)
    unfolding expire_memory audit_event
    expire_memory-Lapsing x xs db w =
        let lapsed = with_status MemoryStatus.expired in
        let moved =
          set_memory-Keyed (Lapsing (x ∷ xs)) (Lapsing xs) x.id lapsed db (λ m h. h)
            (λ (alive, (on, rest)). (
              update_memory-become x.id lapsed (λ m h. h) db.memories can_lapse s id
                  (λ m h. lapse-can_become m.status h) on alive,
              still-IsOn can_lapse x.id lapsed db.memories (λ m h. h) (λ m h. refl) xs rest,
            ))
            w in
        Returns-bind (Keyed (Lapsing xs)) (Keyed (Lapsing xs)) _ _
          (expire_claims-keeps (Keyed (Lapsing xs)) (Keyed-IsClosed (Lapsing xs)) e.truth.texts now
            (set_memory x.id lapsed db) moved x.id (expiry_reason now x) now)
          (λ d h. h)

    expire_all-Alive :
        (xs : List MemoryRow) (db : Db)
        → Keyed (Lapsing xs) db
        → Returns (Keyed Alive) (for_each (expire_memory e now) xs db)
    unfolding for_each
    expire_all-Alive [] db w = (w.0, w.1.0)
    expire_all-Alive (x ∷ xs) db w =
        Returns-bind (Keyed (Lapsing xs)) (Keyed Alive) (expire_memory e now db x) _
          (expire_memory-Lapsing x xs db w) (λ d h. expire_all-Alive xs d h)

    pub expire_due-Alive : (db : Db) → Keyed Alive db → Returns (Keyed Alive) (expire_due e now db)
    unfolding expire_due is_due
    expire_due-Alive db (keys, alive) =
        let rows = db.memories in
        expire_all-Alive (keep (is_due now) rows) db (
          keys,
          (
            alive,
            All-both (λ x. at_id x.id rows ≡ some x) (λ x. is_due now x ≡ true)
                (λ x. IsOn can_lapse x.id rows) (λ x at h. (x, at, ground (arith, h)))
                (keep (is_due now) rows)
                (All-keep (λ x. at_id x.id rows ≡ some x) (is_due now) rows
                  (at_id_self rows keys.1))
                (All-keep_self (is_due now) rows),
          ),
        )

  module _ (now by : ℕ) (actor : String) where
    supersede_memory-Yielding :
        (x : MemoryRow) (xs : List MemoryRow) (db : Db)
        → Keyed (Yielding by (x ∷ xs)) db
        → Returns (Keyed (Yielding by xs)) (supersede_memory now by actor db x)
    unfolding supersede_memory audit_event
    supersede_memory-Yielding x xs db w =
        let yielded = with_status MemoryStatus.superseded in
        set_memory-Keyed (Yielding by (x ∷ xs)) (Yielding by xs) x.id yielded db (λ m h. h)
          (λ ((alive, candidate), ((y, at, on), rest)). (
            (
              update_memory-become x.id yielded (λ m h. h) db.memories can_yield s id
                  (λ m h. yield-can_become m.status h) (y, at, on) alive,
              update_memory-IsOn x.id yielded (λ m h. h) db.memories is_candidate by
                  (λ m found h. clash m.status MemoryStatus.superseded h (
                    subst (λ (z : MemoryRow). can_yield z.status ≡ true)
                      (some-injective (sym at ∙ found)) on))
                  candidate,
            ),
            still-IsOn can_yield x.id yielded db.memories (λ m h. h) (λ m h. refl) xs rest,
          ))
          w

    supersede_rest-Deciding :
        (xs : List MemoryRow) (db : Db)
        → Keyed (Yielding by xs) db
        → Returns (Keyed (Deciding by)) (for_each (supersede_memory now by actor) xs db)
    unfolding for_each
    supersede_rest-Deciding [] db w = (w.0, w.1.0)
    supersede_rest-Deciding (x ∷ xs) db w =
        Returns-bind (Keyed (Yielding by xs)) (Keyed (Deciding by))
          (supersede_memory now by actor db x) _ (supersede_memory-Yielding x xs db w)
          (λ d h. supersede_rest-Deciding xs d h)

    supersede_all-Deciding :
        (xs : List MemoryRow) (db : Db)
        → Keyed (Yielding by xs) db
        → Returns (Keyed (Deciding by)) (supersede_all now by actor xs db)
    unfolding supersede_all
    supersede_all-Deciding [] db w = (w.0, w.1.0)
    supersede_all-Deciding (x ∷ xs) db w =
        let named : MemoryRow → MemoryRow = λ m. record m { supersedes_id = some x.id } in
        supersede_rest-Deciding (x ∷ xs) (set_memory by named db) (
          set_memory-Keyed (Yielding by (x ∷ xs)) (Yielding by (x ∷ xs)) by named db (λ m h. h)
            (λ ((alive, candidate), rest). (
              (
                update_memory-become by named (λ m h. h) db.memories is_candidate s id
                    (λ m h. can_become_refl m.status) candidate alive,
                update_memory-IsOn by named (λ m h. h) db.memories is_candidate by (λ m _ h. h)
                    candidate,
              ),
              still-IsOn can_yield by named db.memories (λ m h. h) (λ m h. h) (x ∷ xs) rest,
            ))
            w)

    kept-Deciding :
        (xs : List MemoryRow) (db : Db)
        → Keyed (Deciding by) db
        → Returns (Keyed (Deciding by)) (for_each (keep_memory by) xs db)
    unfolding for_each keep_memory
    kept-Deciding [] db w = w
    kept-Deciding (x ∷ xs) db w = kept-Deciding xs _ w

    relate_memories-Deciding :
        (strategy : Option ConflictStrategy) (conflicts : List MemoryRow) (db : Db)
        → Keyed (Yielding by conflicts) db
        → Returns (Keyed (Deciding by)) (relate_memories now strategy by actor conflicts db)
    unfolding relate_memories
    relate_memories-Deciding strategy conflicts db w =
        let kept = for_each (keep_memory by) conflicts db in
        let start : Keyed (Deciding by) db = (w.0, w.1.0) in
        Returns-if (Keyed (Deciding by)) (is_supersede strategy)
          (supersede_all now by actor conflicts db) (if is_keep_both strategy then kept else ok db)
          (supersede_all-Deciding conflicts db w)
          (Returns-if (Keyed (Deciding by)) (is_keep_both strategy) kept (ok db)
            (kept-Deciding conflicts db start) start)

  module _ (e : Engine) (now : ℕ) (actor : String) (rationale : Option String) where
    pub reject_candidate-Alive :
        (by : ℕ) (db : Db)
        → Keyed (Deciding by) db
        → Returns (Keyed Alive) (reject_candidate e now by actor rationale db)
    unfolding reject_candidate audit_event
    reject_candidate-Alive by db w =
        let rejected = with_status MemoryStatus.rejected in
        Returns-bind (Keyed Alive) (Keyed Alive) _ _
          (reject_claims-keeps (Keyed Alive) (Keyed-IsClosed Alive) e.truth.texts now
            (set_memory by rejected db) (set_candidate by rejected db (λ m h. h) w) by actor
            (text_or rationale "Rejected during conflict resolution"))
          (λ d h. h)

    pub activate-Alive :
        (memory : MemoryRow) (strategy : Option ConflictStrategy) (conflicts : List MemoryRow)
        (db : Db)
        → All (λ x. IsOn is_active x.id db.memories) conflicts
        → Keyed (Deciding memory.id) db
        → Returns (Keyed Alive) (activate e now memory strategy conflicts actor rationale db)
    unfolding activate audit_event
    activate-Alive memory strategy conflicts db active (keys, w) =
        let yielding =
          All-map (λ x. IsOn is_active x.id db.memories) (λ x. IsOn can_yield x.id db.memories)
            (λ x (m, at, h). (m, at, ground (arith, h))) conflicts active in
        let activated : MemoryRow → MemoryRow =
          λ m. record m { status = MemoryStatus.active; updated_at = now } in
        Returns-bind (Keyed (Deciding memory.id)) (Keyed Alive) _ _
          (relate_memories-Deciding now memory.id actor strategy conflicts db (keys, (w, yielding)))
          (λ d h.
            let db2 = set_memory memory.id activated d in
            Returns-bind (Keyed Alive) (Keyed Alive) _ _
              (activate_claims-keeps (Keyed Alive) (Keyed-IsClosed Alive) e.truth now db2
                (set_candidate memory.id activated d (λ m k. k) h)
                (or_default (get_memory db2 memory.id) memory) strategy conflicts rationale actor)
              (λ d k. k))
