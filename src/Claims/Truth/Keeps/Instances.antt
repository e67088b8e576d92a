-- ===== src/Claims/Truth/Keeps/Instances.antt =====
-- claims/truth.py: the properties that all operations keep: well-formed timelines, and the memories.
use memory_os.Base.{◌≡◌, ◌≤◌, arith, sym, ◌∙◌, subst, List, Returns-of_eq, Returns-eq-ok}
use memory_os.Store.{Db, ClaimVersionRow, MemoryRow}
use memory_os.Claims.Versioning.{transition, record_initial}
use memory_os.Claims.Versioning.Timeline.{IsWellFormed}
use memory_os.Claims.Versioning.Transition.{transition-IsWellFormed, record_initial-IsWellFormed}
use memory_os.Claims.Versioning.Numbering.{Grows, next_id-transition, next_id-record_initial}
use memory_os.Claims.Versioning.Writes.{claims-transition, rows-record_initial}
use memory_os.Claims.Truth.Keeps.{IsClosed}

abbrev pub HasTimelines : Db → Type 0
HasTimelines db = IsWellFormed db.versions

pub HasTimelines-IsClosed : IsClosed HasTimelines
HasTimelines-IsClosed = record {
  transition_keeps = λ t now db id change at w.
      Returns-of_eq HasTimelines (transition t now db id change at)
        (λ db' e. transition-IsWellFormed t now db id change at w e);
  record_initial_keeps =
      λ t db claim actor reason at w. record_initial-IsWellFormed t db claim actor reason at w;
  rows_keep = λ db db' same _ _ w. subst IsWellFormed same w;
}

-- A property of the memories and of the identities still to give.
pub IsClosed-of_memories :
    (P : Db → Type 0)
    → ((db db' : Db) → db.memories ≡ db'.memories → db.next_id ≤ db'.next_id → P db → P db')
    → IsClosed P
IsClosed-of_memories P stable = record {
  transition_keeps = λ t now db id change at w.
      Returns-of_eq P (transition t now db id change at) (λ db' e.
        stable db db' (sym (claims-transition t now db id change at e).3)
          (Returns-eq-ok (λ (d : Db). db.next_id ≤ d.next_id) _
            (next_id-transition t now db id change at db.next_id (omega arith)) e)
          w);
  record_initial_keeps = λ t db claim actor reason at w.
      Returns-of_eq (λ (r : Db × ClaimVersionRow). P r.0)
        (record_initial t db claim actor reason at)
        (λ r e.
          stable db r.0 (sym (rows-record_initial t db claim actor reason at e).1)
            (Returns-eq-ok (Grows db.next_id) _
              (next_id-record_initial t db claim actor reason at db.next_id (omega arith)) e)
            w);
  rows_keep = λ db db' _ same later w. stable db db' same later w;
}

abbrev pub HasMemories : List MemoryRow → Db → Type 0
HasMemories rows db = db.memories ≡ rows

pub HasMemories-IsClosed : (rows : List MemoryRow) → IsClosed (HasMemories rows)
HasMemories-IsClosed rows =
    IsClosed-of_memories (HasMemories rows) (λ db db' same _ w. sym same ∙ w)
