-- ===== src/Claims/Truth/Keeps.antt =====
-- claims/truth.py: a property of the database that the writes keep is kept by extracting claims
-- and by looking for conflicts.
pub mod Instances
pub mod Operations
use memory_os.Base.{
  ◌≤◌, arith, ℕ, ◌+◌, ◌++◌, String, Bool, true, false, ◌&&◌, not, Option, none, some, List, [], ◌∷◌,
  ◌≡◌, refl, sym, subst, ap, keep, any, ◌==◌, or_default, if◌then◌else◌, is_none, Result, ok, raise,
  expect, key_error, ◌>>=◌, Returns, Returns-bind, Returns-after, Returns-of_eq, Returns-for_each,
  Returns-option, Returns-if, arith, >>=-eq-ok, ok_pair, Returns-eq-ok, for_each, find, value_error,
}
use memory_os.Domain.{
  ClaimStatus, ClaimStaleState, ConflictStrategy, ClaimRelationType, RelationMethod, EntityType,
  ScopeType,
}
use memory_os.Store.{
  Db, ClaimRow, ClaimVersionRow, MemoryRow, EntityRow, Action, JsonValue, get_claim, get_entity,
}
use memory_os.Entities.{resolve, learn_names, reuse_entity, follow_redirect}
use memory_os.Claims.Canonical.{Texts, normalize_entity_name}
use memory_os.Claims.Extraction.{
  validate_claim_candidates, ClaimCandidate, ClaimObject, literal, entity,
}
use memory_os.Claims.Predicates.{RelationshipDecision, classify_claim_values}
use memory_os.Claims.Versioning.{Change, transition, record_initial}
use memory_os.Claims.Versioning.Timeline.{IsWellFormed}
use memory_os.Claims.Versioning.Transition.{transition-IsWellFormed, record_initial-IsWellFormed}
use memory_os.Claims.Truth.Services.{Services, claims_of, refresh, audit_event}
use memory_os.Claims.Truth.Relations.{value_of, add_relation, is_conflict_decision}
use memory_os.Claims.Truth.Ensure.{
  resolve_object, add_evidence, new_claim, create_claim, existing_claims, evidence_text,
  extract_claims, ensure_claims, compare_pair, find_semantic_conflict_memories,
}
use memory_os.Claims.Truth.Lifecycle.{
  transition_each, reject_claims, forget_claims, expire_claims, mark_memory_stale, reset_claims,
  contest, apply_manual_conflict_resolution,
}
use memory_os.Claims.Truth.Activation.{move_unless, settle, activate_claim, activate_claims}

-- A property that a transition and a first version keep, that reads only versions and memories, and
-- that later identities to give do not harm.
pub record IsClosed (P : Db → Type 0) : Type 0 where
  pub transition_keeps :
      (t : Texts) (now : ℕ) (db : Db) (id : ℕ) (change : Change) (at : Option ℕ)
      → P db
      → Returns P (transition t now db id change at)
  pub record_initial_keeps :
      (t : Texts) (db : Db) (claim : ClaimRow) (actor reason : String) (at : Option ℕ)
      → P db
      → Returns (λ (r : Db × ClaimVersionRow). P r.0) (record_initial t db claim actor reason at)
  pub rows_keep :
      (db db' : Db)
      → db.versions ≡ db'.versions
      → db.memories ≡ db'.memories
      → db.next_id ≤ db'.next_id
      → P db
      → P db'

module _ (P : Db → Type 0) (c : IsClosed P) where
  abbrev pub First {ℓ} : {A : Type ℓ} → Db × A → Type 0
  First r = P r.0

  module _ (t : Texts) (now : ℕ) where
    pub transition-keeps :
        (db : Db) (id : ℕ) (change : Change) (at : Option ℕ)
        → P db
        → Returns P (transition t now db id change at)
    transition-keeps db id change at w = c.transition_keeps t now db id change at w

    pub transition_each-keeps :
        (test : ClaimRow → Bool) (change : ClaimRow → Change) (at : Option ℕ) (rows : List ClaimRow)
        (db : Db)
        → P db
        → Returns P (transition_each t now test change at rows db)
    unfolding transition_each
    transition_each-keeps test change at rows db w =
        Returns-for_each P _
          (λ d row h.
            Returns-if P (test (refresh d row)) _ _
              (transition-keeps d row.id (change (refresh d row)) at h) h)
          rows db w

    pub move_unless-keeps :
        (test : ClaimStatus → Bool) (change : ClaimRow → Change) (row : ClaimRow) (db : Db)
        → P db
        → Returns P (move_unless t now test change row db)
    unfolding move_unless
    move_unless-keeps test change row db w =
        Returns-if P (test (refresh db row).status) _ _ w
          (transition-keeps db row.id (change (refresh db row)) none w)

  pub add_relation-keeps :
      (left right : ClaimRow) (kind : ClaimRelationType) (method : RelationMethod) (db : Db)
      → P db
      → P (add_relation left right kind method db)
  unfolding add_relation
  add_relation-keeps left right kind method db w =
      c.rows_keep db (add_relation left right kind method db) (ground arith) (ground arith)
        (ground arith) w

  reuse_entity-keeps :
      (t : Texts) (db : Db) (row : EntityRow) (normalized name : String) (aliases : List String)
      → P db
      → Returns (First {A = EntityRow}) (reuse_entity t db row normalized name aliases)
  unfolding reuse_entity learn_names
  reuse_entity-keeps t db row normalized name aliases w =
      let learned = learn_names t db row normalized name aliases in
      Returns-after (First {A = EntityRow}) (follow_redirect learned.0 learned.1)
        (λ entity. ok (learned.0, entity))
        (λ entity e. c.rows_keep db learned.0 refl refl (omega arith) w)

  resolve-keeps :
      (t : Texts) (db : Db) (scope_type : ScopeType) (scope_key : String) (kind : EntityType)
      (name : String) (aliases : List String) (external : Option String)
      → P db
      → Returns
          (First {A = EntityRow})
          (resolve t db scope_type scope_key kind name aliases external)
  unfolding resolve
  resolve-keeps t db scope_type scope_key kind name aliases external w =
      let normalized = normalize_entity_name t (or_default external name) in
      Returns-option (First {A = EntityRow}) (find _ db.entities)
        (λ row. reuse_entity t db row normalized name aliases) _
        (λ row. reuse_entity-keeps t db row normalized name aliases w)
        (c.rows_keep db _ refl refl (omega arith) w)

  -- The result of `resolve_object`.
  abbrev ObjectFirst : Db × Option ℕ × JsonValue → Type 0
  ObjectFirst r = P r.0

  resolve_object-keeps :
      (s : Services) (memory : MemoryRow) (candidate : ClaimCandidate) (db : Db)
      → P db
      → Returns ObjectFirst (resolve_object s memory candidate db)
  unfolding resolve_object
  resolve_object-keeps s memory candidate db w = go candidate.object
    where
      go :
          (o : ClaimObject)
          → Returns ObjectFirst (resolve_object s memory (record candidate { object = o }) db)
      go (literal value) = w
      go (entity hint kind) =
          Returns-bind First ObjectFirst _ _
            (resolve-keeps s.texts db memory.scope_type memory.scope_key
              (or_default kind candidate.subject_type) hint [] none w)
            (λ r h. h)

  add_evidence-keeps :
      (memory : MemoryRow) (claim : ClaimRow) (candidate : ClaimCandidate) (db : Db)
      → P db
      → P (add_evidence memory claim candidate db)
  unfolding add_evidence
  add_evidence-keeps memory claim candidate db w =
      c.rows_keep db (add_evidence memory claim candidate db) (ground arith) (ground arith)
        (ground arith) w

  module _ (s : Services) (now : ℕ) where
    create_claim-keeps :
        (memory : MemoryRow) (r : Db × List ClaimRow) (candidate : ClaimCandidate)
        → P r.0
        → Returns First (create_claim s now memory r candidate)
    unfolding create_claim
    create_claim-keeps memory (db, claims) candidate w =
        Returns-bind First First _ _
          (resolve-keeps s.texts db memory.scope_type memory.scope_key candidate.subject_type
            candidate.subject_hint [] none w)
          (λ r h.
            Returns-bind ObjectFirst First _ _ (resolve_object-keeps s memory candidate r.0 h)
              (λ o k.
                let claim = new_claim now memory candidate o.0.next_id r.1.id o.1 o.2 in
                let db3 = record o.0 {
                  claims = o.0.claims ++ claim ∷ [];
                  next_id = o.0.next_id + 1;
                } in
                Returns-bind (First {A = ClaimVersionRow}) (First {A = List ClaimRow}) _ _
                  (c.record_initial_keeps s.texts db3 claim "system:claim-extractor"
                    "Evidence-bound claim extracted" none
                    (c.rows_keep o.0 db3 refl refl (omega arith) k))
                  (λ v m. add_evidence-keeps memory claim candidate v.0 m)))

    pub ensure_claims-keeps :
        (db : Db) (memory : MemoryRow) (candidates : Option (List ClaimCandidate))
        → P db
        → Returns First (ensure_claims s now db memory candidates)
    unfolding ensure_claims extract_claims audit_event
    ensure_claims-keeps db memory candidates w = existing (existing_claims db memory)
      where
        checked : List ClaimCandidate × List ClaimCandidate
        checked =
            validate_claim_candidates s.texts
              (elim (or_default candidates []) [
                | [] ↦ s.extract memory (evidence_text memory)
                | c ∷ cs ↦ c ∷ cs
              ])
              (evidence_text memory)

        audited :
            (r : List ClaimCandidate)
            → P (elim r [
              | [] ↦ db
              | c ∷ cs ↦ audit_event Action.claim_extraction_rejected memory.id "system" now db
            ])
        audited [] = w
        audited (x ∷ xs) = c.rows_keep db _ refl refl (omega arith) w

        existing :
            (rows : List ClaimRow)
            → Returns (First {A = List ClaimRow}) (elim rows [
              | [] ↦ extract_claims s now db memory candidates
              | c ∷ cs ↦ ok (db, c ∷ cs)
            ])
        existing [] =
            Returns-for_each (First {A = List ClaimRow}) (create_claim s now memory)
              (λ r x h. create_claim-keeps memory r x h) checked.0 _ (audited checked.1)
        existing (x ∷ xs) = w

    pub is_conflict_decision-keeps :
        (db : Db) (left right : ClaimRow) (decision : RelationshipDecision)
        → P db
        → P (is_conflict_decision s db left right decision).0
    unfolding is_conflict_decision add_relation
    is_conflict_decision-keeps db left right decision w =
        c.rows_keep db (is_conflict_decision s db left right decision).0 (ground arith)
          (ground arith) (ground arith) w

    compare_pair-keeps :
        (r : Db × List MemoryRow) (p : ClaimRow × ClaimRow)
        → P r.0
        → Returns (First {A = List MemoryRow}) (compare_pair s r p)
    unfolding compare_pair
    compare_pair-keeps (db, conflicts) (new, old) w =
        Returns-after (First {A = List MemoryRow})
          (expect (get_entity db new.subject_entity_id) key_error) _
          (λ x e.
            Returns-after (First {A = List MemoryRow})
              (expect (get_entity db old.subject_entity_id) key_error) _
              (λ y k.
                is_conflict_decision-keeps db new old
                  (classify_claim_values s.texts (value_of db x new) (value_of db y old)) w))

    pub find_semantic_conflict_memories-keeps :
        (db : Db) (candidate : MemoryRow)
        → P db
        → Returns (First {A = List MemoryRow}) (find_semantic_conflict_memories s now db candidate)
    unfolding find_semantic_conflict_memories
    find_semantic_conflict_memories-keeps db candidate w =
        Returns-bind (First {A = List ClaimRow}) (First {A = List MemoryRow})
          (ensure_claims s now db candidate none) _ (ensure_claims-keeps db candidate none w)
          (λ r h.
            Returns-for_each (First {A = List MemoryRow}) (compare_pair s)
              (λ r p k. compare_pair-keeps r p k) _ _ h)
