-- ===== src/Engine/Lifecycle/Conflicts.antt =====
-- engine/service.py: `_find_conflicts` gives active memories.
use memory_os.Base.{
  ℕ, Bool, true, false, ◌≡◌, refl, sym, subst, Option, none, some, List, [], ◌∷◌, ◌++◌, map, any,
  arith, ◌==◌, ==_iff, keep, All, All-map, All-both, All-keep, All-keep_self, All-append,
  All-of_map, expect, key_error, Returns, Returns-bind, Returns-after, Returns-for_each_All,
  find_sound, if◌then◌else◌,
}
use memory_os.Domain.{is_active}
use memory_os.Store.{Db, MemoryRow, ClaimRow, get_memory, get_entity}
use memory_os.Claims.Predicates.{classify_claim_values}
use memory_os.Claims.Truth.Services.{Services}
use memory_os.Claims.Truth.Relations.{value_of}
use memory_os.Claims.Truth.Ensure.{
  is_active_claim, add_memory, compare_pair, pairs, find_semantic_conflict_memories, ensure_claims,
}
use memory_os.Claims.Truth.Keeps.{First, is_conflict_decision-keeps, ensure_claims-keeps}
use memory_os.Claims.Truth.Keeps.Instances.{HasMemories, HasMemories-IsClosed}
use memory_os.Engine.{Engine, exact_conflicts, find_conflicts, by_id}
use memory_os.Engine.Lifecycle.Keys.{ids, at_id, at_id_self, AreDistinctIds, IsOn}

-- An active memory of the rows.
abbrev pub IsActive : List MemoryRow → MemoryRow → Type 0
IsActive rows x = IsOn is_active x.id rows

add_memory-All :
    (P : MemoryRow → Type 0) (x : MemoryRow) (rows : List MemoryRow)
    → P x
    → All P rows
    → All P (add_memory x rows)
add_memory-All P x rows h all = go (any (λ row. row.id == x.id) rows)
  where
    go : (b : Bool) → All P (if b then rows else rows ++ x ∷ [])
    go true = all
    go false = All-append P rows (x ∷ []) all (h, tt)

by_id-All :
    (P : MemoryRow → Type 0) (seen rows : List MemoryRow)
    → All P seen
    → All P rows
    → All P (by_id seen rows)
by_id-All P seen [] h k = h
by_id-All P seen (x ∷ rows) h (p, k) =
    by_id-All P (add_memory x seen) rows (add_memory-All P x seen p h) k

exact_conflicts-IsActive :
    (e : Engine) (db : Db) (candidate : MemoryRow)
    → AreDistinctIds (ids db.memories)
    → All (IsActive db.memories) (exact_conflicts e db candidate)
unfolding exact_conflicts
exact_conflicts-IsActive e db candidate d =
    All-both (λ x. at_id x.id db.memories ≡ some x) (λ x. _ ≡ true) (IsActive db.memories)
      (λ x at h. (x, at, ground (arith, h))) (exact_conflicts e db candidate)
      (All-keep (λ x. at_id x.id db.memories ≡ some x) _ db.memories (at_id_self db.memories d))
      (All-keep_self _ db.memories)

module _ (s : Services) (now : ℕ) (candidate : MemoryRow) (rows : List MemoryRow) where
  -- The owner of a claim in force.
  owner-IsActive :
      (db : Db) (claim : ClaimRow) {m : MemoryRow}
      → is_active_claim now db candidate claim ≡ true
      → get_memory db claim.memory_id ≡ some m
      → is_active m.status ≡ true
  unfolding is_active_claim
  owner-IsActive db claim h at = ground (arith, h, at)

  found-All :
      (conflicts : List MemoryRow) (o : Option MemoryRow)
      → ((m : MemoryRow) → o ≡ some m → IsActive rows m)
      → All (IsActive rows) conflicts
      → All
          (IsActive rows)
          (elim o [ none ↦ conflicts | some memory ↦ add_memory memory conflicts ])
  found-All conflicts none h all = all
  found-All conflicts (some m) h all = add_memory-All (IsActive rows) m conflicts (h m refl) all

  chosen-All :
      (P : MemoryRow → Type 0) (b : Bool) (xs ys : List MemoryRow)
      → All P xs
      → All P ys
      → All P (if b then xs else ys)
  chosen-All P true xs ys h k = h
  chosen-All P false xs ys h k = k

  abbrev Searched : Db × List MemoryRow → Type 0
  Searched r = HasMemories rows r.0 × All (IsActive rows) r.1

  -- A claim whose memory is active.
  abbrev IsOwned : ClaimRow → Type 0
  IsOwned claim = (m : MemoryRow) → at_id claim.memory_id rows ≡ some m → is_active m.status ≡ true

  compare_pair-IsActive :
      (r : Db × List MemoryRow) (p : ClaimRow × ClaimRow)
      → IsOwned p.1
      → Searched r
      → Returns Searched (compare_pair s r p)
  unfolding compare_pair get_memory
  compare_pair-IsActive (db, conflicts) (new, old) owned (same, all) =
      Returns-after Searched (expect (get_entity db new.subject_entity_id) key_error) _ (λ x _.
        Returns-after Searched (expect (get_entity db old.subject_entity_id) key_error) _ (λ y _.
          let decision = classify_claim_values s.texts (value_of db x new) (value_of db y old) in
          (
            is_conflict_decision-keeps (HasMemories rows) (HasMemories-IsClosed rows) s now db new
                old decision same,
            chosen-All (IsActive rows) _ _ conflicts
                (found-All conflicts (at_id old.memory_id db.memories)
                  (λ m at.
                    let stored : at_id old.memory_id rows ≡ some m =
                      subst (λ l. at_id old.memory_id l ≡ some m) same at in
                    let named : m.id ≡ old.memory_id =
                      (==_iff m.id old.memory_id).0
                        (find_sound (λ (x : MemoryRow). x.id == old.memory_id) rows stored) in
                    (m, subst (λ i. at_id i rows ≡ some m) (sym named) stored, owned m stored))
                  all)
                all,
          )))

  pairs-All :
      (news olds : List ClaimRow)
      → All IsOwned olds
      → All (λ (p : ClaimRow × ClaimRow). IsOwned p.1) (pairs news olds)
  pairs-All [] olds h = tt
  pairs-All (new ∷ news) olds h =
      All-append (λ (p : ClaimRow × ClaimRow). IsOwned p.1) (map (λ old. (new, old)) olds)
        (pairs news olds)
        (All-of_map (λ (p : ClaimRow × ClaimRow). IsOwned p.1) (λ old. (new, old)) olds h)
        (pairs-All news olds h)

  find_semantic_conflict_memories-IsActive :
      (db : Db)
      → HasMemories rows db
      → Returns Searched (find_semantic_conflict_memories s now db candidate)
  unfolding find_semantic_conflict_memories get_memory
  find_semantic_conflict_memories-IsActive db same =
      Returns-bind (First (HasMemories rows) (HasMemories-IsClosed rows) {A = List ClaimRow})
        Searched (ensure_claims s now db candidate none) _
        (ensure_claims-keeps (HasMemories rows) (HasMemories-IsClosed rows) s now db candidate none
          same)
        (λ r h.
          Returns-for_each_All Searched (λ (p : ClaimRow × ClaimRow). IsOwned p.1) (compare_pair s)
            compare_pair-IsActive _ _
            (pairs-All r.1 (keep (is_active_claim now r.0 candidate) r.0.claims) (
              All-map (λ c. is_active_claim now r.0 candidate c ≡ true) IsOwned
                (λ c k m at.
                  owner-IsActive r.0 c k (subst (λ l. at_id c.memory_id l ≡ some m) (sym h) at))
                _ (All-keep_self (is_active_claim now r.0 candidate) r.0.claims)))
            (h, tt))

pub find_conflicts-IsActive :
    (e : Engine) (now : ℕ) (db : Db) (candidate : MemoryRow)
    → AreDistinctIds (ids db.memories)
    → Returns
        (λ (r : Db × List MemoryRow). HasMemories db.memories r.0 × All (IsActive db.memories) r.1)
        (find_conflicts e now db candidate)
unfolding find_conflicts
find_conflicts-IsActive e now db candidate d =
    Returns-bind (Searched e.truth now candidate db.memories)
      (λ (r : Db × List MemoryRow). HasMemories db.memories r.0 × All (IsActive db.memories) r.1) _
      _ (find_semantic_conflict_memories-IsActive e.truth now candidate db.memories db refl)
      (λ r h. (
        h.0,
        by_id-All (IsActive db.memories) [] (exact_conflicts e db candidate ++ r.1) tt (
            All-append (IsActive db.memories) (exact_conflicts e db candidate) r.1
              (exact_conflicts-IsActive e db candidate d) h.1),
      ))
