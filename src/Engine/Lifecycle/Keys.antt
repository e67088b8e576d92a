-- ===== src/Engine/Lifecycle/Keys.antt =====
-- engine/service.py: stored memories have distinct identities, all of them given before.
use memory_os.Base.{
  ℕ, ◌<◌, Bool, true, false, ◌≡◌, refl, sym, subst, ◌∙◌, Option, some, List, [], ◌∷◌, map, any,
  arith, ◌==◌, ==_iff, Bool-cases, inl, inr, All, All-map, All-both, row_at, row_at-update_at_here,
  row_at-update_at_there, keys-update_at, find, some-injective,
}
use memory_os.Domain.{MemoryStatus}
use memory_os.Store.{Db, MemoryRow, update_memory}
use memory_os.Claims.Truth.Keeps.{IsClosed}
use memory_os.Claims.Truth.Keeps.Instances.{IsClosed-of_memories}
use memory_os.Engine.{set_memory}
use memory_os.Engine.Lifecycle.{can_become, can_become_trans}

abbrev pub ids : List MemoryRow → List ℕ
ids = map (λ m. m.id)

abbrev pub AreDistinctIds : List ℕ → Type 0
AreDistinctIds [] = Unit
AreDistinctIds (i ∷ is) = (any (λ j. j == i) is ≡ false) × AreDistinctIds is

abbrev pub HasDistinctIds : Db → Type 0
HasDistinctIds db = All (λ i. i < db.next_id) (ids db.memories) × AreDistinctIds (ids db.memories)

abbrev pub at_id : ℕ → List MemoryRow → Option MemoryRow
at_id = row_at (λ row. row.id)

unseen :
    (i : ℕ) (rows : List MemoryRow)
    → any (λ j. j == i) (ids rows) ≡ false
    → All (λ m. (i == m.id) ≡ false) rows
unfolding any
unseen i [] h = tt
unseen i (m ∷ rows) h =
    let miss : (i == m.id) ≡ false = ground (arith, h) in
    let rest : any (λ j. j == i) (ids rows) ≡ false = ground (arith, h) in
    (miss, unseen i rows rest)

-- Each stored memory is the one found by its identity.
pub at_id_self :
    (rows : List MemoryRow) → AreDistinctIds (ids rows) → All (λ m. at_id m.id rows ≡ some m) rows
unfolding find
at_id_self [] d = tt
at_id_self (x ∷ rows) (fresh, d) =
    let here : (x.id == x.id) ≡ true = (==_iff x.id x.id).1 refl in
    (
      rw here refl,
      All-both (λ m. (x.id == m.id) ≡ false) (λ m. at_id m.id rows ≡ some m)
          (λ m. at_id m.id (x ∷ rows) ≡ some m) (λ m miss at. rw (miss, at)) rows
          (unseen x.id rows fresh) (at_id_self rows d),
    )

-- A stored memory has a status that passes a test.
abbrev pub IsOn : (MemoryStatus → Bool) → ℕ → List MemoryRow → Type 0
IsOn p id rows = (m : MemoryRow) × (at_id id rows ≡ some m) × (p m.status ≡ true)

module _ (i : ℕ) (f : MemoryRow → MemoryRow) (same : (m : MemoryRow) → m.id ≡ i → (f m).id ≡ i)
    (rows : List MemoryRow) where
  pub update_memory-IsOn :
      (p : MemoryStatus → Bool) (id : ℕ)
      → ((m : MemoryRow) → at_id i rows ≡ some m → p m.status ≡ true → p (f m).status ≡ true)
      → IsOn p id rows
      → IsOn p id (update_memory i f rows)
  unfolding update_memory
  update_memory-IsOn p id keeps (m, at, h) = elim (Bool-cases (i == id)) [
    | inl e ↦
        let here : id ≡ i = sym ((==_iff i id).0 e) in
        let found : at_id i rows ≡ some m = subst (λ j. at_id j rows ≡ some m) here at in
        let moved = row_at-update_at_here (λ row. row.id) f i same rows found in
        (
          f m,
          subst (λ j. at_id j (update_memory i f rows) ≡ some (f m)) (sym here) moved,
          keeps m found h,
        )
    | inr e ↦
        (m, row_at-update_at_there (λ row. row.id) f i same id rows (ground (arith, e)) ∙ at, h)
  ]

  -- A write to a memory whose status it may change so.
  pub update_memory-become :
      (q : MemoryStatus → Bool) (s : MemoryStatus) (id : ℕ)
      → ((m : MemoryRow) → q m.status ≡ true → can_become m.status (f m).status ≡ true)
      → IsOn q i rows
      → IsOn (can_become s) id rows
      → IsOn (can_become s) id (update_memory i f rows)
  update_memory-become q s id moves (x, at, h) w =
      update_memory-IsOn (can_become s) id
        (λ m found k.
          let allowed : q m.status ≡ true =
            subst (λ (y : MemoryRow). q y.status ≡ true) (some-injective (sym at ∙ found)) h in
          can_become_trans s m.status (f m).status k (moves m allowed))
        w

-- The keys, and a condition on the rows.
abbrev pub Keyed : (List MemoryRow → Type 0) → Db → Type 0
Keyed C db = HasDistinctIds db × C db.memories

pub Keyed-IsClosed : (C : List MemoryRow → Type 0) → IsClosed (Keyed C)
Keyed-IsClosed C = IsClosed-of_memories (Keyed C) (λ db db' same later w.
    let (below, distinct) = w.0 in
    let moved = subst (λ rows. All (λ i. i < db.next_id) (ids rows)) same below in
    (
      (
        All-map (λ i. i < db.next_id) (λ i. i < db'.next_id) (λ i h. omega (arith, h, later))
            (ids db'.memories) moved,
        subst (λ rows. AreDistinctIds (ids rows)) same distinct,
      ),
      subst C same w.1,
    ))

pub set_memory-Keyed :
    (C D : List MemoryRow → Type 0) (i : ℕ) (f : MemoryRow → MemoryRow) (db : Db)
    → ((m : MemoryRow) → m.id ≡ i → (f m).id ≡ i)
    → (C db.memories → D (update_memory i f db.memories))
    → Keyed C db
    → Keyed D (set_memory i f db)
unfolding set_memory update_memory
set_memory-Keyed C D i f db same turn (keys, w) =
    let kept = sym (keys-update_at (λ row. row.id) f i same db.memories) in
    ((subst (All (λ i. i < db.next_id)) kept keys.0, subst AreDistinctIds kept keys.1), turn w)
