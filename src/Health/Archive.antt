-- ===== src/Health/Archive.antt =====
-- health/service.py: what an archive leaves of the support of claims.
use memory_os.Base.{
  ℕ, String, true, false, ◌&&◌, not, Option, none, some, List, [], ◌∷◌, ◌≡◌, ◌≢◌, refl, sym, ap,
  subst, ◌∙◌, any, find, All, ◌==◌, ==_refl, require-eq-ok, any_mono, All-all-keep, All-map,
  or_default, Bool-cases, inl, inr, arith, ok, expect, require, not_found, invalid_transition,
  >>=-eq-ok, ok-injective, row_at, row_at-update_at, row_at-update_at_other,
}
use memory_os.Domain.{is_active}
use memory_os.Store.{
  Db, MemoryRow, MemoryHealthRow, ClaimVersionRow, Action, get_memory, get_health, update_health,
}
use memory_os.Claims.Truth.Services.{audit_event}
use memory_os.Health.{
  new_health, ensure_health, version_is_current, is_accepted_version, is_unarchived,
  memory_is_current, supports, is_truth_safe, next_archive_event_moment, archived, archive,
}

-- The row after `ensure_health`.
abbrev pub ensured : ℕ → ℕ → Option MemoryHealthRow → MemoryHealthRow
ensured id now o = or_default o (new_health id now)

row_at-absent :
    (id : ℕ) (rows : List MemoryHealthRow)
    → any (λ row. row.memory_id == id) rows ≡ false
    → row_at (λ row. row.memory_id) id rows ≡ none
unfolding any find
row_at-absent id [] h = refl
row_at-absent id (x ∷ rows) h = ground (arith, row_at-absent id rows)

row_at-present :
    (id now : ℕ) (rows : List MemoryHealthRow)
    → any (λ row. row.memory_id == id) rows ≡ true
    → row_at (λ row. row.memory_id) id rows
      ≡ some (ensured id now (row_at (λ row. row.memory_id) id rows))
unfolding any find
row_at-present id now [] h = cc
row_at-present id now (x ∷ rows) h = elim (Bool-cases (x.memory_id == id)) [
  | inl e ↦ rw e refl
  | inr e ↦ rw e (row_at-present id now rows (rw (e, any) at h))
]

pub row_at-ensure_health :
    (id now : ℕ) (rows : List MemoryHealthRow)
    → row_at (λ row. row.memory_id) id (ensure_health id now rows)
      ≡ some (ensured id now (row_at (λ row. row.memory_id) id rows))
unfolding ensure_health find
row_at-ensure_health id now rows = elim (Bool-cases (any (λ row. row.memory_id == id) rows)) [
  | inl e ↦ rw e (row_at-present id now rows e)
  | inr e ↦ rw (e, row_at-absent id rows e, ==_refl id) refl
]

pub row_at-ensure_health_other :
    (id now other : ℕ) (rows : List MemoryHealthRow)
    → id ≢ other
    → row_at (λ row. row.memory_id) other (ensure_health id now rows)
      ≡ row_at (λ row. row.memory_id) other rows
unfolding ensure_health find
row_at-ensure_health_other id now other rows apart = ground arith

-- The database after an archive that returned.
module _ (now : ℕ) (db : Db) (id : ℕ) (actor : String) {db' : Db}
    (done : archive now db id actor ≡ ok db') where
  archive-eq-ok :
      (is_truth_safe db now id ≡ true)
      × (audit_event Action.health_archive id actor
            (next_archive_event_moment db now id)
            (record db {
              health =
                  update_health id
                    (archived (next_archive_event_moment db now id))
                    (ensure_health id (next_archive_event_moment db now id) db.health);
            })
          ≡ db')
  unfolding archive
  archive-eq-ok =
      let (memory, found, h1) = >>=-eq-ok (expect (get_memory db id) not_found) _ done in
      let (_, safe, h2) = >>=-eq-ok (require (is_truth_safe db now id) invalid_transition) _ h1 in
      (require-eq-ok (is_truth_safe db now id) invalid_transition safe, ok-injective h2)

  pub get_health-archive :
      get_health db' id
      ≡ some (
          archived
            (next_archive_event_moment db now id)
            (ensured id (next_archive_event_moment db now id) (get_health db id)))
  unfolding get_health update_health audit_event
  get_health-archive =
      ap (λ d. get_health d id) (sym archive-eq-ok.1)
      ∙ row_at-update_at (λ row. row.memory_id) (archived (next_archive_event_moment db now id))
          (λ row. refl) id _
          (row_at-ensure_health id (next_archive_event_moment db now id) db.health)

  get_health-archive_other : (other : ℕ) → id ≢ other → get_health db' other ≡ get_health db other
  unfolding get_health update_health audit_event
  get_health-archive_other other apart =
      ap (λ d. get_health d other) (sym archive-eq-ok.1)
      ∙ row_at-update_at_other (λ row. row.memory_id)
          (archived (next_archive_event_moment db now id)) (λ row. refl) id other _ apart
      ∙ row_at-ensure_health_other id (next_archive_event_moment db now id) other db.health apart

  supports-archive :
      (identity_id : ℕ) (v : ClaimVersionRow)
      → (not (v.memory_id == id) && supports db now identity_id v) ≡ true
      → supports db' now identity_id v ≡ true
  unfolding supports get_memory audit_event
  supports-archive identity_id v h =
      let apart : id ≢ v.memory_id = ground arith in
      let rest : supports db now identity_id v ≡ true = ground arith in
      let same_memories : db.memories ≡ db'.memories = ap (λ d. d.memories) archive-eq-ok.1 in
      rw (get_health-archive_other v.memory_id apart) (
        subst
          (λ (rows : List MemoryRow).
            (v.identity_id == identity_id
              && is_accepted_version v
              && is_unarchived (get_health db v.memory_id)
              && version_is_current v now
              && (elim (row_at (λ row. row.id) v.memory_id rows) [
                | none ↦ false
                | some memory ↦ is_active memory.status && memory_is_current memory now
              ]))
            ≡ true)
          same_memories rest)

  -- If an archive returns, then every identity that had a current accepted version of the archived
  -- memory still has a supporting version afterwards: open, accepted and current, of an active and
  -- current memory that is not in the archive.
  pub archive-supports :
      All
        (λ v.
          (v.memory_id == id && is_accepted_version v && version_is_current v now) ≡ true
          → any (supports db' now v.identity_id) db'.versions ≡ true)
        db.versions
  unfolding is_truth_safe audit_event
  archive-supports =
      let same : db.versions ≡ db'.versions = ap (λ d. d.versions) archive-eq-ok.1 in
      All-map _ _
        (λ v f e.
          subst (λ rows. any (supports db' now v.identity_id) rows ≡ true) same
            (any_mono (λ o. not (o.memory_id == id) && supports db now v.identity_id o)
              (supports db' now v.identity_id) (supports-archive v.identity_id) db.versions (f e)))
        db.versions
        (All-all-keep
          (λ v. any (λ o. not (o.memory_id == id) && supports db now v.identity_id o) db.versions)
          (λ v. v.memory_id == id && is_accepted_version v && version_is_current v now) db.versions
          archive-eq-ok.0)
