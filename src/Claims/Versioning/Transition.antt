-- ===== src/Claims/Versioning/Transition.antt =====
-- claims/versioning.py: `transition` and `record_initial` keep the timelines.
use memory_os.Base.{
  ℕ, suc, ◌+◌, ◌≤◌, ◌<◌, ◌≡◌, ◌≢◌, refl, ap, sym, subst, ◌∙◌, Option, none, some, String, List, [],
  ◌∷◌, keep, find, arith, ◌==◌, Bool-cases, inl, inr, ok, >>=-eq-ok, ok_pair, ok-injective, expect,
  Returns, Returns-of_eq, or_default, value_error,
}
use memory_os.Store.{Db, ClaimRow, ClaimVersionRow, ClaimIdentityRow, get_memory, get_claim}
use memory_os.Claims.Canonical.{Texts}
use memory_os.Claims.Versioning.{
  newest, max_number, history, is_open, current_version, snapshot, add_version, Change, assign,
  next_moment, end_version, advance, identity_for, first_version, record_initial,
  current_or_initial, transition,
}
use memory_os.Claims.Versioning.Timeline.{
  IsTimeline, IsWellFormed, history-Belongs, end_open, history-end_version, end_version_other,
  newest-open,
}

history-cons_same :
    (c : ℕ) (v : ClaimVersionRow) (rows : List ClaimVersionRow)
    → v.claim_id ≡ c
    → history c (v ∷ rows) ≡ v ∷ history c rows
unfolding history keep
history-cons_same c v rows e = ground arith

pub history-cons_other :
    (c : ℕ) (v : ClaimVersionRow) (rows : List ClaimVersionRow)
    → v.claim_id ≢ c
    → history c (v ∷ rows) ≡ history c rows
unfolding history keep
history-cons_other c v rows e = ground arith

module _ (change : Change) (moment : ℕ) (claim : ClaimRow) (current : ClaimVersionRow)
    (db : Db) where
  -- The rows of the claim after the change: a new open version in front of the ended ones.
  pub history-advance :
      (v : ClaimVersionRow) × (history claim.id (advance change moment claim current db).versions
        ≡ v ∷ end_version current moment (history claim.id db.versions))
      × (v.transaction_to ≡ none)
      × (v.transaction_from ≡ moment)
      × (v.version_number
          ≡ suc (max_number (end_version current moment (history claim.id db.versions))))
  unfolding advance snapshot add_version assign
  history-advance =
      let new : ClaimVersionRow =
        snapshot (assign change claim) db.next_id current.identity_id
          (max_number (history claim.id (end_version current moment db.versions)) + 1) change.actor
          change.reason moment in
      (
        new,
        history-cons_same claim.id new (end_version current moment db.versions) refl
            ∙ ap (◌∷◌ new) (history-end_version claim.id moment current db.versions),
        refl,
        refl,
        rw (history-end_version claim.id moment current db.versions) (omega arith),
      )

  pub history-advance_other :
      (c : ℕ)
      → c ≢ claim.id
      → current.claim_id ≡ claim.id
      → history c (advance change moment claim current db).versions ≡ history c db.versions
  unfolding advance snapshot add_version assign
  history-advance_other c h e =
      history-cons_other c _ _ (λ p. h (sym p))
      ∙ history-end_version c moment current db.versions
      ∙ end_version_other c moment current db.versions (λ p. h (p ∙ e))

  advance-IsWellFormed :
      IsWellFormed db.versions
      → current_version claim.id db.versions ≡ some current
      → current.transaction_from < moment
      → IsWellFormed (advance change moment claim current db).versions
  unfolding current_version
  advance-IsWellFormed w e k c =
      let (ended, count, owner) =
        end_open claim.id moment current (history claim.id db.versions) (w claim.id)
          (history-Belongs claim.id db.versions) e k in
      elim (Bool-cases (c == claim.id)) [
        | inl here ↦
            let (v, eq, no_end, from, number) = history-advance in
            let at : c ≡ claim.id = ground arith in
            rw (at, eq) (no_end, number ∙ ap suc count, rw from ended)
        | inr there ↦ rw (history-advance_other c (ground arith) owner) (w c)
      ]

history_of_absent :
    (c : ℕ) (rows : List ClaimVersionRow)
    → find (λ v. v.claim_id == c) rows ≡ none
    → history c rows ≡ []
unfolding history keep find
history_of_absent c [] h = refl
history_of_absent c (v ∷ rest) h = ground (arith, history_of_absent c rest)

absent_of_history :
    (c : ℕ) (rows : List ClaimVersionRow)
    → history c rows ≡ []
    → find (λ v. v.claim_id == c) rows ≡ none
unfolding history keep find
absent_of_history c [] h = refl
absent_of_history c (v ∷ rest) h = ground (arith, absent_of_history c rest)

empty_of_closed :
    (h : List ClaimVersionRow) → IsTimeline h → newest (keep is_open h) ≡ none → h ≡ []
empty_of_closed [] t e = refl
empty_of_closed (v ∷ rest) t e = cc (newest-open v rest t)

-- The first version of a claim.
abbrev IsFirst : ℕ → ClaimVersionRow → Type 0
IsFirst c v = (v.claim_id ≡ c) × (v.transaction_to ≡ none) × (v.version_number ≡ 1)

module _ (c : ℕ) (v : ClaimVersionRow) (rows : List ClaimVersionRow) (first : IsFirst c v)
    (absent : history c rows ≡ []) where
  add_first-IsWellFormed : IsWellFormed rows → IsWellFormed (v ∷ rows)
  add_first-IsWellFormed w d = elim (Bool-cases (d == c)) [
    | inl here ↦
        let at : d ≡ c = ground arith in
        rw (at, history-cons_same c v rows first.0, absent) (first.1, first.2, tt)
    | inr there ↦ rw (history-cons_other d v rows (ground arith)) (w d)
  ]

  add_first-current : current_version c (v ∷ rows) ≡ some v
  unfolding current_version
  add_first-current =
      rw (history-cons_same c v rows first.0, absent) (unfold newest keep in ground arith)

pub versions-identity_for :
    (t : Texts) (db : Db) (claim : ClaimRow) {db' : Db} {i : ClaimIdentityRow}
    → identity_for t db claim ≡ ok (db', i)
    → (db'.versions ≡ db.versions) × (db'.memories ≡ db.memories) × (db'.claims ≡ db.claims)
unfolding identity_for
versions-identity_for t db claim h = ground arith

module _ (t : Texts) (db : Db) (claim : ClaimRow) (w : IsWellFormed db.versions) where
  first_version-IsWellFormed :
      (actor reason : String) (at : Option ℕ) {db' : Db} {v : ClaimVersionRow}
      → history claim.id db.versions ≡ []
      → first_version t db claim actor reason at ≡ ok (db', v)
      → IsWellFormed db'.versions × (current_version claim.id db'.versions ≡ some v)
  unfolding first_version
  first_version-IsWellFormed actor reason at {db'} {v} absent h =
      let ((d, i), identified, rest) = >>=-eq-ok (identity_for t db claim) _ h in
      let (same, _, _) = versions-identity_for t db claim identified in
      let new : ClaimVersionRow =
        snapshot claim d.next_id i.id 1 actor reason (or_default at claim.recorded_at) in
      let rows : db'.versions ≡ new ∷ db.versions =
        unfold snapshot add_version in cc (same, rest) in
      let is_new : v ≡ new = unfold add_version in cc rest in
      let first : IsFirst claim.id new = unfold snapshot in (refl, refl, refl) in
      (
        subst IsWellFormed (sym rows)
            (add_first-IsWellFormed claim.id new db.versions first absent w),
        rw (rows, is_new) (add_first-current claim.id new db.versions first absent),
      )

  -- The current version is the open row of the table, which stays well formed.
  current_or_initial-IsWellFormed :
      {db' : Db} {v : ClaimVersionRow}
      → current_or_initial t db claim ≡ ok (db', v)
      → IsWellFormed db'.versions × (current_version claim.id db'.versions ≡ some v)
  unfolding current_or_initial record_initial current_version
  current_or_initial-IsWellFormed {db'} {v} h =
      go (current_version claim.id db.versions) refl
        (find (λ v. v.claim_id == claim.id) db.versions) refl h
    where
      go :
          (o : Option ClaimVersionRow)
          → current_version claim.id db.versions ≡ o
          → (f : Option ClaimVersionRow) → find (λ v. v.claim_id == claim.id) db.versions ≡ f
          → (elim o [
            | some current ↦ ok (db, current)
            | none ↦ elim f [
              | some existing ↦ ok (db, existing)
              | none ↦
                  first_version t db claim "system:compatibility" "Lazy V2.1 history backfill" none
            ]
          ])
            ≡ ok (db', v)
          → IsWellFormed db'.versions × (current_version claim.id db'.versions ≡ some v)
      go (some current) e f e' k =
          let (at, is_current) = ok_pair k in
          let kept = subst IsWellFormed (ap (λ d. d.versions) at) w in
          (kept, ap (λ d. current_version claim.id d.versions) (sym at) ∙ e ∙ ap some is_current)
      go none e (some x) e' k =
          cc (e', absent_of_history claim.id db.versions (empty_of_closed _ (w claim.id) e))
      go none e none e' k =
          first_version-IsWellFormed "system:compatibility" "Lazy V2.1 history backfill" none
            (history_of_absent claim.id db.versions e') k

-- `record_initial` on any claim, recorded before or not.
pub record_initial-IsWellFormed :
    (t : Texts) (db : Db) (claim : ClaimRow) (actor reason : String) (at : Option ℕ)
    → IsWellFormed db.versions
    → Returns
        (λ (r : Db × ClaimVersionRow). IsWellFormed r.0.versions)
        (record_initial t db claim actor reason at)
unfolding record_initial
record_initial-IsWellFormed t db claim actor reason at w =
    go (find (λ v. v.claim_id == claim.id) db.versions) refl
  where
    go :
        (o : Option ClaimVersionRow)
        → find (λ v. v.claim_id == claim.id) db.versions ≡ o
        → Returns
            (λ (r : Db × ClaimVersionRow). IsWellFormed r.0.versions)
            (elim o [
              | some existing ↦ ok (db, existing)
              | none ↦ first_version t db claim actor reason at
            ])
    go (some x) e = w
    go none e = Returns-of_eq _ (first_version t db claim actor reason at) (λ r k.
        (first_version-IsWellFormed t db claim w actor reason at
          (history_of_absent claim.id db.versions e) k).0)

pub lt-next_moment : (a b : ℕ) → a < next_moment b a
unfolding next_moment
lt-next_moment a b = ground arith

pub le-next_moment : (a b : ℕ) → b ≤ next_moment b a
unfolding next_moment
le-next_moment a b = ground arith

pub current_or_initial_of_open :
    (t : Texts) (db : Db) (claim : ClaimRow) (current : ClaimVersionRow)
    → current_version claim.id db.versions ≡ some current
    → current_or_initial t db claim ≡ ok (db, current)
unfolding current_or_initial
current_or_initial_of_open t db claim current e = rw (e, current_or_initial) refl

-- If the histories of all claims are timelines, they are after any transition that returns,
-- whatever the claim, the change, the clock and the requested time.
pub transition-IsWellFormed :
    (t : Texts) (now : ℕ) (db : Db) (claim_id : ℕ) (change : Change) (at : Option ℕ) {db' : Db}
    → IsWellFormed db.versions
    → transition t now db claim_id change at ≡ ok db'
    → IsWellFormed db'.versions
unfolding transition
transition-IsWellFormed t now db claim_id change at {db'} w h =
    let (claim, found, h1) = >>=-eq-ok (expect (get_claim db claim_id) value_error) _ h in
    let (memory, owned, h2) = >>=-eq-ok (expect (get_memory db claim.memory_id) value_error) _ h1 in
    let ((d, current), opened, h3) = >>=-eq-ok (current_or_initial t db claim) _ h2 in
    let (kept, is_current) = current_or_initial-IsWellFormed t db claim w opened in
    let moment = next_moment (or_default at now) current.transaction_from in
    subst (λ e. IsWellFormed e.versions) (ok-injective h3)
      (advance-IsWellFormed change moment claim current d kept is_current
        (lt-next_moment current.transaction_from (or_default at now)))
