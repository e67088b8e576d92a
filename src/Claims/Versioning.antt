-- ===== src/Claims/Versioning.antt =====
-- claims/versioning.py: `ClaimVersionStore`.
pub mod Timeline
pub mod Transition
pub mod Numbering
pub mod Writes
pub mod Visible
pub mod Latest
pub mod Others
use memory_os.Base.{
  ℕ, ◌+◌, String, Bool, true, false, ◌&&◌, ◌||◌, not, Option, none, some, List, [], ◌∷◌, map, keep,
  any, find, is_none, ltb, leb, ◌==◌, if◌then◌else◌, or_default, Result, ok, expect, value_error,
  ◌>>=◌, sort_by, str_eq,
}
use memory_os.Domain.{ClaimStatus, ClaimStaleState, ScopeType, same_scope}
use memory_os.Temporal.{within}
use memory_os.Store.{
  Db, ClaimRow, ClaimIdentityRow, ClaimVersionRow, get_memory, get_entity, get_claim, update_claim,
}
use memory_os.Claims.Canonical.{Texts, canonical_predicate, stable_claim_identity}

-- The scalar of a query ordered by `version_number.desc()`.
unfoldable pub newest : List ClaimVersionRow → Option ClaimVersionRow
newest [] = none
newest (v ∷ rest) = elim (newest rest) [
  | none ↦ some v
  | some w ↦ if leb w.version_number v.version_number then some v else some w
]

-- `func.max(ClaimVersionRow.version_number) or 0`
unfoldable pub max_number : List ClaimVersionRow → ℕ
max_number [] = 0
max_number (v ∷ rest) =
    let n = max_number rest in if leb n v.version_number then v.version_number else n

-- The rows of one claim.
unfoldable pub history : ℕ → List ClaimVersionRow → List ClaimVersionRow
history claim_id = keep (λ v. v.claim_id == claim_id)

abbrev pub is_open : ClaimVersionRow → Bool
is_open v = is_none v.transaction_to

unfoldable pub current_version : ℕ → List ClaimVersionRow → Option ClaimVersionRow
unfolding newest history
current_version claim_id rows = newest (keep is_open (history claim_id rows))

-- `ClaimVersionStore._snapshot`
unfoldable pub snapshot : ClaimRow → ℕ → ℕ → ℕ → String → String → ℕ → ClaimVersionRow
snapshot claim id identity_id version_number actor reason at = record {
  id = id;
  claim_id = claim.id;
  identity_id = identity_id;
  memory_id = claim.memory_id;
  version_number = version_number;
  object_entity_id = claim.object_entity_id;
  object_value = claim.object_value;
  polarity = claim.polarity;
  valid_from = claim.valid_from;
  valid_to = claim.valid_to;
  transaction_from = at;
  transaction_to = none;
  status = claim.status;
  stale_state = claim.stale_state;
  confidence = claim.confidence;
  reason = reason;
  actor = actor;
}

unfoldable pub identity_for : Texts → Db → ClaimRow → Result (Db × ClaimIdentityRow)
identity_for t db claim = do
  subject ← expect (get_entity db claim.subject_entity_id) value_error
  let stable =
      stable_claim_identity t subject.scope_type subject.scope_key subject.id claim.predicate
  let existing =
      find
        (λ row.
          same_scope row.scope_type subject.scope_type
          && str_eq row.scope_key subject.scope_key
          && str_eq row.stable_identity stable)
        db.identities
  let created : ClaimIdentityRow = record {
    id = db.next_id;
    scope_type = subject.scope_type;
    scope_key = subject.scope_key;
    subject_entity_id = subject.id;
    canonical_subject = subject.normalized_name;
    canonical_predicate = canonical_predicate t claim.predicate;
    stable_identity = stable;
    created_at = claim.recorded_at;
  }
  elim existing [
    | some identity ↦ ok (db, identity)
    | none ↦
        ok (record db { identities = created ∷ db.identities; next_id = db.next_id + 1 }, created)
  ]

-- A version row added to the table.
unfoldable pub add_version : ClaimVersionRow → Db → Db
add_version version db = record db { versions = version ∷ db.versions; next_id = db.next_id + 1 }

-- The rest of `record_initial`, for a claim with no version.
unfoldable pub first_version :
    Texts → Db → ClaimRow → String → String → Option ℕ → Result (Db × ClaimVersionRow)
unfolding add_version
first_version t db claim actor reason at = do
  (db', identity) ← identity_for t db claim
  let version =
      snapshot claim db'.next_id identity.id 1 actor reason (or_default at claim.recorded_at)
  ok (add_version version db', version)

unfoldable pub record_initial :
    Texts → Db → ClaimRow → String → String → Option ℕ → Result (Db × ClaimVersionRow)
record_initial t db claim actor reason at = elim (find (λ v. v.claim_id == claim.id) db.versions) [
  | some existing ↦ ok (db, existing)
  | none ↦ first_version t db claim actor reason at
]

-- The keyword arguments of `transition`. `valid_to` is `none` for the default `...`.
pub record Change : Type 0 where
  pub actor : String
  pub reason : String
  pub status : Option ClaimStatus
  pub stale_state : Option ClaimStaleState
  pub valid_to : Option (Option ℕ)

-- The assignments to the claim.
unfoldable pub assign : Change → ClaimRow → ClaimRow
assign c claim = record claim {
  status = or_default c.status claim.status;
  stale_state = or_default c.stale_state claim.stale_state;
  valid_to = or_default c.valid_to claim.valid_to;
}

-- A change is recorded at least one microsecond after the version that it ends.
unfoldable pub next_moment : ℕ → ℕ → ℕ
next_moment moment start = if leb moment start then start + 1 else moment

-- `current.transaction_to = moment`; a version's key is its claim and number.
unfoldable pub end_version : ClaimVersionRow → ℕ → List ClaimVersionRow → List ClaimVersionRow
end_version current moment = map (λ v.
    if v.claim_id == current.claim_id && v.version_number == current.version_number
    then record v { transaction_to = some moment }
    else v)

-- The open version, or the first one, recorded late.
unfoldable pub current_or_initial : Texts → Db → ClaimRow → Result (Db × ClaimVersionRow)
current_or_initial t db claim = elim (current_version claim.id db.versions) [
  | some current ↦ ok (db, current)
  | none ↦ record_initial t db claim "system:compatibility" "Lazy V2.1 history backfill" none
]

-- The writes of `transition` once the current version is known.
unfoldable pub advance : Change → ℕ → ClaimRow → ClaimVersionRow → Db → Db
unfolding assign end_version add_version
advance change moment claim current db =
    let rows = end_version current moment db.versions in
    let number = max_number (history claim.id rows) + 1 in
    let version =
      snapshot (assign change claim) db.next_id current.identity_id number change.actor
        change.reason moment in
    add_version version
      (record db { claims = update_claim claim.id (assign change) db.claims; versions = rows })

-- `transition`: `now` is read when `at` is not given.
unfoldable pub transition : Texts → ℕ → Db → ℕ → Change → Option ℕ → Result Db
unfolding advance next_moment
transition t now db claim_id change at = do
  claim ← expect (get_claim db claim_id) value_error
  memory ← expect (get_memory db claim.memory_id) value_error
  (db', current) ← current_or_initial t db claim
  let moment = next_moment (or_default at now) current.transaction_from
  ok (advance change moment claim current db')

pub record VersionQuery : Type 0 where
  pub valid_time : ℕ
  pub known_time : ℕ
  pub scope_type : Option ScopeType
  pub scope_key : Option String
  pub predicate : Option String
  pub statuses : Option (ClaimStatus → Bool)

-- The `where` clauses on a version.
unfoldable pub is_visible_row : VersionQuery → ClaimVersionRow → Bool
is_visible_row q v =
    within (some v.transaction_from) v.transaction_to q.known_time
    && within v.valid_from v.valid_to q.valid_time
    && (elim q.statuses [ none ↦ true | some allowed ↦ allowed v.status ])

-- The `where` clauses on the joined identity.
unfoldable pub is_visible_identity : Texts → VersionQuery → ClaimIdentityRow → Bool
is_visible_identity t q identity =
    (elim q.scope_type [ none ↦ true | some s ↦ same_scope identity.scope_type s ])
    && (elim q.scope_key [ none ↦ true | some k ↦ str_eq identity.scope_key k ])
    && (elim q.predicate [
      | none ↦ true
      | some p ↦ str_eq identity.canonical_predicate (canonical_predicate t p)
    ])

-- The window's order: latest transaction first, then the larger number, then the smaller id.
unfoldable pub outranks : ClaimVersionRow → ClaimVersionRow → Bool
outranks v w =
    ltb w.transaction_from v.transaction_from
    || (v.transaction_from == w.transaction_from
        && (ltb w.version_number v.version_number
            || (v.version_number == w.version_number && ltb v.id w.id)))

-- `order_by(claim_id, id)`
unfoldable pub row_order : ClaimVersionRow → ClaimVersionRow → Bool
row_order v w = ltb v.claim_id w.claim_id || (v.claim_id == w.claim_id && ltb v.id w.id)

-- `visibility_rank == 1`
unfoldable pub top_ranked : List ClaimVersionRow → List ClaimVersionRow
unfolding outranks
top_ranked rows = keep (λ v. not (any (λ w. w.claim_id == v.claim_id && outranks w v) rows)) rows

unfoldable pub joined : Texts → VersionQuery → List ClaimIdentityRow → ClaimVersionRow → Bool
joined t q identities v = any (λ i. i.id == v.identity_id && is_visible_identity t q i) identities

unfoldable pub visible_versions : Texts → Db → VersionQuery → List ClaimVersionRow
unfolding is_visible_row joined top_ranked row_order
visible_versions t db q =
    sort_by row_order
      (top_ranked (keep (λ v. is_visible_row q v && joined t q db.identities v) db.versions))
