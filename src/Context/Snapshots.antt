-- ===== src/Context/Snapshots.antt =====
-- context/delta.py: `ContextSnapshotStore`, on the table of its rows. Fingerprints and SHA-256 are
-- arguments; times are instants in microseconds, in UTC.
pub mod Lasting
use memory_os.Base.{
  ℕ, zero, suc, ◌+◌, ◌*◌, String, Bool, true, false, ◌&&◌, ◌||◌, not, Option, none, some, List, [],
  ◌∷◌, ◌++◌, map, keep, any, sort_by, ltb, leb, ◌==◌, str_eq, row_at, find, if◌then◌else◌,
}
use memory_os.Domain.{TokenCounterKind, is_exact}
use memory_os.Context.Bundles.{ContextAtom}
use memory_os.Context.Delta.{Item}
use memory_os.Context.Payload.{TokenCounter}
use memory_os.Context.Renderers.{render_full_items}

pub record ContextSnapshotRow : Type 0 where
  pub id : ℕ
  pub base_snapshot_id : Option ℕ
  pub request_fingerprint : String
  pub scope_fingerprint : String
  pub policy_hash : String
  pub tokenizer_id : String
  pub counter_kind : TokenCounterKind
  pub items_json : List Item
  pub full_text_sha256 : String
  pub full_estimated_tokens : ℕ
  pub created_at : ℕ
  pub expires_at : ℕ

-- `context_snapshot_ttl_seconds` and `context_snapshot_cleanup_batch_size`
pub record SnapshotSettings : Type 0 where
  pub ttl_seconds : ℕ
  pub cleanup_batch_size : ℕ

-- What the store needs of a request: its two fingerprints.
pub record Fingerprints : Type 0 where
  pub request : String
  pub scope : String

-- `SnapshotLookup`: a snapshot, or the reason why there is none.
pub data SnapshotLookup : Type 0 where
  snapshot : ContextSnapshotRow → SnapshotLookup
  fallback : String → SnapshotLookup

-- `atom.snapshot_item(index)`
unfoldable pub snapshot_item : ℕ → ContextAtom → Item
snapshot_item index a = record {
  ordinal = index;
  memory_id = a.memory_id;
  section = a.section;
  rendered_text = a.rendered_text;
  atom_sha256 = a.atom_sha256;
  evidence_pointer_version = a.evidence_pointer_version;
  bundle_key = a.bundle_key;
  truth_state = a.truth_state;
  compression_policy = a.compression_policy;
}

-- `[atom.snapshot_item(index) for index, atom in enumerate(atoms)]`
unfoldable pub items_from : ℕ → List ContextAtom → List Item
unfolding snapshot_item
items_from index [] = []
items_from index (a ∷ atoms) = snapshot_item index a ∷ items_from (index + 1) atoms

abbrev pub snapshot_items : List ContextAtom → List Item
snapshot_items = items_from 0

-- renderers.py
unfoldable pub render_full : List ContextAtom → String
unfolding items_from render_full_items
render_full atoms = render_full_items (snapshot_items atoms)

abbrev pub same_kind : TokenCounterKind → TokenCounterKind → Bool
same_kind TokenCounterKind.exact TokenCounterKind.exact = true
same_kind TokenCounterKind.estimated TokenCounterKind.estimated = true
same_kind _ _ = false

-- `.limit(n)`
unfoldable pub take {ℓ} : {A : Type ℓ} → ℕ → List A → List A
take zero xs = []
take (suc n) [] = []
take (suc n) (x ∷ xs) = x ∷ take n xs

abbrev pub is_expired : ℕ → ContextSnapshotRow → Bool
is_expired current row = leb row.expires_at current

-- The rows that `cleanup_expired` selects.
unfoldable pub expired_batch :
    SnapshotSettings → String → ℕ → List ContextSnapshotRow → List ContextSnapshotRow
unfolding take
expired_batch settings scope_hash current rows = take settings.cleanup_batch_size (
    sort_by (λ a b. ltb a.expires_at b.expires_at)
      (keep (λ r. str_eq r.scope_fingerprint scope_hash && is_expired current r) rows))

unfoldable pub cleanup_expired :
    SnapshotSettings → String → ℕ → List ContextSnapshotRow → List ContextSnapshotRow
unfolding expired_batch
cleanup_expired settings scope_hash current rows =
    keep (λ r. not (any (λ old. old.id == r.id) (expired_batch settings scope_hash current rows)))
      rows

module _ (sha256 : String → String) where
  -- The tests of `load_valid` on the row that it found, in their order.
  unfoldable pub validate_snapshot :
      Fingerprints → String → TokenCounter → ℕ → ContextSnapshotRow → SnapshotLookup
  unfolding render_full_items
  validate_snapshot prints policy_hash counter current row =
      if is_expired current row
      then fallback "snapshot_expired"
      else if not (str_eq row.scope_fingerprint prints.scope)
      then fallback "scope_mismatch"
      else if not (str_eq row.tokenizer_id counter.tokenizer_id)
          || not (same_kind row.counter_kind counter.kind)
      then fallback "tokenizer_mismatch"
      else if not (str_eq row.policy_hash policy_hash)
      then fallback "policy_mismatch"
      else if not (str_eq (sha256 (render_full_items row.items_json)) row.full_text_sha256)
      then fallback "snapshot_integrity_failure"
      else snapshot row

  unfoldable pub load_valid :
      SnapshotSettings
      → ℕ
      → Fingerprints
      → String
      → TokenCounter
      → ℕ
      → List ContextSnapshotRow
      → SnapshotLookup × List ContextSnapshotRow
  unfolding validate_snapshot cleanup_expired
  load_valid settings snapshot_id prints policy_hash counter current rows = (
    elim (row_at (λ (r : ContextSnapshotRow). r.id) snapshot_id rows) [
      | none ↦ fallback "snapshot_unavailable"
      | some row ↦ validate_snapshot prints policy_hash counter current row
    ],
    cleanup_expired settings prints.scope current rows,
  )

  -- The row of `create`.
  unfoldable pub new_snapshot :
      SnapshotSettings
      → ℕ
      → Option ℕ
      → Fingerprints
      → String
      → TokenCounter
      → List ContextAtom
      → String
      → ℕ
      → ℕ
      → ContextSnapshotRow
  unfolding items_from
  new_snapshot settings context_id base prints policy_hash counter atoms full_text full_tokens
        current =
      record {
        id = context_id;
        base_snapshot_id = base;
        request_fingerprint = prints.request;
        scope_fingerprint = prints.scope;
        policy_hash = policy_hash;
        tokenizer_id = counter.tokenizer_id;
        counter_kind = counter.kind;
        items_json = snapshot_items atoms;
        full_text_sha256 = sha256 full_text;
        full_estimated_tokens = full_tokens;
        created_at = current;
        expires_at = current + settings.ttl_seconds * 1_000_000;
      }

  unfoldable pub create :
      SnapshotSettings
      → ℕ
      → Option ℕ
      → Fingerprints
      → String
      → TokenCounter
      → List ContextAtom
      → String
      → ℕ
      → ℕ
      → List ContextSnapshotRow
      → List ContextSnapshotRow
  unfolding new_snapshot
  create settings context_id base prints policy_hash counter atoms full_text full_tokens current
        rows =
      rows
      ++ new_snapshot settings context_id base prints policy_hash counter atoms full_text
          full_tokens current
        ∷ []
