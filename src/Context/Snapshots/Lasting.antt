-- ===== src/Context/Snapshots/Lasting.antt =====
-- context/delta.py: a snapshot that a client was given is found again until it expires, whatever
-- other requests do to the store.
use memory_os.Base.{
  ℕ, zero, suc, ◌+◌, ◌*◌, ◌≤◌, ◌<◌, ◌≡◌, ◌≢◌, refl, ◌∙◌, String, Bool, true, false, ◌&&◌, not,
  Option, none, some, List, [], ◌∷◌, ◌++◌, keep, any, ltb, ◌==◌, ==_iff, str_eq, eq_iff, row_at,
  find, All, All-map, All-keep, All-append, All-sort_by, arith, Bool-cases, inl, inr,
}
use memory_os.Domain.{TokenCounterKind}
use memory_os.Context.Bundles.{ContextAtom}
use memory_os.Context.Payload.{TokenCounter}
use memory_os.Context.Renderers.{render_full_items}
use memory_os.Context.Snapshots.{
  ContextSnapshotRow, SnapshotSettings, Fingerprints, snapshot, snapshot_items, render_full,
  same_kind, take, is_expired, expired_batch, cleanup_expired, validate_snapshot, load_valid,
  new_snapshot, create,
}

-- A call of the store by any request.
pub data StoreCall : Type 0 where
  creating :
      ℕ
      → Option ℕ
      → Fingerprints
      → String
      → TokenCounter
      → List ContextAtom
      → String
      → ℕ
      → ℕ
      → StoreCall
  loading : ℕ → Fingerprints → String → TokenCounter → ℕ → StoreCall

unfoldable pub store_step :
    (String → String)
    → SnapshotSettings
    → List ContextSnapshotRow
    → StoreCall
    → List ContextSnapshotRow
store_step sha256 s rows (creating id base prints policy counter atoms text tokens current) =
    create sha256 s id base prints policy counter atoms text tokens current rows
store_step sha256 s rows (loading id prints policy counter current) =
    (load_valid sha256 s id prints policy counter current rows).1

unfoldable pub store_run :
    (String → String)
    → SnapshotSettings
    → List ContextSnapshotRow
    → List StoreCall
    → List ContextSnapshotRow
unfolding store_step
store_run sha256 s rows [] = rows
store_run sha256 s rows (c ∷ calls) = store_run sha256 s (store_step sha256 s rows c) calls

-- The call does not take the identity `id`, and reads the clock before `end`.
abbrev pub IsBefore : ℕ → ℕ → StoreCall → Type 0
IsBefore id end (creating other base prints policy counter atoms text tokens current) = other ≢ id
IsBefore id end (loading other prints policy counter current) = current < end

abbrev key : ContextSnapshotRow → ℕ
key r = r.id

-- The row is found by its identity, and no row of that identity expires before `end`.
abbrev IsLasting : ℕ → ℕ → ContextSnapshotRow → List ContextSnapshotRow → Type 0
IsLasting id end row rows =
    (row_at key id rows ≡ some row)
    × All (λ (r : ContextSnapshotRow). (r.id == id) ≡ true → end ≤ r.expires_at) rows

All-take {ℓ κ} : {A : Type ℓ} (P : A → Type κ) (n : ℕ) (xs : List A) → All P xs → All P (take n xs)
unfolding take
All-take P zero xs h = tt
All-take P (suc n) [] h = tt
All-take P (suc n) (x ∷ xs) h = (h.0, All-take P n xs h.1)

All-kept {ℓ κ} :
    {A : Type ℓ} (P : A → Type κ) (q : A → Bool) (xs : List A)
    → All (λ x. q x ≡ true → P x) xs
    → All P (keep q xs)
unfolding keep
All-kept P q [] h = tt
All-kept P q (x ∷ xs) h = elim (Bool-cases (q x)) [
  | inl e ↦ rw e (h.0 e, All-kept P q xs h.1)
  | inr e ↦ rw e (All-kept P q xs h.1)
]

none_of {ℓ} :
    {A : Type ℓ} (p : A → Bool) (xs : List A) → All (λ x. p x ≡ false) xs → any p xs ≡ false
unfolding any
none_of p [] h = refl
none_of p (x ∷ xs) h = rw (h.0, none_of p xs h.1)

row_at-keep :
    (q : ContextSnapshotRow → Bool) (id : ℕ) (rows : List ContextSnapshotRow)
    {row : ContextSnapshotRow}
    → ((r : ContextSnapshotRow) → (r.id == id) ≡ true → q r ≡ true)
    → row_at key id rows ≡ some row
    → row_at key id (keep q rows) ≡ some row
unfolding find keep
row_at-keep q id [] passes h = cc
row_at-keep q id (x ∷ rows) {row} passes h = elim (Bool-cases (x.id == id)) [
  | inl e ↦ ground (arith, e, passes x e, h)
  | inr e ↦ elim (Bool-cases (q x)) [
    | inl k ↦ rw (k, find, e) (row_at-keep q id rows passes (rw (find, e) at h))
    | inr k ↦ rw k (row_at-keep q id rows passes (rw (find, e) at h))
  ]
]

module _ (s : SnapshotSettings) (id end : ℕ) (row : ContextSnapshotRow) where
  -- No row of the identity is in the batch.
  spared :
      (scope : String) (current : ℕ) (rows : List ContextSnapshotRow)
      → current < end
      → All (λ (r : ContextSnapshotRow). (r.id == id) ≡ true → end ≤ r.expires_at) rows
      → any (λ old. old.id == id) (expired_batch s scope current rows) ≡ false
  unfolding expired_batch
  spared scope current rows before h =
      let P = λ (r : ContextSnapshotRow). (r.id == id) ≡ false in
      let selected =
        λ (r : ContextSnapshotRow). str_eq r.scope_fingerprint scope && is_expired current r in
      none_of (λ old. old.id == id) _
        (All-take P s.cleanup_batch_size _ (
          All-sort_by (λ a b. ltb a.expires_at b.expires_at) P (keep selected rows)
            (All-kept P selected rows (
              All-map _ (λ r. selected r ≡ true → P r)
                (λ r later chosen. ground (arith, later, chosen, before)) rows h))))

  cleanup_expired-IsLasting :
      (scope : String) (current : ℕ) (rows : List ContextSnapshotRow)
      → current < end
      → IsLasting id end row rows
      → IsLasting id end row (cleanup_expired s scope current rows)
  unfolding cleanup_expired
  cleanup_expired-IsLasting scope current rows before h =
      let batch = expired_batch s scope current rows in
      let safe = spared scope current rows before h.1 in
      (
        row_at-keep (λ r. not (any (λ old. old.id == r.id) batch)) id rows
            (λ r e. let at : r.id ≡ id = (==_iff r.id id).0 e in rw (at, safe)) h.0,
        All-keep (λ r. (r.id == id) ≡ true → end ≤ r.expires_at) _ rows h.1,
      )

  append-IsLasting :
      (other : ContextSnapshotRow) (rows : List ContextSnapshotRow)
      → other.id ≢ id
      → IsLasting id end row rows
      → IsLasting id end row (rows ++ other ∷ [])
  unfolding find
  append-IsLasting other [] ne h = cc h.0
  append-IsLasting other (x ∷ rows) ne h = (
    still other (x ∷ rows) h.0,
    All-append (λ r. (r.id == id) ≡ true → end ≤ r.expires_at) (x ∷ rows) (other ∷ []) h.1
        ((λ e. absurd (ne ((==_iff other.id id).0 e))), tt),
  )
    where
      still :
          (other : ContextSnapshotRow) (rows : List ContextSnapshotRow)
          → row_at key id rows ≡ some row
          → row_at key id (rows ++ other ∷ []) ≡ some row
      still other [] h = cc h
      still other (x ∷ rows) h = ground (arith, h, still other rows)

  module _ (sha256 : String → String) where
    store_step-IsLasting :
        (rows : List ContextSnapshotRow) (c : StoreCall)
        → IsBefore id end c
        → IsLasting id end row rows
        → IsLasting id end row (store_step sha256 s rows c)
    unfolding store_step create load_valid new_snapshot
    store_step-IsLasting rows (creating other base prints policy counter atoms text tokens current)
          before h =
        append-IsLasting _ rows before h
    store_step-IsLasting rows (loading other prints policy counter current) before h =
        cleanup_expired-IsLasting prints.scope current rows before h

    store_run-IsLasting :
        (calls : List StoreCall) (rows : List ContextSnapshotRow)
        → All (IsBefore id end) calls
        → IsLasting id end row rows
        → IsLasting id end row (store_run sha256 s rows calls)
    unfolding store_run
    store_run-IsLasting [] rows before h = h
    store_run-IsLasting (c ∷ calls) rows before h =
        store_run-IsLasting calls (store_step sha256 s rows c) before.1
          (store_step-IsLasting rows c before.0 h)

fresh-IsLasting :
    (id end : ℕ) (row : ContextSnapshotRow) (rows : List ContextSnapshotRow)
    → row.id ≡ id
    → end ≤ row.expires_at
    → row_at key id rows ≡ none
    → IsLasting id end row (rows ++ row ∷ [])
unfolding find
fresh-IsLasting id end row [] e later h = (ground (arith, e), ((λ _. later), tt))
fresh-IsLasting id end row (x ∷ rows) e later h = elim (Bool-cases (x.id == id)) [
  | inl k ↦ cc (rw (k, find) at h)
  | inr k ↦
      let rest = fresh-IsLasting id end row rows e later (rw (k, find) at h) in
      (rw k rest.0, ((λ k'. cc (k, k')), rest.1))
]

same_kind_refl : (k : TokenCounterKind) → same_kind k k ≡ true
same_kind_refl TokenCounterKind.exact = refl
same_kind_refl TokenCounterKind.estimated = refl

str_eq_refl : (t : String) → str_eq t t ≡ true
str_eq_refl t = (eq_iff t t).1 refl

validate_snapshot-new_snapshot :
    (sha256 : String → String) (s : SnapshotSettings) (id : ℕ) (base : Option ℕ)
    (prints : Fingerprints) (policy : String) (counter : TokenCounter) (atoms : List ContextAtom)
    (tokens created now : ℕ)
    → now < created + s.ttl_seconds * 1_000_000
    → let row =
        new_snapshot sha256 s id base prints policy counter atoms
          (render_full atoms)
          tokens
          created in
      validate_snapshot sha256 prints policy counter now row ≡ snapshot row
unfolding validate_snapshot new_snapshot render_full
validate_snapshot-new_snapshot sha256 s id base prints policy counter atoms tokens created now h =
    ground (
      arith,
      h,
      str_eq_refl prints.scope,
      str_eq_refl counter.tokenizer_id,
      str_eq_refl policy,
      same_kind_refl counter.kind,
      str_eq_refl (sha256 (render_full_items (snapshot_items atoms))),
    )

load_valid-found :
    (sha256 : String → String) (s : SnapshotSettings) (id : ℕ) (prints : Fingerprints)
    (policy : String) (counter : TokenCounter) (now : ℕ) (rows : List ContextSnapshotRow)
    {row : ContextSnapshotRow}
    → row_at key id rows ≡ some row
    → (load_valid sha256 s id prints policy counter now rows).0
      ≡ validate_snapshot sha256 prints policy counter now row
unfolding load_valid
load_valid-found sha256 s id prints policy counter now rows h = rw (h, load_valid)

-- A snapshot that was created under a new identity is found again, with its items, by every load
-- for the same scope, policy and counter before its time to live has passed, whatever calls of other
-- requests come in between, if those create under other identities and read the clock before then.
pub load_valid-create :
    (sha256 : String → String) (s : SnapshotSettings) (id : ℕ) (base : Option ℕ)
    (prints : Fingerprints) (policy : String) (counter : TokenCounter) (atoms : List ContextAtom)
    (tokens created now : ℕ) (calls : List StoreCall) (rows : List ContextSnapshotRow)
    → row_at key id rows ≡ none
    → All (IsBefore id (created + s.ttl_seconds * 1_000_000)) calls
    → now < created + s.ttl_seconds * 1_000_000
    → let text = render_full atoms in
      let stored = create sha256 s id base prints policy counter atoms text tokens created rows in
      (load_valid sha256 s id prints policy counter now (store_run sha256 s stored calls)).0
      ≡ snapshot (new_snapshot sha256 s id base prints policy counter atoms text tokens created)
unfolding create
load_valid-create sha256 s id base prints policy counter atoms tokens created now calls rows fresh
      before h =
    let row =
      new_snapshot sha256 s id base prints policy counter atoms (render_full atoms) tokens
        created in
    let lasting =
      store_run-IsLasting s id (created + s.ttl_seconds * 1_000_000) row sha256 calls
        (rows ++ row ∷ []) before
        (unfold new_snapshot in
          fresh-IsLasting id (created + s.ttl_seconds * 1_000_000) row rows refl (omega arith)
            fresh) in
    load_valid-found sha256 s id prints policy counter now _ lasting.0
    ∙ (validate_snapshot-new_snapshot sha256 s id base prints policy counter atoms tokens created
        now h)
