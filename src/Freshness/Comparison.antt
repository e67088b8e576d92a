-- ===== src/Freshness/Comparison.antt =====
-- freshness/git_compare.py: a result is kept for its commit, and agrees with `classify_mutation`.
use memory_os.Base.{
  ℕ, ◌≡◌, refl, sym, ap, ◌∙◌, String, Bool, true, false, ◌&&◌, ◌||◌, not, none, some, str_eq,
  eq_iff, is_none, if◌then◌else◌, Bool-cases, Option-cases, inl, inr, arith,
}
use memory_os.Domain.{FreshnessState}
use memory_os.Freshness.{
  SourceAnchor, FreshnessResult, GitContext, Repository, Texts, text_or, classify_mutation, bare,
  same_line, is_exact_excerpt, symbol_result, excerpt_result, symbol_at, same_blob, compare_file,
  relocated, compare_missing, is_cached, cached_result, compare_now, compare_anchor,
  apply_freshness_result,
}

str_eq_refl : (s : String) → str_eq s s ≡ true
str_eq_refl s = (eq_iff s s).1 refl

-- A result of this commit whose path is one.
abbrev IsOf : String → SourceAnchor → FreshnessResult → Type 0
IsOf head a r = (r.head ≡ some head) × (text_or (some r.path) a.path ≡ r.path)

text_or_self : (p : String) → text_or (some p) p ≡ p
text_or_self p = elim (Bool-cases (str_eq p "")) [ inl e ↦ rw e | inr e ↦ rw e ]

module _ (t : Texts) (repository : Repository) (a : SourceAnchor) (head : String) where
  compare_file-IsOf :
      (path : String)
      → text_or (some path) a.path ≡ path
      → IsOf head a (compare_file t repository a head path)
  unfolding compare_file symbol_result excerpt_result
  compare_file-IsOf path h = ground (arith, h)

  relocated-named :
      (new : String) → relocated t repository a ≡ some new → text_or (some new) a.path ≡ new
  unfolding relocated
  relocated-named new h = ground (arith, h)

  compare_missing-IsOf : IsOf head a (compare_missing t repository a head)
  unfolding compare_missing
  compare_missing-IsOf = elim (Option-cases (relocated t repository a)) [
    | inl e ↦ rw (e, compare_missing) (refl, text_or_self a.path)
    | inr (new, e) ↦
        let named = relocated-named new e in
        elim (Bool-cases (repository.is_inside new)) [
          | inr k ↦ rw (e, compare_missing, k) (refl, named)
          | inl k ↦ elim (Bool-cases (repository.is_file new)) [
            | inr l ↦ rw (e, compare_missing, k, l) (refl, named)
            | inl l ↦ rw (e, compare_missing, k, l) (compare_file-IsOf new named)
          ]
        ]
  ]

  compare_now-IsOf : IsOf head a (compare_now t repository a head)
  unfolding compare_now
  compare_now-IsOf = elim (Bool-cases (repository.is_file a.path)) [
    | inl e ↦ rw (e, compare_now) (compare_file-IsOf a.path (text_or_self a.path))
    | inr e ↦ rw (e, compare_now) compare_missing-IsOf
  ]

-- What a refresh reads again from an anchor to which a result was applied.
abbrev Agrees : FreshnessResult → FreshnessResult → Type 0
Agrees r s =
    (r.state ≡ s.state)
    × (r.path ≡ s.path)
    × (r.head ≡ s.head)
    × (r.line_start ≡ s.line_start)
    × (r.line_end ≡ s.line_end)

cached_again :
    (t : Texts) (repository : Repository) (now : ℕ) (a : SourceAnchor) (head : String)
    (r : FreshnessResult)
    → IsOf head a r
    → Agrees (cached_result t repository (apply_freshness_result t now a r) head) r
unfolding apply_freshness_result
cached_again t repository now a head r h = (refl, h.1, sym h.0, refl, refl)

now_cached :
    (t : Texts) (repository : Repository) (now : ℕ) (a : SourceAnchor) (head : String)
    (r : FreshnessResult)
    → r.head ≡ some head
    → is_cached t repository (apply_freshness_result t now a r) head ≡ true
unfolding apply_freshness_result
now_cached t repository now a head r h = rw (h, str_eq_refl head)

Agrees-of_eq : (r s : FreshnessResult) → r ≡ s → Agrees r s
Agrees-of_eq r s e = (
  ap (λ x. x.state) e,
  ap (λ x. x.path) e,
  ap (λ x. x.head) e,
  ap (λ x. x.line_start) e,
  ap (λ x. x.line_end) e,
)

-- The branches of the comparison.
abbrev is_open : Repository → SourceAnchor → GitContext → Bool
is_open repository a context =
    str_eq context.stable_key a.repository_stable_key && repository.is_inside a.path

module _ (t : Texts) (repository : Repository) (a : SourceAnchor) where
  unavailable :
      repository.context ≡ none
      → compare_anchor t repository a ≡ bare FreshnessState.unknown a.path none
  unfolding compare_anchor
  unavailable e = rw (e, compare_anchor)

  closed :
      (context : GitContext)
      → repository.context ≡ some context
      → is_open repository a context ≡ false
      → compare_anchor t repository a ≡ bare FreshnessState.unknown a.path (some context.head)
  unfolding compare_anchor
  closed context e h = rw (e, compare_anchor) (ground (arith, h))

  opened :
      (context : GitContext)
      → repository.context ≡ some context
      → is_open repository a context ≡ true
      → compare_anchor t repository a ≡ (
          if is_cached t repository a context.head
          then cached_result t repository a context.head
          else compare_now t repository a context.head)
  unfolding compare_anchor
  opened context e h = rw (e, compare_anchor) (ground (arith, h))

  opened-IsOf :
      (context : GitContext)
      → repository.context ≡ some context
      → is_open repository a context ≡ true
      → IsOf context.head a (compare_anchor t repository a)
  opened-IsOf context e h =
      rw (opened context e h) (elim (Bool-cases (is_cached t repository a context.head)) [
        | inl k ↦ rw k (refl, ground arith)
        | inr k ↦ rw k (compare_now-IsOf t repository a context.head)
      ])

-- Comparing an anchor again with the same repository, after the result of a comparison was applied,
-- gives the same state, path, commit and lines.
pub compare_anchor-apply_freshness_result :
    (t : Texts) (repository : Repository) (now : ℕ) (a : SourceAnchor)
    → let r = compare_anchor t repository a in
      let s = compare_anchor t repository (apply_freshness_result t now a r) in
      (s.state ≡ r.state)
      × (s.path ≡ r.path)
      × (s.head ≡ r.head)
      × (s.line_start ≡ r.line_start)
      × (s.line_end ≡ r.line_end)
unfolding apply_freshness_result
compare_anchor-apply_freshness_result t repository now a =
    let r = compare_anchor t repository a in
    let a' = apply_freshness_result t now a r in
    elim (Option-cases repository.context) [
      | inl e ↦
          Agrees-of_eq (compare_anchor t repository a') r
            (unavailable t repository a' e ∙ sym (unavailable t repository a e))
      | inr (context, e) ↦ elim (Bool-cases (is_open repository a context)) [
        | inr k ↦
            Agrees-of_eq (compare_anchor t repository a') r
              (closed t repository a' context e k ∙ sym (closed t repository a context e k))
        | inl k ↦
            let of = opened-IsOf t repository a context e k in
            let open' = opened t repository a' context e k in
            let cached = now_cached t repository now a context.head r of.0 in
            rw (open', cached) (cached_again t repository now a context.head r of)
      ]
    ]

-- The answers that `classify_mutation` takes, for the file at a path.
module _ (t : Texts) (repository : Repository) (a : SourceAnchor) (path : String) where
  abbrev pub has_symbol : Bool
  has_symbol = not (is_none (symbol_at t repository a path))

  abbrev pub is_equivalent : Bool
  is_equivalent = elim (symbol_at t repository a path) [
    | none ↦ false
    | some symbol ↦ is_exact_excerpt t repository a symbol.excerpt
  ]

  abbrev pub similarity : ℕ
  similarity = elim (symbol_at t repository a path) [
    | none ↦ 0
    | some symbol ↦ t.ratio (t.normalized a.evidence_excerpt) (t.normalized symbol.excerpt)
  ]

  -- The excerpt is found where no symbol is.
  abbrev pub is_refound : Bool
  is_refound =
      not has_symbol
      && not (str_eq a.evidence_excerpt "")
      && not (is_none (t.line_of (repository.source path) a.evidence_excerpt))

  -- The symbol starts at another line.
  abbrev pub is_shifted : Bool
  is_shifted = elim (symbol_at t repository a path) [
    | none ↦ false
    | some symbol ↦ not (same_line symbol.line_start a.line_start)
  ]

  -- The state of a file that is there is the one that `classify_mutation` gives for the same answers,
  -- except that, where the blob has changed, an equivalent symbol at another line and an excerpt
  -- found again without its symbol count as moved.
  pub compare_file-classify_mutation :
      (head : String)
      → (compare_file t repository a head path).state ≡ (
          if not (same_blob t repository a path) && (is_refound || (is_equivalent && is_shifted))
          then FreshnessState.moved
          else classify_mutation true
              (same_blob t repository a path)
              (not (str_eq path a.path))
              has_symbol
              is_equivalent
              similarity)
  unfolding compare_file symbol_result excerpt_result classify_mutation
  compare_file-classify_mutation head = ground arith
