-- ===== src/Consolidation/Grounded.antt =====
-- consolidation/proposer.py: whatever the judge answers, a proposal rests on the evidence of its
-- cluster.
use memory_os.Base.{
  ℕ, String, Bool, true, false, ◌&&◌, ◌||◌, not, Option, none, some, List, [], ◌∷◌, ◌++◌, map, keep,
  any, all, is_empty, ◌≡◌, refl, sym, ◌∙◌, ap, arith, ◌==◌, ==_iff, Bool-cases, inl, inr, All,
  All-map, if◌then◌else◌, some-injective, subst,
}
use memory_os.Consolidation.{
  EpisodeClaim, Thresholds, is_thin, dominant_assertion, asserts, elem, unique, ClusterStatus,
  Judgement, Judge, Proposal, accept_judgement, judge_cluster, extracted, propose_cluster,
}

keep_and :
    {A : Type 0} (p q : A → Bool) (xs : List A)
    → All (λ x. q x ≡ true) (keep p xs)
    → keep (λ x. p x && q x) xs ≡ keep p xs
unfolding keep
keep_and p q [] h = refl
keep_and p q (x ∷ xs) h = elim (Bool-cases (p x)) [
  | inl e ↦ let (own, rest) = rw e at h in rw (e, own, keep_and p q xs rest)
  | inr e ↦ let rest = rw e at h in rw (e, keep_and p q xs rest)
]

keep_ext :
    {A : Type 0} (p q : A → Bool) → ((x : A) → p x ≡ q x) → (xs : List A) → keep p xs ≡ keep q xs
unfolding keep
keep_ext p q same [] = refl
keep_ext p q same (x ∷ xs) = rw (same x, keep_ext p q same xs)

elem-drop :
    (i j : ℕ) (ids : List ℕ) → (j == i) ≡ false → elem i (keep (λ k. not (k == j)) ids) ≡ elem i ids
unfolding any keep
elem-drop i j [] h = refl
elem-drop i j (k ∷ ids) h = ground (arith, elem-drop i j ids h)

elem-unique : (i : ℕ) (ids : List ℕ) → elem i (unique ids) ≡ elem i ids
unfolding unique any
elem-unique i [] = refl
elem-unique i (j ∷ ids) = elim (Bool-cases (j == i)) [
  | inl e ↦ rw e refl
  | inr e ↦ rw (e, elem-drop i j (unique ids) e) (elem-unique i ids)
]

empty-unique : (ids : List ℕ) → is_empty (unique ids) ≡ is_empty ids
unfolding unique
empty-unique [] = refl
empty-unique (i ∷ ids) = refl

empty-append : (xs ys : List ℕ) → is_empty (xs ++ ys) ≡ true → is_empty ys ≡ true
empty-append [] ys h = h
empty-append (x ∷ xs) ys h = cc

-- A group in which nothing fails a test.
none_against :
    (f : EpisodeClaim → ℕ) (p : EpisodeClaim → Bool) (rows : List EpisodeClaim)
    → is_empty (map f (keep (λ r. not (p r)) rows)) ≡ true
    → All (λ r. p r ≡ true) rows
unfolding keep
none_against f p [] h = tt
none_against f p (r ∷ rows) h = elim (Bool-cases (p r)) [
  | inl e ↦ (e, none_against f p rows (rw e at h))
  | inr e ↦ ground (arith, e, h)
]

any_kept :
    (p q : EpisodeClaim → Bool) (xs : List EpisodeClaim)
    → any p (keep q xs) ≡ true
    → any p xs ≡ true
unfolding any keep
any_kept p q [] h = h
any_kept p q (x ∷ xs) h = elim (Bool-cases (q x)) [
  | inl e ↦ ground (arith, e, h, any_kept p q xs)
  | inr e ↦ ground (arith, e, h, any_kept p q xs)
]

elem-map :
    (i : ℕ) (rows : List EpisodeClaim)
    → elem i (map (λ r. r.memory_id) rows) ≡ any (λ r. r.memory_id == i) rows
unfolding any
elem-map i [] = refl
elem-map i (r ∷ rows) = rw (elem-map i rows) refl

-- The guards that an accepted answer has passed.
passed :
    {A : Type 0} (a b c d : Bool) (x : A) {y : A}
    → (if a then none else if b then none else if c then none else if d then none else some x)
      ≡ some y
    → (b ≡ false) × (c ≡ false) × (d ≡ false) × (x ≡ y)
passed true b c d x h = cc
passed false true c d x h = cc
passed false false true d x h = cc
passed false false false true x h = cc
passed false false false false x h = (refl, refl, refl, some-injective h)

known :
    (p : ℕ → Bool) (xs ys : List ℕ) (i : ℕ)
    → all p (xs ++ ys) ≡ true
    → elem i xs ≡ true
    → p i ≡ true
unfolding all any
known p [] ys i h k = cc
known p (x ∷ xs) ys i h k = elim (Bool-cases (x == i)) [
  | inl e ↦
      let own : p x ≡ true = ground (arith, h) in subst (λ j. p j ≡ true) ((==_iff x i).0 e) own
  | inr e ↦
      let rest : all p (xs ++ ys) ≡ true = ground (arith, h) in
      let later : elem i xs ≡ true = ground (arith, e, k) in known p xs ys i rest later
]

All-all : {A : Type 0} (p : A → Bool) (xs : List A) → all p xs ≡ true → All (λ x. p x ≡ true) xs
unfolding all
All-all p [] h = tt
All-all p (x ∷ xs) h =
    let own : p x ≡ true = ground (arith, h) in
    let rest : all p xs ≡ true = ground (arith, h) in (own, All-all p xs rest)

own_ids :
    (rows : List EpisodeClaim)
    → All (λ r. elem r.memory_id (map (λ x. x.memory_id) rows) ≡ true) rows
unfolding any
own_ids [] = tt
own_ids (r ∷ rows) =
    let here : (r.memory_id == r.memory_id) ≡ true = (==_iff r.memory_id r.memory_id).1 refl in
    (
      rw here refl,
      All-map (λ x. elem x.memory_id (map (λ y. y.memory_id) rows) ≡ true)
          (λ x. elem x.memory_id (map (λ y. y.memory_id) (r ∷ rows)) ≡ true)
          (λ x h. ground (arith, h)) rows (own_ids rows),
    )

-- The episodes of a cluster that a proposal names as its sources and that assert the same.
abbrev pub evidence_of : String × String → List EpisodeClaim → Proposal → List EpisodeClaim
evidence_of dominant group p =
    keep (λ r. asserts dominant r && elem r.memory_id p.source_memory_ids) group

pub record IsGrounded (limits : Thresholds) (dominant : String × String) (group : List EpisodeClaim)
    (p : Proposal) : Type 0 where
  pub members :
      (i : ℕ) → elem i p.source_memory_ids ≡ true → any (λ r. r.memory_id == i) group ≡ true
  pub evidence : is_thin limits (evidence_of dominant group p) ≡ false
  pub unopposed : p.status ≡ ClusterStatus.candidate → All (λ r. asserts dominant r ≡ true) group

module _ (limits : Thresholds) (dominant : String × String) (group : List EpisodeClaim) where
  candidate_if :
      (b : Bool)
      → (if b then ClusterStatus.contested else ClusterStatus.candidate) ≡ ClusterStatus.candidate
      → b ≡ false
  candidate_if true h = cc
  candidate_if false h = refl

  accept_judgement-IsGrounded :
      (result : Judgement) {p : Proposal}
      → accept_judgement limits dominant group result ≡ some p
      → IsGrounded limits dominant group p
  unfolding accept_judgement
  accept_judgement-IsGrounded result h =
      let ids = unique result.supporting_memory_ids in
      let rows = keep (λ r. elem r.memory_id ids) group in
      let listed =
        all (λ i. any (λ r. r.memory_id == i) group)
          (result.supporting_memory_ids ++ result.counterevidence_memory_ids) in
      let mixed =
        any (λ i. elem i result.counterevidence_memory_ids) result.supporting_memory_ids in
      let (allowed, agreed, thick, made) =
        passed (result.abstains || not result.has_proposal) (not listed || mixed)
          (is_empty rows || not (all (asserts dominant) rows)) (is_thin limits rows) _ h in
      let all_listed : listed ≡ true = ground (arith, allowed) in
      let all_agreed : all (asserts dominant) rows ≡ true = ground (arith, agreed) in
      subst (IsGrounded limits dominant group) made (record {
        members = λ i k.
            known (λ i. any (λ r. r.memory_id == i) group) result.supporting_memory_ids
              result.counterevidence_memory_ids i all_listed
              (sym (elem-unique i result.supporting_memory_ids) ∙ k);
        evidence =
            let together : All (λ r. asserts dominant r ≡ true) rows =
              All-all (asserts dominant) rows all_agreed in
            let same =
              keep_ext (λ r. asserts dominant r && elem r.memory_id ids)
                (λ r. elem r.memory_id ids && asserts dominant r) (λ r. ground arith) group
              ∙ keep_and (λ r. elem r.memory_id ids) (asserts dominant) group together in
            ap (is_thin limits) same ∙ thick;
        unopposed = λ k.
            let against = map (λ r. r.memory_id) (keep (λ r. not (asserts dominant r)) group) in
            let counters = result.counterevidence_memory_ids ++ against in
            let bare : is_empty (unique counters) ≡ true = ground (arith, candidate_if _ k) in
            none_against (λ r. r.memory_id) (asserts dominant) group
              (empty-append result.counterevidence_memory_ids against
                (sym (empty-unique counters) ∙ bare));
      })

  extracted-IsGrounded :
      is_thin limits (keep (asserts dominant) group) ≡ false
      → IsGrounded limits dominant group (extracted limits dominant group)
  unfolding extracted
  extracted-IsGrounded thick =
      let rows = keep (asserts dominant) group in
      let ids = map (λ r. r.memory_id) rows in
      record {
        members = λ i k.
            let among : any (λ r. r.memory_id == i) rows ≡ true =
              sym (elem-map i rows) ∙ sym (elem-unique i ids) ∙ k in
            any_kept (λ r. r.memory_id == i) (asserts dominant) group among;
        evidence =
            let listed =
              All-map (λ r. elem r.memory_id ids ≡ true) (λ r. elem r.memory_id (unique ids) ≡ true)
                (λ r h. elem-unique r.memory_id ids ∙ h) rows (own_ids rows) in
            ap (is_thin limits)
              (keep_and (asserts dominant) (λ r. elem r.memory_id (unique ids)) group listed)
            ∙ thick;
        unopposed = λ k. none_against (λ r. r.memory_id) (asserts dominant) group (emptied _ k);
      }
    where
      emptied :
          (xs : List EpisodeClaim)
          → (if is_empty xs then ClusterStatus.candidate else ClusterStatus.contested)
            ≡ ClusterStatus.candidate
          → is_empty (map (λ r. r.memory_id) xs) ≡ true
      emptied [] h = refl
      emptied (x ∷ xs) h = cc

  judge_cluster-IsGrounded :
      (judge : Option Judge) {p : Proposal}
      → judge_cluster limits dominant group judge ≡ some p
      → IsGrounded limits dominant group p
  unfolding judge_cluster
  judge_cluster-IsGrounded none h = cc
  judge_cluster-IsGrounded (some judge) {p} h = answered (judge group) h
    where
      answered :
          (o : Option Judgement)
          → (elim o [ none ↦ none | some result ↦ accept_judgement limits dominant group result ])
            ≡ some p
          → IsGrounded limits dominant group p
      answered none k = cc
      answered (some result) k = accept_judgement-IsGrounded result k

-- Whatever the judge answers, or without one, a proposal for a cluster names only memories of the
-- cluster as its sources; the episodes of these that assert the dominant assertion come from as many
-- independent sources over as many days as the request demands; and it is a candidate rather than
-- contested only if every episode of the cluster makes that assertion.
pub propose_cluster-IsGrounded :
    (limits : Thresholds) (judge : Option Judge) (row : EpisodeClaim) (rows : List EpisodeClaim)
    {p : Proposal}
    → propose_cluster limits judge (row ∷ rows) ≡ some p
    → IsGrounded limits (dominant_assertion row rows) (row ∷ rows) p
unfolding propose_cluster
propose_cluster-IsGrounded limits judge row rows {p} h =
    let group = row ∷ rows in
    let dominant = dominant_assertion row rows in
    elim (Bool-cases (is_thin limits (keep (asserts dominant) group))) [
      | inl e ↦ nothing (rw e at h)
      | inr e ↦ chosen e (judge_cluster limits dominant group judge) refl (rw e at h)
    ]
  where
    nothing :
        ◌≡◌ {A = Option Proposal} none (some p)
        → IsGrounded limits (dominant_assertion row rows) (row ∷ rows) p
    nothing k = cc

    chosen :
        is_thin limits (keep (asserts (dominant_assertion row rows)) (row ∷ rows)) ≡ false
        → (o : Option Proposal)
        → judge_cluster limits (dominant_assertion row rows) (row ∷ rows) judge ≡ o
        → (elim o [
          | some judged ↦ some judged
          | none ↦ some (extracted limits (dominant_assertion row rows) (row ∷ rows))
        ])
          ≡ some p
        → IsGrounded limits (dominant_assertion row rows) (row ∷ rows) p
    chosen thick none at k =
        subst (IsGrounded limits (dominant_assertion row rows) (row ∷ rows)) (some-injective k)
          (extracted-IsGrounded limits (dominant_assertion row rows) (row ∷ rows) thick)
    chosen thick (some judged) at k =
        judge_cluster-IsGrounded limits (dominant_assertion row rows) (row ∷ rows) judge (at ∙ k)
