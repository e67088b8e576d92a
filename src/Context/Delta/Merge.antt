-- ===== src/Context/Delta/Merge.antt =====
-- context/delta.py: a delta and the atoms of the previous snapshot give the current atoms.
use memory_os.Base.{
  String, Bool, true, false, ◌&&◌, ◌||◌, not, Option, none, some, List, [], ◌∷◌, ◌++◌, ◌≡◌, refl,
  ◌∙◌, ap, any, any-sort_by, keep, str_eq, eq_iff, arith, text_before, find, Bool-cases, inl, inr,
}
use memory_os.Context.Delta.{
  Item, item_key, atom_order, by_key, item_at, has_key, same_item, is_same_in, is_expanded,
  is_added, is_changed, DeltaPlan, plan_delta,
}
use memory_os.Context.Delta.Dictionary.{
  last_at, by_key-IsDictionary, IsDictionary, item_at-by_key, any-item_at,
}

-- What a client that holds the previous atoms has after a delta: an entry that the delta names is
-- dropped, and the added and changed ones are taken over.
unfoldable pub apply_delta : DeltaPlan → List Item → List Item
unfolding has_key item_key by_key
apply_delta p olds =
    keep (λ old. not (has_key (item_key old) (p.removed ++ (p.added ++ p.changed)))) (by_key olds)
    ++ (p.added ++ p.changed)

-- The item has this key, text hash and evidence version.
abbrev pub has_content : String → String → String → Item → Bool
has_content key sha evidence i =
    str_eq (item_key i) key
    && (str_eq i.atom_sha256 sha && str_eq i.evidence_pointer_version evidence)

-- The test, of the item if there is one.
abbrev holds : Option Item → (Item → Bool) → Bool
holds none q = false
holds (some i) q = q i

any-append : (q : Item → Bool) (xs ys : List Item) → any q (xs ++ ys) ≡ (any q xs || any q ys)
unfolding any
any-append q [] ys = refl
any-append q (x ∷ xs) ys = ground (arith, any-append q xs ys)

any-keep : (q r : Item → Bool) (xs : List Item) → any q (keep r xs) ≡ any (λ x. r x && q x) xs
unfolding any keep
any-keep q r [] = refl
any-keep q r (x ∷ xs) = ground (arith, any-keep q r xs)

-- A kept part of a dictionary, tested by a test that only items with the key pass.
any-keep-item_at :
    (key : String) (q r : Item → Bool) (items : List Item)
    → ((i : Item) → q i ≡ true → str_eq (item_key i) key ≡ true)
    → IsDictionary items
    → any q (keep r items) ≡ holds (item_at key items) (λ i. r i && q i)
any-keep-item_at key q r items keyed h =
    any-keep q r items
    ∙ any-item_at key (λ i. r i && q i) items (λ i k. keyed i (ground (arith, k))) h
    ∙ go (item_at key items)
  where
    go :
        (o : Option Item)
        → (elim o [ none ↦ false | some i ↦ r i && q i ]) ≡ holds o (λ i. r i && q i)
    go none = refl
    go (some i) = refl

has_key-item_at :
    (key : String) (items : List Item) → has_key key items ≡ holds (item_at key items) (λ i. true)
unfolding has_key item_at find any
has_key-item_at key [] = refl
has_key-item_at key (x ∷ items) = ground (arith, has_key-item_at key items)

item_key-item_at :
    (key : String) (items : List Item) (i : Item)
    → item_at key items ≡ some i
    → str_eq (item_key i) key ≡ true
unfolding item_at find
item_key-item_at key [] i h = ground (arith, h)
item_key-item_at key (x ∷ items) i h = ground (arith, h, item_key-item_at key items i)

module _ (olds news : List Item) (key : String) where
  -- What a test that only items with the key pass finds in the parts of a plan.
  any-sent :
      (q : Item → Bool)
      → ((i : Item) → q i ≡ true → str_eq (item_key i) key ≡ true)
      → let p = plan_delta olds news in
        any q (p.added ++ p.changed) ≡ (
          holds (item_at key (by_key news)) (λ i. is_added olds news i && q i)
          || holds (item_at key (by_key news)) (λ i. is_changed olds news i && q i))
  unfolding plan_delta
  any-sent q keyed =
      let current = by_key news in
      let part = λ (r : Item → Bool).
        any-sort_by atom_order q (keep r current)
        ∙ any-keep-item_at key q r current keyed (by_key-IsDictionary news) in
      let p = plan_delta olds news in
      any-append q p.added p.changed
      ∙ (λ t. part (is_added olds news) t || part (is_changed olds news) t)

  any-named :
      (q : Item → Bool)
      → ((i : Item) → q i ≡ true → str_eq (item_key i) key ≡ true)
      → let p = plan_delta olds news in
        any q (p.removed ++ (p.added ++ p.changed)) ≡ (
          holds (item_at key (by_key olds)) (λ i. not (has_key (item_key i) (by_key news)) && q i)
          || (holds (item_at key (by_key news)) (λ i. is_added olds news i && q i)
              || holds (item_at key (by_key news)) (λ i. is_changed olds news i && q i)))
  unfolding plan_delta
  any-named q keyed =
      let p = plan_delta olds news in
      let gone = λ (i : Item). not (has_key (item_key i) (by_key news)) in
      let removed =
        any-sort_by (λ a b. text_before (item_key a) (item_key b)) q (keep gone (by_key olds))
        ∙ any-keep-item_at key q gone (by_key olds) keyed (by_key-IsDictionary olds) in
      any-append q p.removed (p.added ++ p.changed) ∙ (λ t. removed t || any-sent q keyed t)

  is_added_at :
      (c : Item) (found : Option Item)
      → item_key c ≡ key
      → item_at key (by_key olds) ≡ found
      → is_added olds news c ≡ not (holds found (λ i. true))
  unfolding is_added
  is_added_at c found k e =
      ap (λ j. not (has_key j (by_key olds))) k
      ∙ ap not (has_key-item_at key (by_key olds) ∙ ap (λ x. holds x (λ i. true)) e)

  is_same_at :
      (c : Item)
      → item_key c ≡ key
      → is_same_in (by_key olds) c ≡ holds (item_at key (by_key olds)) (λ i. same_item i c)
  unfolding is_same_in
  is_same_at c k =
      ap (λ j. elim (item_at j (by_key olds)) [ none ↦ false | some old ↦ same_item old c ]) k
      ∙ go (item_at key (by_key olds))
    where
      go :
          (o : Option Item)
          → (elim o [ none ↦ false | some old ↦ same_item old c ]) ≡ holds o (λ i. same_item i c)
      go none = refl
      go (some i) = refl

  is_changed_at :
      (c : Item) (found : Option Item)
      → item_key c ≡ key
      → item_at key (by_key olds) ≡ found
      → is_changed olds news c ≡ (
          holds found (λ i. true)
          && (not (holds found (λ i. same_item i c)) || is_expanded olds news c.bundle_key))
  unfolding is_changed
  is_changed_at c found k e =
      let known =
        ap (λ j. has_key j (by_key olds)) k
        ∙ has_key-item_at key (by_key olds)
        ∙ ap (λ x. holds x (λ i. true)) e in
      let same = is_same_at c k ∙ ap (λ x. holds x (λ i. same_item i c)) e in
      λ t. known t && (not (same t) || is_expanded olds news c.bundle_key)

module _ (olds news : List Item) (key sha evidence : String) where
  -- An earlier item that the plan neither drops nor replaces.
  abbrev is_left : Item → Bool
  is_left old =
      let p = plan_delta olds news in
      not (has_key (item_key old) (p.removed ++ (p.added ++ p.changed)))

  abbrev content : Item → Bool
  content = has_content key sha evidence

  any-apply_delta : any content (apply_delta (plan_delta olds news) olds) ≡ (
      holds (item_at key (by_key olds)) (λ i. is_left i && content i)
      || (holds (item_at key (by_key news)) (λ i. is_added olds news i && content i)
          || holds (item_at key (by_key news)) (λ i. is_changed olds news i && content i)))
  unfolding apply_delta
  any-apply_delta =
      let p = plan_delta olds news in
      let keyed : (i : Item) → content i ≡ true → str_eq (item_key i) key ≡ true =
        λ i h. ground (arith, h) in
      let left =
        any-keep-item_at key content is_left (by_key olds) keyed (by_key-IsDictionary olds) in
      any-append content (keep is_left (by_key olds)) (p.added ++ p.changed)
      ∙ (λ t. left t || any-sent olds news key content keyed t)

  is_left_at :
      (o : Item) (current : Option Item)
      → item_key o ≡ key
      → item_at key (by_key olds) ≡ some o
      → item_at key (by_key news) ≡ current
      → is_left o
        ≡ not (
            not (has_key (item_key o) (by_key news)) && str_eq (item_key o) key
            || (holds current (λ i. is_added olds news i && str_eq (item_key i) key)
                || holds current (λ i. is_changed olds news i && str_eq (item_key i) key)))
  unfolding has_key
  is_left_at o current k eo ec =
      let p = plan_delta olds news in
      let named = any-named olds news key (λ i. str_eq (item_key i) key) (λ i h. h) in
      ap (λ j. not (has_key j (p.removed ++ (p.added ++ p.changed)))) k
      ∙ ap not named
      ∙ rw (eo, ec) refl

  has_key-current :
      (o : Item) (current : Option Item)
      → item_key o ≡ key
      → item_at key (by_key news) ≡ current
      → has_key (item_key o) (by_key news) ≡ holds current (λ i. true)
  has_key-current o current k ec =
      ap (λ j. has_key j (by_key news)) k
      ∙ has_key-item_at key (by_key news)
      ∙ ap (λ x. holds x (λ i. true)) ec

  same-content :
      (o c : Item)
      → str_eq (item_key o) key ≡ true
      → str_eq (item_key c) key ≡ true
      → same_item o c ≡ true
      → content o ≡ content c
  unfolding same_item
  same-content o c ko kc same =
      let text = (eq_iff o.atom_sha256 c.atom_sha256).0 (ground (arith, same)) in
      let pointer =
        (eq_iff o.evidence_pointer_version c.evidence_pointer_version).0 (ground (arith, same)) in
      rw (ko, kc, text, pointer) refl

  merged :
      (o c : Option Item)
      → item_at key (by_key olds) ≡ o
      → item_at key (by_key news) ≡ c
      → (holds o (λ i. is_left i && content i)
          || (holds c (λ i. is_added olds news i && content i)
              || holds c (λ i. is_changed olds news i && content i)))
        ≡ (elim c [ none ↦ false | some new ↦ content new ])
  merged none none eo ec = refl
  merged none (some c) eo ec =
      let named = (eq_iff (item_key c) key).0 (item_key-item_at key (by_key news) c ec) in
      let added = is_added_at olds news key c none named eo in
      let changed = is_changed_at olds news key c none named eo in ground (arith, added, changed)
  merged (some o) none eo ec =
      let ko = item_key-item_at key (by_key olds) o eo in
      let named = (eq_iff (item_key o) key).0 ko in
      ground (arith, is_left_at o none named eo ec, has_key-current o none named ec, ko)
  merged (some o) (some c) eo ec =
      let ko = item_key-item_at key (by_key olds) o eo in
      let kc = item_key-item_at key (by_key news) c ec in
      let named = (eq_iff (item_key o) key).0 ko in
      let called = (eq_iff (item_key c) key).0 kc in
      let left = is_left_at o (some c) named eo ec in
      let here = has_key-current o (some c) named ec in
      let added = is_added_at olds news key c (some o) called eo in
      let changed = is_changed_at olds news key c (some o) called eo in
      elim (Bool-cases (same_item o c)) [
        | inl same ↦
            ground (arith, left, here, added, changed, ko, kc, same, same-content o c ko kc same)
        | inr differs ↦ ground (arith, left, here, added, changed, ko, kc, differs)
      ]

-- A client that takes a delta over has exactly the content of the current atoms: an entry with a
-- key, text hash and evidence version is in the merged list if and only if the last current atom
-- with that key has this hash and version.
pub apply_delta-plan_delta :
    (olds news : List Item) (key sha evidence : String)
    → any (has_content key sha evidence) (apply_delta (plan_delta olds news) olds)
      ≡ (elim (last_at key news) [ none ↦ false | some new ↦ has_content key sha evidence new ])
apply_delta-plan_delta olds news key sha evidence =
    any-apply_delta olds news key sha evidence
    ∙ merged olds news key sha evidence (item_at key (by_key olds)) (item_at key (by_key news)) refl
        refl
    ∙ ap (λ o. elim o [ none ↦ false | some new ↦ has_content key sha evidence new ])
        (item_at-by_key key news)
