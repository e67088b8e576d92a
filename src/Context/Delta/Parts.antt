-- ===== src/Context/Delta/Parts.antt =====
-- context/delta.py: the parts of a delta cover a bundle.
use memory_os.Base.{
  length-keep-sort_by, ◌+◌, ◌≡◌, sym, subst, String, Bool, true, false, ◌&&◌, ◌||◌, not, List, [],
  ◌∷◌, any, keep, length, str_eq, arith, eq_iff,
}
use memory_os.Context.Delta.{
  atom_order, Item, item_key, by_key, has_key, is_same_in, is_changed_bundle, is_safety_bundle,
  is_expanded, is_safety, is_added, is_changed, plan_delta,
}

covered :
    (p q r : Item → Bool)
    → ((i : Item) → (p i && q i) ≡ false)
    → ((i : Item) → r i ≡ true → (p i || q i) ≡ true)
    → (xs : List Item)
    → length (keep r (keep p xs)) + length (keep r (keep q xs)) ≡ length (keep r xs)
unfolding keep
covered p q r apart all [] = omega arith
covered p q r apart all (x ∷ xs) = ground (arith, apart x, all x, covered p q r apart all xs)

-- The atom belongs to the bundle.
abbrev pub is_in_bundle : String → Item → Bool
is_in_bundle bundle i = str_eq i.bundle_key bundle

expanded-sent :
    (olds news : List Item) (bundle : String)
    → is_expanded olds news bundle ≡ true
    → (i : Item) → is_in_bundle bundle i ≡ true
    → (is_added olds news i || is_changed olds news i) ≡ true
unfolding is_added is_changed
expanded-sent olds news bundle h i inside =
    let same = (eq_iff i.bundle_key bundle).0 inside in
    let expanded = subst (λ b. is_expanded olds news b ≡ true) (sym same) h in
    ground (arith, expanded)

-- A bundle that holds a pinned or contested atom, now or in the previous snapshot, and in which an
-- entry of the dictionary of current atoms is new or differs, or one of the previous dictionary is
-- gone, is sent with every current entry of its own: each is counted once among the added and the
-- changed ones. Of several atoms of the bundle with one memory the dictionary holds the last only.
pub plan_delta-bundle :
    (olds news : List Item) (bundle : String)
    → (any (λ i. is_safety i && is_in_bundle bundle i) news
        || any (λ i. is_safety i && is_in_bundle bundle i) olds)
      ≡ true
    → (any (λ i. not (is_same_in (by_key olds) i) && is_in_bundle bundle i) (by_key news)
        || any
            (λ i. not (has_key (item_key i) (by_key news)) && is_in_bundle bundle i)
            (by_key olds))
      ≡ true
    → let p = plan_delta olds news in
      length (keep (is_in_bundle bundle) p.added) + length (keep (is_in_bundle bundle) p.changed)
      ≡ length (keep (is_in_bundle bundle) (by_key news))
unfolding plan_delta
plan_delta-bundle olds news bundle safe differs =
    let added = is_added olds news in
    let changed = is_changed olds news in
    omega (
      arith,
      length-keep-sort_by atom_order (is_in_bundle bundle) (keep added (by_key news)),
      length-keep-sort_by atom_order (is_in_bundle bundle) (keep changed (by_key news)),
      covered added changed (is_in_bundle bundle) (λ i. unfold is_added is_changed in ground arith)
          (expanded-sent olds news bundle (
            unfold is_expanded is_changed_bundle is_safety_bundle in ground (arith, safe, differs)))
          (by_key news),
    )
