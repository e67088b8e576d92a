-- ===== src/Context/Bundles/Complete.antt =====
-- context/budget.py: `build_bundles` loses no atom, and leaves no contested claim without the claims
-- that contest it.
use memory_os.Base.{
  ◌+◌, ◌≡◌, refl, sym, ap, ◌∙◌, String, Bool, true, ◌||◌, not, List, [], ◌∷◌, ◌++◌, map, any,
  any_mono, keep, length, length-append, keep-append, All, All-map, sort_by, str_eq, eq_iff, arith,
  sum_of, sum_of-append, sum_of-map, group_by, sum-group_by, group_by-groups, indicator,
  length-keep, sum-partition, All-append, sum-sort_by, any-sort_by, All-sort_by, All-of_map,
  All-Memᴰ, Memᴰ, Bool-cases, inl, inr,
}
use memory_os.Domain.{is_pinned}
use memory_os.Context.Bundles.{
  ContextAtom, AtomBundle, is_contested_atom, atom_before, atom_groups, bundle_before, make_bundle,
  coverage_winners, build_bundles,
}

one_kept : (p : ContextAtom → Bool) (a : ContextAtom) → length (keep p (a ∷ [])) ≡ indicator (p a)
unfolding keep
one_kept p a = ground arith

more_kept :
    (p : ContextAtom → Bool) (g : List ContextAtom) (a : ContextAtom)
    → length (keep p (g ++ a ∷ [])) ≡ length (keep p g) + indicator (p a)
more_kept p g a =
    ap length (keep-append p g (a ∷ []))
    ∙ length-append (keep p g) (keep p (a ∷ []))
    ∙ ap (λ n. length (keep p g) + n) (one_kept p a)

-- The groups hold every atom once.
atom_groups-sum :
    (p : ContextAtom → Bool) (atoms : List ContextAtom)
    → sum_of (λ g. length (keep p g)) (atom_groups atoms) ≡ sum_of (λ a. indicator (p a)) atoms
unfolding atom_groups
atom_groups-sum p atoms =
    let n = λ (a : ContextAtom). indicator (p a) in
    let f = λ (g : List ContextAtom). length (keep p g) in
    let contested = keep is_contested_atom atoms in
    let singles = keep (λ a. not (is_contested_atom a)) atoms in
    let keyed = group_by str_eq (λ (a : ContextAtom). a.bundle_key) contested in
    sum_of-append f (map (λ e. e.1) keyed) (map (λ a. a ∷ []) singles)
    ∙ omega (
      arith,
      sum_of-map f (λ (e : String × List ContextAtom). f e.1) (λ e. e.1) (λ e. refl) keyed,
      sum-group_by str_eq (λ (a : ContextAtom). a.bundle_key) f n (one_kept p) (more_kept p)
          contested,
      sum_of-map f n (λ a. a ∷ []) (one_kept p) singles,
      sum-partition n is_contested_atom atoms,
    )

-- `build_bundles` loses and repeats no atom: whatever test counts the atoms, the bundles together
-- hold as many that pass it as were given.
pub build_bundles-keep :
    (digest : List String → String) (atoms : List ContextAtom) (categories : List String)
    (p : ContextAtom → Bool)
    → sum_of (λ b. length (keep p b.atoms)) (build_bundles digest atoms categories)
      ≡ length (keep p atoms)
unfolding build_bundles make_bundle
build_bundles-keep digest atoms categories p =
    let winners = coverage_winners digest (atom_groups atoms) categories in
    let f = λ (b : AtomBundle). length (keep p b.atoms) in
    let g = λ (l : List ContextAtom). length (keep p l) in
    sum-sort_by bundle_before f (map (make_bundle digest winners) (atom_groups atoms))
    ∙ sum_of-map f g (make_bundle digest winners)
        (λ l.
          length-keep p (sort_by atom_before l)
          ∙ sum-sort_by atom_before (λ a. indicator (p a)) l
          ∙ sym (length-keep p l))
        (atom_groups atoms)
    ∙ atom_groups-sum p atoms
    ∙ sym (length-keep p atoms)

-- The contested atoms of a key.
abbrev pub contested_of : String → List ContextAtom → List ContextAtom
contested_of k atoms = keep (λ a. str_eq a.bundle_key k) (keep is_contested_atom atoms)

-- A group with a contested atom is the group of a key.
abbrev IsWhole : List ContextAtom → List ContextAtom → Type 0
IsWhole atoms g = any is_contested_atom g ≡ true → (k : String) × (g ≡ contested_of k atoms)

singles-IsWhole :
    (atoms xs : List ContextAtom)
    → All (IsWhole atoms) (map (λ a. a ∷ []) (keep (λ a. not (is_contested_atom a)) xs))
unfolding keep any
singles-IsWhole atoms [] = tt
singles-IsWhole atoms (x ∷ xs) = elim (Bool-cases (is_contested_atom x)) [
  | inl e ↦ rw e (singles-IsWhole atoms xs)
  | inr e ↦ rw e ((λ h. cc), singles-IsWhole atoms xs)
]

atom_groups-IsWhole : (atoms : List ContextAtom) → All (IsWhole atoms) (atom_groups atoms)
unfolding atom_groups
atom_groups-IsWhole atoms =
    let keyed =
      group_by str_eq (λ (a : ContextAtom). a.bundle_key) (keep is_contested_atom atoms) in
    All-append (IsWhole atoms) (map (λ e. e.1) keyed)
      (map (λ a. a ∷ []) (keep (λ a. not (is_contested_atom a)) atoms))
      (All-of_map (IsWhole atoms) (λ (e : String × List ContextAtom). e.1) keyed
        (All-map _ (λ (e : String × List ContextAtom). IsWhole atoms e.1) (λ e h c. (e.0, h)) keyed
          (group_by-groups str_eq (λ (a : ContextAtom). a.bundle_key) eq_iff
            (keep is_contested_atom atoms))))
      (singles-IsWhole atoms atoms)

-- A bundle with a contested atom is required, and holds all the contested atoms of one key.
abbrev IsComplete : List ContextAtom → AtomBundle → Type 0
IsComplete atoms b =
    any is_contested_atom b.atoms ≡ true
    → (b.required ≡ true) × ((k : String) × (b.atoms ≡ sort_by atom_before (contested_of k atoms)))

make_bundle-IsComplete :
    (digest : List String → String) (winners : List String) (atoms g : List ContextAtom)
    → IsWhole atoms g
    → IsComplete atoms (make_bundle digest winners g)
unfolding make_bundle
make_bundle-IsComplete digest winners atoms g whole h =
    let contested : any is_contested_atom g ≡ true =
      sym (any-sort_by atom_before is_contested_atom g) ∙ h in
    let (k, all) = whole contested in
    let safe =
      any_mono is_contested_atom (λ a. is_pinned a.compression_policy || is_contested_atom a)
        (λ a c. ground (arith, c)) g contested in
    (ground (arith, safe), (k, ap (sort_by atom_before) all))

-- Every bundle of `build_bundles` with a contested atom is required, and holds all the contested
-- atoms of one key, in order.
pub build_bundles-contested :
    (digest : List String → String) (atoms : List ContextAtom) (categories : List String)
    {b : AtomBundle}
    → Memᴰ b (build_bundles digest atoms categories)
    → any is_contested_atom b.atoms ≡ true
    → (b.required ≡ true) × ((k : String) × (b.atoms ≡ sort_by atom_before (contested_of k atoms)))
unfolding build_bundles
build_bundles-contested digest atoms categories member =
    let winners = coverage_winners digest (atom_groups atoms) categories in
    All-Memᴰ (IsComplete atoms) _
      (All-sort_by bundle_before (IsComplete atoms)
        (map (make_bundle digest winners) (atom_groups atoms))
        (All-of_map (IsComplete atoms) (make_bundle digest winners) (atom_groups atoms) (
          All-map (IsWhole atoms) (λ g. IsComplete atoms (make_bundle digest winners g))
            (λ g. make_bundle-IsComplete digest winners atoms g) (atom_groups atoms)
            (atom_groups-IsWhole atoms))))
      member
