-- ===== src/Context/Delta/Dictionary.antt =====
-- context/delta.py: the dictionaries of `plan_delta`.
use memory_os.Base.{
  String, Bool, true, false, ◌||◌, Option, none, some, List, [], ◌∷◌, ◌≡◌, refl, sym, ◌∙◌, ap, any,
  find, str_eq, eq_iff, arith, Bool-cases, inl, inr, if◌then◌else◌,
}
use memory_os.Context.Delta.{Item, item_key, put_item, put_items, by_key, item_at, has_key}

-- No two items have the same key.
abbrev pub IsDictionary : List Item → Type 0
IsDictionary [] = Unit
IsDictionary (x ∷ items) = (has_key (item_key x) items ≡ false) × IsDictionary items

-- The last of the items with a key.
unfoldable pub last_at : String → List Item → Option Item
last_at key [] = none
last_at key (x ∷ items) = elim (last_at key items) [
  | some y ↦ some y
  | none ↦ if str_eq (item_key x) key then some x else none
]

has_key-put_item :
    (key : String) (i : Item) (items : List Item)
    → has_key key (put_item i items) ≡ (str_eq (item_key i) key || has_key key items)
unfolding has_key put_item any
has_key-put_item key i [] = ground arith
has_key-put_item key i (x ∷ items) = elim (Bool-cases (str_eq (item_key x) (item_key i))) [
  | inl e ↦
      let same = (eq_iff (item_key x) (item_key i)).0 e in
      ground (arith, e, ap (λ k. str_eq k key) same)
  | inr e ↦ ground (arith, e, has_key-put_item key i items)
]

item_at-put_item :
    (key : String) (i : Item) (items : List Item)
    → item_at key (put_item i items)
      ≡ (if str_eq (item_key i) key then some i else item_at key items)
unfolding item_at put_item find
item_at-put_item key i [] = ground arith
item_at-put_item key i (x ∷ items) = elim (Bool-cases (str_eq (item_key x) (item_key i))) [
  | inl e ↦
      let same = (eq_iff (item_key x) (item_key i)).0 e in
      ground (arith, e, ap (λ k. str_eq k key) same)
  | inr e ↦ elim (Bool-cases (str_eq (item_key i) key)) [
    | inl k ↦
        let named = (eq_iff (item_key i) key).0 k in
        ground (arith, e, k, ap (λ j. str_eq (item_key x) j) named, item_at-put_item key i items)
    | inr k ↦ ground (arith, e, k, item_at-put_item key i items)
  ]
]

put_item-IsDictionary :
    (i : Item) (items : List Item) → IsDictionary items → IsDictionary (put_item i items)
unfolding put_item has_key any
put_item-IsDictionary i [] h = (refl, tt)
put_item-IsDictionary i (x ∷ items) (fresh, h) =
    elim (Bool-cases (str_eq (item_key x) (item_key i))) [
      | inl e ↦
          let same = (eq_iff (item_key x) (item_key i)).0 e in
          rw e (sym (ap (λ k. has_key k items) same) ∙ fresh, h)
      | inr e ↦
          let apart : str_eq (item_key i) (item_key x) ≡ false = str_eq_false e in
          rw e (
            has_key-put_item (item_key x) i items ∙ ground (arith, apart, fresh),
            put_item-IsDictionary i items h,
          )
    ]
  where
    str_eq_false :
        str_eq (item_key x) (item_key i) ≡ false → str_eq (item_key i) (item_key x) ≡ false
    str_eq_false e = elim (Bool-cases (str_eq (item_key i) (item_key x))) [
      | inl k ↦
          let same = sym ((eq_iff (item_key i) (item_key x)).0 k) in
          ground (arith, e, (eq_iff (item_key x) (item_key i)).1 same)
      | inr k ↦ k
    ]

put_items-IsDictionary :
    (items rest : List Item) → IsDictionary items → IsDictionary (put_items items rest)
unfolding put_items
put_items-IsDictionary items [] h = h
put_items-IsDictionary items (x ∷ rest) h =
    put_items-IsDictionary (put_item x items) rest (put_item-IsDictionary x items h)

pub by_key-IsDictionary : (items : List Item) → IsDictionary (by_key items)
unfolding by_key
by_key-IsDictionary items = put_items-IsDictionary [] items tt

item_at-put_items :
    (key : String) (items rest : List Item)
    → item_at key (put_items items rest)
      ≡ (elim (last_at key rest) [ some y ↦ some y | none ↦ item_at key items ])
unfolding put_items last_at
item_at-put_items key items [] = refl
item_at-put_items key items (x ∷ rest) =
    item_at-put_items key (put_item x items) rest ∙ ground (arith, item_at-put_item key x items)

pub item_at-by_key :
    (key : String) (items : List Item) → item_at key (by_key items) ≡ last_at key items
unfolding by_key item_at find
item_at-by_key key items = item_at-put_items key [] items ∙ ground arith

absent :
    (key : String) (q : Item → Bool) (items : List Item)
    → ((x : Item) → q x ≡ true → str_eq (item_key x) key ≡ true)
    → has_key key items ≡ false
    → any q items ≡ false
unfolding has_key any
absent key q [] keyed h = refl
absent key q (x ∷ items) keyed h = ground (arith, h, keyed x, absent key q items keyed)

-- In a dictionary a test that only items with the key pass is a test of the item at the key.
pub any-item_at :
    (key : String) (q : Item → Bool) (items : List Item)
    → ((x : Item) → q x ≡ true → str_eq (item_key x) key ≡ true)
    → IsDictionary items
    → any q items ≡ (elim (item_at key items) [ none ↦ false | some x ↦ q x ])
unfolding item_at find any
any-item_at key q [] keyed h = refl
any-item_at key q (x ∷ items) keyed (fresh, h) = elim (Bool-cases (str_eq (item_key x) key)) [
  | inl e ↦
      let named = (eq_iff (item_key x) key).0 e in
      let gone = absent key q items keyed (sym (ap (λ k. has_key k items) named) ∙ fresh) in
      rw (e, gone) (ground arith)
  | inr e ↦ ground (arith, e, keyed x, any-item_at key q items keyed h)
]
