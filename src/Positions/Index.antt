-- ===== src/Positions/Index.antt =====
-- The indices of the position ledger: each open position stands once under its symbol and once
-- under its strategy, and nothing else stands there.
use stock_test.Base.{
  ℕ, ◌+◌, ◌≡◌, refl, ◌∙◌, true, false, ◌&&◌, Option, none, some, List, [], ◌∷◌, ◌++◌, arith, ◌==◌,
  if◌then◌else◌,
}
use stock_test.Float.{FloatOps}
use stock_test.Dict.{Dict, lookup, put, lookup-put}
use stock_test.Positions.{PositionLedgerEntry, is_open}
use stock_test.Positions.Ids.{count, count-append, count-remove_id, has_id, remove_id, has_id-count}
use stock_test.Positions.Fills.{ids_of, add_id, drop_id}

-- An index after one of its lists is replaced.
ids_of-put :
    (key j : ℕ) (ids : List ℕ) (d : Dict (List ℕ))
    → ids_of j (put key ids d) ≡ (if key == j then ids else ids_of j d)
ids_of-put key j ids d = ground (arith, lookup-put key j ids d)

count-add_id :
    (key id j i : ℕ) (d : Dict (List ℕ))
    → count id (ids_of key d) ≡ 0
    → count i (ids_of j (add_id key id d))
      ≡ count i (ids_of j d) + (if key == j && id == i then 1 else 0)
unfolding add_id
count-add_id key id j i d new =
    let ids = ids_of key d in
    let absent : has_id id ids ≡ false = ground (arith, has_id-count id ids) in
    rw (absent, ids_of-put key j (ids ++ id ∷ []) d) (ground (arith, count-append i id ids))

count-drop_id :
    (key id j i : ℕ) (d : Dict (List ℕ))
    → count id (ids_of key d) ≡ 1
    → count i (ids_of j (drop_id key id d)) + (if key == j && id == i then 1 else 0)
      ≡ count i (ids_of j d)
unfolding drop_id
count-drop_id key id j i d old =
    let ids = ids_of key d in
    let present : has_id id ids ≡ true = ground (arith, has_id-count id ids) in
    rw (present, ids_of-put key j (remove_id id ids) d) (ground (arith, count-remove_id i id ids))

module _ {F : Type 0} ⦃fl : FloatOps F⦄ where
  -- How often the id of an entry has to stand under a key.
  abbrev pub held : (PositionLedgerEntry F → ℕ) → ℕ → Option (PositionLedgerEntry F) → ℕ
  held f key none = 0
  held f key (some p) = if is_open p && f p == key then 1 else 0

  -- An index by a field is right: each open position stands once under its key, and nothing else
  -- stands there.
  abbrev pub Indexes :
      (PositionLedgerEntry F → ℕ) → Dict (List ℕ) → Dict (PositionLedgerEntry F) → Type 0
  Indexes f index d = (key id : ℕ) → count id (ids_of key index) ≡ held f key (lookup id d)

  pub new-Indexes :
      (f : PositionLedgerEntry F → ℕ) (index : Dict (List ℕ)) (d : Dict (PositionLedgerEntry F))
      (id : ℕ) (p : PositionLedgerEntry F)
      → is_open p ≡ true
      → lookup id d ≡ none
      → Indexes f index d
      → Indexes f (add_id (f p) id index) (put id p d)
  new-Indexes f index d id p open_ new h key i =
      let absent : count id (ids_of (f p) index) ≡ 0 = h (f p) id ∙ rw new refl in
      rw (lookup-put id i p d, count-add_id (f p) id key i index absent) (ground (arith, h key i))

  pub kept-Indexes :
      (f : PositionLedgerEntry F → ℕ) (index : Dict (List ℕ)) (d : Dict (PositionLedgerEntry F))
      (id : ℕ) (p q : PositionLedgerEntry F)
      → lookup id d ≡ some p
      → is_open q ≡ is_open p
      → f q ≡ f p
      → Indexes f index d
      → Indexes f index (put id q d)
  kept-Indexes f index d id p q old same field h key i =
      rw (lookup-put id i q d) (ground (arith, h key i))

  pub closed-Indexes :
      (f : PositionLedgerEntry F → ℕ) (index : Dict (List ℕ)) (d : Dict (PositionLedgerEntry F))
      (id : ℕ) (p q : PositionLedgerEntry F)
      → lookup id d ≡ some p
      → is_open p ≡ true
      → is_open q ≡ false
      → f q ≡ f p
      → Indexes f index d
      → Indexes f (drop_id (f q) id index) (put id q d)
  closed-Indexes f index d id p q old was now field h key i =
      let present : count id (ids_of (f q) index) ≡ 1 = ground (arith, h (f q) id) in
      rw (lookup-put id i q d) (ground (arith, h key i, count-drop_id (f q) id key i index present))
