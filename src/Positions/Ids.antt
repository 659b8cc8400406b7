-- ===== src/Positions/Ids.antt =====
-- Lists of ids, as the indices of the position ledger keep them: how often an id occurs, and what
-- an append and `list.remove` make of that.
use stock_test.Base.{
  ℕ, ◌+◌, ◌-◌, ◌≡◌, refl, Bool, true, false, ◌||◌, List, [], ◌∷◌, ◌++◌, arith, ◌==◌, if◌then◌else◌,
}

-- `id in ids`
abbrev pub has_id : ℕ → List ℕ → Bool
has_id id [] = false
has_id id (x ∷ xs) = x == id || has_id id xs

-- `ids.remove(id)`, for the list that is left: the first occurrence goes.
abbrev pub remove_id : ℕ → List ℕ → List ℕ
remove_id id [] = []
remove_id id (x ∷ xs) = if x == id then xs else x ∷ remove_id id xs

abbrev pub count : ℕ → List ℕ → ℕ
count id [] = 0
count id (x ∷ xs) = (if x == id then 1 else 0) + count id xs

pub count-append :
    (id x : ℕ) (xs : List ℕ) → count id (xs ++ x ∷ []) ≡ count id xs + (if x == id then 1 else 0)
count-append id x [] = ground arith
count-append id x (y ∷ xs) = ground (arith, count-append id x xs)

pub count-remove_id :
    (id x : ℕ) (xs : List ℕ) → count id (remove_id x xs) ≡ count id xs - (if x == id then 1 else 0)
count-remove_id id x [] = ground arith
count-remove_id id x (y ∷ xs) = ground (arith, count-remove_id id x xs)

pub has_id-count :
    (id : ℕ) (xs : List ℕ) → has_id id xs ≡ (if count id xs == 0 then false else true)
has_id-count id [] = refl
has_id-count id (y ∷ xs) = ground (arith, has_id-count id xs)
