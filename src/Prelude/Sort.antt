-- ===== src/Prelude/Sort.antt =====
-- `sort.Float64s`, and ranks in a sorted list. The sorted list is the same for every sort that is
-- correct, so insertion sort stands for it.
use Prim.Native.Nat.{ℕ, zero, suc, ◌≤◌, ◌<◌}
use mathlib.Core.Path.{◌≡◌, refl}
use mathlib.Core.Bool.{Bool}
use mathlib.Core.List.{List, [], ◌∷◌}
use native.Mathlib.Omega.{arith}
use llms_chaos.Prelude.Tests.{ltb, leb, if◌then◌else◌}
use llms_chaos.Prelude.Lists.{length, get_or}

pub insert_sorted : ℕ → List ℕ → List ℕ
insert_sorted x [] = x ∷ []
insert_sorted x (y ∷ ys) = if leb x y then x ∷ y ∷ ys else y ∷ insert_sorted x ys

unfoldable pub sort : List ℕ → List ℕ
unfolding insert_sorted
sort [] = []
sort (x ∷ xs) = insert_sorted x (sort xs)

abbrev pub count_where : (ℕ → Bool) → List ℕ → ℕ
count_where p [] = 0
count_where p (x ∷ xs) = let rest = count_where p xs in if p x then suc rest else rest

-- How many entries are less than `v`, and how many are at most `v`.
abbrev pub count_lt : ℕ → List ℕ → ℕ
count_lt v = count_where (λ x. ltb x v)

abbrev pub count_le : ℕ → List ℕ → ℕ
count_le v = count_where (λ x. leb x v)

abbrev pub AllFrom : ℕ → List ℕ → Type 0
AllFrom a [] = Unit
AllFrom a (x ∷ xs) = (a ≤ x) × AllFrom a xs

abbrev pub IsSorted : List ℕ → Type 0
IsSorted [] = Unit
IsSorted (x ∷ xs) = AllFrom x xs × IsSorted xs

AllFrom-insert_sorted :
    (a x : ℕ) (xs : List ℕ) → a ≤ x → AllFrom a xs → AllFrom a (insert_sorted x xs)
unfolding insert_sorted
AllFrom-insert_sorted a x [] h all = (h, tt)
AllFrom-insert_sorted a x (y ∷ ys) h all = ground (arith, AllFrom-insert_sorted a x ys h all.1)

AllFrom-mono : (a b : ℕ) (xs : List ℕ) → a ≤ b → AllFrom b xs → AllFrom a xs
AllFrom-mono a b [] h all = tt
AllFrom-mono a b (x ∷ xs) h all = (omega arith, AllFrom-mono a b xs h all.1)

insert_sorted-IsSorted : (x : ℕ) (xs : List ℕ) → IsSorted xs → IsSorted (insert_sorted x xs)
unfolding insert_sorted
insert_sorted-IsSorted x [] s = (tt, tt)
insert_sorted-IsSorted x (y ∷ ys) s =
    ground
      (arith, AllFrom-mono x y ys, AllFrom-insert_sorted y x ys, insert_sorted-IsSorted x ys s.1)

pub sort-IsSorted : (xs : List ℕ) → IsSorted (sort xs)
unfolding sort
sort-IsSorted [] = tt
sort-IsSorted (x ∷ xs) = insert_sorted-IsSorted x (sort xs) (sort-IsSorted xs)

count_where-insert_sorted :
    (p : ℕ → Bool) (x : ℕ) (xs : List ℕ)
    → count_where p (insert_sorted x xs) ≡ count_where p (x ∷ xs)
unfolding insert_sorted
count_where-insert_sorted p x [] = refl
count_where-insert_sorted p x (y ∷ ys) = ground (arith, count_where-insert_sorted p x ys)

pub count_where-sort : (p : ℕ → Bool) (xs : List ℕ) → count_where p (sort xs) ≡ count_where p xs
unfolding sort
count_where-sort p [] = refl
count_where-sort p (x ∷ xs) =
    ground (arith, count_where-insert_sorted p x (sort xs), count_where-sort p xs)

length-insert_sorted : (x : ℕ) (xs : List ℕ) → length (insert_sorted x xs) ≡ suc (length xs)
unfolding insert_sorted
length-insert_sorted x [] = refl
length-insert_sorted x (y ∷ ys) = ground (arith, length-insert_sorted x ys)

pub length-sort : (xs : List ℕ) → length (sort xs) ≡ length xs
unfolding sort
length-sort [] = refl
length-sort (x ∷ xs) = omega (arith, length-insert_sorted x (sort xs), length-sort xs)

AllFrom-get_or : (a : ℕ) (xs : List ℕ) (i d : ℕ) → AllFrom a xs → i < length xs → a ≤ get_or xs i d
AllFrom-get_or a [] i d all h = absurd (omega arith)
AllFrom-get_or a (x ∷ xs) zero d all h = all.0
AllFrom-get_or a (x ∷ xs) (suc i) d all h = AllFrom-get_or a xs i d all.1 (omega arith)

count_lt_none : (a v : ℕ) (xs : List ℕ) → v ≤ a → AllFrom a xs → count_lt v xs ≡ 0
count_lt_none a v [] h all = refl
count_lt_none a v (x ∷ xs) h all = ground (arith, count_lt_none a v xs h all.1)

-- The entry at place i has at most i smaller ones, and more than i that are not greater.
pub sorted_rank :
    (xs : List ℕ) (i d : ℕ)
    → IsSorted xs
    → i < length xs
    → (count_lt (get_or xs i d) xs ≤ i) × (i < count_le (get_or xs i d) xs)
sorted_rank [] i d s h = absurd (omega arith)
sorted_rank (x ∷ xs) zero d s h = ground (arith, count_lt_none x x xs)
sorted_rank (x ∷ xs) (suc i) d s h =
    let least = AllFrom-get_or x xs i d s.0 (omega arith) in
    let rest = sorted_rank xs i d s.1 (omega arith) in ground arith

-- The same of the entries before sorting.
pub rank :
    (xs : List ℕ) (i d : ℕ)
    → i < length xs
    → (count_lt (get_or (sort xs) i d) xs ≤ i) × (i < count_le (get_or (sort xs) i d) xs)
rank xs i d h =
    let v = get_or (sort xs) i d in
    let place = sorted_rank (sort xs) i d (sort-IsSorted xs) (omega (arith, length-sort xs)) in
    (
      omega (arith, count_where-sort (λ x. ltb x v) xs),
      omega (arith, count_where-sort (λ x. leb x v) xs),
    )
