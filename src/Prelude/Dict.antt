-- ===== src/Prelude/Dict.antt =====
-- Go's `map[string]V`: an association list with one entry for each key. A range over the map reads
-- the list from its head, and every statement is about any list, so about any order of the range.
use Prim.Native.Nat.{ℕ, ◌+◌}
use Prim.Native.String.{String}
use mathlib.Core.Path.{◌≡◌, refl, sym, subst}
use mathlib.Core.Bool.{Bool, true, not}
use mathlib.Core.Logic.{inl, inr}
use mathlib.Core.List.{List, [], ◌∷◌}
use mathlib.Core.Option.{Option, none, some, some-injective}
use native.Mathlib.Omega.{arith}
use text.Mathlib.Text.{◌==◌}
use text.Mathlib.TextEquality.{eq_iff}
use text.Mathlib.TextPositions.{eq_refl}
use llms_chaos.Prelude.Lists.{length}
use llms_chaos.Prelude.Tests.{Bool-cases, if◌then◌else◌}

abbrev pub Dict {ℓ} : Type ℓ → Type ℓ
Dict V = List (String × V)

module _ {ℓ} {V : Type ℓ} where
  unfoldable pub lookup : String → Dict V → Option V
  lookup key [] = none
  lookup key ((found, x) ∷ rest) = if found == key then some x else lookup key rest

  unfoldable pub insert : String → V → Dict V → Dict V
  insert key new [] = (key, new) ∷ []
  insert key new ((found, old) ∷ rest) =
      if found == key then (found, new) ∷ rest else (found, old) ∷ insert key new rest

  pub length-insert_new :
      (key : String) (new : V) (d : Dict V)
      → lookup key d ≡ none
      → length (insert key new d) ≡ length d + 1
  unfolding lookup insert
  length-insert_new key new [] h = omega arith
  length-insert_new key new ((found, old) ∷ rest) h =
      ground (arith, eq_iff found key, length-insert_new key new rest)

  -- The entries whose value passes the test, as a `delete` in a range over the map leaves them.
  unfoldable pub retain : (String → V → Bool) → Dict V → Dict V
  retain p [] = []
  retain p ((j, w) ∷ m) = if p j w then (j, w) ∷ retain p m else retain p m

  pub lookup-insert :
      (key other : String) (new : V) (d : Dict V)
      → lookup other (insert key new d) ≡ (if key == other then some new else lookup other d)
  unfolding lookup insert
  lookup-insert key other new [] = refl
  lookup-insert key other new ((found, old) ∷ rest) =
      let later = lookup-insert key other new rest in
      ground (arith, later, eq_iff key other, eq_iff found key, eq_iff found other)

  pub lookup-insert_self : (k : String) (v : V) (m : Dict V) → lookup k (insert k v m) ≡ some v
  lookup-insert_self k v m = simp (lookup-insert, eq_refl)

  pub lookup-retain_key :
      (q : String → Bool) (k : String) (m : Dict V)
      → lookup k (retain (λ j _. q j) m) ≡ (if q k then lookup k m else none)
  unfolding lookup retain
  lookup-retain_key q k [] = ground arith
  lookup-retain_key q k ((j, w) ∷ m) = ground (arith, eq_iff j k, lookup-retain_key q k m)

  -- What is left passes the test, and an entry that passes it is left.
  pub retained_passes :
      (p : String → V → Bool) (k : String) (v : V) (m : Dict V)
      → lookup k (retain p m) ≡ some v
      → p k v ≡ true
  unfolding lookup retain
  retained_passes p k v [] h = cc
  retained_passes p k v ((j, w) ∷ m) h = ground (arith, eq_iff j k, retained_passes p k v m)

  pub passing_retained :
      (p : String → V → Bool) (k : String) (v : V) (m : Dict V)
      → lookup k m ≡ some v
      → p k v ≡ true
      → lookup k (retain p m) ≡ some v
  unfolding lookup retain
  passing_retained p k v [] h t = cc
  passing_retained p k v ((j, w) ∷ m) h t = ground (arith, eq_iff j k, passing_retained p k v m)

  -- Each key has one entry.
  abbrev pub IsDict : Dict V → Type ℓ
  IsDict [] = Unit
  IsDict ((k, v) ∷ m) = (lookup k m ≡ none) × IsDict m

  no_entry : (k : String) → lookup k [] ≡ none
  unfolding lookup
  no_entry k = refl

  pub insert-IsDict : (k : String) (v : V) (m : Dict V) → IsDict m → IsDict (insert k v m)
  unfolding insert
  insert-IsDict k v [] d = (no_entry k, tt)
  insert-IsDict k v ((j, w) ∷ m) d =
      ground (arith, eq_iff j k, eq_iff k j, lookup-insert k j v m, insert-IsDict k v m d.1)

  retain_missing :
      (p : String → V → Bool) (k : String) (m : Dict V)
      → lookup k m ≡ none
      → lookup k (retain p m) ≡ none
  unfolding lookup retain
  retain_missing p k [] h = refl
  retain_missing p k ((j, w) ∷ m) h = ground (arith, eq_iff j k, retain_missing p k m)

  pub retain-IsDict : (p : String → V → Bool) (m : Dict V) → IsDict m → IsDict (retain p m)
  unfolding retain
  retain-IsDict p [] d = tt
  retain-IsDict p ((j, w) ∷ m) d = ground (arith, retain_missing p j m, retain-IsDict p m d.1)

  abbrev pub without : String → Dict V → Dict V
  without key = retain (λ j _. not (j == key))

  abbrev pub entries : Option V → ℕ
  entries none = 0
  entries (some v) = 1

  length-without_missing :
      (key : String) (d : Dict V) → lookup key d ≡ none → length (without key d) ≡ length d
  unfolding lookup retain
  length-without_missing key [] h = refl
  length-without_missing key ((j, w) ∷ m) h =
      ground (arith, eq_iff j key, length-without_missing key m)

  pub length-without :
      (key : String) (d : Dict V)
      → IsDict d
      → length (without key d) + entries (lookup key d) ≡ length d
  unfolding lookup retain
  length-without key [] v = refl
  length-without key ((j, w) ∷ m) v = elim (Bool-cases (j == key)) [
    | inl same ↦
        let absent = subst (λ k. lookup k m ≡ none) ((eq_iff j key).0 same) v.0 in
        rw same (omega (arith, length-without_missing key m absent))
    | inr other ↦ rw other (omega (arith, length-without key m v.1))
  ]

  pub lookup-without :
      (key k : String) (d : Dict V) → lookup k d ≡ none → lookup k (without key d) ≡ none
  lookup-without key k d h = retain_missing (λ j _. not (j == key)) k d h

  -- A property of every entry of the list.
  abbrev pub AllEntries {κ} : (String → V → Type κ) → Dict V → Type κ
  AllEntries Q [] = Unit
  AllEntries Q ((k, v) ∷ m) = Q k v × AllEntries Q m

  AllEntries-map {κ κ'} :
      {Q : String → V → Type κ} {R : String → V → Type κ'} (m : Dict V)
      → ((k : String) (v : V) → Q k v → R k v)
      → AllEntries Q m
      → AllEntries R m
  AllEntries-map [] f all = tt
  AllEntries-map ((k, v) ∷ m) f all = (f k v all.0, AllEntries-map m f all.1)

  pub AllEntries-insert {κ} :
      (Q : String → V → Type κ) (k : String) (v : V) (m : Dict V)
      → Q k v
      → AllEntries Q m
      → AllEntries Q (insert k v m)
  unfolding insert
  AllEntries-insert Q k v [] q all = (q, tt)
  AllEntries-insert Q k v ((j, w) ∷ m) q all = elim (Bool-cases (j == k)) [
    | inl same ↦ rw same (subst (λ t. Q t v) (sym ((eq_iff j k).0 same)) q, all.1)
    | inr other ↦ rw other (all.0, AllEntries-insert Q k v m q all.1)
  ]

  pub AllEntries-retain {κ} :
      (Q : String → V → Type κ) (p : String → V → Bool) (m : Dict V)
      → AllEntries Q m
      → AllEntries Q (retain p m)
  unfolding retain
  AllEntries-retain Q p [] all = tt
  AllEntries-retain Q p ((j, w) ∷ m) all = elim (Bool-cases (p j w)) [
    | inl kept ↦ rw kept (all.0, AllEntries-retain Q p m all.1)
    | inr gone ↦ rw gone (AllEntries-retain Q p m all.1)
  ]

  pub AllEntries-lookup {κ} :
      (Q : String → V → Type κ) (k : String) (v : V) (m : Dict V)
      → AllEntries Q m
      → lookup k m ≡ some v
      → Q k v
  unfolding lookup
  AllEntries-lookup Q k v [] all h = cc
  AllEntries-lookup Q k v ((j, w) ∷ m) all h = elim (Bool-cases (j == k)) [
    | inl same ↦
        let value : w ≡ v = some-injective w v (rw (same, lookup) at h) in
        subst (λ t. Q t v) ((eq_iff j k).0 same) (subst (Q j) value all.0)
    | inr other ↦ AllEntries-lookup Q k v m all.1 (rw (other, lookup) at h)
  ]

  found_first : (j : String) (v : V) (m : Dict V) → lookup j ((j, v) ∷ m) ≡ some v
  unfolding lookup
  found_first j v m = rw (eq_refl j)

  later_found :
      (j : String) (v : V) (m : Dict V) (k : String) (w : V)
      → lookup j m ≡ none
      → lookup k m ≡ some w
      → lookup k ((j, v) ∷ m) ≡ some w
  unfolding lookup
  later_found j v m k w missing found = ground (arith, eq_iff j k)

  -- In a list with one entry for each key, each entry is what a lookup finds.
  pub entries_found : (m : Dict V) → IsDict m → AllEntries (λ k v. lookup k m ≡ some v) m
  entries_found [] d = tt
  entries_found ((j, v) ∷ m) d =
      (found_first j v m, AllEntries-map m (λ k w. later_found j v m k w d.0) (entries_found m d.1))
