-- ===== src/Chaos/Process/Endings.antt =====
-- How a run of the command line of chaosd/cmd/chaos/main.go can end, and what keeps to that.
use llms_chaos.Prelude.{
  ℕ, ◌≤◌, ◌<◌, ◌≡◌, refl, sym, subst, Bool-cases, ◌⊎◌, inl, inr, String, List, [], ◌∷◌, ◌++◌,
  Option, none, some, arith, ltb, length, get_elem?_total,
}
use llms_chaos.Chaos.Faults.{Store}
use llms_chaos.Chaos.Gameday.{Panic, or_out_of_range}
use llms_chaos.Chaos.Process.{
  Complaint, State, Run, returns, exits, panics, M, ◌>>=◌, ◌>>◌, usage_exit, usage_line, fail,
  fatal, value_or_fatal, on_store, or_panic, arg, require_arg, optional,
}

-- A run returns with nothing printed to the standard error, or exits with 1 behind the usage line or
-- behind one error, or panics in a way that is
-- allowed.
abbrev pub IsOrderly {ℓ} : (Panic → Type 0) → {A : Type ℓ} → Run A → Type 0
IsOrderly May (returns a s) = s.errors ≡ []
IsOrderly May (exits code s) =
    (code ≡ 1)
    × (((s.errors ≡ []) × ((before : List String) × (s.out ≡ before ++ usage_line ∷ [])))
        ⊎ ((e : Complaint) × (s.errors ≡ e ∷ [])))
IsOrderly May (panics p) = May p

abbrev pub Keeps {ℓ} : (Panic → Type 0) → {A : Type ℓ} → M A → Type 0
Keeps May m = (s : State) → s.errors ≡ [] → IsOrderly May (m s)

module _ {ℓ κ} (May : Panic → Type 0) {A : Type ℓ} {B : Type κ} where
  pub bind_run :
      (r : Run A) (f : A → M B)
      → IsOrderly May r
      → ((a : A) → Keeps May (f a))
      → IsOrderly May
          (elim r [ returns a s' ↦ f a s' | exits n s' ↦ exits n s' | panics p ↦ panics p ])
  bind_run (returns a s) f h k = k a s h
  bind_run (exits n s) f h k = h
  bind_run (panics p) f h k = h

  pub >>=-Keeps :
      (m : M A) (f : A → M B) → Keeps May m → ((a : A) → Keeps May (f a)) → Keeps May (m >>= f)
  >>=-Keeps m f h k s clean = bind_run (m s) f (h s clean) k

module _ (May : Panic → Type 0) where
  pub fail-IsOrderly {ℓ} :
      (A : Type ℓ) (e : Complaint) (s : State) → s.errors ≡ [] → IsOrderly May (fail {A = A} e s)
  fail-IsOrderly A e s clean = (refl, inr (e, rw clean refl))

  module _ {ℓ} {A : Type ℓ} where
    pub value_or_fatal-Keeps : (e : Complaint) (o : Option A) → Keeps May (value_or_fatal e o)
    unfolding value_or_fatal
    value_or_fatal-Keeps e none s clean = fail-IsOrderly A e s clean
    value_or_fatal-Keeps e (some a) s clean = clean

    pub on_store-Keeps : (f : Store → A × Store) → Keeps May (on_store f)
    unfolding on_store
    on_store-Keeps f s clean = clean

  pub fatal-Keeps : (o : Option Complaint) → Keeps May (fatal o)
  unfolding fatal
  fatal-Keeps none s clean = clean
  fatal-Keeps (some e) s clean = fail-IsOrderly (Unit {0}) e s clean

  pub usage_exit-Keeps : Keeps May usage_exit
  usage_exit-Keeps s clean = (refl, inl (clean, (s.out, refl)))

  module _ (args : List String) where
    -- Behind `requireArg(n)` there are that many arguments.
    pub require_then {ℓ} :
        {B : Type ℓ} (n : ℕ) (next : M B)
        → (n ≤ length args → Keeps May next)
        → Keeps May (require_arg args n >> next)
    unfolding require_arg
    require_then n next h s clean = elim (Bool-cases (ltb (length args) n)) [
      | inl short ↦ rw short (usage_exit-Keeps s clean)
      | inr long ↦ rw long (h (ground arith) s clean)
    ]

    pub arg-Keeps : (i : ℕ) → i < length args → Keeps May (arg args i)
    unfolding arg
    arg-Keeps i h s clean =
        let (a, found) = get_elem?_total args i h in
        subst (λ o. IsOrderly May (or_panic (or_out_of_range o) s)) (sym found) clean

    pub optional-Keeps {ℓ} :
        {A : Type ℓ} (i : ℕ) (a : A) (read : String → M A)
        → ((text : String) → Keeps May (read text))
        → Keeps May (optional args i a read)
    unfolding optional
    optional-Keeps i a read h s clean = elim (Bool-cases (ltb i (length args))) [
      | inl there ↦
          rw there (>>=-Keeps May (arg args i) read (arg-Keeps i (ground arith)) h s clean)
      | inr missing ↦ rw missing clean
    ]
