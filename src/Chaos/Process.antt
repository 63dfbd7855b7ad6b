-- ===== src/Chaos/Process.antt =====
-- A run of the command line of chaosd/cmd/chaos/main.go: what it has printed, how it ends.
pub mod Endings
use llms_chaos.Prelude.{
  ℕ, ◌≤◌, Bool, String, ◌++ₛ◌, List, [], ◌∷◌, ◌++◌, Option, none, some, ◌⊎◌, inl, inr, ltb, length,
  get_elem?, if◌then◌else◌,
}
use llms_chaos.Prelude.Int.{ℤ}
use llms_chaos.Chaos.World.{Env, Failure}
use llms_chaos.Chaos.Faults.{Store}
use llms_chaos.Chaos.Experiment
use llms_chaos.Chaos.Gameday.{Panic, or_out_of_range}
use llms_chaos.Chaos.Reporter

-- What is printed to the standard error behind `error:`.
pub data Complaint : Type 0 where
  failed : Failure → Complaint
  bad_number bad_time : String → Complaint
  bad_file bad_report : Complaint

pub record State : Type 0 where
  pub store : Store
  pub out : List String
  pub errors : List Complaint

pub data Run {ℓ} (A : Type ℓ) : Type ℓ where
  returns : A → State → Run A
  exits : ℕ → State → Run A
  panics : Panic → Run A

abbrev pub M {ℓ} : Type ℓ → Type ℓ
M A = State → Run A

infixl 5 ◌>>=◌ ◌>>◌
abbrev pub ◌>>=◌ {ℓ κ} : {A : Type ℓ} {B : Type κ} → M A → (A → M B) → M B
◌>>=◌ m f s = elim (m s) [ returns a s' ↦ f a s' | exits n s' ↦ exits n s' | panics p ↦ panics p ]

abbrev pub ◌>>◌ {ℓ} : {B : Type ℓ} → M (Unit {0}) → M B → M B
m >> k = m >>= λ _. k

abbrev pub pure {ℓ} : {A : Type ℓ} → A → M A
pure a s = returns a s

abbrev pub println : String → M (Unit {0})
println line s = returns tt (record s { out = s.out ++ line ∷ [] })

abbrev pub exit {ℓ} : {A : Type ℓ} → ℕ → M A
exit n s = exits n s

abbrev pub usage_line : String
usage_line =
    "usage: chaos <init|kill|latency|partition|heal|memory|oom|slow-model|reset|schedule|gameday|report|serve> ..."

abbrev pub usage : M (Unit {0})
usage = println usage_line

-- `usage` and `os.Exit(1)`
abbrev pub usage_exit : M (Unit {0})
usage_exit = usage >> exit 1

-- `fatal` of an error.
abbrev pub fail {ℓ} : {A : Type ℓ} → Complaint → M A
fail e s = exits 1 (record s { errors = s.errors ++ e ∷ [] })

-- `fatal`
unfoldable pub fatal : Option Complaint → M (Unit {0})
fatal none = pure tt
fatal (some e) = fail e

-- The value behind an error that is given to `fatal`.
unfoldable pub value_or_fatal {ℓ} : {A : Type ℓ} → Complaint → Option A → M A
value_or_fatal e none = fail e
value_or_fatal e (some a) = pure a

unfoldable pub on_store {ℓ} : {A : Type ℓ} → (Store → A × Store) → M A
on_store f s = let (a, store) = f s.store in returns a (record s { store = store })

-- The value of what may panic.
abbrev pub or_panic {ℓ} : {A : Type ℓ} → Panic ⊎ A → M A
or_panic (inl p) s = panics p
or_panic (inr a) s = returns a s

module _ (args : List String) where
  -- `os.Args[i]`
  unfoldable pub arg : ℕ → M String
  arg i = or_panic (or_out_of_range (get_elem? args i))

  unfoldable pub require_arg : ℕ → M (Unit {0})
  require_arg n = if ltb (length args) n then usage_exit else pure tt

  -- An argument that may be missing.
  unfoldable pub optional {ℓ} : {A : Type ℓ} → ℕ → A → (String → M A) → M A
  optional i default read = if ltb i (length args) then (arg i >>= read) else pure default
