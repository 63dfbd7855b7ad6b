-- ===== src/Breaker/Registry.antt =====
-- The breaker registry of gateway/internal/breaker/breaker.go. Breakers are never taken out of the
-- map, so a pointer that `For` hands out is the entry under its id.
use llms_chaos.Prelude.{
  ℕ, ◌≡◌, refl, Bool, String, List, [], ◌∷◌, none, some, arith, ◌=ₛ◌, if◌then◌else◌, eq_iff,
}
use llms_chaos.Prelude.Int.{ℤ}
use llms_chaos.Prelude.Dict.{Dict, lookup, insert, lookup-insert}
use llms_chaos.Breaker.{Breaker, Call, allows, records, fresh, allow, record_result, step, run}

pub record Registry : Type 0 where
  pub breakers : Dict Breaker
  pub threshold : ℤ
  pub cooldown : ℤ

unfoldable pub new_registry : ℤ → ℤ → Registry
new_registry threshold cooldown = record {
  breakers = [];
  threshold = threshold;
  cooldown = cooldown;
}

-- `For`: the breaker under the id, made on first use.
unfoldable pub for_id : Registry → String → Registry × Breaker
for_id r id = elim (lookup id r.breakers) [
  | some b ↦ (r, b)
  | none ↦
      let b = fresh r.threshold r.cooldown in (record r { breakers = insert id b r.breakers }, b)
]

-- `r.For(id).Allow()` and `r.For(id).Record(ok)`: the method writes through the pointer.
unfoldable pub allow_for : Registry → String → ℕ → Registry × Bool
unfolding for_id
allow_for r id now =
    let (r', b) = for_id r id in
    let (b', ok) = allow b now in (record r' { breakers = insert id b' r'.breakers }, ok)

unfoldable pub record_for : Registry → String → Bool → ℕ → Registry
unfolding for_id
record_for r id ok now =
    let (r', b) = for_id r id in
    record r' { breakers = insert id (record_result b ok now) r'.breakers }

-- The breaker that stands for an id, whether or not it was made.
abbrev pub breaker_of : Registry → String → Breaker
breaker_of r id = elim (lookup id r.breakers) [ some b ↦ b | none ↦ fresh r.threshold r.cooldown ]

pub call_for : Registry → String → Call → Registry
unfolding allow_for record_for
call_for r id (allows now) = (allow_for r id now).0
call_for r id (records ok now) = record_for r id ok now

pub run_all : Registry → List (String × Call) → Registry
run_all r [] = r
run_all r ((id, c) ∷ cs) = run_all (call_for r id c) cs

abbrev pub calls_of : String → List (String × Call) → List Call
calls_of id [] = []
calls_of id ((j, c) ∷ cs) = if j =ₛ id then c ∷ calls_of id cs else calls_of id cs

call_for_frame :
    (r : Registry) (id : String) (c : Call)
    → ((call_for r id c).threshold ≡ r.threshold) × ((call_for r id c).cooldown ≡ r.cooldown)
unfolding call_for
call_for_frame r id (allows now) = ground arith
call_for_frame r id (records ok now) = ground arith

call_for-lookup :
    (r : Registry) (id j : String) (c : Call)
    → lookup j (call_for r id c).breakers
      ≡ (if id =ₛ j then some (step (breaker_of r id) c) else lookup j r.breakers)
unfolding call_for step
call_for-lookup r id j (allows now) =
    let b = (allow (breaker_of r id) now).0 in
    let made = insert id (fresh r.threshold r.cooldown) r.breakers in
    ground (
      arith,
      lookup-insert id j b r.breakers,
      lookup-insert id j b made,
      lookup-insert id j (fresh r.threshold r.cooldown) r.breakers,
    )
call_for-lookup r id j (records ok now) =
    let b = record_result (breaker_of r id) ok now in
    let made = insert id (fresh r.threshold r.cooldown) r.breakers in
    ground (
      arith,
      lookup-insert id j b r.breakers,
      lookup-insert id j b made,
      lookup-insert id j (fresh r.threshold r.cooldown) r.breakers,
    )

call_for-breaker_of :
    (r : Registry) (id j : String) (c : Call)
    → breaker_of (call_for r id c) j ≡ (if id =ₛ j then step (breaker_of r j) c else breaker_of r j)
call_for-breaker_of r id j c =
    ground (arith, call_for_frame r id c, call_for-lookup r id j c, eq_iff id j)

-- After any calls on any ids, the breaker of an id is in the state that the calls on that id alone
-- bring about: the registry keeps the breakers apart, and loses none.
pub run_all-breaker_of :
    (r : Registry) (id : String) (cs : List (String × Call))
    → breaker_of (run_all r cs) id ≡ run (breaker_of r id) (calls_of id cs)
unfolding run_all run
run_all-breaker_of r id [] = refl
run_all-breaker_of r id ((j, c) ∷ cs) =
    ground (arith, call_for-breaker_of r j id c, run_all-breaker_of (call_for r j c) id cs)
