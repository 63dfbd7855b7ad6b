-- ===== src/Chaos/Gameday.antt =====
-- Game days: chaosd/internal/gameday/gameday.go. The numbers of `rand` are a parameter, by the seed,
-- the number of the call and the bound, and so is the greatest capacity for which `make` has room.
pub mod Schedule
pub mod Rounds
use llms_chaos.Prelude.{
  ℕ, zero, suc, ◌+◌, ◌*◌, Bool, String, ◌=ₛ◌, List, [], ◌∷◌, ◌++◌, Option, none, some, ◌⊎◌, inl,
  inr, length, get_elem?, if◌then◌else◌,
}
use llms_chaos.Prelude.Optional.{◌>>=◌}
use llms_chaos.Prelude.Int.{ℤ, pos, pos_part, leb_ℤ, ltb_ℤ}
use llms_chaos.Chaos.World.{Env, sleep, Failure, is_panic, unknown_kind}
use llms_chaos.Chaos.Faults.{
  Store, Injection, injected, refused, kill, latency, partition, heal, reset,
}

pub record Config : Type 0 where
  pub workers : List String
  pub kinds : List String
  pub seed : ℤ
  pub rounds : ℤ
  pub cooldown : ℤ
  pub latency_ms : ℤ
  pub jitter_ms : ℤ

-- The time `At` is set when the event is carried out; 0 is its zero value.
pub record Event : Type 0 where
  pub round : ℕ
  pub worker : String
  pub kind : String
  pub at : ℤ

abbrev if_empty : List String → List String → List String
if_empty [] d = d
if_empty (x ∷ xs) d = x ∷ xs

abbrev if_not_positive : ℤ → ℤ → ℤ
if_not_positive x d = if leb_ℤ x (pos 0) then d else x

unfoldable pub with_defaults : Config → Config
with_defaults cfg = record {
  workers = if_empty cfg.workers ("worker-1" ∷ "worker-2" ∷ "worker-3" ∷ []);
  kinds = if_empty cfg.kinds ("kill" ∷ "latency" ∷ "partition" ∷ []);
  seed = cfg.seed;
  rounds = if_not_positive cfg.rounds (pos 6);
  cooldown = if_not_positive cfg.cooldown (pos 10000000000);
  latency_ms = if_not_positive cfg.latency_ms (pos 500);
  jitter_ms = if ltb_ℤ cfg.jitter_ms (pos 0) then pos 0 else cfg.jitter_ms;
}

-- How the program crashes: at an index, at the capacity that is given to `make`, or at a nil request.
pub data Panic : Type 0 where
  out_of_range : Panic
  too_large : ℤ → Panic
  nil_request : String → Panic

abbrev pub or_out_of_range {ℓ} : {A : Type ℓ} → Option A → Panic ⊎ A
or_out_of_range none = inl out_of_range
or_out_of_range (some a) = inr a

module _ (draw : ℤ → ℕ → ℕ → ℕ) (room : ℤ) where
  unfoldable pub plan_rounds : Config → ℕ → ℕ → Option (List Event)
  plan_rounds cfg zero i = some []
  plan_rounds cfg (suc more) i = do
    w ← get_elem? cfg.workers (draw cfg.seed (2 * i) (length cfg.workers))
    k ← get_elem? cfg.kinds (draw cfg.seed (2 * i + 1) (length cfg.kinds))
    rest ← plan_rounds cfg more (i + 1)
    some (record { round = i + 1; worker = w; kind = k; at = pos 0 } ∷ rest)

  unfoldable pub plan : Config → Panic ⊎ List Event
  plan cfg =
      let cfg' = with_defaults cfg in
      if leb_ℤ cfg'.rounds room
      then or_out_of_range (plan_rounds cfg' (pos_part cfg'.rounds) 0)
      else inl (too_large cfg'.rounds)

-- The events that were carried out, and the error (or the panic, behind which they are lost).
abbrev pub Played : Type 0
Played = List Event × Option Failure × Store

module _ (env : Env) (cfg : Config) where
  -- The switch on the kind; `none` is its default.
  unfoldable pub inject : Event → Store → Option (Injection × Store)
  inject e s =
      if e.kind =ₛ "kill"
      then some (kill env e.worker s)
      else if e.kind =ₛ "latency"
      then some (latency env e.worker cfg.latency_ms cfg.jitter_ms s)
      else if e.kind =ₛ "partition"
      then some (partition env e.worker s)
      else none

  abbrev after_heal : Option Failure × Store → Option Failure × Store
  after_heal (some panic, s) = (some panic, s)
  after_heal (none, s) = (none, (reset env s).1)

  -- What follows a successful injection. The errors are dropped; a panic is left.
  unfoldable pub cool_down : Event → Store → Option Failure × Store
  cool_down e s = after_heal (heal env e.worker (record s { log = sleep cfg.cooldown ∷ s.log }))

  -- What follows the switch: the return at its default or at an error, or what comes `next`.
  abbrev after_switch :
      Event → List Event → Store → Option (Injection × Store) → (Store → Played) → Played
  after_switch e done s none next = (done, some (unknown_kind e.kind), s)
  after_switch e done s (some (refused err, s')) next =
      (done, some err, if is_panic err then s' else (reset env s').1)
  after_switch e done s (some (injected f, s')) next = next s'

  abbrev after_cooling : List Event → Option Failure × Store → (Store → Played) → Played
  after_cooling done (some panic, s) next = (done, some panic, s)
  after_cooling done (none, s) next = next s

  unfoldable pub run_rounds : List Event → List Event → Store → Played
  run_rounds [] done s = (done, none, s)
  run_rounds (e ∷ events) done s =
      let e' = record e { at = env.now s.log } in
      let done' = done ++ e' ∷ [] in
      after_switch e done s (inject e s)
        λ s'. after_cooling done' (cool_down e s') λ s''. run_rounds events done' s''

-- `Run`: the plan takes its defaults from the configuration that has them already.
unfoldable pub run : Env → (ℤ → ℕ → ℕ → ℕ) → ℤ → Store → Config → Panic ⊎ Played
run env draw room s cfg =
    let cfg' = with_defaults cfg in
    elim (plan draw room cfg') [
      | inl panic ↦ inl panic
      | inr events ↦ inr (run_rounds env cfg' events [] s)
    ]
