-- ===== src/Breaker/History.antt =====
-- Breaker methods against the history of calls: what a breaker remembers, and when it refuses.
use llms_chaos.Prelude.{
  ℕ, suc, ◌≡◌, ◌≢◌, ◌↔◌, true, false, List, [], ◌∷◌, Option, none, some, arith,
}
use llms_chaos.Prelude.Int.{ℤ, pos, ◌≤ℤ◌, ◌<ℤ◌, sub_ℕ}
use llms_chaos.Breaker.{
  closed, Breaker, fresh, allow, record_result, Call, allows, records, step, run,
}

-- How many failures stand at the end of the history, with `n` before it.
abbrev pub trailing : ℕ → List Call → ℕ
trailing n [] = n
trailing n (allows _ ∷ cs) = trailing n cs
trailing n (records true _ ∷ cs) = trailing 0 cs
trailing n (records false _ ∷ cs) = trailing (suc n) cs

-- When the last result was recorded, if it was a failure.
abbrev pub last_failure : Option ℕ → List Call → Option ℕ
last_failure t [] = t
last_failure t (allows _ ∷ cs) = last_failure t cs
last_failure t (records true _ ∷ cs) = last_failure none cs
last_failure t (records false now ∷ cs) = last_failure (some now) cs

-- `n` failures in a row, the last at `t`, are what the breaker stands for.
pub record Remembers (threshold cooldown : ℤ) (n : ℕ) (t : Option ℕ) (b : Breaker) : Type 0 where
  pub limit : b.threshold ≡ threshold
  pub pause : b.cooldown ≡ cooldown
  pub counted : b.failures ≡ n
  pub shut : b.state ≡ closed → pos n <ℤ threshold
  pub tripped : b.state ≢ closed → (threshold ≤ℤ pos n) × (t ≡ some b.opened_at)

module _ (threshold cooldown : ℤ) (positive : pos 0 <ℤ threshold) where
  fresh-Remembers : Remembers threshold cooldown 0 none (fresh threshold cooldown)
  unfolding fresh
  fresh-Remembers = ground arith

  allow-Remembers :
      (n : ℕ) (t : Option ℕ) (b : Breaker) (now : ℕ)
      → Remembers threshold cooldown n t b
      → Remembers threshold cooldown n t (allow b now).0
  unfolding allow
  allow-Remembers n t b now r = ground arith

  record_result-Remembers :
      (n : ℕ) (t : Option ℕ) (b : Breaker) (now : ℕ)
      → Remembers threshold cooldown n t b
      → Remembers threshold cooldown (suc n) (some now) (record_result b false now)
  unfolding record_result
  record_result-Remembers n t b now r = ground arith

  step-Remembers :
      (n : ℕ) (t : Option ℕ) (b : Breaker) (c : Call)
      → Remembers threshold cooldown n t b
      → Remembers threshold cooldown (trailing n (c ∷ [])) (last_failure t (c ∷ [])) (step b c)
  unfolding step
  step-Remembers n t b (allows now) r = allow-Remembers n t b now r
  step-Remembers n t b (records true now) r = ground arith
  step-Remembers n t b (records false now) r = record_result-Remembers n t b now r

  run-Remembers :
      (n : ℕ) (t : Option ℕ) (b : Breaker) (cs : List Call)
      → Remembers threshold cooldown n t b
      → Remembers threshold cooldown (trailing n cs) (last_failure t cs) (run b cs)
  unfolding run
  run-Remembers n t b [] r = r
  run-Remembers n t b (allows now ∷ cs) r =
      run-Remembers n t _ cs (step-Remembers n t b (allows now) r)
  run-Remembers n t b (records true now ∷ cs) r =
      run-Remembers 0 none _ cs (step-Remembers n t b (records true now) r)
  run-Remembers n t b (records false now ∷ cs) r =
      run-Remembers (suc n) (some now) _ cs (step-Remembers n t b (records false now) r)

  history :
      (cs : List Call)
      → Remembers threshold cooldown
          (trailing 0 cs)
          (last_failure none cs)
          (run (fresh threshold cooldown) cs)
  history cs = run-Remembers 0 none _ cs fresh-Remembers

  -- With a positive threshold, a breaker that any history of calls has brought about counts the
  -- failures at the end of that history, and is closed exactly when they are fewer than its threshold.
  pub closed_iff_few_failures :
      (cs : List Call)
      → let b = run (fresh threshold cooldown) cs in
        (b.failures ≡ trailing 0 cs) × ((b.state ≡ closed) ↔ (pos (trailing 0 cs) <ℤ threshold))
  closed_iff_few_failures cs = ground (arith, history cs)

  refused :
      (n : ℕ) (t : Option ℕ) (b : Breaker) (now : ℕ)
      → Remembers threshold cooldown n t b
      → (allow b now).1 ≡ false
      → (t ≡ some b.opened_at) × (threshold ≤ℤ pos n) × (sub_ℕ now b.opened_at <ℤ cooldown)
  unfolding allow
  refused n t b now r h = ground arith

  -- With a positive threshold, `Allow` refuses after a history of calls only if the failures at its
  -- end reach the threshold and less than the cooldown has passed since the last of them.
  pub refusal_justified :
      (cs : List Call) (now : ℕ)
      → (allow (run (fresh threshold cooldown) cs) now).1 ≡ false
      → (t : ℕ) × (last_failure none cs ≡ some t)
        × (threshold ≤ℤ pos (trailing 0 cs))
        × (sub_ℕ now t <ℤ cooldown)
  refusal_justified cs now h =
      let (last, many, soon) = refused (trailing 0 cs) _ _ now (history cs) h in
      ((run (fresh threshold cooldown) cs).opened_at, last, many, soon)
