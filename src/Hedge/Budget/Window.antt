-- ===== src/Hedge/Budget/Window.antt =====
-- Which samples a budget remembers (hedge.go, `Observe`).
use llms_chaos.Prelude.{
  ℕ, ◌-◌, ◌≡◌, true, false, List, [], ◌∷◌, ◌++◌, arith, ltb, if◌then◌else◌, length, drop,
  Bool-cases, inl, inr,
}
use mathlib.Core.List.{append_assoc, append-nil}
use llms_chaos.Prelude.Int.{ℤ, pos, pos_part, leb_ℤ}
use llms_chaos.Prelude.Window.{IsWindow, empty-IsWindow, push-IsWindow}
use llms_chaos.Hedge.Budget.{Budget, new_budget, observe, observe_all}

-- The durations that `Observe` takes in.
abbrev pub positives : List ℤ → List ℕ
positives [] = []
positives (d ∷ ds) = if leb_ℤ d (pos 0) then positives ds else pos_part d ∷ positives ds

observe_skips : (b : Budget) (d : ℤ) → leb_ℤ d (pos 0) ≡ true → observe b d ≡ b
unfolding observe
observe_skips b d h = rw h

observe-samples :
    (b : Budget) (d : ℤ)
    → leb_ℤ d (pos 0) ≡ false
    → let longer = b.samples ++ pos_part d ∷ [] in
      (observe b d).samples
      ≡ (if ltb 4096 (length longer) then drop (length longer - 2048) longer else longer)
unfolding observe
observe-samples b d h = rw h

observe_all-IsWindow :
    (hs : List ℕ) (b : Budget) (ds : List ℤ)
    → IsWindow 2048 hs b.samples
    → IsWindow 2048 (hs ++ positives ds) (observe_all b ds).samples
unfolding observe_all
observe_all-IsWindow hs b [] w = rw (append-nil hs) w
observe_all-IsWindow hs b (d ∷ ds) w = elim (Bool-cases (leb_ℤ d (pos 0))) [
  | inl skip ↦ rw (skip, observe_skips b d skip, observe_all) (observe_all-IsWindow hs b ds w)
  | inr counts ↦
      let samples = b.samples ++ pos_part d ∷ [] in
      let pushed =
        push-IsWindow 2048 (length samples - 2048) hs b.samples (pos_part d) w
          (λ long longest. (omega arith, omega arith)) in
      rw (counts, ← append_assoc hs (pos_part d ∷ []) (positives ds))
        (observe_all-IsWindow (hs ++ pos_part d ∷ []) (observe b d) ds
          (rw (observe-samples b d counts) pushed))
]

-- After any observations, a budget holds the last of the positive ones: at most 4096, and all of
-- them or at least 2048.
pub budget_keeps_latest :
    (def : ℤ) (ds : List ℤ) → IsWindow 2048 (positives ds) (observe_all (new_budget def) ds).samples
unfolding new_budget
budget_keeps_latest def ds = observe_all-IsWindow [] (new_budget def) ds (empty-IsWindow 2048)
