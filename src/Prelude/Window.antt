-- ===== src/Prelude/Window.antt =====
-- Samples of which the newest are kept: a list that grows at its end and is cut at its head.
use Prim.Native.Nat.{ℕ, suc, ◌-◌, ◌≤◌, ◌<◌, min}
use mathlib.Core.Path.{◌≡◌, refl, ap, sym, ◌∙◌}
use mathlib.Core.Bool.{false}
use mathlib.Core.Logic.{inl, inr}
use mathlib.Core.List.{List, [], ◌∷◌, ◌++◌, append_assoc}
use native.Mathlib.Omega.{arith}
use llms_chaos.Prelude.Tests.{ltb, ltb→lt, Bool-cases, if◌then◌else◌}
use llms_chaos.Prelude.Lists.{length, length-append, length-drop, take, drop, take-append-drop}

-- The samples are the end of the history, no longer than 4096, and all of it or `least` at least.
pub record IsWindow (least : ℕ) (history samples : List ℕ) : Type 0 where
  pub dropped : List ℕ
  pub suffix : dropped ++ samples ≡ history
  pub bounded : length samples ≤ 4096
  pub enough : min least (length history) ≤ length samples

pub empty-IsWindow : (least : ℕ) → IsWindow least [] []
empty-IsWindow least = record {
  dropped = [];
  suffix = refl;
  bounded = omega arith;
  enough = omega arith;
}

module _ (least n : ℕ) (hs samples : List ℕ) (s : ℕ) (w : IsWindow least hs samples) where
  abbrev pub longer : List ℕ
  longer = samples ++ s ∷ []

  whole : w.dropped ++ longer ≡ hs ++ s ∷ []
  whole = sym (append_assoc w.dropped samples (s ∷ [])) ∙ ap (λ t. t ++ s ∷ []) w.suffix

  lengths : (length longer ≡ suc (length samples)) × (length (hs ++ s ∷ []) ≡ suc (length hs))
  lengths =
      (omega (arith, length-append samples (s ∷ [])), omega (arith, length-append hs (s ∷ [])))

  cut-IsWindow :
      length longer - n ≤ 4096
      → least ≤ length longer - n
      → IsWindow least (hs ++ s ∷ []) (drop n longer)
  cut-IsWindow small large = record {
    dropped = w.dropped ++ take n longer;
    suffix =
        append_assoc w.dropped (take n longer) (drop n longer)
        ∙ ap (◌++◌ w.dropped) (take-append-drop n longer)
        ∙ whole;
    bounded = omega (arith, length-drop n longer);
    enough = omega (arith, length-drop n longer);
  }

  grown-IsWindow : length longer ≤ 4096 → IsWindow least (hs ++ s ∷ []) longer
  grown-IsWindow small = record {
    dropped = w.dropped;
    suffix = whole;
    bounded = small;
    enough = omega (arith, lengths, w.enough);
  }

  not_ltb : ltb 4096 (length longer) ≡ false → length longer ≤ 4096
  not_ltb h = ground arith

  -- A push, with a cut of `n` once there are more than 4096.
  pub push-IsWindow :
      (4096 < length longer
        → length longer ≤ 4097
        → (length longer - n ≤ 4096) × (least ≤ length longer - n))
      → IsWindow least (hs ++ s ∷ []) (if ltb 4096 (length longer) then drop n longer else longer)
  push-IsWindow cut = elim (Bool-cases (ltb 4096 (length longer))) [
    | inl long ↦
        let many = ltb→lt 4096 (length longer) long in
        let (small, large) = cut many (omega (arith, lengths, w.bounded)) in
        rw long (cut-IsWindow small large)
    | inr short ↦ rw short (grown-IsWindow (not_ltb short))
  ]
