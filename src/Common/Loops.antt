-- ===== src/Common/Loops.antt =====
-- Loops on fuel over a list of which each round takes at least one entry.
use Prim.Native.Nat.{ℕ, zero, suc, ◌<◌}
use mathlib.Core.Path.{◌≡◌, ◌∙◌, sym}
use mathlib.Core.List.{List}
use native.Mathlib.Omega.{arith}
use async_sctp.Common.Lists.{length}

-- `body` is a round, of which the argument is the rounds that follow it, and which goes on only
-- with a shorter list. `loop` runs it on fuel.
module _ {S W R : Type 0} (body : (S → List W → R) → S → List W → R)
    (agree : (f g : S → List W → R) (s : S) (ws : List W)
      → ((t : S) (vs : List W) → length vs < length ws → f t vs ≡ g t vs)
      → body f s ws ≡ body g s ws)
    (loop : ℕ → S → List W → R)
    (round : (n : ℕ) (s : S) (ws : List W) → loop (suc n) s ws ≡ body (loop n) s ws) where
  -- Fuel beyond the length of the list makes no difference.
  loop_agree :
      (k m : ℕ) (s : S) (ws : List W) → length ws < k → length ws < m → loop k s ws ≡ loop m s ws
  loop_agree zero m s ws h g = absurd (omega arith)
  loop_agree (suc k) zero s ws h g = absurd (omega arith)
  loop_agree (suc k) (suc m) s ws h g =
      round k s ws
      ∙ agree (loop k) (loop m) s ws (λ t vs less. loop_agree k m t vs (omega arith) (omega arith))
      ∙ sym (round m s ws)

  -- With one round more than there are entries the loop is its body, with itself for what follows.
  pub loop_lem :
      (s : S) (ws : List W)
      → loop (suc (length ws)) s ws ≡ body (λ t vs. loop (suc (length vs)) t vs) s ws
  loop_lem s ws =
      round (length ws) s ws
      ∙ agree (loop (length ws)) (λ t vs. loop (suc (length vs)) t vs) s ws
          (λ t vs less. loop_agree (length ws) (suc (length vs)) t vs less (omega arith))
