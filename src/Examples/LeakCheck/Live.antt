-- ===== src/Examples/LeakCheck/Live.antt =====
-- `LIVE` counts the bytes of the blocks that are allocated.
use async_sctp.Common.{
  ℕ, ◌+◌, ◌<◌, ◌%◌, ◌^◌, ◌≡◌, refl, arith, not, ◌&&◌, List, [], ◌∷◌, ◌++◌, none, some, leb,
}
use async_sctp.Examples.LeakCheck.{
  Pointer, alloc, dealloc, alloc_zeroed, realloc, budget, exceeds, growth, verdict,
}

-- A block that is allocated: where it is and its size.
abbrev pub Block : Type 0
Block = Pointer × ℕ

abbrev pub total : List Block → ℕ
total [] = 0
total ((q, size) ∷ bs) = size + total bs

-- Calls of the allocator, one after the other, from some blocks and a value of `LIVE` to others.
-- A block is freed or moved with the size that it has, which is that of a `Layout`.
pub data Calls : List Block → ℕ → List Block → ℕ → Type 0 where
  no_call : {bs : List Block} {live : ℕ} → Calls bs live bs live
  refused :
      {bs cs : List Block} {live end : ℕ} (size : ℕ)
      → Calls bs (alloc none size live).1 cs end
      → Calls bs live cs end
  allocated :
      {bs cs : List Block} {live end : ℕ} (q : Pointer) (size : ℕ)
      → Calls ((q, size) ∷ bs) (alloc (some q) size live).1 cs end
      → Calls bs live cs end
  zeroed_refused :
      {bs cs : List Block} {live end : ℕ} (size : ℕ)
      → Calls bs (alloc_zeroed none size live).1 cs end
      → Calls bs live cs end
  zeroed :
      {bs cs : List Block} {live end : ℕ} (q : Pointer) (size : ℕ)
      → Calls ((q, size) ∷ bs) (alloc_zeroed (some q) size live).1 cs end
      → Calls bs live cs end
  freed :
      {bs cs : List Block} {live end : ℕ} (before after : List Block) (q : Pointer) (size : ℕ)
      → bs ≡ before ++ (q, size) ∷ after
      → size < 2 ^ 63
      → Calls (before ++ after) (dealloc size live) cs end
      → Calls bs live cs end
  not_moved :
      {bs cs : List Block} {live end : ℕ} (size new : ℕ)
      → Calls bs (realloc none size new live).1 cs end
      → Calls bs live cs end
  moved :
      {bs cs : List Block} {live end : ℕ} (before after : List Block) (q r : Pointer) (size new : ℕ)
      → bs ≡ before ++ (q, size) ∷ after
      → size < 2 ^ 63
      → Calls (before ++ (r, new) ∷ after) (realloc (some r) size new live).1 cs end
      → Calls bs live cs end

total-append : (bs cs : List Block) → total (bs ++ cs) ≡ total bs + total cs
total-append [] cs = omega arith
total-append ((q, size) ∷ bs) cs = omega (arith, total-append bs cs)

total-middle :
    (before after : List Block) (q : Pointer) (size : ℕ)
    → total (before ++ (q, size) ∷ after) ≡ total before + (size + total after)
total-middle before after q size = total-append before ((q, size) ∷ after)

-- `LIVE` is the number of bytes in the blocks, modulo 2 ^ 64.
abbrev pub Counts : List Block → ℕ → Type 0
Counts bs live = live ≡ total bs % 2 ^ 64

dealloc-Counts :
    (before after : List Block) (q : Pointer) (size live : ℕ)
    → size < 2 ^ 63
    → Counts (before ++ (q, size) ∷ after) live
    → Counts (before ++ after) (dealloc size live)
unfolding dealloc
dealloc-Counts before after q size live small c =
    omega (arith, c, total-middle before after q size, total-append before after)

realloc-Counts :
    (before after : List Block) (q r : Pointer) (size new live : ℕ)
    → size < 2 ^ 63
    → Counts (before ++ (q, size) ∷ after) live
    → Counts (before ++ (r, new) ∷ after) (realloc (some r) size new live).1
unfolding realloc
realloc-Counts before after q r size new live small c =
    omega (arith, c, total-middle before after q size, total-middle before after r new)

Calls-Counts :
    {bs cs : List Block} {live end : ℕ} → Calls bs live cs end → Counts bs live → Counts cs end
unfolding alloc alloc_zeroed realloc
Calls-Counts no_call c = c
Calls-Counts (refused size calls) c = Calls-Counts calls c
Calls-Counts (allocated q size calls) c = Calls-Counts calls (omega (arith, c))
Calls-Counts (zeroed_refused size calls) c = Calls-Counts calls c
Calls-Counts (zeroed q size calls) c = Calls-Counts calls (omega (arith, c))
Calls-Counts (freed before after q size split small calls) c =
    Calls-Counts calls (dealloc-Counts before after q size _ small (rw split at c))
Calls-Counts (not_moved size new calls) c = Calls-Counts calls c
Calls-Counts (moved before after q r size new split small calls) c =
    Calls-Counts calls (realloc-Counts before after q r size new _ small (rw split at c))

-- Within half of the address space, the growth is what the blocks hold more, and it exceeds the budget
-- where that is more than it.
exceeds-growth :
    (bs cs : List Block) (base live : ℕ)
    → Counts bs base
    → Counts cs live
    → total bs < 2 ^ 63
    → total cs < 2 ^ 63
    → not (exceeds (growth live base)) ≡ leb (total cs) (total bs + budget)
unfolding growth
exceeds-growth bs cs base live b c small_b small_c = ground (arith, b, c, small_b, small_c)

-- Whatever calls of the allocator the program makes, refused ones included, up to the base of the
-- first phase, to its end, to the base of the second and to its end, the verdict is good exactly
-- if at the end of each phase the blocks that are allocated hold at most the budget more than at
-- its base. The blocks are taken to hold less than 2 ^ 63 bytes together at these four points.
pub verdict-Calls :
    {at_echo_base at_echo_end at_churn_base at_churn_end : List Block}
    {echo_base echo_end churn_base churn_end : ℕ}
    → Calls [] 0 at_echo_base echo_base
    → Calls at_echo_base echo_base at_echo_end echo_end
    → Calls at_echo_end echo_end at_churn_base churn_base
    → Calls at_churn_base churn_base at_churn_end churn_end
    → total at_echo_base < 2 ^ 63
    → total at_echo_end < 2 ^ 63
    → total at_churn_base < 2 ^ 63
    → total at_churn_end < 2 ^ 63
    → verdict echo_base echo_end churn_base churn_end
      ≡ leb (total at_echo_end) (total at_echo_base + budget)
        && leb (total at_churn_end) (total at_churn_base + budget)
unfolding verdict
verdict-Calls {at_echo_base} {at_echo_end} {at_churn_base} {at_churn_end} warm echo between churn
      small_a small_b small_c small_d =
    let a = Calls-Counts warm refl in
    let b = Calls-Counts echo a in
    let c = Calls-Counts between b in
    let d = Calls-Counts churn c in
    rw (
      exceeds-growth at_echo_base at_echo_end _ _ a b small_a small_b,
      exceeds-growth at_churn_base at_churn_end _ _ c d small_c small_d,
    )
