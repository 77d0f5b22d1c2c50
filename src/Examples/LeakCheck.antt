-- ===== src/Examples/LeakCheck.antt =====
-- src/examples/leak_check.rs: the allocator that counts the live bytes, and the verdict. What the
-- system's allocator answers is an argument; `none` is a null pointer. `LIVE`, an `i64`, is its 64
-- bits, a number below 2 ^ 64.
pub mod Live
use async_sctp.Common.{
  ℕ, ◌+◌, ◌-◌, ◌*◌, ◌%◌, ◌^◌, Bool, true, false, not, ◌&&◌, Option, none, some, ltb, if◌then◌else◌,
  ℤ, pos, negsuc,
}

abbrev pub Pointer : Type 0
Pointer = ℕ

-- `fetch_add` and `fetch_sub` wrap around.
abbrev pub fetch_add : ℕ → ℕ → ℕ
fetch_add live n = (live + n) % 2 ^ 64

abbrev pub minus_i64 : ℕ → ℕ → ℕ
minus_i64 a b = (a + (2 ^ 64 - b)) % 2 ^ 64

abbrev pub fetch_sub : ℕ → ℕ → ℕ
fetch_sub = minus_i64

-- What the allocator returns, with `LIVE` afterwards.
unfoldable pub alloc : Option Pointer → (size live : ℕ) → Option Pointer × ℕ
alloc none size live = (none, live)
alloc (some q) size live = (some q, fetch_add live size)

unfoldable pub dealloc : (size live : ℕ) → ℕ
dealloc size live = fetch_sub live size

unfoldable pub alloc_zeroed : Option Pointer → (size live : ℕ) → Option Pointer × ℕ
alloc_zeroed none size live = (none, live)
alloc_zeroed (some q) size live = (some q, fetch_add live size)

unfoldable pub realloc : Option Pointer → (size new live : ℕ) → Option Pointer × ℕ
realloc none size new live = (none, live)
realloc (some q) size new live = (some q, fetch_add live (minus_i64 new size))

-- The value of an `i64` of these bits.
abbrev pub signed : ℕ → ℤ
signed n = if ltb n (2 ^ 63) then pos n else negsuc (2 ^ 64 - 1 - n)

abbrev pub budget : ℕ
budget = 256 * 1024

-- `growth > BUDGET`.
abbrev pub exceeds : ℤ → Bool
exceeds (pos n) = ltb budget n
exceeds (negsuc n) = false

-- `live() - base`.
unfoldable pub growth : (live base : ℕ) → ℤ
growth live base = signed (minus_i64 live base)

-- `ok`, from the values of `LIVE` at the base and at the end of the two phases.
unfoldable pub verdict : (echo_base echo_end churn_base churn_end : ℕ) → Bool
verdict echo_base echo_end churn_base churn_end =
    not (exceeds (growth echo_end echo_base)) && not (exceeds (growth churn_end churn_base))
