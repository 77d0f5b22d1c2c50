-- ===== src/Recv/Bounds.antt =====
-- The read buffer: its length, and the slice of it that a read hands on.
use async_sctp.Common.{
  ℕ, zero, suc, ◌-◌, ◌≤◌, ◌≡◌, refl, ◌∙◌, arith, inl, inr, Bool, Bool-cases, Bytes, [], ◌∷◌, ltb,
  ltb_false→le, length, drop, replicate, length-append,
}
use async_sctp.Platform.{Platform}
use async_sctp.Kernel.{Ret, ret, fail}
use async_sctp.Recv.{recv_window, Reassembly, RecvReply, grown, overwritten, recv_step}

length-replicate : (n a : ℕ) → length (replicate n a) ≡ n
length-replicate zero a = refl
length-replicate (suc n) a = omega (arith, length-replicate n a)

length-drop : (n : ℕ) (xs : Bytes) → length (drop n xs) ≡ length xs - n
length-drop zero xs = omega arith
length-drop (suc n) [] = omega arith
length-drop (suc n) (x ∷ xs) = omega (arith, length-drop n xs)

-- The read buffer is not longer than the window.
pub record IsReassembly (st : Reassembly) : Type 0 where
  pub within : length st.scratch ≤ recv_window

-- A read wrote no more than the window, and returned no more than it wrote.
abbrev Bounded : Ret → ℕ → Type 0
Bounded (ret n) written = n ≤ written
Bounded (fail errno) written = Unit {0}

pub record IsBounded (r : RecvReply) : Type 0 where
  pub written : length r.written ≤ recv_window
  pub result : Bounded r.result (length r.written)

-- The slice `[..n]` of a buffer of `size` bytes exists.
abbrev pub Slices : Ret → ℕ → Type 0
Slices (ret n) size = n ≤ size
Slices (fail errno) size = Unit {0}

length-grown : (xs : Bytes) → length xs ≤ recv_window → length (grown xs) ≡ recv_window
unfolding grown
length-grown xs h = elim (Bool-cases (ltb (length xs) recv_window)) [
  | inl short ↦ rw short (
      rw
        (
          length-append xs (replicate (recv_window - length xs) 0),
          length-replicate (recv_window - length xs) 0,
        )
        (omega arith))
  | inr full ↦ rw full (omega (arith, ltb_false→le (length xs) recv_window full))
]

length-overwritten : (w xs : Bytes) → length w ≤ length xs → length (overwritten w xs) ≡ length xs
unfolding overwritten
length-overwritten w xs h =
    omega (arith, length-append w (drop (length w) xs), length-drop (length w) xs)

slice_in : (q : Ret) (written size : ℕ) → Bounded q written → written ≤ size → Slices q size
slice_in (ret n) written size b h = omega arith
slice_in (fail errno) written size b h = tt

-- From the empty state on, each read keeps the read buffer within the window, and makes it exactly
-- as long as the window; and the bytes that the code slices from it after the read are there.
pub recv_step-IsReassembly :
    (p : Platform) (w : Bool) (st : Reassembly) (r : RecvReply)
    → IsReassembly st
    → IsBounded r
    → IsReassembly (recv_step p w st r).1
      × (length (recv_step p w st r).1.scratch ≡ recv_window)
      × Slices r.result (length (overwritten r.written (grown st.scratch)))
unfolding recv_step
recv_step-IsReassembly p w st r is b =
    let grew = length-grown st.scratch is.within in
    let same : length (overwritten r.written (grown st.scratch)) ≡ recv_window =
      length-overwritten r.written (grown st.scratch) (rw grew b.written) ∙ grew in
    (
      record { within = omega (arith, same) },
      same,
      slice_in r.result (length r.written) _ b.result (rw same b.written),
    )
