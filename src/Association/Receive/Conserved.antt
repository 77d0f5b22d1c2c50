-- ===== src/Association/Receive/Conserved.antt =====
-- Over any calls of `recv_msg`, dropped ones among them, the messages that they return are the data
-- that the kernel delivered.
use async_sctp.Common.{
  ◌≡◌, refl, ap, ◌∙◌, sym, subst, true, false, Bytes, List, [], ◌∷◌, ◌++◌, append_assoc, append-nil,
  if◌then◌else◌, All,
}
use async_sctp.Error.{Result, ok, err, not_connected}
use async_sctp.Platform.{Platform}
use async_sctp.Recv.{Step, would_block, more, notified, complete, stop, recv_step}
use async_sctp.Recv.Conserved.{IsReply, data_of, payload, recv_step-data_of}
use async_sctp.Association.{SctpAssociation, ends, RecvResult, message, notice}
use async_sctp.Association.Receive.{
  Wake, readable, reactor_error, Poll, returned, pending, on_step, recv_msg,
}

abbrev pub IsWake : Wake → Type 0
IsWake (readable r) = IsReply r
IsWake (reactor_error e) = Unit {0}

-- The data that the kernel delivers at some wakes.
abbrev pub delivered : List Wake → Bytes
delivered [] = []
delivered (readable r ∷ ws) = data_of r ++ delivered ws
delivered (reactor_error e ∷ ws) = delivered ws

-- The payload of a message.
abbrev pub bytes_of : Result RecvResult → Bytes
bytes_of (ok (message bytes info)) = bytes
bytes_of (ok (notice n)) = []
bytes_of (err e) = []

-- Some calls one after the other: the association and the wakes to come before them, the payloads
-- that they returned, and the association and the wakes to come after them. A call is over, or it
-- is dropped while it waits.
pub data Calls (p : Platform)
    : SctpAssociation → List Wake → Bytes → SctpAssociation → List Wake → Type 0 where
  no_call : {a : SctpAssociation} {ws : List Wake} → Calls p a ws [] a ws
  over :
      {a c : SctpAssociation} {ws vs : List Wake} {out : Bytes} (x : Result RecvResult)
      (b : SctpAssociation) (us : List Wake)
      → recv_msg p a ws ≡ returned x b us
      → Calls p b us out c vs
      → Calls p a ws (bytes_of x ++ out) c vs
  dropped :
      {a c : SctpAssociation} {ws vs : List Wake} {out : Bytes} (b : SctpAssociation)
      (taken us : List Wake)
      → ws ≡ taken ++ us
      → recv_msg p a taken ≡ pending b
      → Calls p b us out c vs
      → Calls p a ws out c vs

-- What a call hands over, with what it leaves in the accumulator and at the wakes to come.
abbrev account : Poll RecvResult → Bytes
account (returned x b ws) = bytes_of x ++ (b.recv_state.buf ++ delivered ws)
account (pending b) = b.recv_state.buf

on_step-account :
    (s : Step) (b : SctpAssociation) (ws : List Wake) (again : Poll RecvResult)
    → account again ≡ b.recv_state.buf ++ delivered ws
    → account (on_step s b ws again) ≡ payload s ++ (b.recv_state.buf ++ delivered ws)
on_step-account would_block b ws again e =
    elim b.ended
      as (λ over.
        account (if over then returned (err not_connected) b ws else again)
        ≡ b.recv_state.buf ++ delivered ws) [ true ↦ refl | false ↦ e ]
on_step-account more b ws again e = e
on_step-account (notified n) b ws again e =
    elim (ends n)
      as (λ over.
        (if over then record b { ended = true } else b).recv_state.buf ++ delivered ws
        ≡ b.recv_state.buf ++ delivered ws) [ true ↦ refl | false ↦ refl ]
on_step-account (complete bytes info addr) b ws again e = refl
on_step-account (stop x) b ws again e = refl

recv_msg-account :
    (p : Platform) (a : SctpAssociation) (ws : List Wake)
    → All IsWake ws
    → account (recv_msg p a ws) ≡ a.recv_state.buf ++ delivered ws
unfolding recv_msg
recv_msg-account p a [] are = sym (append-nil a.recv_state.buf)
recv_msg-account p a (reactor_error e ∷ ws) are = refl
recv_msg-account p a (readable r ∷ ws) are =
    let b = record a { recv_state = (recv_step p false a.recv_state r).1 } in
    on_step-account (recv_step p false a.recv_state r).0 b ws (recv_msg p b ws)
      (recv_msg-account p b ws are.1)
    ∙ sym (
        append_assoc (payload (recv_step p false a.recv_state r).0) b.recv_state.buf (delivered ws))
    ∙ ap (λ d. d ++ delivered ws) (recv_step-data_of p false a.recv_state r are.0)
    ∙ append_assoc a.recv_state.buf (data_of r) (delivered ws)

-- The wakes that a call leaves are as the wakes that it was given.
abbrev Left : Poll RecvResult → Type 0
Left (returned x b ws) = All IsWake ws
Left (pending b) = Unit {0}

on_step-Left :
    (s : Step) (b : SctpAssociation) (ws : List Wake) (again : Poll RecvResult)
    → All IsWake ws
    → Left again
    → Left (on_step s b ws again)
on_step-Left would_block b ws again are l =
    elim b.ended as (λ over. Left (if over then returned (err not_connected) b ws else again)) [
      | true ↦ are
      | false ↦ l
    ]
on_step-Left more b ws again are l = l
on_step-Left (notified n) b ws again are l = are
on_step-Left (complete bytes info addr) b ws again are l = are
on_step-Left (stop x) b ws again are l = are

recv_msg-Left :
    (p : Platform) (a : SctpAssociation) (ws : List Wake) → All IsWake ws → Left (recv_msg p a ws)
unfolding recv_msg
recv_msg-Left p a [] are = tt
recv_msg-Left p a (reactor_error e ∷ ws) are = are.1
recv_msg-Left p a (readable r ∷ ws) are =
    let b = record a { recv_state = (recv_step p false a.recv_state r).1 } in
    on_step-Left (recv_step p false a.recv_state r).0 b ws (recv_msg p b ws) are.1
      (recv_msg-Left p b ws are.1)

split_delivered : (us vs : List Wake) → All IsWake (us ++ vs) → All IsWake us × All IsWake vs
split_delivered [] vs h = (tt, h)
split_delivered (u ∷ us) vs h = let parts = split_delivered us vs h.1 in ((h.0, parts.0), parts.1)

delivered-append : (us vs : List Wake) → delivered (us ++ vs) ≡ delivered us ++ delivered vs
delivered-append [] vs = refl
delivered-append (readable r ∷ us) vs =
    ap (λ d. data_of r ++ d) (delivered-append us vs)
    ∙ sym (append_assoc (data_of r) (delivered us) (delivered vs))
delivered-append (reactor_error e ∷ us) vs = delivered-append us vs

-- Over any calls of `recv_msg`, those included that fail or are dropped while they wait, the
-- payloads that the calls return, in order, with what is left in the accumulator and what the
-- kernel will still deliver, are what was in the accumulator with what the kernel delivers: no
-- byte of data is lost, doubled or moved, whatever notifications and errors come between. The
-- kernel's replies are taken to have written as many bytes as they return.
pub Calls-delivered :
    (p : Platform) (a : SctpAssociation) (ws : List Wake) (out : Bytes) (c : SctpAssociation)
    (vs : List Wake)
    → All IsWake ws
    → Calls p a ws out c vs
    → out ++ (c.recv_state.buf ++ delivered vs) ≡ a.recv_state.buf ++ delivered ws
Calls-delivered p a ws out c vs are no_call = refl
Calls-delivered p a ws out c vs are (over {out = later} x b us e calls) =
    let left : All IsWake us = subst Left e (recv_msg-Left p a ws are) in
    append_assoc (bytes_of x) later (c.recv_state.buf ++ delivered vs)
    ∙ ap (λ d. bytes_of x ++ d) (Calls-delivered p b us later c vs left calls)
    ∙ sym (ap account e)
    ∙ recv_msg-account p a ws are
Calls-delivered p a ws out c vs are (dropped b taken us split e calls) =
    let parts = split_delivered taken us (subst (All IsWake) split are) in
    Calls-delivered p b us out c vs parts.1 calls
    ∙ ap (λ d. d ++ delivered us) (sym (ap account e) ∙ recv_msg-account p a taken parts.0)
    ∙ append_assoc a.recv_state.buf (delivered taken) (delivered us)
    ∙ ap (λ d. a.recv_state.buf ++ d) (sym (delivered-append taken us) ∙ ap delivered (sym split))
