-- ===== src/Recv.antt =====
-- src/recv.rs: `Reassembly`, and what one `sctp_recvmsg` does to it. The answer of the kernel to
-- the call is an argument.
pub mod Bounds
pub mod Cases
pub mod Chunks
pub mod Conserved
use async_sctp.Common.{
  ℕ, zero, suc, ◌-◌, ◌*◌, Bool, not, Bytes, [], ◌++◌, Option, none, some, bit_and, ltb, ◌==◌,
  if◌then◌else◌, length, take, drop, replicate, from_be32, Endian,
}
use async_sctp.Error.{SctpError, io, os_error, peer_shutdown, Result, ok, err}
use async_sctp.Platform.{Platform, is_would_block}
use async_sctp.Sys.{SctpSndRcvInfo, msg_notification, msg_eor}
use async_sctp.Addr.{SocketAddr, from_raw}
use async_sctp.Kernel.{Ret, ret, fail}
use async_sctp.Notification.{Notification, parse_notification}
use async_sctp.Types.{RecvInfo}

abbrev pub recv_window : ℕ
recv_window = 64 * 1024

pub record Reassembly : Type 0 where
  pub buf : Bytes
  pub scratch : Bytes

-- `Reassembly::default()`.
abbrev pub empty : Reassembly
empty = record { buf = []; scratch = [] }

pub data Step : Type 0 where
  would_block more : Step
  notified : Notification → Step
  complete : Bytes → RecvInfo → Option SocketAddr → Step
  stop : SctpError → Step

-- What `sctp_recvmsg` answers: its return value, the bytes that it wrote to the message buffer,
-- the flags, the ancillary data and the address that it filled in.
pub record RecvReply : Type 0 where
  pub result : Ret
  pub written : Bytes
  pub msg_flags : ℕ
  pub sinfo : SctpSndRcvInfo
  pub storage : Bytes

abbrev pub has_flag : ℕ → ℕ → Bool
has_flag flags bit = not (bit_and flags bit == 0)

abbrev pub info_of : Endian → SctpSndRcvInfo → RecvInfo
info_of e sinfo = record {
  stream = sinfo.sinfo_stream;
  ppid = from_be32 e sinfo.sinfo_ppid;
  assoc_id = sinfo.sinfo_assoc_id;
}

-- The step, and the accumulator afterwards.
unfoldable pub push_chunk :
    Endian → Bytes → Bytes → ℕ → SctpSndRcvInfo → Option SocketAddr → Step × Bytes
push_chunk e buf chunk msg_flags sinfo addr =
    if has_flag msg_flags msg_notification
    then (notified (parse_notification e chunk), buf)
    else if has_flag msg_flags msg_eor
    then (complete (buf ++ chunk) (info_of e sinfo) addr, [])
    else (more, buf ++ chunk)

-- `scratch.resize(RECV_WINDOW, 0)` where it is shorter.
unfoldable pub grown : Bytes → Bytes
grown scratch =
    if ltb (length scratch) recv_window
    then scratch ++ replicate (recv_window - length scratch) 0
    else scratch

-- The buffer after the kernel has written some bytes at its start.
unfoldable pub overwritten : Bytes → Bytes → Bytes
overwritten written scratch = written ++ drop (length written) scratch

-- `from_raw(&storage).ok()` where the address is wanted.
abbrev pub ok_of : Result SocketAddr → Option SocketAddr
ok_of (ok a) = some a
ok_of (err e) = none

unfoldable pub peer_of : Platform → Bool → Bytes → Option SocketAddr
peer_of p want_addr storage = if want_addr then ok_of (from_raw p storage) else none

-- The part after the call, by its return value; `scratch` is the read buffer by then.
unfoldable pub fold_reply : Platform → Bool → Bytes → Bytes → RecvReply → Ret → Step × Bytes
fold_reply p want_addr buf scratch r (fail errno) =
    (if is_would_block p errno then would_block else stop (io (os_error errno)), buf)
fold_reply p want_addr buf scratch r (ret zero) = (stop peer_shutdown, buf)
fold_reply p want_addr buf scratch r (ret (suc n)) =
    push_chunk p.endian buf (take (suc n) scratch) r.msg_flags r.sinfo
      (peer_of p want_addr r.storage)

unfoldable pub recv_step : Platform → Bool → Reassembly → RecvReply → Step × Reassembly
recv_step p want_addr st r =
    let scratch = overwritten r.written (grown st.scratch) in
    let (step, buf) = fold_reply p want_addr st.buf scratch r r.result in
    (step, record { buf = buf; scratch = scratch })
