-- ===== src/Association/Addrs.antt =====
-- `peer_addrs` and `local_addrs` of an association.
use async_sctp.Common.{
  ◌≡◌, Bool, true, false, List, ◌∷◌, ◌++◌, ℤ, pos, All, Bytes, length, if◌then◌else◌,
}
use async_sctp.Platform.{Platform, IsPlatform}
use async_sctp.Addr.{SocketAddr, pack, parse_array}
use async_sctp.Addr.RoundTrip.{IsAddr, parse_array-pack}
use async_sctp.Kernel.{
  Fd, Call, ret, History, Os, done, Io, pure, ◌>>=◌, ◌>>◌, issue, ignore, checked,
}
use async_sctp.Association.{SctpAssociation}

-- The array is walked before the kernel gets it back.
unfoldable pub addrs_via : Platform → Fd → ℤ → Bool → Io (List SocketAddr)
addrs_via p fd assoc_id peer = do
  a ← issue (if peer then Call.getpaddrs fd assoc_id else Call.getladdrs fd assoc_id)
  n ← checked a.result
  ignore (if peer then Call.freepaddrs else Call.freeladdrs)
  pure (parse_array p a.array n)

unfoldable pub peer_addrs : Platform → SctpAssociation → Io (List SocketAddr)
peer_addrs p a = addrs_via p a.fd (pos 0) true

unfoldable pub local_addrs : Platform → SctpAssociation → Io (List SocketAddr)
local_addrs p a = addrs_via p a.fd (pos 0) false

-- Where the kernel answers with an array of the peer's addresses, v4 and v6 mixed, with whatever
-- bytes behind them, and their number, `peer_addrs` returns these addresses in order, and has
-- given the array back once, after the call.
pub peer_addrs-pack :
    (p : Platform) (is : IsPlatform p) (a : SctpAssociation) (os : Os) (h : History)
    (addrs : List SocketAddr) (rest : Bytes)
    → All IsAddr addrs
    → (os h (Call.getpaddrs a.fd (pos 0))).result ≡ ret (length addrs)
    → (os h (Call.getpaddrs a.fd (pos 0))).array ≡ pack p addrs ++ rest
    → peer_addrs p a os h ≡ done addrs (Call.freepaddrs ∷ Call.getpaddrs a.fd (pos 0) ∷ h)
unfolding peer_addrs addrs_via ◌>>=◌ issue checked pure
peer_addrs-pack p is a os h addrs rest are_addrs r e =
    rw (r, e, parse_array-pack p is addrs rest are_addrs)
