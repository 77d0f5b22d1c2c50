-- ===== src/Association/Connect/Ledger.antt =====
-- What a connect leaves open: the descriptor of the association it makes, and nothing else.
use async_sctp.Common.{
  ℕ, ◌+◌, ◌≡◌, refl, arith, ◌∷◌, ◌++◌, Bool, true, false, List, is_empty, ◌==◌, if◌then◌else◌,
}
use async_sctp.Association.Lifetime.Closes.{HasFd, HasFd-socket}
use async_sctp.Error.{SctpError}
use async_sctp.Platform.{Platform}
use async_sctp.Sys.{ipproto_sctp}
use async_sctp.Addr.{SocketAddr}
use async_sctp.Kernel.{
  Fd, Call, Ret, ret, fail, History, Os, Run, done, failed, waiting, Io, and_then, closing,
  close_failed, ◌>>=◌, ◌>>◌, issue, checked, pure, throw,
}
use async_sctp.Kernel.Frame.{closes, opens, gives}
use async_sctp.Kernel.Ledger.{tally, Opened, Holds, Holds-closing, Holds-bind, Holds-pure}
use async_sctp.Config.{SctpConfig}
use async_sctp.Socket.{domain_of, register}
use async_sctp.Association.{SctpAssociation, fresh}
use async_sctp.Association.Connect.{
  Wake, ports_differ, prepare, start, connect_socket, connect_bound,
}
use async_sctp.Association.Connect.Closes.{Quiet-prepare, Quiet-start}

-- Made: the descriptor of the association is open, and no other. Failed: none is. It still waits:
-- nothing is said.
abbrev pub OpensOne : Fd → Os → History → Run SctpAssociation → Type 0
OpensOne d os h (done a g) = Opened d (tally (a.fd == d)) os h g
OpensOne d os h (failed e g) = Opened d 0 os h g
OpensOne d os h (waiting g) = Unit {0}

module _ (d : Fd) (os : Os) (p : Platform) where
  registered :
      (fd : Fd) (h : History) (r : Ret)
      → Holds d
          (tally (fd == d))
          os
          h
          (close_failed fd (and_then os (checked r os (Call.register fd ∷ h)) (λ _. pure tt)))
  unfolding checked pure throw
  registered fd h (ret n) = ground arith
  registered fd h (fail errno) = ground arith

  Holds-register : (fd : Fd) (h : History) → Holds d (tally (fd == d)) os h (register fd os h)
  unfolding register closing ◌>>=◌ issue
  Holds-register fd h = registered fd h (os h (Call.register fd)).result

  Holds-opened :
      (fd : Fd) (local addrs : List SocketAddr) (domain : ℕ) (config : SctpConfig) (ws : List Wake)
      (h : History)
      → Holds d (tally (fd == d)) os h (
          (closing fd (prepare p fd local domain config)
              >> (register fd >> (closing fd (start p fd addrs ws) >> pure (fresh fd))))
            os h)
  Holds-opened fd local addrs domain config ws h =
      Holds-bind d os _ _ _ h (Holds-closing d os fd h (Quiet-prepare d p fd local domain config))
        λ _ g. Holds-bind d os _ _ _ g (Holds-register fd g) λ _ k.
          Holds-bind d os _ _ _ k (Holds-closing d os fd k (Quiet-start d p fd addrs ws))
            λ _ l. Holds-pure d os _ (fresh fd) l

  made_from :
      (c : Call) (fd : Fd) (h : History) (r : Run SctpAssociation)
      → closes d (c ∷ h) ≡ closes d h
      → opens d os (c ∷ h) ≡ tally (fd == d) + opens d os h
      → HasFd fd r
      → Holds d (tally (fd == d)) os (c ∷ h) r
      → OpensOne d os h r
  made_from c fd h (done a g) same one has holds = rw has (omega arith)
  made_from c fd h (failed e g) same one has holds = omega arith
  made_from c fd h (waiting g) same one has holds = tt

  OpensOne-answer :
      (c : Call) (local addrs : List SocketAddr) (domain : ℕ) (config : SctpConfig) (ws : List Wake)
      (h : History) (r : Ret)
      → closes d (c ∷ h) ≡ closes d h
      → opens d os (c ∷ h) ≡ gives d r + opens d os h
      → OpensOne d os h (
          and_then os (checked r os (c ∷ h)) λ fd.
            closing fd (prepare p fd local domain config)
            >> (register fd >> (closing fd (start p fd addrs ws) >> pure (fresh fd))))
  unfolding checked pure throw
  OpensOne-answer c local addrs domain config ws h (ret fd) same one =
      made_from c fd h _ same one (HasFd-socket p local addrs domain config ws os (c ∷ h) fd)
        (Holds-opened fd local addrs domain config ws (c ∷ h))
  OpensOne-answer c local addrs domain config ws h (fail errno) same one = omega arith

  OpensOne-connect_socket :
      (local addrs : List SocketAddr) (config : SctpConfig) (ws : List Wake) (h : History)
      → OpensOne d os h (connect_socket p local addrs config ws os h)
  unfolding connect_socket ◌>>=◌ issue
  OpensOne-connect_socket local addrs config ws h =
      OpensOne-answer (Call.socket (domain_of p (addrs ++ local)) p.sock_stream ipproto_sctp) local
        addrs (domain_of p (addrs ++ local)) config ws h _ refl refl

  OpensOne-if :
      (b : Bool) (m n : Io SctpAssociation) (h : History)
      → OpensOne d os h (m os h)
      → OpensOne d os h (n os h)
      → OpensOne d os h ((if b then m else n) os h)
  OpensOne-if true m n h q r = q
  OpensOne-if false m n h q r = r

  OpensOne-throw : (e : SctpError) (h : History) → OpensOne d os h (throw e os h)
  unfolding throw
  OpensOne-throw e h = omega arith

  -- Whatever the kernel answers and the addresses are: a connect that fails leaves open nothing
  -- that it opened, and one that makes an association leaves open its descriptor and nothing else.
  pub connect_bound-OpensOne :
      (local addrs : List SocketAddr) (config : SctpConfig) (ws : List Wake) (h : History)
      → OpensOne d os h (connect_bound p local addrs config ws os h)
  unfolding connect_bound
  connect_bound-OpensOne local addrs config ws h =
      OpensOne-if (is_empty addrs) _ _ h (OpensOne-throw _ h) (
        OpensOne-if (ports_differ local) _ _ h (OpensOne-throw _ h)
          (OpensOne-connect_socket local addrs config ws h))
