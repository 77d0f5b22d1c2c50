-- ===== src/Listener/Open.antt =====
-- An `accept` that does not fail closes no descriptor.
use async_sctp.Common.{refl, Bytes, List, [], ◌∷◌, true, false, if◌then◌else◌}
use async_sctp.Error.{Result, ok, err, io, os_error}
use async_sctp.Platform.{Platform, is_would_block}
use async_sctp.Addr.{SocketAddr, from_raw}
use async_sctp.Kernel.{
  Fd, Call, Ret, ret, fail, History, Os, Io, and_then, close_failed, closing, ◌>>=◌, issue, ignore,
  checked, pure, throw,
}
use async_sctp.Kernel.Frame.{Quiet-pure, Quiet-ignore, Quiet-issue, Quiet-wait, Quiet-throw}
use async_sctp.Kernel.Open.{KeepsOpen, Quiet-KeepsOpen, KeepsOpen-bind}
use async_sctp.Socket.{lift, register}
use async_sctp.Socket.Quiet.{Quiet-set_nonblocking, Quiet-configure_events}
use async_sctp.Association.{SctpAssociation}
use async_sctp.Association.Connect.{from_raw_fd}
use async_sctp.Listener.{SctpListener}
use async_sctp.Listener.Accept.{Wake, readable, reactor_error, accept, accepted}

module _ (d : Fd) (os : Os) where
  registered :
      (fd : Fd) (h : History) (r : Ret)
      → KeepsOpen d h
          (close_failed fd (and_then os (checked r os (Call.register fd ∷ h)) (λ _. pure tt)))
  unfolding checked pure throw
  registered fd h (ret n) = refl
  registered fd h (fail errno) = tt

  KeepsOpen-register : (fd : Fd) (h : History) → KeepsOpen d h (register fd os h)
  unfolding register closing ◌>>=◌ issue
  KeepsOpen-register fd h = registered fd h (os h (Call.register fd)).result

  pub KeepsOpen-from_raw_fd :
      (p : Platform) (fd : Fd) (h : History) → KeepsOpen d h (from_raw_fd p fd os h)
  unfolding from_raw_fd pure
  KeepsOpen-from_raw_fd p fd h =
      KeepsOpen-bind d os _ _ h (Quiet-KeepsOpen d os _ h (Quiet-set_nonblocking d p fd)) λ _ g.
        KeepsOpen-bind d os _ _ g (Quiet-KeepsOpen d os _ g (Quiet-configure_events d p fd))
          λ _ k. KeepsOpen-bind d os _ _ k (KeepsOpen-register fd k) λ _ l. refl

  KeepsOpen-lift : {A : Type 0} (x : Result A) (h : History) → KeepsOpen d h (lift x os h)
  unfolding lift pure throw
  KeepsOpen-lift (ok a) h = refl
  KeepsOpen-lift (err e) h = tt

  KeepsOpen-accepted :
      (p : Platform) (fd : Fd) (storage : Bytes) (r : Ret)
      (again : Io (SctpAssociation × SocketAddr)) (h : History)
      → ((g : History) → KeepsOpen d g (again os g))
      → KeepsOpen d h (accepted p fd storage r again os h)
  unfolding accepted
  KeepsOpen-accepted p fd storage (fail errno) again h next =
      elim (is_would_block p errno)
        as (λ b. KeepsOpen d h (
          (if b then (ignore (Call.clear_ready fd) >>= λ _. again) else throw (io (os_error errno)))
            os h)) [
              | true ↦
                  KeepsOpen-bind d os _ _ h (Quiet-KeepsOpen d os _ h (Quiet-ignore d _ tt))
                    (λ _ g. next g)
              | false ↦ Quiet-KeepsOpen d os _ h (Quiet-throw d (SctpAssociation × SocketAddr) _)
            ]
  KeepsOpen-accepted p fd storage (ret n) again h next =
      KeepsOpen-bind d os _ _ h (KeepsOpen-lift (from_raw p storage) h) λ peer g.
        KeepsOpen-bind d os _ _ g (KeepsOpen-from_raw_fd p n g)
          λ a k. Quiet-KeepsOpen d os (pure (a, peer)) k (Quiet-pure d (a, peer))

  pub KeepsOpen-accept :
      (p : Platform) (l : SctpListener) (ws : List Wake) (h : History)
      → KeepsOpen d h (accept p l ws os h)
  unfolding accept
  KeepsOpen-accept p l [] h = Quiet-KeepsOpen d os _ h (Quiet-wait d (SctpAssociation × SocketAddr))
  KeepsOpen-accept p l (reactor_error e ∷ ws) h =
      Quiet-KeepsOpen d os _ h (Quiet-throw d (SctpAssociation × SocketAddr) _)
  KeepsOpen-accept p l (readable ∷ ws) h =
      KeepsOpen-bind d os _ _ h (Quiet-KeepsOpen d os _ h (Quiet-issue d _ tt)) λ a g.
        KeepsOpen-accepted p l.fd a.storage a.result (accept p l ws) g (KeepsOpen-accept p l ws)
