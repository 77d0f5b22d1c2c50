-- ===== src/Server/Receive.antt =====
-- `recv` of the server hands over whole messages with the address of their peer.
use async_sctp.Common.{
  ◌≡◌, refl, sym, ap, ◌∙◌, true, Bytes, List, [], ◌∷◌, ◌++◌, append-nil, append_assoc,
}
use async_sctp.Error.{ok}
use async_sctp.Platform.{Platform}
use async_sctp.Notification.{Notification}
use async_sctp.Recv.{Step, would_block, more, RecvReply, info_of, peer_of, recv_step}
use async_sctp.Recv.Chunks.{
  Blocks, recv_step-blocked, IsFragment, IsLast, IsNotice, recv_step-fragment, recv_step-last,
  recv_step-notice,
}
use async_sctp.Association.Receive.{Wake, readable}
use async_sctp.Server.{SctpServer, notice, Poll, returned, addressed, on_step, recv}

-- The wakes deliver `d` as the beginning of a message: fragments, with empty reads between them.
pub data Fragments (p : Platform) : Bytes → List Wake → Type 0 where
  none_yet : Fragments p [] []
  fragment :
      {d ds : Bytes} {r : RecvReply} {ws : List Wake}
      → IsFragment r d
      → Fragments p ds ws
      → Fragments p (d ++ ds) (readable r ∷ ws)
  blocked :
      {ds : Bytes} {r : RecvReply} {ws : List Wake}
      → Blocks p r
      → Fragments p ds ws
      → Fragments p ds (readable r ∷ ws)

-- The call came to what `reply` says of the server that it leaves, which has the bytes `buf` in
-- the accumulator and the descriptor of `s`.
pub record Leaves (s : SctpServer) (m : Poll) (reply : SctpServer → Poll) (buf : Bytes)
    : Type 0 where
  pub left : SctpServer
  pub result : m ≡ reply left
  pub kept : left.recv_state.buf ≡ buf
  pub same_fd : left.fd ≡ s.fd

-- The outcome of some rounds, from that of the rounds after the first.
later :
    (s t : SctpServer) (m m' : Poll) (reply reply' : SctpServer → Poll) (buf buf' : Bytes)
    → m ≡ m'
    → t.fd ≡ s.fd
    → ((u : SctpServer) → reply' u ≡ reply u)
    → buf' ≡ buf
    → Leaves t m' reply' buf'
    → Leaves s m reply buf
later s t m m' reply reply' buf buf' e fd replies same v = record {
  left = v.left;
  result = e ∙ v.result ∙ replies v.left;
  kept = v.kept ∙ same;
  same_fd = v.same_fd ∙ fd;
}

abbrev pub after_read : Platform → SctpServer → RecvReply → SctpServer
after_read p s r = record s { recv_state = (recv_step p true s.recv_state r).1 }

module _ (p : Platform) where
  pub recv_round :
      (s : SctpServer) (r : RecvReply) (ws : List Wake) (step : Step)
      → (recv_step p true s.recv_state r).0 ≡ step
      → recv p s (readable r ∷ ws)
        ≡ on_step step (after_read p s r) ws (recv p (after_read p s r) ws)
  unfolding recv
  recv_round s r ws step e =
      ap (λ x. on_step x (after_read p s r) ws (recv p (after_read p s r) ws)) e

  -- Fragments and empty reads only fill the accumulator, and `recv` goes on.
  recv-Fragments :
      {d : Bytes} {ws : List Wake} (s : SctpServer) (vs : List Wake)
      → Fragments p d ws
      → Leaves s (recv p s (ws ++ vs)) (λ t. recv p t vs) (s.recv_state.buf ++ d)
  recv-Fragments s vs none_yet = record {
    left = s;
    result = refl;
    kept = sym (append-nil s.recv_state.buf);
    same_fd = refl;
  }
  recv-Fragments s vs (fragment {d} {ds} {r} {ws} f fs) =
      let read = recv_step-fragment p true s.recv_state r d f in
      later s (after_read p s r) _ _ _ (λ t. recv p t vs) _ _
        (recv_round s r (ws ++ vs) more read.0) refl (λ u. refl)
        (ap (λ m. m ++ ds) read.1 ∙ append_assoc s.recv_state.buf d ds)
        (recv-Fragments (after_read p s r) vs fs)
  recv-Fragments s vs (blocked {ds} {r} {ws} b fs) =
      let read = recv_step-blocked p true s.recv_state r b in
      later s (after_read p s r) _ _ _ (λ t. recv p t vs) _ _
        (recv_round s r (ws ++ vs) would_block read.0) refl (λ u. refl) (ap (λ m. m ++ ds) read.1)
        (recv-Fragments (after_read p s r) vs fs)

  last_round :
      (s : SctpServer) (r : RecvReply) (rest : List Wake) (last : Bytes)
      → IsLast r last
      → Leaves s
          (recv p s (readable r ∷ rest))
          (λ t.
            returned
              (addressed
                (s.recv_state.buf ++ last)
                (info_of p.endian r.sinfo)
                (peer_of p true r.storage))
              t
              rest)
          []
  last_round s r rest last f =
      let read = recv_step-last p true s.recv_state r last f in
      record {
        left = after_read p s r;
        result = recv_round s r rest _ read.0;
        kept = read.1;
        same_fd = refl;
      }

  notice_round :
      (s : SctpServer) (r : RecvReply) (rest : List Wake) (n : Notification)
      → IsNotice p.endian r n
      → Leaves s
          (recv p s (readable r ∷ rest))
          (λ t. returned (ok (notice n)) t rest)
          s.recv_state.buf
  notice_round s r rest n f =
      let read = recv_step-notice p true s.recv_state r n f in
      record {
        left = after_read p s r;
        result = recv_round s r rest _ read.0;
        kept = read.1;
        same_fd = refl;
      }

  -- However a message is cut into fragments, `recv` of the server returns its bytes in order,
  -- behind what earlier calls had buffered, with the address that came with the last fragment,
  -- or with an error where that is no socket address. The accumulator is empty then.
  pub recv-message :
      {d : Bytes} {ws : List Wake} (s : SctpServer) (r : RecvReply) (rest : List Wake)
      (last : Bytes)
      → Fragments p d ws
      → IsLast r last
      → Leaves s
          (recv p s (ws ++ readable r ∷ rest))
          (λ t.
            returned
              (addressed
                (s.recv_state.buf ++ (d ++ last))
                (info_of p.endian r.sinfo)
                (peer_of p true r.storage))
              t
              rest)
          []
  recv-message {d} {ws} s r rest last fs f =
      let v = recv-Fragments s (readable r ∷ rest) fs in
      later s v.left _ _ _ _ _ _ v.result v.same_fd
        (λ u.
          ap
            (λ m.
              returned (addressed m (info_of p.endian r.sinfo) (peer_of p true r.storage)) u rest)
            (ap (λ m. m ++ last) v.kept ∙ append_assoc s.recv_state.buf d last))
        refl (last_round v.left r rest last f)

  -- A notification between two fragments is returned at once, and the bytes read before it stay
  -- in the accumulator for the next call.
  pub recv-notice :
      {d : Bytes} {ws : List Wake} (s : SctpServer) (r : RecvReply) (rest : List Wake)
      (n : Notification)
      → Fragments p d ws
      → IsNotice p.endian r n
      → Leaves s
          (recv p s (ws ++ readable r ∷ rest))
          (λ t. returned (ok (notice n)) t rest)
          (s.recv_state.buf ++ d)
  recv-notice {d} {ws} s r rest n fs f =
      let v = recv-Fragments s (readable r ∷ rest) fs in
      later s v.left _ _ _ (λ t. returned (ok (notice n)) t rest) _ _ v.result v.same_fd (λ u. refl)
        v.kept (notice_round v.left r rest n f)
