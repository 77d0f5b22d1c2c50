-- ===== src/Recv/Cases.antt =====
-- The unit tests of src/recv.rs. An assertion is a Boolean, and so is a branch that panics.
use async_sctp.Common.{
  ℕ, ℤ, pos, ◌≡◌, refl, Bool, true, false, ◌&&◌, Bytes, [], ◌++◌, none, ◌==◌, Endian, little, big,
  to_be32, replicate, is_empty, codes, same,
}
use async_sctp.Sys.{SctpSndRcvInfo, msg_eor, msg_notification}
use async_sctp.Ppid.{s1ap, m3ua}
use async_sctp.Notification.{parse_notification}
use async_sctp.Recv.{Step, more, notified, complete, push_chunk}

-- The other fields are zero.
abbrev sinfo : Endian → (stream ppid : ℕ) → ℤ → SctpSndRcvInfo
sinfo e stream ppid assoc_id = record {
  sinfo_stream = stream;
  sinfo_ssn = 0;
  sinfo_flags = 0;
  sinfo_ppid = to_be32 e ppid;
  sinfo_context = 0;
  sinfo_timetolive = 0;
  sinfo_tsn = 0;
  sinfo_cumtsn = 0;
  sinfo_assoc_id = assoc_id;
}

abbrev is_id : ℕ → ℤ → Bool
is_id n (pos m) = m == n
is_id n k = false

abbrev is_more : Step → Bool
is_more more = true
is_more s = false

abbrev is_notified : Step → Bool
is_notified (notified n) = true
is_notified s = false

abbrev frag_a : Bytes
frag_a = replicate 100 0xaa

abbrev frag_b : Bytes
frag_b = replicate 50 0xbb

abbrev is_whole : Step → Bool
is_whole (complete bytes info none) =
    same bytes (frag_a ++ frag_b)
    && (info.stream == 7)
    && (info.ppid == s1ap)
    && is_id 42 info.assoc_id
is_whole s = false

unfoldable reassembles_across_interleaved_notification : Endian → Bool
reassembles_across_interleaved_notification e =
    let si = sinfo e 7 s1ap (pos 42) in
    let (first, buf) = push_chunk e [] frag_a 0 si none in
    let (second, kept) = push_chunk e buf (replicate 4 0) msg_notification si none in
    let (third, rest) = push_chunk e kept frag_b msg_eor si none in
    is_more first
    && same buf frag_a
    && is_notified second
    && same kept frag_a
    && is_whole third
    && is_empty rest

abbrev is_hello : Step → Bool
is_hello (complete bytes info addr) = same bytes (codes "hello") && (info.ppid == m3ua)
is_hello s = false

unfoldable single_chunk_message_completes_immediately : Endian → Bool
single_chunk_message_completes_immediately e =
    let (step, buf) = push_chunk e [] (codes "hello") msg_eor (sinfo e 0 m3ua (pos 1)) none in
    is_hello step && is_empty buf

reassembles : (e : Endian) → reassembles_across_interleaved_notification e ≡ true
unfolding reassembles_across_interleaved_notification push_chunk parse_notification
reassembles little = refl
reassembles big = refl

completes : (e : Endian) → single_chunk_message_completes_immediately e ≡ true
unfolding single_chunk_message_completes_immediately push_chunk
completes little = refl
completes big = refl
