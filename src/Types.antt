-- ===== src/Types.antt =====
-- src/types.rs: `RecvInfo` and its text.
use async_sctp.Common.{ℕ, ℤ, ◌++◌, Text, codes, decimal, decimal_ℤ}
use async_sctp.Ppid.{display}

pub record RecvInfo : Type 0 where
  pub stream : ℕ
  pub ppid : ℕ
  pub assoc_id : ℤ

unfoldable pub recv_info_text : RecvInfo → Text
recv_info_text i =
    codes "RecvInfo [stream="
    ++ decimal i.stream
    ++ codes ", ppid="
    ++ display i.ppid
    ++ codes ", assoc_id="
    ++ decimal_ℤ i.assoc_id
    ++ codes "]"
