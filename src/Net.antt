-- ===== src/Net.antt =====
-- `struct sockaddr_in`; `port` and `addr` are in the order of the bytes in memory.
use rs_jerry_driver.Common.{ℕ}

pub record SockAddr : Type 0 where
  pub family : ℕ
  pub port : ℕ
  pub addr : ℕ

abbrev pub af_inet : ℕ
af_inet = 2
