-- ===== src/Net.antt =====
-- The texts of packages strconv and net, as the program uses them: decimal numbers, IP addresses and
-- host:port pairs. A text is the list of its bytes.
pub mod Decimal
pub mod HostPort
pub mod Ip
