-- ===== src/Poc.antt =====
-- The programs under POC, which try out what the program is made of.
pub mod RawSock
pub mod IpCommand
pub mod TunTap
pub mod UdpServer
