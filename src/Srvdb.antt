-- ===== src/Srvdb.antt =====
-- bsdqserver/srvdb.c, the server's data base module, over the parameter `Mysql`. Each function
-- returns what the C function returns (true for 1), and the message and the state after it.
pub mod Connection
pub mod Book
pub mod Search
pub mod Shelf
pub mod Account
