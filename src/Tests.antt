-- ===== src/Tests.antt =====
-- Tests of the definitions on concrete inputs, and the theorems at inputs that meet their
-- hypotheses.
pub mod Engine
pub mod Books
pub mod Searches
pub mod Shelves
pub mod Accounts
pub mod Caches
pub mod Requests
pub mod Clients
pub mod Shell
pub mod Sockets
pub mod Mains
pub mod Passwords
pub mod Sessions
pub mod Terminal
