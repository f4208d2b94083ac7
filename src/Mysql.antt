-- ===== src/Mysql.antt =====
-- The MySQL server and its client library, which the program does not implement: a parameter.
-- `Statement` has a constructor for each SQL text that bsdqserver/srvdb.c prints. A value in quotes
-- is carried as the text before mysql_escape_string, and an INT column as the number that
-- sscanf("%d") reads from its decimal digits. The users in the names of tables, encoding_time,
-- building_time and floor_depth are printed without escapes: a statement stands for its printed text
-- only where MySQL reads them as they are. Printed says how it reads them, Socketsrv.Inert which
-- requests hold no others; what another text makes of a statement is not described.
pub mod Statement
pub mod Rows
pub mod Meaning
pub mod Client
pub mod Printed
