-- ===== src/Lib.antt =====
-- A verification library for bookshelfdq, a manager of books and shelves: bsdq_server keeps users'
-- shelves, books and accounts in MySQL, and bookMan, a terminal client, talks to it over a socket and
-- caches what it shows in two dbm files.
--
-- Parts and files:
--   Base        names of the libraries, Boolean tests, lists and texts over native numbers, integers
--   Clisrv      bsdqserver/clisrv.h (bsdqclient/clisrv.h is identical): message_cs_t and its parts, the
--               flags and limits; the union `stuff` is three fields
--   Mysql       Statement: every SQL statement that bsdqserver/srvdb.c prints, as a data type, and the
--               rows of its tables. Client: libmysqlclient and the server as a parameter `Mysql`.
--               Meaning: what MySQL documents of these statements, over tables in the order of their
--               keys. Rows: the lemmas on such tables.
--   Srvdb       bsdqserver/srvdb.c over that parameter: Connection (the static variables, connecting and
--               reconnecting), Book (insert, delete, update), Search (find, fetch, count of books),
--               Shelf (all operations on shelves) and Account (verify, register, update, the creation
--               of tables). Functions keep their names; true is the source's 1, and the message and
--               the server state after the call are returned with it.
--   Clidb       bsdqclient/clidb.c over gdbm as a parameter `Dbm`: the cached shelves, their record, and
--               the positions of the cached books; Pages adds the loop of next_page_bookinfo in
--               bsdqclient/ncgui.c that reads a page of them.
--   Socketsrv   socket_srv_process_request of bsdqserver/socketsrv.c: what was received is an argument,
--               the line to the client a parameter `Link`; each request is served by the functions
--               above, and answered. Descriptors: the sets of descriptors and the search for a
--               client that has data. Receiving: what recv returned, told apart and decrypted.
--   Aes         aes/aes_options.c of either program over OpenSSL as a parameter `Cipher`, Key with the
--               text that bsdqserver/aes/gen_aes_key.c writes, Sizes and Scanning with the lemmas
--   Socketcli   bsdqclient/socketcli.c over the system calls as a parameter `Kernel`; Wire puts it
--               opposite Socketsrv.Receiving
--   CheckPassword  bsdqclient/check_password/check_password.c and check_password_strength of ncgui.c,
--               over cracklib as a parameter `Dictionary`
--   Clishell    the requests of bsdqclient/clishell.c over the client's socket as a parameter `Remote`
--               and the cache: find_from_server and the functions that call it. Sync: the counts and
--               the shelves are brought up to date, against a server described in Sync.Serving.
--               Session: log-in and registration over a `Dial`, which Socketcli fills.
--   Ncgui       texts of bsdqclient/ncgui.c: Keyword (handle_searchbook_keyword) and Login
--               (get_login_input over the keys that are typed)
--   Srvshell    bsdqserver/srvshell.c and the main program bsdqserver/bsdq_server.c over the bytes that
--               are typed: the prompts, the reset of the administrator's password, the start, and
--               the loop over the clients that have data (Serving, Starting)
--   Tests       a MySQL server and a dbm in memory that meet the hypotheses, and runs on them
--
-- Hypotheses: `IsDocumented` says that a statement fails and changes nothing or does what it means,
-- and that the calls which manage the connection touch no table; `IsReliable` adds that no statement
-- fails without a reason of its own. `IsDbm` says the same of a dbm file. `IsCipher` says that
-- decryption undoes encryption on whole blocks, `IsLayout` that a message is read again from its
-- bytes. `IsWilling` says that storing succeeds, and deleting what is there. `IsInert` says that a
-- request holds no text that srvdb.c prints without escapes and MySQL would not read as it is: only
-- for such requests are the statements of the model those of the program, and the theorems on the
-- tables of all users ask for it. The collation of MySQL is left open but for LIKE with an empty text. libbcrypt is a parameter
-- `Bcrypt`, and the salt that it makes is an argument.
--
-- Bounds: the numbers of books stay within 1 .. MAX_BOOK_NUM and those of shelves within
-- 1 .. MAX_SHELF_NUM, as invariants. A page of the cache has at most PAD_HIGHT books, and 31 turns of the
-- reading loop are enough. The synchronisation of the shelves takes one turn more than there are
-- shelves. clidb_shelf_realno has fuel for one more step than MAX_SHELF_NUM, or for more than 2^31 where
-- its int overflows.
--
-- Not modelled: the escaping of texts by MySQL and the sizes of the buffers that statements are printed
-- into; the debug output; the thread of the heartbeat in bsdqclient/clishell.c;
-- the options and signals of the main programs; the drawing and the key
-- loops of the terminal interface (ncgui.c); the block of check_password.c for consecutive characters,
-- which its constant turns off; and the copies of other projects' libraries.
pub mod Base
pub mod Aes
pub mod CheckPassword
pub mod Clisrv
pub mod Mysql
pub mod Ncgui
pub mod Srvdb
pub mod Clidb
pub mod Socketcli
pub mod Socketsrv
pub mod Clishell
pub mod Srvshell
pub mod Tests
