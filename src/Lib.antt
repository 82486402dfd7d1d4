-- ===== src/Lib.antt =====
-- Verification of the MongoDB client for SGX enclaves: the groups and users that it stores
-- in a database it does not trust, and the code it brings along because the C library is not there.
--
-- The program links libmongoc into an enclave. trusted/MongoDatabase.cpp stores groups of users over
-- it; trusted/my_wrappers.c, trusted/ssl_wrappers.c and trusted/pthread.c stand in for the functions of
-- the C library, most of them by a call out of the enclave to untrusted/; and
-- trusted/inet_pton_ntop.c converts network addresses inside of the enclave, for libmongoc's sockets.
--
-- Modelled here are trusted/inet_pton_ntop.c, as a whole:
--   Inet/Digits     hex_digit_value, and the digits that %u and %x print
--   Inet/Pton4      inet_pton4; Walk is the text read without a buffer, Texts and Accepts the texts
--                   accepted
--   Inet/Ntop4      inet_ntop4; Text is what it writes
--   Inet/Pton6      inet_pton6; Walk is the reader without a buffer, Agree, Rounds and Refines the step
--                   from one to the other, Groups, Gaps, Accepts and Texts the texts accepted
--   Inet/Ntop6      inet_ntop6; Best is the run of zeros, with Ahead and Longest for all the runs that
--                   there are, Text and Shape the text, Copy the copy to dst, RoundTrip, MappedRounds and
--                   Mapped the way back through inet_pton6
--   Inet/Convert    inet_pton and inet_ntop, with the constants of trusted/include/sys/socket.h
--   Inet/Examples   the theorems at concrete addresses
-- and of the stand-ins for the C library:
--   Scan            vsscanf of trusted/my_wrappers.c and its callers; Digits is what %d reads, RoundTrip
--                   what is read back of what was printed, Stores what is stored, Ends when it returns, with
--                   Shorts for texts and Rounds for a round of the loop, Examples concrete texts
--   Chars           the tables of trusted/ssl_wrappers.c behind the macros of ctype.h; Ascii describes
--                   them, Examples are concrete characters
--   Ocalls          getsockopt and sendmsg of trusted/my_wrappers.c, over a record of the host's side of
--                   the calls; Copies is what the host reads and writes
--   Ocalls/Border   the functions outside with the routines generated from trusted/mongoclient.edl;
--                   Wrappers are the other functions of trusted/my_wrappers.c, Ssl those of
--                   trusted/ssl_wrappers.c, Guards what their callers can rely on, Examples concrete hosts
-- Libc has the string functions that the code calls (memcpy, strlen, strnlen, strncpy, snprintf), and
-- Base the lists, tests and outcomes that the modules share.
--
-- A buffer is a list of bytes and a pointer into it an offset; an access outside of the list is the
-- outcome `fault`, as is an int beyond its 32 bits, so that a theorem which gives another outcome says
-- that the code stays inside. What C leaves uninitialised, the local buffers, is an argument. Loops over a text or over the words of an
-- address are structural recursion, and the only fuel is that of printing a number, which is more
-- than the number. The format of vsscanf is gone through by one or two characters a round, which is
-- structural too. An unsigned int is cut to 32 bits where the source shifts it. Bytes of 128 and more,
-- negative in a signed char, are no digits, colons or dots either way.
--
-- The host may answer anything to a call out of the enclave and write what it likes to the memory that
-- it shares. `aborts` is the end of the enclave by sgx_exit.
--
-- MongoDatabase, of trusted/MongoDatabase.cpp with its header and trusted/database.h:
--   Mongo/Bson       documents and the iterator on them; Mongo/Platform what the methods call, the state
--                    of the world behind it, and actions: a value, an exception, or undefined
--   Mongo/Hashing    the keys, hash_name, encrypt_data, decrypt_data; Mongo/Signature the signature of a
--                    group's document; Mongo/Users, Mongo/Rounds, Mongo/Groups, Mongo/Deleting,
--                    Mongo/Reading and Mongo/Admin the methods
--   Mongo/Server     what the server's documentation says of selectors and updates, and the laws
--                    `IsQuiet` of a platform whose calls do not fail and whose data nobody else writes;
--                    Server/Memory a platform in memory that has them
--   Mongo/Spec       users, groups and members with their documents; Mongo/Quiet, Mongo/Methods,
--                    Mongo/Keys, Mongo/Accounts, Mongo/Creating and Mongo/Cleaning the methods as
--                    operations on them, with Mongo/Inserting and Mongo/Removals for the steps of the last
--                    two, Mongo/Lifecycle several methods in a row
--   Mongo/Directory  accounts and teams without documents or signatures, and their answers to requests;
--                    Directory/Relates when a database stands for them, Directory/Refines that the
--                    methods answer as they do; Mongo/Both, Mongo/Distinct and Mongo/Single are lemmas for
--                    it
--   Mongo/Authentic  get_keys_of_group with whatever the server answers; Mongo/Signed describes what a
--                    group's signature covers
--   Mongo/Vouched    reencrypt_user_key with whatever the server answers
--   Mongo/Shared     the groups' collection while other clients change it between the calls: what is asked
--                    of them, and the course of a method; Shared/Rounds, with Shared/Firsts, is the loop of
--                    ten attempts there, Shared/Methods the methods, Shared/Memory two clients in memory
--   Mongo/Weaknesses what a signature does not tell apart; Mongo/Examples the theorems in memory
--   Mongo/Sample     the sample of trusted/mongoclient.cpp; Sample/Teams is the directory in its course,
--                    Sample/Shows what an action shows where the database stands for a directory,
--                    Sample/Start what comes before the first user, Sample/Refines the parts of the
--                    sample, Sample/Expected what they show, and Sample/Whole all of it;
--                    Mongo/Runs is its run in memory
-- The driver (libmongoc, libbson), the server and the functions for HMAC and AES-GCM are not in the
-- repository: they are the record `Platform`, a parameter of every method, and what is assumed of them
-- is a named hypothesis of the theorem. A document is a list of fields; only binary values and arrays
-- of documents are looked into. A value of another type gives no bytes, as bson_iter_binary does; reading
-- a field that is missing, where the code uses an iterator that points nowhere, and going into a value
-- that is no array are `undefined`. The two loops of ten attempts
-- are one function whose fuel is the code's own counter of attempts. The driver gives the count of an update
-- as an int32, which bson_iter_int64 reads as 0, so that these loops never take an update for done: the
-- round behind it finds nothing more to do, where at most one group has the name, as the unique index of
-- init_indexes asks for. A bulk operation without operations is an error of the driver.
--
-- Outside of the enclave, untrusted/sample.cpp: Untrusted/Token is the path of the launch token and
-- Token/Fits that it stays in its buffer, whose size is an argument; Untrusted/Start is initialize_enclave
-- and main over a record of the system and the SGX runtime, Untrusted/Files that every file is closed;
-- Untrusted/Messages is print_error_message, whose constants are an argument too; Untrusted/Examples is a
-- concrete system. Untrusted/Answers is untrusted/my_wrappers_impl.cpp over a record of the system's
-- functions, Answers/Ssl is untrusted/ssl_wrappers_impl.cpp, and Answers/Getenv the buffer of
-- ocall_sgx_getenv.
--
-- Threads is trusted/pthread.c, each stub as what it does to the state of the program, and Threads/Races
-- two threads whose steps come in any order.
--
-- Not modelled: the functions that only print that they are still to be written; the values
-- that pthread functions return; the printed lines of MongoDatabase, and the release of memory; the headers
-- of libbson and libmongoc, which are other projects'.
pub mod Base
pub mod Libc
pub mod Inet
pub mod Chars
pub mod Scan
pub mod Threads
pub mod Untrusted
pub mod Ocalls
pub mod Mongo
