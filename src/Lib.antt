-- ===== src/Lib.antt =====
-- post_dns: a caching DNS relay, in C over libuv. This library models the program and states what
-- makes it correct.
--
-- The program keeps four hash tables: the clients that wait for an answer, and the caches of IPv4
-- addresses, of IPv6 addresses and of aliases. A datagram from a client (`bind_socket_read` of
-- src/socket.c) is parsed (src/message.c); the client is recorded under the question and the identifier;
-- if the caches answer every question a reply is built and sent, else the message goes to the upstream
-- server. A datagram from there (`query_socket_read`) fills the caches and is sent on to the client that
-- waits for it. A timer clears what has expired (main.c).
--
-- Which file models which part:
--   Text, Text/*       src/string_t.c: strings as lists of bytes; comparison, splitting, the hash
--   Words, Address     src/utils.c and `bytes2hex` of src/logging.c: byte order, addresses as text;
--                      Address/* are its laws
--   HashTable          src/hash_table.c: one function per operation, under the source's names; HashTable/*
--                      are its laws. A chain is a value of `HashNode`, `dangling` is a pointer to a freed
--                      node; `view` is the map that a table stands for, `IsValid` its invariant
--   Message            include/message.h, include/resource_record.h: the records
--   Message/Parse      src/message.c from `buf2message` to `char2bit`; Message/Build: `message2buf` and
--                      what it calls, and `message2feature_string`; Message/Release: `message_log` and
--                      `message_free`; the other files are laws
--   Cache, Cache/*     src/ipv4_cache.c, src/ipv6_cache.c, src/cname_cache.c
--   Server             src/socket.c: the state and the functions that send; Server/Lookup and Server/Reply
--                      the two loops of `bind_socket_read`; Server/Receive the two callbacks;
--                      Server/Verdict and Server/Decide say what is to be done with a question, from
--                      what the tables read; the other files are laws
--   Cache/ReadFile     `ipv4_read_file` of src/ipv4_cache.c
--   Config             src/config.c: the command line
--   Main               main.c: the state at the start, the callbacks of the timer and of the signal
--   Main/Startup       `main` up to the event loop, and `socket_init`
--   Main/Steps         runs of the event loop, as steps of the three callbacks in any order; the other
--                      files of Main are laws
--   Examples, Examples/*  concrete data, and each result at a concrete input
--   Base, Base/*       shared helpers; Base/Outcome is the result of a C routine: a value, a fault (from
--                      there on C defines nothing) or no answer within the fuel
--
-- Integers are natural numbers; a machine word's wrap-around is written out, and a field of a struct is
-- its bit pattern. The capacity and the count of a table are the exception: they are not cut to the
-- range of an `int`, which they leave only when the array has some 2 ^ 30 nodes, and a result that
-- needs them in range says so. The product with the load factor is rounded as a float is. A write or
-- read is checked against the block it goes to. What `malloc` leaves in a block is a parameter. A
-- write through a pointer into a table is `write_through`.
--
-- Fuel: 257 rounds are enough for a name without pointers in an array of 512 letters, since each label
-- takes two letters at least. The loops that follow aliases take fuel of their own, one round for each
-- alias and one for the end.
--
-- Not modelled: the event loop, the sockets and the lock, which are libuv's; `logging_printf`, and of the
-- log everything but what `message_log` hands to `log_debug`. The file system and `uv_ip4_addr` are
-- parameters of `ipv4_read_file`. Leaks of memory are not followed.
pub mod Base
pub mod Text
pub mod Words
pub mod HashTable
pub mod Address
pub mod Message
pub mod Cache
pub mod Server
pub mod Config
pub mod Main
pub mod Examples
