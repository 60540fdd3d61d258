-- ===== src/Lib.antt =====
-- Verification library of uvx, a C library of TCP servers and clients, UDP and logging over libuv.
--
-- The parts of the program. A server (uvx_server.c) keeps its connections in a hash table that is also
-- a linked list (utils/linkhash.c), in the order in which they were last heard of; its heartbeat timer
-- closes those at the front that were silent too long. Byte buffers (utils/automem.c) hold what
-- is sent. A log (loge/loge.c, under uvx_log.c) serializes its items into buffers that are sent by UDP.
--
-- Which file models which part:
--   Prelude    names of the libraries, Boolean tests, lists measured by native numbers, C's unsigned
--              32-bit arithmetic.
--   Memory     blocks of memory, memcpy as a checked store, the allocator as a record of documented
--              behaviour (Memory/Plain has one), and runs that end in a value or a fault: an access out
--              of bounds, a null or freed pointer, a failed assertion, an endless loop.
--   Linkhash   utils/linkhash.c and utils/linkhash.h: `lh_table_new`, `lh_table_insert`,
--              `lh_table_lookup`, `lh_table_delete`, `lh_table_resize`, `lh_table_free` and their helpers, under
--              the names of the source. Linkhash/Rep is the invariant, Linkhash/Store the ordered association
--              list that a client sees; the files between them prove one operation each.
--   Automem    utils/automem.c and utils/automem.h, one definition for each function; Automem/History has
--              rows of operations, Automem/Field/Reader a reader of the field values.
--   Loge       loge/loge.c and loge/loge.h: Loge/Text writes texts, Loge/Path shortens file names,
--              Loge itself has `loge_init`, `loge_name`, `loge_item_bin` and `loge_item`; Loge/Laid and
--              Loge/Layout read an item back, and Loge/Utf8 and Loge/Readable follow its texts in UTF-8;
--              Loge/Small has buffers with too little room for them.
--   Server     uvx_server.c: `uvx_server_start`, the handlers that libuv calls (`uvx__on_connection`,
--              `uvx__on_read`, `_uv_after_close_connection`, `_uv_on_heartbeat_timer`), which lose
--              the prefix here, `uvx_server_conn_ref`, `uvx_server_conn_send`, `uvx_server_iter_conns` and
--              `uvx_server_shutdown`. It uses Linkhash through Linkhash/Store only, but for the walks
--              along the list, which the source too writes with `lh_foreach_safe`. Server/Loop says
--              when libuv may call which handler, what it is asked for and what is pending, as a step
--              relation on servers whose moves are libuv's callbacks and what the user calls, while the
--              server runs; Server/Uses follows which handles are initialised. The other
--              files of Server are about one handler, or about all states that can be reached. The abstract
--              server is Server/Sessions, a list of sessions without a table and a heap; Server/Refinement
--              compares the two.
--   Client     uvx_client.c: `uvx_client_connect`, the handlers that libuv calls, under their names
--              without the prefix, `uvx_client_disconnect` and `uvx_client_shutdown`. Client/Loop has
--              the moves of libuv and of the user, who shuts down once, and neither disconnects nor shuts
--              down while a close is pending. Client/Phases is what a client
--              promises, an automaton with outputs, to which Client/Refinement compares it; Client/Protocol
--              has the order of its callbacks. Client/Hooks has the handlers again, with callbacks that call
--              back into the client. Client/Send is about `uvx_client_send`.
--   Stream     uvx.c: `uvx_send_to_stream`, `uvx_send_mem` and their callbacks. Stream/Owners says who
--              holds which memory, as a step relation.
--   Address    uvx.c: `uvx_get_ip_port`, `uvx_get_raw_ip_port` and `uvx_get_tcp_ip_port`.
--   Udp        uvx_udp.c, one definition for each function; Udp/Requests has the moves of its send
--              requests.
--   Log        uvx_log.c, which composes Loge and Udp. Log/Macros has the macros UVX_LOG and
--              UVX_LOG_SERIALIZE of uvx.h.
--   Arraylist  utils/arraylist.c and utils/arraylist.h, which no other part uses.
-- A function that changes a structure takes its record and returns the new one. A pointer into a table
-- or a block is an index; a pointer to a connection is its address on a heap. What the code asks of libuv
-- and which callbacks it calls is a trace of events. A callback of the configuration is set or not; what
-- it does itself to a connection or a client is a further move, and `free(buf->base)` is the event
-- `free_base`. A heartbeat runs when the close callbacks of the turn before have run, as libuv orders
-- its phases.
--
-- Bounds and fuel. A walk along a table's list and a search of its slots have as many units of fuel as
-- the table has slots, since no list is longer and past that each slot was tried. `lh_table_insert` and
-- `lh_table_resize` call each other; two levels are enough, since a doubled table has room.
-- The doubling of a block has 33 rounds, one more than a 32-bit size has bits. In Client/Hooks the fuel is
-- the depth of the calls of `_uvx_client_close` within its own callback, which is arbitrary.
--
-- Not modelled: `array_list_free`, `lh_abort` and the calls of `free_fn` by `lh_table_delete_entry`;
-- the programs in test; libuv, whose calls are events of a trace and whose answers are arguments;
-- diagnostics on files; tables of 2 ^ 30 slots and more, where `int new_size` of `lh_table_resize`
-- overflows; a server between its shutdown and the last close callback, but for what Server/Safety
-- says of it; LOGE_ITEM, which does not compile; user callbacks that change a server in the midst of
-- the handler that calls them; threads.
pub mod Prelude
pub mod Memory
pub mod Automem
pub mod Linkhash
pub mod Loge
pub mod Server
pub mod Arraylist
pub mod Client
pub mod Stream
pub mod Address
pub mod Udp
pub mod Log
