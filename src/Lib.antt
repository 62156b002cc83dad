-- ===== src/Lib.antt =====
-- netscan: a host scanner for IPv4 networks (src/, include/), as definitions that run, with theorems
-- about them.
--
-- The program. `main` (src/main.cpp) reads options, turns an address or CIDR block into a base
-- address and a number of hosts (`parse_cidr`, src/utils.cpp), and runs one of two scanners over that
-- range, or prints the kernel's ARP table. The ping scanner (src/ping_scanner.cpp) keeps a table of
-- probes in flight, sends echo requests in batches, matches replies to hosts and gives up on probes
-- that time out. The TCP scanner (src/tcp_scanner.cpp) keeps a table of connections in progress, each
-- with its own socket.
--
-- The files.
--   Base: lists, integers, machine words and buffers over native numbers.
--   Sys: error numbers, clock readings, and the outcome of code that may throw or still waits.
--   Utils: include/utils.hpp and the address helpers of src/utils.cpp.
--   Ping: src/ping_scanner.cpp and include/ping_scanner.hpp. Ping/State: the members of `PingScanner`
--     and the local variables of `run`. Ping/Slots: `find_available_probe_slot`,
--     `host_index_for_ip`, `is_host_found`, `allocate_sequence`, `release_probe_slot`. Ping/Packet:
--     `prepare_single_packet` and the reading of a reply. Ping/Socket: `initialize_socket`,
--     `wait_for_socket_writable` and the destructor. Ping/Send: `populate_batch_entries`,
--     `flush_send_queue`, `send_batch`. Ping/Receive: `extract_control_data`,
--     `process_received_packet`, `receive_responses`. Ping/Reap: `reap_timed_out_probes`. Ping/Run:
--     `run`. Ping/Table and Ping/Invariant hold the invariant that these keep; the modules below each
--     part prove that they do.
--   Tcp: src/tcp_scanner.cpp and include/tcp_scanner.hpp. Tcp/State: the members of `TcpScanner`, the
--     local variables of `run` and the descriptors that are open. Tcp/Connect:
--     `initiate_single_connection`, `initiate_connections`. Tcp/Poll: `poll_connections`. Tcp/Reap:
--     `reap_timed_out_probes` and the destructor's loop. Tcp/Run: `run`. Tcp/Invariant, Tcp/Table and
--     the modules below Tcp named for what they prove hold the theorems. Tcp/Spec is an abstract scan
--     without slots and sockets, a step relation; Tcp/Refines relates every turn of the scanner to it.
--   Cidr: `parse_cidr`, with `strtol` in base 10. Cidr/Bits, Cidr/Block, Cidr/Prefix and Cidr/Parse:
--     masks, blocks, the texts of prefix lengths and the texts that are accepted.
--   Interface: `NetworkInterface::fetch` of src/utils.cpp. Interface/Local: its result, the meaning of
--     `is_local` included.
--   Text: the bytes of string literals, and the comparison of texts.
--   Arp: src/arp_table.cpp, from the attributes of a message to `get_arp_table`. Below it: which
--     descriptors are closed, when the dump ends, which entries it lists, and the text of a MAC
--     address.
--   Main: src/main.cpp. Main/Options: `Config` and `parse_opt`. Main/Output: the printed lines, with
--     `print_arp_table` of src/arp_table.cpp. Main/Modes: `handle_arp_mode`, `execute_network_scan`
--     and `main`, which put `parse_cidr`, `NetworkInterface::fetch`, the two scanners and the ARP
--     table together. Main/Modes/Ran lists the ways in which `main` returns.
--
-- The operating system. What a system call answers is an argument: a list of answers for a loop of
-- calls, a `Round` for one turn of `run`. A function that needs an answer beyond the list is
-- `pending`. So a theorem about all lists is about every behaviour of the kernel and of the network.
-- `inet_ntop` and the process id are a parameter, `Host`; so are `inet_ntop` for the TCP scanner and
-- `inet_pton` for `parse_cidr`. `World` gathers all of them for `main`.
--
-- Numbers. A `uint32_t` or `uint16_t` wraps by `%` where the source computes with it. So do the
-- `size_t`s that options can drive past 2 ^ 64, the size of a packet and that of the send buffer
-- (`add_size`, `mul_size`), and the decrement of `active_probes` in the TCP scanner (`dec_size`); other
-- `size_t`s count hosts, slots or packets and stay below 2 ^ 64. An `int` that
-- holds an index or -1 is a ℤ, converted from `size_t` modulo 2 ^ 32 (`to_int`); `IsSetup` says that
-- the range fits. `rtt_ms` is kept as an exact number of nanoseconds; differences of times are exact,
-- where the source's `int64_t` would overflow its behaviour is undefined. Words in packets are
-- little-endian, as on both platforms of the build.
--
-- Fuel. `populate_loop` takes the number of hosts left, and every turn that does not leave the loop
-- uses one up. All other loops recur on a list or a table.
--
-- Not modelled. The formats of `printf` and the scan time: a printed line is a constructor with
-- arguments of the call. The messages that the scanners and `get_arp_table` print on stderr when a
-- system call fails (src/ping_scanner.cpp, lines 494 and 649; src/arp_table.cpp, lines 90 and 190;
-- src/tcp_scanner.cpp, lines 101 and 104): a `Line` is a line of main.cpp or of `print_arp_table`.
-- What a TCP batch size from 2 ^ 31 on does to the vector of events (src/tcp_scanner.cpp, lines 159
-- and 160). argp (its tables, `--help` and the reading of `argv`): `parse_all` takes the
-- keys that it finds. The walk of the netlink macros over a buffer: a datagram is the list of the
-- messages, and a message the list of the attributes, that they lead to. The pointers of `iovec` and
-- `mmsghdr` always lead to the entry of the same index. The sizes of socket buffers have no effect on
-- the model. The Makefile, the scripts and the tests are no part of it.
pub mod Arp
pub mod Base
pub mod Cidr
pub mod Interface
pub mod Main
pub mod Ping
pub mod Sys
pub mod Tcp
pub mod Text
pub mod Utils
