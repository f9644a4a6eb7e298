-- ===== src/Lib.antt =====
-- Verification of the DENSO communication library (library/): the b-CAP protocol, which carries
-- function calls with VARIANT arguments to and from a robot controller.
--
-- The program. library/src/bcap_common.c turns a packet (struct BCAP_PACKET) into bytes
-- (bcap_packet2bytary, bcap_vntary2bytary, bcap_vnt2bytary), measures it (bcap_calc_size_packet),
-- turns bytes into a packet (bcap_bytary2packet, bcap_bytary2vntary, bcap_bytary2vnt), computes a
-- checksum (bcap_calc_crc), and sends and receives packets (bcap_send, bcap_recv) through the
-- functions of a device (struct CONN_PARAM_COMMON of library/include/dn_device.h). It uses the
-- BSTR, VARIANT and SAFEARRAY functions of library/src/dn_common.c. Client and server
-- (library/src/bCAPClient, library/src/bCAPServer) use bcap_send and bcap_recv.
--
-- The files:
--   Prelude: Boolean tests, lists over the native numbers, little-endian bytes (memcpy_le of
--     library/src/dn_device.c), and exclusive or.
--   Outcome: how a C function ends. `fault` stands for an access outside the object, `stuck` for a
--     model without fuel.
--   Variant: VARIANT, BSTR and SAFEARRAY, with SysStringLen, the size that SysAllocStringLen asks
--     for and SafeArrayCreateVector. Variant/Change is VariantChangeType; Exact and Lossy are about
--     the integers it changes. Variant/Gather is VariantCopy and ChangeVarType.
--   Integers: the integers and the integer types of C.
--   Safearray: the struct SAFEARRAY, its creation, and the functions that read its bounds.
--   Device: struct CONN_PARAM_COMMON and check_conn_param. Device/Options: connection options,
--     parse_conn_type, is_numeric and parse_conn_param_ether; Fields is the splitting at colons,
--     Ether what is made of joined fields, Serial parse_conn_param_serial.
--   Bcap/Platform, Bcap/Packet, Bcap/Elements: the machine, struct BCAP_PACKET, the sizes of the
--     elements by type.
--   Bcap/Writer and Bcap/Encode: the buffer with its offset, and the encoder.
--   Bcap/Size: the bcap_calc_size functions.
--   Bcap/Wire: the packet as bytes, described apart from the code; Emits and Packets relate the
--     encoder to it, Sizes the measure.
--   Bcap/Reader and Bcap/Decode: reading at an offset, and the decoder; Exact says which packets
--     come back as they were, Parses and Nested what is read from described bytes, Total that the
--     fuel is enough, Overflow where the decoder leaves a buffer.
--   Bcap/RoundTrip: encoder and decoder together.
--   Bcap/Crc: bcap_calc_crc.
--   Bcap/Send and Bcap/Send/Serial: bcap_send, and its frames on a serial line.
--   Bcap/Receive: the end of bcap_recv, from the whole buffer on. Serial is its loops on a serial
--     line; Chunks and Frames are about frames that arrive in pieces.
--   Robotalk and Robotalk/Frame: packets, checksum and rtk_send of library/src/dn_robotalk.c, a
--     protocol for teach pendants, and the bytes that rtk_send hands to the driver. Robotalk/Receive
--     is rtk_recv on a serial line; Frames is about packets that arrive in pieces, Sound about the
--     checksums, Unchecked about a wrong length.
--   Time: calc_time_diff of library/include/dn_thread.h.
--   Tpcomm: library/src/TPComm/dn_tpcomm.c, the connection to a teach pendant over ROBOTalk. Link
--     is tp_send, tp_recv and send_receive, Events tp_callfunc and receive_execute, Timer timer_event,
--     Steps their order under the mutex; Sync and Keeps are about the state and what leaves it
--     alone, Answers about what send_receive returns, Loss, with Told, about a pendant that is no more heard. Serial is
--     tp_recv over rtk_recv. Requests and Drawing are the interface that sends commands, Drawn and
--     Refused about what becomes of drawings. Opening is TPComm_Open and TPComm_Close.
--   Codes: HRESULT values of the client and the server.
--   Client: invoke_function of library/src/bCAPClient/bcap_client.c, up to the packet it sends.
--     Client/Service to Client/Message are the functions by object, Calls all of them,
--     Prototypes the numbers and parameters that library/include gives to them.
--     Client/Session is send_receive with the settings of a connection; Exchange says what it
--     sends, Answer which answer it takes, Rounds when it finds one. Client/Slots is m_conn_param;
--     View, Close, Refused and Accepted are about what its handles name,
--     Settings about what is set and got.
--   Server: the table of functions and bcap_callfunc of library/src/bCAPServer/bcap_server.c. Mapid
--     is the table of library/include/bCAPServer/bcap_mapid.h, and Closed that it is closed;
--     Objects the objects of a connection; Receive receive_execute, Retries the repeated requests,
--     Invariant the objects after any call, Limit their limit. Register is bCap_SetCallFunc with
--     bcap_callfunc.
--   Bcap/Tests, Client/Tests, Device/Tests, Robotalk/Tests, Server/Tests and
--     others by that name: samples, and each theorem at one of them.
--
-- How the code is rendered. A buffer is a list of bytes, an offset a number; the sums that the code
-- makes in uint32_t are taken modulo 2 ^ 32. The functions return an Outcome: S_OK with the new
-- buffer or value, an error code, or a fault. The host is little-endian with 32-bit wchar_t, a
-- VARIANT of 16 bytes and pointers of 8 bytes, as a 64-bit Linux has them. Whether malloc meets a
-- request and what doubles compute are parameters (Bcap/Platform); what a fresh block holds and
-- what a driver does are arguments. A call through a NULL pointer is a fault. A numbers list is the
-- elements of a SAFEARRAY, of fewer than 2 ^ 31 of them.
--
-- On a serial line the driver is a list of reads, bytes or errors. The client's bcap_recv is a list
-- of arrivals, packets or errors; without more of them send_receive waits. The server's function is
-- a function on a world of the application; whether one still runs, the codes of bcap_send and the
-- time that passes are an environment of each call, with whether there is memory for an object. The
-- linked list of a connection's objects is a list, pop_vector the removal of an element.
--
-- TPComm runs on a world of its driver. rtk_recv and the modem are functions of that world, the
-- time at which a packet goes out and the time at which a state's clock is read are given with a
-- call. A dn_send that fails leaves the world as it was. All that the threads and the requests do
-- to a connection they do under its mutex, so that any interleaving is a sequence of whole calls.
-- send_receive tests the state before it gets the mutex: the state that it sees there is an argument.
-- receive_execute reads it there too; only the thread that calls it writes the state.
-- The pauses between the calls, and what timer_event waits for, are left out: any order may occur.
--
-- Fuel. invoke_function reads a format by its length. Of the codec, only bcap_bytary2vnt nests by
-- what it reads. Its fuel is the length of the packet: each level of nesting reads at least one
-- byte, so that the fuel lasts.
--
-- Not modelled: what a failing call leaves in its buffers, and what it frees or leaks; the loops of
-- bcap_recv on TCP and UDP; sockets, ports and threads (library/src/dn_com.c, dn_tcp.c, dn_udp.c,
-- dn_socket.c, dn_thread.c); opening and closing of connections in the server, the result at the
-- end of invoke_function, the server on UDP, its threads and the options of ServiceStart
-- (GetOptionValue); the changes between strings and numbers; rtk_recv on UDP; the timeouts
-- of a TPComm connection; RACString and the kernel driver (driver_dkms).
pub mod Prelude
pub mod Outcome
pub mod Variant
pub mod Safearray
pub mod Device
pub mod Bcap
pub mod Client
pub mod Codes
pub mod Integers
pub mod Robotalk
pub mod Server
pub mod Time
pub mod Tpcomm
