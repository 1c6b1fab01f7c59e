-- ===== src/Lib.antt =====
-- Verification of chrony: models of parts of the NTP daemon, and theorems about them.
--
-- The daemon answers NTP requests of the addresses that its access tables allow (addrfilt.c). NTP
-- packets carry extension fields, which ntp_ext.c writes and reads; nts_ntp_auth.c writes and reads
-- the one that authenticates a packet, whose keys and cookies come from NTS-KE. Its sessions over TLS
-- and its messages of records are nts_ke_session.c. What the server remembers of its clients, to limit
-- its responses and to answer in interleaved mode, is clientlog.c. The other side is ntp_core.c: it
-- sends requests to a source and tests what comes back. All parts wait for time and for
-- descriptors in one scheduler, sched.c, and keep their tables in the arrays of array.c, whose memory
-- is measured by memory.c.
--
-- The files, and the code that they model:
--
--   * Addressing: `IPAddr` of addressing.h.
--   * AddrFilt: addrfilt.c. A `TableNode` is a tree: `extended` is a list of 16 children or nothing.
--     The functions keep their names: `set_subnet_` is `set_subnet_of`, ADF_CreateTable, ADF_Allow,
--     ADF_AllowAll, ADF_Deny, ADF_DenyAll, ADF_IsAllowed and ADF_IsAnyAllowed are `create_table`,
--     `allow_subnet`, `allow_all`, `deny_subnet`, `deny_all`, `is_allowed` and `any_allowed`. A result
--     `none` is an access outside an array. AddrFilt.Spec has the abstract view: an address is a list
--     of digits of four bits, and an access is decided by the longest prefix of it that has a state;
--     Update, Descend and Effective show what setting a subnet does to a node, Walk, Digits and Access
--     how the search decides, Subnet, Table and Calls what the calls do to the access of every address.
--   * DynArray: array.c, with ARR_CreateInstance, ARR_GetNewElement, ARR_GetElement,
--     ARR_AppendElement, ARR_RemoveElement, ARR_SetSize and ARR_GetSize. A pointer to an element is
--     its index. Capacity is about the memory, Elements about the list of the elements.
--   * Memory: `get_array_size` of memory.c.
--   * NtpExt: ntp_ext.c, with `format_field`, NEF_SetField, NEF_ParseSingleField, NEF_AddBlankField,
--     NEF_AddField and NEF_ParseField, on a packet that is a list of bytes.
--   * NtsAuth: nts_ntp_auth.c on top of NtpExt, with NNA_GenerateAuthEF and NNA_DecryptAuthEF as
--     `generate_auth_ef` and `decrypt_auth_ef`. The AEAD of siv.h is an argument (`Siv`), of which the
--     documented behaviour is a hypothesis (`IsAead` in Generate). Written is about the writes, Body
--     about the parts of a body, Generate and Roundtrip about the two functions.
--   * NtsKe.Message and NtsKe.Session: nts_ke_session.c. A message is its bytes with the lengths of
--     `struct Message`; a session is the members of NKSN_Instance_Record, each resource by whether
--     it is held. What TLS, the socket and the handler of a message answer in one call of
--     `handle_event` is an argument of it (`Io`); a function that returns nothing gives the new state.
--   * Sched.Timer: the queue of timeouts of sched.c, with SCH_AddTimeout as `add_timeout`,
--     SCH_RemoveTimeout as `remove_timeout`, and one round of `dispatch_timeouts`, up to the call of
--     the handler, as `take_due`. The circular list is a list. Order is about the sorting, Id about
--     the numbers, Queue and Remove about the queue as a map by the numbers.
--   * Sched.Files: the table of file handlers of sched.c, with SCH_AddFileHandler,
--     SCH_RemoveFileHandler, SCH_SetFileHandlerEvent and `fill_fd_sets`. FD_SETSIZE of the C library
--     is an argument.
--   * Cmdparse: CPS_NormalizeLine and CPS_SplitWord of cmdparse.c, as `normalize_line` and
--     `split_word`. A line is its characters before the NUL, and `isspace` of the C library is an
--     argument.
--   * Keys: the lookup of symmetric keys in keys.c with its cache, `get_key_by_id`, and KEY_KeyKnown,
--     KEY_CheckKeyLength and KEY_GetKeyInfo on it. `bsearch` of the C library is an argument, of which
--     its documented behaviour is a hypothesis.
--   * Clientlog.Timestamps: the map of receive to transmit timestamps of clientlog.c, for clients in
--     interleaved mode: `find_ntp_rx_ts` here, and CLG_SaveNtpTimestamps,
--     CLG_UndoNtpTxTimestampSlew, CLG_UpdateNtpTxTimestamp, CLG_GetNtpTxTimestamp,
--     CLG_DisableNtpTimestamps and `handle_slew` in Store. The circular buffer
--     is a function of the slot. Search, Reference and Find are about the search, Slots, Split, Room,
--     Written, Change, Saved and Save about saving, Offset about the transmit timestamp, and Runs about
--     sequences of calls.
--   * Clientlog.Limits: the token buckets of clientlog.c, for one service: `update_record`,
--     CLG_LimitServiceRate and `limit_response_random`, with `set_bucket_params` in Params. A request
--     is CLG_LogServiceAccess and CLG_LimitServiceRate on the record that they find; Bounds is about
--     the ranges of its members, Budget about the number of responses.
--   * Util.Time: the integer arithmetic of `struct timespec` in util.c.
--   * Util.Ntp64: the tests and the order of 64-bit NTP timestamps of util.c.
--   * NtpCore: ntp_core.c, the protocol machine of one source, a record of the members of
--     `NCR_Instance_Record` that are not floating point. Poll is the polling interval, Timeouts the
--     timers, NCR_ResetInstance, bursts and `set_connectivity`, PacketTests and Response
--     `process_response` in its parts with `save_response`, Transmit `transmit_packet`, Request
--     `transmit_timeout`, Create NCR_CreateInstance, and Events NCR_ProcessRxKnown,
--     NCR_ProcessTxKnown, NCR_SlewTimes and sequences of such events; Server is
--     NCR_ProcessRxUnknown, on the table of AddrFilt and the map of Clientlog.Timestamps. What is
--     floating point or answered by another part is an argument of an operation (`Verdicts`,
--     `PollChange`, `SampleUpdate`, `TransmitIo`, `RequestIo`, `ServerIo`). Sound is about the
--     assertions and the invariant, Accepted, Conditions and Answers are about the responses that are accepted,
--     Replies about those that the server sends, Draws and Distinct about the
--     timestamps of packets, Limits about NCR_ModifyMinpoll and NCR_ModifyMaxpoll.
--   * Common: lists on native numbers, integers, and bytes in network order.
--
-- Bounds and fuel: `unsigned int` has 32 bits and `size_t` has 64, with the wrap-around written out.
-- `scan_records` runs on fuel of one more than the bytes of the message, which is enough since each
-- record takes at least its header. `grow` doubles a size at most 32 times after setting it to one.
-- `try_ids` tries as many numbers as the queue has entries and two more: one of them is neither 0 nor
-- in use, unless nearly all 2^32 numbers are.
-- `search` runs on fuel of the size of the map, which is enough since its interval shrinks in each round.
-- `draw` runs through a list of candidates, of which four different ones are enough, or one for a time
-- of zero. NCR_ModifyMinpoll and NCR_ModifyMaxpoll call each other on fuel of two. The counts of the
-- report of ntp_core.c are not reduced to 32 bits.
--
-- Not modelled: the control of the clock and the statistics, which are floating point (reference.c,
-- local.c, sources.c, sourcestats.c, regress.c, samplefilt.c, smooth.c and quantiles.c); the drivers
-- of clocks and of systems; input and output, the processes and the configuration; the bindings of
-- cryptographic libraries; and, so far, `parse_packet`, NCR_ProcessTxUnknown and the broadcasts of
-- ntp_core.c, the lists of sources of ntp_sources.c, the table of the records of clientlog.c, and the
-- messages and cookies of NTS above its sessions and its authenticator. An allocation is taken to
-- succeed, as the program ends when one does not.
pub mod Common
pub mod Addressing
pub mod AddrFilt
pub mod Clientlog
pub mod Cmdparse
pub mod DynArray
pub mod Keys
pub mod Memory
pub mod NtpCore
pub mod NtpExt
pub mod NtsAuth
pub mod NtsKe
pub mod Sched
pub mod Util
