-- ===== src/Lib.antt =====
-- Verification of the LanChat daemon: a peer-to-peer chat and file transfer service for a local
-- network, written in Python.
--
-- The daemon keeps one table of active downloads (attachments.py). The user's click on Save
-- begins a download (_dl_begin), the frames of the sender feed it (_dl_chunk) and end it
-- (set_expected_digest, _dl_finish), and the configuration moves its limits
-- (apply_config_limits). The sender offers a file for a while (register_attachment). Chat
-- messages go into the history (history.py), which is written to an encrypted file after each
-- change and read back at a start. A saved or a lost attachment is flagged there. The messages
-- of strangers wait in queues (server.py) until the user answers. Friendships are made by
-- signed UDP packets (server.py). A group room is kept by its owner, whose snapshots the
-- members hold copies of (rooms.py).
--
-- Files:
-- Base (Tests, Lists, Int): shared names, Boolean tests, list functions and lemmas over native
-- numbers.
-- Dict (Sums, Entries): Python's dict with string keys as an association list, sums over its values,
-- properties of its entries.
-- Files (Laws): the file system that the transfers use: names, inodes, handles with positions.
-- Download/Types, Limits, Reserve, Begin, Chunk, Finish: attachments.py, one file to each function
-- (_dl_begin is dl_begin in Begin, and so on). The clock, the probe of the free space and the
-- success of opening, writing and renaming are arguments of each call; SHA-256 is a parameter, and
-- a chunk carries what base64 decoding returned. Times are milliseconds. Log lines are left out.
-- Download/BeginCases, ChunkCases, FinishCases: one rule for each call, by which the other files
-- prove.
-- History/Types, Blob, Store, Page: history.py (load_history, append_history and the other calls
-- by their names). The file is one text, whose write succeeds whole or fails; json, base64, the
-- text codec and AES-GCM are the record Library, with their documented behaviour in IsFaithful.
-- History/Restart, Paging, Changes, Removals, Dedupe: the properties. History/Sample, Examples:
-- tests.
-- Held/Queue: server.py's hold on friend requests (_hold_friend_request, _release_pending_first);
-- Held/Bounds, Order: its properties; Held/Examples: tests.
-- Udp/Blob, Seen, Verify: server.py's check of signed friend packets (_udp_friend_sig_blob,
-- _udp_seen_check, _verify_udp_friend_packet); certificates, signatures and the printing of
-- integers are parameters, and the replay file is what json reads from it. Udp/Replay: its
-- property over time; Udp/Examples: tests.
-- Serving/Register: attachments.py's offers of local files (_registration_ttl,
-- register_attachment, get_attachment); Serving/Send: the commands about messages (send, clearChat and
-- the like); Serving/Window, Offered: their properties; Serving/Stream: the
-- frames of _serve_attachment, by recursion on one more round than the file has bytes;
-- Serving/Examples: tests.
-- Rooms/Types, Owner, Member, Files, Handle, Command: rooms.py (the owner's operations, the
-- member's, posted files and texts, the router handle_room_msg) and the room commands of server.py's
-- handle_command. A call returns the rooms and the list of what it sends and appends to the history.
-- The events for the user interface are left out, writes of the room files succeed, and what the
-- rest of the daemon answers (trust, names, whether a write to a peer succeeds) is the record Env.
-- Rooms/Store: the encrypted files (`_rooms_key`, `_load_store`, `_save_store`), with json, base64
-- and AES-GCM as the record Codec; Rooms/Reload: a restart.
-- Rooms/Rights: what the author of an event is entitled to. Rooms/Machine: the state machine of one
-- room under its owner. Rooms/Changes, Messages, Commands:
-- each operation is one of its changes. Rooms/Soundness, Refinement, Roster, Authority, Sync: the
-- properties; Rooms/Examples: tests.
-- Naming: naming.py, the names of peers.
-- Friends/Types, Ledger, Peers, Udp, Incoming, Command: server.py's state of the daemon, its list of
-- friends and the ledger that mirrors it (add_friend, unfriend, reconcile_friends_from_ledger), the
-- table of peers, the handlers of the signed packets, the dispatch of what a connection brings
-- (_handle_incoming) and the commands about friends. The state holds the history, the held requests,
-- the replay map and the rooms of the modules above; what it sends goes to an outbox. The ledger's
-- file and the list that is read from it are one; a write of the configuration may fail.
-- Friends/Lists, Moves, Steps, Events: how each call may change the friends, the ledger and the
-- requests. Friends/Consent, Mirror, Foothold: the properties; Friends/Sample, Examples: tests.
-- Connection/Lines, Inbound: the reader of an inbound connection (_reader_inbound): its lines, the
-- proof of the peer's identity, and the messages that wait for it. Connection/Active: the active
-- socket of a peer and the queue of what could not be written (_write, _flush_locked,
-- _maybe_set_active). Connection/Outbound, Dial: the reader of a dialed connection (_reader_outbound) and
-- the rounds that dial (conn_loop). Connection/Proof, Chunks, Queue, Whole, Retry: the properties; Connection/Examples: tests.
-- Http/Throttle, Reader, File, Api, Workers: http_api.py: the windows of calls (_throttle), the reader
-- of requests (_RequestReader), the handlers (do_GET, do_POST) over the daemon of Friends and the offers
-- of Serving, the slots of the workers. What urllib, json and the headers' parser return is part of a
-- request. Http/Window, Stream, Lines, Body: a throttle over time, and the reads; Http/Access, Limits,
-- Runs: the properties of the handlers; Http/Examples: tests. Friends/Send: send_message, peer_snapshot.
-- Saving/Name, Desk: the names of saved files (_safe_filename), the command acceptAttachment, the end of
-- a transfer (_finalize_download) and the frames that end it, over the downloads and the daemon.
-- Saving/Safe, Asked, Marked: the properties; Saving/Examples: tests.
-- Settings/Capacity: the commands setAttachmentMax and setPerPeerDownloads; Settings/Config, Single:
-- the defaults of a start (load_config), the commands that set one value and the functions that read
-- them. Settings/Given, Reach, Defaults, Reads: what is in force after a command or a start;
-- Settings/Examples: tests.
-- Download/Run: histories of calls. Download/Bounds, Ceiling, Slots, Budget, Frames, Acceptance, Outcomes,
-- Transfer, Stream, Clash, Limits/Range: the properties. Download/Examples: tests.
--
-- Loops are recursions on the list that they run over, but for those of _serve_attachment and of the
-- reads and the file of the HTTP interface, which have fuel: one more round than the bytes they may take,
-- and each round takes one. A removal of a file that exists is taken to succeed.
--
-- Not modelled: sockets, threads and TLS, the user interface, the log; the parts of the daemon
-- that the list of components names as not modelled.
mod Base
pub mod Dict
pub mod Files
pub mod Download
pub mod History
pub mod Held
pub mod Udp
pub mod Serving
pub mod Rooms
pub mod Naming
pub mod Friends
pub mod Connection
pub mod Http
pub mod Settings
pub mod Saving
