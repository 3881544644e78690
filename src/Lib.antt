-- ===== src/Lib.antt =====
-- A verification library of TailKVM, which shares one mouse and keyboard between machines of a
-- tailnet.
--
-- The program's parts. The controller captures the mouse and keys, moves a logical cursor over the
-- screens of all machines, and forwards input to the machine the cursor is on; the receiver injects it.
-- They talk over a TCP session of JSON lines, and optionally over UDP datagrams for motion.
--
-- Which file models which part:
--   Core/PushGate       crates/tailkvm-core/src/motion.rs: PushGate, which lets the cursor cross an edge
--                       only after a physical push toward it.
--   Core/Geometry       crates/tailkvm-core/src/geometry.rs: edges, entry and return positions, with the
--                       arms of a match on an edge label as Label; the proofs stand in Geometry/Return
--                       and Geometry/Entry.
--   ScreenSpace         crates/tailkvm-win32/src/screen_space.rs: Rect, Edge (Types), CombinedSpace
--                       (Combined), SwitchGuard (Guard), clamp_to_rects (Clamp); the proofs stand in
--                       Mapping, Bounds, Crossing, Bounce, Clamp/Distance and Clamp/Nearest.
--   LayoutGraph         crates/tailkvm-win32/src/layout_graph.rs: LayoutGraph (Graph) and
--                       MultiScreenSpace (Space); the proofs stand in Links, Moves and Runs.
--   Net                 crates/tailkvm-net/src: MotionDatagram (Motion), SeqSource, SeqGate and the peer
--                       check (Seq), WireMessage and the version check (Protocol).
--   KeyClass            crates/tailkvm-win32/src/key_class.rs: classify_key and the key sets.
--   Ime                 apps/tailkvm-ui/src-tauri/src/ime_mode.rs: ImeModeState (Mode), and
--                       crates/tailkvm-win32/src/ime_anchor.rs: clamp_anchor (Anchor) and
--                       project_remote_to_local (Projection).
--   Forwarding          apps/tailkvm-ui/src-tauri/src/forwarding.rs: the hook flags and slots, SenderTarget,
--                       and the functions that start and stop the hooks; Health is the check that
--                       notices a removed hook, Anchor the place of the composition window, Mouse the
--                       mouse thread, and Keyboard and KeyboardTurn the keyboard thread; the proofs
--                       stand in MouseRelease, KeyboardKeys, KeyboardKeep and KeyboardRelease, with Log
--                       for what a log of messages says about a key.
--   Clipboard           crates/tailkvm-win32/src/clipboard.rs: ClipboardLoopGuard; Sync is
--                       apps/tailkvm-ui/src-tauri/src/clipboard_sync.rs, the watcher thread and the
--                       commands; History puts them beside a clipboard and the sessions that write to
--                       it, and Echo has the proofs.
--   Seamless            apps/tailkvm-ui/src-tauri/src/seamless.rs: run_seamless_capture, in the form of
--                       Router: Gain has the scaled deltas, Steps the hooks and the way back to local
--                       input, LocalTurn and RemoteTurn the two halves of a turn, Run the loop; the
--                       proofs stand in Home and Safety.
--   Legacy              apps/tailkvm-ui/src-tauri/src/legacy_capture.rs: the task that start_mouse_capture
--                       spawns where it does not spawn the seamless engine; Moves has the proofs.
--   Router              apps/tailkvm-ui/src-tauri/src/router.rs: run_router. Steps has its closures and the
--                       return to the local screen, LocalTurn and RemoteTurn the two halves of a turn,
--                       Run the loop and what other threads change between turns (known commands by
--                       their effect, all other writers by any state they leave), Commands the Tauri
--                       commands. The proofs stand in Safety (with Home), Watchdog, Push and Built (with
--                       Sizes).
--   Session/Lines       apps/tailkvm-ui/src-tauri/src/session/wire.rs: read_capped_line.
--   Session/Coalesce    the same file: push_coalesced.
--   Session/Held        apps/tailkvm-ui/src-tauri/src/forwarding.rs: track_button_press and
--                       track_key_press.
--   Session/Backoff     apps/tailkvm-ui/src-tauri/src/session/controller.rs: the reconnect delays.
--   Session/Supervisor  the same file: spawn_controller_supervisor, over the rounds of its loop.
--   Session/Commands    apps/tailkvm-ui/src-tauri/src/session/mod.rs: the commands on sessions, with
--                       disconnect_screen of apps/tailkvm-ui/src-tauri/src/lib.rs and str::trim in
--                       Session/Trim; Pairing, Named and Screens have the proofs.
--   Session/Relay       apps/tailkvm-ui/src-tauri/src/clipboard_sync.rs: relay_message and
--                       broadcast_message.
--   Session/Controller  apps/tailkvm-ui/src-tauri/src/session/controller.rs: run_controller_session, in the
--                       form of Session/Receiver: Turn has the start, the turns and the end of its
--                       loop; the proofs stand in Beats, Watchdog and Commands.
--   Session/Receiver    apps/tailkvm-ui/src-tauri/src/session/receiver.rs: handle_receiver_stream. The
--                       session is a record of the function's local variables with the list of the
--                       effects so far; Turn has one function per arm of select! and of the match on
--                       the message, Input the arms that inject, Report the messages of wire.rs that
--                       the receiver sends by itself. The proofs stand in Gate and Release, with
--                       Pressed and Views for their lemmas.
--   Float               the f64 arithmetic of the mapping as an interface, with the facts of IEEE 754 that
--                       the proofs use as the record IsIeee; Fixed is a model of them in fixed point.
--   Base                shared names, lists, i32 and i64 arithmetic, association lists.
--
-- Bounds. An i32 is an integer with the wrap-around of a release build written out, and clamp with an
-- empty range, which panics, is none. Theorems on coordinates ask for |a| <= 2^28, so that no sum
-- wraps; Windows keeps the virtual screen far below that. u64 counters wrap as in a release build, or
-- saturate where the code says so. Times are nanoseconds; each reading of the clock within a turn is an input of its own. Lengths of
-- byte vectors are not bounded: a vector in memory is shorter than 2^64. No definition runs on fuel: the
-- loops are recursions on the chunks of a stream or on the list of turns.
--
-- Not code of the repository, and so parameters: the f64 operations, the answers of Win32 and of the
-- socket in each turn of a session, the base64 codec, and the hasher of the clipboard guard. The texts of
-- last_event are constructors that carry the arguments of their format strings.
--
-- Not modelled: the TypeScript frontend, the Tauri shell, the bindings of the Windows API, the window
-- that watches the clipboard, the command that starts the capture and the one that listens for
-- connections, the JSON text of the messages, and the write timeout. No lock is poisoned: no thread
-- panics while it holds one. Other threads act between the turns of a loop, and not within one, except
-- where the clipboard histories of Clipboard/History say so.
pub mod Base
pub mod Float
pub mod Core
pub mod ScreenSpace
pub mod LayoutGraph
pub mod Net
pub mod KeyClass
pub mod Ime
pub mod Session
pub mod Forwarding
pub mod Router
pub mod Seamless
pub mod Legacy
pub mod Clipboard
