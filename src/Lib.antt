-- ===== src/Lib.antt =====
-- Verification of the native input and desktop runtime of floe-native-apps, the Python modules at the
-- root of the repository.
--
-- The program serves an application's windows, and a physical desktop, to remote viewers. Text and
-- pointer input passes one scheduler (input_order.py), which admits one confirmed text at a time and
-- waits for its adapter; an adapter hands the text to a toolkit through a native marker key
-- (input_marker.py). The physical-desktop helper binds input to frames that were sent and painted
-- (host_desktop_contract.py).
--
-- Which file models which part:
-- - Python: integers, texts with their UTF-8 encoding, and JSON values, with the `==` and `isinstance`
--   tests that the program makes on them. A finite float is a fraction.
-- - HostContract: `integer`, `text_value` and `DesktopAuthority` of host_desktop_contract.py. Each
--   method is a function from the object to the new object or the error code.
-- - InputMarker: `MarkerTransactions` of input_marker.py. A method runs under one lock, so it is one
--   step; the dictionary of slots is an association list (Prelude/Dicts).
-- - HostContract/Credit: `FrameCredit` of the same file, the frames that may be unacknowledged.
-- - HeldInput: `KEY_CODES`, `physical_key` and `HeldInput` of host_desktop_input.py. The backend is an
--   interface over an arbitrary world whose calls may raise.
-- - InputContext: `Contexts` of input_context.py, the handoff of a text to a toolkit on the private bus.
--   What the bus, the clock, the marker and the display answer are arguments of the methods.
-- - DesktopControl: desktop_control.py. Viewers are the peers of `DesktopControl`, their authentication
--   and takeover; Reader is `encode_message` and `Peer.read`, over an interface of the JSON parser and
--   the application, whose loop has the length of the input as fuel (a round takes at least six
--   bytes, and Reader/Chunks proves that more fuel changes nothing); Output is the queue of a peer and
--   `Peer.write`, where the answers of the socket are a list.
-- - DesktopClipboard: `NativeClipboard` of desktop_clipboard.py. What the native channel holds is an
--   argument, its calls and those of callbacks are events, and a method tells whether it raised. What
--   `submit` does is an argument of `commit`; it may close the object before it raises.
-- - DesktopCursor: `NativeCursor` and `rgba_png` of desktop_cursor.py. Records are the observation of a
--   line of the native channel; zlib and the test of a hotspot are an interface.
-- - DesktopNative: desktop_native.py. Channel is `NativeChannel`, where what observes a line is a script
--   of sends and closes on the channel; the other files are `NativeDesktop`:
--   Observe is the dispatch of `observe`, Fields what it reads of a record, Records its branches,
--   Requests and Operations the methods that viewers and adapters call, and Steps their sequences. A
--   method gives its events in order; whether the channel takes what is sent is an argument. The
--   objects that it compares by identity are numbers. The loop of `NativeChannel.read` has as fuel one
--   more than the length of the input; a round takes at least one byte, so it does not run out. A send
--   that fails while a record is observed is taken as the loss that follows it.
-- - InputDispatch: `InputDispatch` of input_dispatch.py, which gives the scheduler its callbacks. What it
--   asks of Xpra's server, of the connections and of the adapters is an interface over their state.
-- - Documents: `DocumentGrants` of desktop_documents.py. A call of the portal is one of nine operations
--   with the types of its bus signature.
-- - DesktopAttachment: the frames of `DesktopAttachment` of desktop_attachment.py, from the capture to the
--   acknowledgement, and every request of its viewer but `input`, `release_input` and an unknown one.
--   What the native desktop and the viewer answer is an argument of each call.
-- - HostPixels: `equal_pixels` of host_desktop_pixels.py, with memcmp on lists of bytes.
-- - HostWire: `packet` and `Writer` of host_desktop_wire.py. What the worker thread and the callers do
--   under the lock is a step, and so is each operation on the queue, by the worker, which takes no lock
--   for it, and by `close`, which may raise there; a run is any interleaving of steps.
-- - InputOrder: `OrderedInput` of input_order.py. The callbacks of its constructor are an interface
--   over an arbitrary world. Callbacks may call `invalidate` while they run, `admit` and `result` may
--   raise, and `commit` may complete before it returns. The loop of `drain` has the length of the queue as fuel: a round takes one item
--   off and none is added while it runs, and InputOrder/Drain proves that this is enough.
--
-- A class is a record; a method that raises before it writes returns an error without a state. The
-- calls that reach an object are lists of steps, and a theorem over `run` speaks of every such list.
-- Not modelled: sockets, D-Bus, GLib, processes, GStreamer and files, the Go and Swift parts, and the
-- contents of a frame.
pub mod Prelude
pub mod Python
pub mod HostContract
pub mod HostWire
pub mod InputMarker
pub mod InputOrder
pub mod HeldInput
pub mod InputContext
pub mod DesktopControl
pub mod DesktopClipboard
pub mod DesktopCursor
pub mod DesktopNative
pub mod InputDispatch
pub mod Documents
pub mod DesktopAttachment
pub mod HostPixels
