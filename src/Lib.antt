-- ===== src/Lib.antt =====
-- usbip-go, a USB/IP exporter and importer in Go: its wire codec, its bus ids, and the parts of its
-- kernel adapter and app layer that decide.
--
-- The program's parts. An exporter (internal/app/exporter.go) accepts connections, reads one request
-- with the wire codec (internal/adapter/wire) and hands the socket to the kernel adapter
-- (internal/adapter/kernel). An importer (internal/app/importer.go) dials an exporter, writes the
-- request, reads the reply and attaches the device to a port of the virtual host controller, whose
-- state the kernel adapter reads from sysfs. pkg/domain holds the types that all of them share,
-- pkg/usbip the facade, cmd/usbip-go the command line.
--
-- Where things stand.
--   Prelude   tests on numbers, lists measured by native numbers.
--   Io        what the code takes from Go: errors and errors.Is (Io/Errors), io.Reader and
--             io.ReadFull (Io/Readers), io.Writer (Io/Writers), a connection that delivers its bytes
--             in chunks (Io/Conn), bufio.Reader (Io/Buffered).
--   Bytes     bytes and big-endian integers.
--   Domain    pkg/domain: devices, speeds and device ids (Domain/Device), bus ids with ParseBusID and
--             ValidateWireBusID (Domain/BusId).
--   Wire      internal/adapter/wire: padded strings (Wire/Fields), the header (Wire/Header), the
--             device descriptor (Wire/Layout), the device list (Wire/Devlist) and the import request
--             and reply (Wire/ImportOp). Wire/Agreement is about all decoders at once.
--   Kernel    internal/adapter/kernel: what it uses of Go's text packages (Kernel/Text), sysfs files
--             and the classes of their errors (Kernel/Sysfs), the controllers' shape (Kernel/Topology),
--             status files and the choice of a port (Kernel/Ports), attaching and detaching
--             (Kernel/Attach).
--             Operations that look at sysfs and write to it more than once are actions on a log of
--             what happened (Kernel/Actions), over a world that answers as it likes at every step:
--             the driver of a device and the guards (Kernel/Drivers), the network devices that stand
--             in the way (Kernel/Netdevs), Bind, Unbind and the handing over of a connection
--             (Kernel/Bind).
--   App       internal/app: the exporter's registry of sessions (App/Sessions), with registerSession,
--             unregisterSession and the snapshot of captureShutdownState as the steps that the
--             exporter's mutex makes of them, in any order; and the handoff of one session
--             to the kernel (App/Handoff) with the critical sections of sessionHandle as steps; and the
--             reader that caps the bytes of a handshake (App/Limits). Serve, its accept loop and its end by
--             Shutdown are App/Accepting. A connection's handler is
--             handleConn with all that it calls (App/Serving), over a host that stands for the kernel,
--             a Shutdown and the other handlers; the wait for the end of a session (App/Watch) takes
--             the list of what its select sees. The importer's tables of ports (App/Tracking) are
--             maps from numbers, changed by the critical sections of its mutex in any order. An attachment
--             (App/Attaching) is one call whose kernel, peer and rivals answer by arguments. So are the detaches
--             (App/Detaching) and the reconnecting watcher (App/Reconnect, internal/app/reconnect.go), whose
--             loop runs over the list of what its rounds meet; its callbacks are App/Callbacks.
--   Tests     concrete inputs to the theorems.
--
-- How state and operations correspond. A Go function over an io.Reader takes a reader of any type
-- with an instance of Io.Readers.IoReader and returns the reader that is left: the record holds
-- Read, the bytes that are still to come, the error after them, and the laws that tie them. A Go
-- function over an io.Writer is an Io.Writers.Encoder, and the writer may fail at any call. Go's
-- strings are lists of bytes; fixed-width integers are native numbers with their bounds as
-- hypotheses, and an encoder cuts them to their width. An error is the sentinel and the way it is
-- wrapped; the text of a message is dropped, except for a device's index.
--
-- Fuel. io.ReadFull loops until the buffer is full or the reader gives an error. The model's loop
-- takes one more unit of fuel than the reader's budget, which every Read that returns no error
-- lowers; Io/Readers/ReadFull proves that this suffices: each read fills the buffer or ends with the
-- reader's own error. probeControllerCount opens status files until one is missing; Kernel/Topology/Count
-- proves that more fuel than there are files is enough. Printing a number takes 20 rounds, the
-- digits of a 64-bit number. Everything else recurs on the structure of its input.
--
-- Not modelled: sockets, file system calls, netlink, logging, the text of errors, and the
-- scheduling of goroutines, but for the interleavings named above; the command line and the facade,
-- which forward.
pub mod Prelude
pub mod Io
pub mod Bytes
pub mod Domain
pub mod Wire
pub mod Kernel
pub mod App
mod Tests
