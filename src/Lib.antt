-- ===== src/Lib.antt =====
-- anymount mounts a read-only filesystem that a program writes as an implementation of the trait
-- ReadOnlyFs. The library is a model of the crate: the parts that every platform shares, its NFSv3
-- server, the backends for Linux, macOS and Windows up to the calls of the operating system, and the
-- filesystem of its example.
--
-- A mount. A program fills in a builder (Mount, src/mount.rs), which is checked against what a backend
-- can do (src/backend/preflight.rs) and dispatched to one (src/backend/mod.rs). The FUSE backend (Fuse,
-- src/backend/fuse.rs) and the Windows backend (Cfapi, src/backend/cfapi.rs) answer callbacks of the
-- platform. The NFS backend (NfsMount, src/backend/nfs/mod.rs) tries a local socket (local.rs), with
-- arguments for mount(2) that it encodes itself (mount_args.rs), and else loopback TCP (tcp.rs).
--
-- A call of an NFS client goes through the parts in this order. The server (Server,
-- src/backend/nfs/server.rs) accepts connections and reads messages from each by record marking (Rpc,
-- src/backend/nfs/rpc.rs). The header of a call is parsed with the XDR reader (Xdr,
-- src/backend/nfs/xdr.rs), and the call is dispatched to the MOUNT program (MountProto,
-- src/backend/nfs/mount_proto.rs), which gives the root handle to whoever names the export value, or to
-- the NFS program (NfsProto, src/backend/nfs/nfs_proto.rs). An NFS procedure resolves its handle (Handle,
-- src/backend/nfs/handle.rs), calls the filesystem (Fs, src/fs.rs) and encodes what it gets, its errors
-- as statuses (Error, src/error.rs). A directory is listed through the driver that the backends share
-- (Readdir, src/backend/readdir.rs). Types is src/types.rs, Stream what the crate relies on of the
-- standard library's sockets, MemFs the filesystem of examples/memfs.rs, and Prelude the tests, lists,
-- bit operations and byte encodings that the other modules use. The functions have the names of the
-- source; a method of a struct takes it as an argument, and the branches of a long function are
-- functions of their own.
--
-- Clients. Some modules have clients of the server, which are no part of the crate: they lay out calls
-- and take replies apart as RFC 1813 and RFC 5531 say, with the reader of Xdr. Rpc.Header has the header of
-- a call, Server.HandleCall, Server.ReadCall, Server.HandleResult and Server.ReadResult calls and replies,
-- NfsProto.Entries and NfsProto.ListReply the list of a directory. Server.Fetch is a session from MNT to the
-- end of a file, Server.Download the reading alone, NfsProto.Listing the listing of a directory.
--
-- The state. The reader is a buffer and a cursor, the writer its bytes. A filesystem is a record of
-- steps on a state of its own, so a theorem holds for every implementation, also one that changes under
-- the calls. Fs.Contract says what the trait's documentation asks of `read_at`, and Readdir.Listing what
-- it asks of `readdir`. A socket is the list of the chunks and errors that its reads meet, and an output
-- is the bytes sent and what the coming writes meet. The loop of a connection takes the list of what its
-- rounds see of the shared flags, and the accept loop the list of what its rounds meet. A callback of
-- FUSE gives the reply that it sends, one of Windows adds to the operations that the platform has been
-- handed, and an NFS mount adds to a log of what is done to the system, on a record of the system's
-- answers. NfsMount.Held counts what such a log leaves in the system: a call that the
-- system refuses changes nothing. A Windows mount runs on a platform whose calls are steps on a state of
-- its own. Cfapi.Tracked and Cfapi.Leftovers say what is relied on of them, and that each may fail,
-- Fs.Contract also what of a file whose content stays.
--
-- Bounds and fuel. Numbers are natural numbers; a wrap-around, a truncating cast and a saturating
-- operation are written out, and a signed number is its bit pattern. A usize has 64 bits. The pages of a
-- directory are asked for by a loop with no bound in the source, since a directory may be endless; `emit`
-- runs it on fuel, and a result of `none` is no behaviour of the source. A directory of finitely many
-- entries needs a fuel above their number (Readdir.Ends). The transfer of a range of a file runs on fuel too; it needs
-- one above the length of the range, since every round hands over a byte or ends the loop. A client's loop
-- runs on the number of calls that it may make, one more than the bytes of a file or the entries of a list.
--
-- Not modelled: the system calls themselves, the crates `fuser` and `windows`, logging, and threads:
-- each connection is a run of its own, and so is each callback.
pub mod Prelude
pub mod Types
pub mod Error
pub mod Fs
pub mod Xdr
pub mod Mount
pub mod Fuse
pub mod Handle
pub mod Readdir
pub mod Stream
pub mod Rpc
pub mod NfsProto
pub mod MountProto
pub mod Server
pub mod NfsMount
pub mod Cfapi
pub mod MemFs
pub mod Tests
