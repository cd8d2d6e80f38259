-- ===== src/Lib.antt =====
-- The Go thin client for Apache Ignite: models of its parts, and theorems about them.
--
-- The client keeps a TCP channel to one server of a cluster. An operation of a cache is written as a
-- request into an output stream: its primitive values by the stream, its keys and values by the
-- marshaller. The channel puts the length before the request, and its read loop cuts the answers of
-- the server out of the bytes that arrive. The reader of the operation takes the answer from an input
-- stream. Above the TCP channel stands the reliable channel, which connects to one of several servers
-- and repeats a request whose connection is lost. The features of a server are a set of bits that the
-- handshake reads from its bytes.
--
-- The files, and the code they model:
--   Base        numbers as patterns of w bits (2 ^ w for the wrap-around), bytes in little-endian
--               order, lists measured by native numbers, and `Result` for errors and panics.
--   Bitset      internal/bitset/bitset.go, each function under its name (`Set` is `set_bit`, `Bytes` is
--               `to_bytes`). Bitset/Valid has the invariant of a set, Update and Codec are about the
--               operations and it, and Membership is about Test.
--   Stream      buffer.go. Stream.Out is `binaryOutputStreamImpl` and Stream.In `binaryInputStreamImpl`:
--               records of a buffer and a position, and state passing for the methods. A signed
--               method and its unsigned twin are one definition on bit patterns. A stream grows to
--               2 ^ 31 - 1 bytes, and a write past that panics.
--   Marshal     marshaller.go. Types has `TypeDesc` and the values; Writer has `marshal`, Reader has
--               `unmarshal`. Encoding describes the wire format with no stream; Writes is about
--               `marshal` and it, and RoundTrip about `unmarshal`. TypeId has `getTypeId`.
--   Reliable    reliable_channel.go: `send`, `currentChannel` and `initConnection` as state passing over
--               the record `Network`, which stands for tcpChannel, the address supplier and the
--               configuration.
--   Packet      `packetAccumulator` of channel.go, and the loop of `readLoop` over what it holds.
--   Request     `newRequest` of channel.go.
--   Protocol    protocol_context.go but for the text of a version: `Compare`, the methods `Supports`, the
--               features of a context over Bitset, and its `marshal`.
--   Transaction `RunInTransaction`, `startTx` and `closeTx` of transactions.go, over the record `Cluster`.
--   Hash        `HashCode` and `SliceHashCode` of internal/utils.go.
--   Schema      binary_schema.go: `binarySchema`, `binarySchemaBuilder` and the footer of an object.
--   Metadata    binary_schema.go: `binaryMetadata`, `mergeMetadata` with its two branches and their
--               loops, in Metadata/Cache `binaryMetadataCache`, and in Metadata/Wire metadata as bytes with
--               the sequences and maps of buffer.go. A map is a list of keys and values, in the order in
--               which Go ranges over it.
--   Object      binary_object.go, over the record `Marshaller`, which stands for what it uses of the
--               interface `marshaller`. Object/Writer has `binaryWriterImpl`, Object/Reader
--               `binaryObjectImpl`; Object/Payloads is the marshaller of Marshal as such a record.
--               Written and its children are about the writer, Framed, Find, Layout and Lookup about
--               the reader, and RoundTrip about both.
--   Channel     `tcpChannel` of channel.go: `send`, `send0` and the reading of an answer over the record
--               `Network`, which stands for the wait and for the bytes of the server. Channel/Answers
--               describes the answers. Channel/Pending has the requests that wait as step relations of
--               the senders, `readLoop` and `beginClose`, after the handshake; a step is one access to
--               what they share.
--   Cache       cache.go. Cache has the head of a request and the expiry policies, Cache/Client what a
--               method uses of `Client`, Cache/Operations the methods of `Cache`, each under its name.
--               Cache/Calls, Wire and Results describe the calls as bytes; Cache/Answered is about the
--               methods over one connection of Channel.
--   Config      cache_configuration.go. Config has the properties and `Copy`, Options the options, Getters
--               the methods that return properties, Writer `marshal`, Reader
--               `unmarshalCacheConfiguration`. EntityWire, Sized, PropertyBytes and Answer describe the
--               bytes; EntityCopies and Copies are about `Copy`. A Go map is a list of keys and
--               values; the list [] stands also for nil.
--   Admin       client.go: the methods of `Client` that manage caches, the state of the cluster and the
--               write-ahead log, each under its name, and from cluster.go the check that a server has
--               the cluster API. Admin/Answered is about the methods over one connection of Channel.
--   Cursor      `baseCursor` of cursor_base.go over the record `Server`, which stands for the channel and
--               the marshaller. `Scan` assigns what `row_at` gives; `all_rows` is the loop of a caller.
--
-- Fuel: `unmarshal` takes one of its fuel for each level of nesting; it is given as much as the depth
-- of the value. `all_rows` of Cursor takes one for a round of its loop. In Reliable the rounds of
-- `send` and of `currentChannel` are fuel, since a network may fail for ever, and `none` is the fuel
-- running out. `drain` of Packet takes one of its fuel for a packet, and has one more than there are
-- bytes. `find_entry` of Object/Reader takes one for an entry of the footer, and has one more than the
-- footer has bytes.
--
-- Parameters: `host` is the byte order of the machine. `write_other` and `read_other` are the cases of
-- the marshaller for binary objects, enums, classes, proxies, decimals and timestamps, which need the
-- registry of types, reflection, or github.com/cockroachdb/apd. In Object/Payloads `lower` is
-- strings.ToLower, and `type_of_other` is getTypeId of such a value. A nil pointer is such a value
-- too. Buffers and the data of a binary object have no capacity beyond their lengths.
--
-- In Config and Admin `trim` is strings.TrimSpace; in Admin `units` gives the code points of a string,
-- and `text` the value of one. In Cache/Answered and Admin/Answered the beginning and the end of a
-- transaction are parameters, and `Network` answers one packet by one packet.
--
-- Not modelled: `SqlQuery`, `GetClusterGroup`, binary objects, options and construction in client.go;
-- the groups of nodes in cluster.go; sql_query.go and scan_query.go; of cache.go `Scan` and
-- `Configuration`; the assignment by reflection in cursor_base.go; the options of transactions.go; the
-- checks of newBinaryObject and the values of user types in binary_object.go, and binary_enum.go; the
-- calls of the server in the registry of binary_schema.go; of channel.go `writeLoop`, the handshake,
-- the dialing and the deadlines; ParseVersion and String of protocol_context.go; the code generator in
-- tools/; logging, examples, benchmarks and the helpers of the tests. Most of these are requests over
-- the channel, or input and output. But for Channel/Pending, where several goroutines share a channel
-- the model has the view of one of them.
pub mod Base
pub mod Bitset
pub mod Hash
pub mod Stream
pub mod Marshal
pub mod Reliable
pub mod Packet
pub mod Request
pub mod Protocol
pub mod Transaction
pub mod Schema
pub mod Metadata
pub mod Object
pub mod Cursor
pub mod Channel
pub mod Cache
pub mod Config
pub mod Admin
