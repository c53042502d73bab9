-- ===== src/Lib.antt =====
-- wsl-win-relay: programs inside WSL reach the network of Windows, and the other way round, through
-- frames on a replaceable transport between a client (Linux) and a server (Windows).
--
-- The parts, from the wire up, and the files that model them:
--
-- internal/protocol: the frames. Protocol/Frame has the frame types, the limits and the validation
-- (Frame.Validate, validateFrameMetadata), Protocol/Write has Write and writeFull, Protocol/Read has
-- Read, and Protocol/Payload the payloads with a structure (window.go, datagram.go,
-- capabilities.go). Accepts, Delivery, RoundTrip, Sound and PayloadRoundTrip hold proofs.
-- internal/relay: the server and the client that multiplex streams on frames. Relay/Window is the
-- send window of window.go with everything that can happen while take waits, as a list of events;
-- Relay/Sender is clientStream.Write of client.go and Relay/Copy is copyToClient of server.go, both
-- on that window; Relay/Credit follows credit between the two ends of a stream; Relay/Server and
-- Relay/Server/Steps are the streams of server.go: open, registerInboundStream, remove, reset, the
-- frames about streams, writeToRemote and copyToClient, as steps on a store of streams; Relay/Server/Datagrams and
-- its Reverse are the datagram associations that clients open and those that listen on Windows, with
-- Kept, Removed, Moves, Owned and ReverseOwned as proofs; Relay/Server/Listeners the TCP listeners and
-- the connections that they accept. Relay/Reader is the receiving side of client.go's streams: handle,
-- fail, Read and Close. Relay/Client has the registries of the client and the calls that register an
-- object, fail and ResetPeerState, Relay/Client/Steps dispatch and the closing of objects,
-- Relay/Client/Packet the datagram associations of the client, Relay/Client/Reverse its reverse
-- datagram sockets with their flows; the other files of Relay/Client are proofs.
-- internal/transport/attach: who owns a transport that can be replaced. Attach/Registry is
-- registry.go (Attach, Detach, Close and the epochs), with the attachments in a store that names
-- each by an index, as the code compares pointers; Attach/Payload, Attach/Summary and
-- Attach/Message are the payloads, the registry summary with its acknowledgement, and the messages
-- of wire.go; Attach/Handshake and Attach/Handshake/Server are its handshakes, during which others may
-- call the registry. Ownership, Generations, PayloadRoundTrip, Summary/*, Message/RoundTrip and
-- Handshake/* hold proofs.
-- internal/transport/framed: a link whose endpoint can be replaced, link.go. Framed/Link has the
-- attachments in a store and Attach, Detach and Close; Framed/Traffic has ReadFrame and
-- WriteFrameContext over a schedule of what other holders do in each round. The rest are proofs.
-- internal/socks5: the SOCKS5 proxy for programs in WSL. Socks/Serve is a connection of server.go
-- (ServeConn, negotiate, readRequest, writeReply, mapDialError) as the list of what it does,
-- Socks/Address the addresses and datagram headers (readAddress, encodeAddress, parseUDPRequest,
-- encodeUDPResponse), Socks/Datagram the two loops of serveUDPAssociateWithPacket as steps. Replies
-- and RoundTrip hold proofs.
-- internal/upstream: connections of the server through a proxy that the user has set, dialer.go.
-- Upstream/Connect has socks5Handshake and socks5Connect on a connection, Upstream/Address encodeTarget,
-- readSocksAddress and resolveTarget, Upstream/Packet the datagrams of a socks5PacketConn, Upstream/Http
-- httpConnect, whose headers are read on one round more than there are bytes, since each line has one.
-- Agreement, Chained and Tunnel compare the dialer with the proxy of internal/socks5; Reply, Lines and
-- Response have proofs.
-- internal/autoforward: which listeners of WSL are to be opened on Windows. AutoForward/Proc is the
-- scanner of proc.go, from the text of /proc/net to listeners, AutoForward/Listeners its
-- normalizeListeners. Order, Kept, Chosen and Unique hold proofs.
-- Net has the texts of Go's packages strconv and net that the proxy and the scanner use: decimal
-- numbers, IP addresses, and host:port pairs.
-- Base is shared: numbers, lists, big-endian words, results and actions, readers and writers.
--
-- Bytes and words are native numbers; what the source keeps within a width is reduced with % or
-- stands as a hypothesis (IsByte, IsU32, IsU64) where the type of the source says it. A reader is the
-- list of bytes to come, a writer a script of what its calls of Write answer. writeFull runs on fuel
-- `length p`, as each round sends a byte at least; clientStream.Write on the length of its argument
-- plus the number of events, as each round takes a byte or an event; Protocol/Delivery and
-- Relay/Sender/Fuel prove that this is enough, Upstream/Chained for writeAll and Upstream/Response for
-- the headers of httpConnect.
--
-- Not modelled: the handshake of the relay's client and server, the texts of errors in frames, the
-- SOCKS proxy's limits, timers and copying, the HTTP proxy, the dialer's URLs, the control of
-- listeners, the watcher of ports, the broker and the connector, the commands and the transports of
-- the operating system.
pub mod Base
pub mod Protocol
pub mod Relay
pub mod Attach
pub mod Framed
pub mod Net
pub mod Socks
pub mod Upstream
pub mod AutoForward
