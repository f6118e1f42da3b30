-- ===== src/Lib.antt =====
-- SSHCustom for Magisk: a daemon that keeps SSH sessions to a server, reached directly, through
-- an HTTP proxy, over TLS or both, and offers a SOCKS5 server and a transparent proxy whose
-- connections are streams of those sessions. This library models the daemon's core, which is in
-- cmd/sshcustomd/main.go, its resolver in internal/dnsx/dnsx.go and the rules of its transparent
-- proxy in internal/iptables/iptables.go.
--
-- The profiles' file says where to connect. A pool keeps several SSH sessions and opens a stream
-- on one of them for each connection that the SOCKS5 server accepts; a session starts on a
-- connection that is dialled and prepared as the profile says. The settings' file has the
-- resolver's mode and the interfaces whose traffic the firewall redirects to the transparent
-- proxy. What the pool and the proxies do is written into a state that the dashboard shows, and the
-- dashboard's subscribers are told of each change.
--
--   Pool: `SSHPool`, `pooledSSH`, `newSSHPool`, `checkout`, `Snapshot`, `Healthy`. Pool/System
--     has the methods that start goroutines (`EnsureAsync`, `reconnectSlot`, `markBroken`,
--     `Close`, `releaseSlot`), Pool/Steps their interleavings, Pool/Dial `Dial` and
--     Pool/KeepAlive `KeepAlive` (Pool/KeepAlive/Views what it means to do). Pool/Books, Pool/Handlers, Pool/Invariant, Pool/Scan,
--     Pool/Breaker, Pool/Size, Pool/Shut, Pool/Late and the Runs modules have the theorems.
--   Socks: `socks5Handshake`, `socks5Reply`, `handleSocks5Conn`, and the client's side in
--     `fetchHTTPViaLocalSOCKS` and `readSOCKS5ConnectReply`. Net prints addresses.
--   Profiles: the profile types and `selectedProfile`. Profiles/Slug has `slugify` and
--     `uniqueProfileID`, Profiles/Transport `normalizeMode`, `buildTransport`, `usesHTTPProxy`,
--     `usesTLS` and `dialEndpoint`, Profiles/Store `selectProfileByID`, `upsertProfile` and the
--     deletion handler.
--   Daemon: `State` with `set`, `broadcast` and `Subscribe`.
--   Errors: `isNetworkTransientError`, `isSSHTransportBroken`, `shortBannerLog`.
--   Manager: the phases, delays and route watch of `connectionManager`, and `routeSignature`.
--   Dns: `ResolveHost`, `NormalizeServers`, `EvictHost` and the cache of internal/dnsx/dnsx.go.
--     Dns/Addresses has `SanitizeIPv4List`, `ExtractIPv4s` and `RotateIPs`, Dns/Addresses/Sets
--     the theorem on the first.
--   Config: the settings, `normalizeConfig`, `trimDNSServerPorts`, `normalizeDNSMode`; Config/Patch
--     `applyConfigPatch`. Config/Servers, Config/Settled and Config/Patched have the theorems.
--   Dialling: the outside world and the record of what is done there. Dialling/Tcp has
--     `dialTCPResolved` and `dialFallbackIPs`, Dialling/Payload `renderPayload`, `httpCONNECT`,
--     `readSome` and `readProbe`, Dialling/Prepare `openPreparedSSHConn`, `attemptSSHAuth` and
--     `attemptTransport`. Dialling/Opened, Dialling/Live and Dialling/Balanced have the theorems.
--   Iptables: `Apply` and `Cleanup` of internal/iptables/iptables.go as the commands that they run,
--     Iptables/Runs their sequences, Iptables/Kernel what the manual of iptables says of the
--     commands. Iptables/Restore, Iptables/Installed, Iptables/Chains and Iptables/Reported have the theorems, and
--     the other modules beside them the steps.
--   Transparent: `startTransparentIfEnabled` with the function that it returns,
--     `iptablesCfgFromConfig` and `isLocalOrBlockedTarget`, Transparent/Stopped what it leaves.
--   Listening: `socksAddr`, `startSocksIfEnabled` and the two proxies together, as
--     `connectionManager` starts and stops them. Listening/Ended has the theorem.
--   Responses: `extractHTTPStatuses`, `extractSSHBanner`, `allowedStatuses`, `preview`,
--     `publicIPASN`.
--   Streams: `normalizedCopyBufferSize`, `writeAll`, `streamIdleTimeout`.
--   Text: the functions of Go's strings and strconv packages that these parts call. Base: lists,
--     Boolean tests and signed integers. Tests: concrete inputs.
--
-- Choices of the model. A text is the list of its bytes; case and spaces are those of ASCII.
-- The times of the pool and of the cache are milliseconds in unbounded numbers, as are the pool's
-- delays, which are between 5 and 60 seconds. The delays of the manager, which the settings give, are
-- 64-bit numbers of nanoseconds that wrap. A goroutine of the pool runs as one
-- step from one blocking call to the next; a step covers the work under the locks and the
-- snapshot that is published behind it, which no method of the pool reads. `checkout` looks at
-- the slots one by one while others change them, so in the runs of the pool a checkout may claim
-- any slot, and the claim looks at the slot again as the code does. A session is a number. A
-- connection of the SOCKS5 dialogue is the list of the bytes still to come and of those written;
-- what `pool.Dial` answers is an argument, and so is the printing of an IPv6 address. The `Write`
-- of a connection is a parameter of `writeAll`, whose fuel is one round for each byte, and the
-- answers of name servers and tools are functions. A call of `Dial` is given the rounds that its
-- loop meets, with the clock at each test of its deadline and what other goroutines do before the
-- checkout and while `client.Dial` waits, and is still at work where the rounds do not suffice; that
-- `client.Dial`, which has no timeout of its own, returns is part of what is given. `KeepAlive` is
-- given what other goroutines do before and behind each look at a slot. The printing of a number has a step
-- for each unit of the number as its fuel, and the loop of `uniqueProfileID` counts down the
-- numbers that it may try, so neither ends early. The Unix time in a fallback ID is an argument.
-- The world that a connection attempt meets (`Outside`) answers each call by a function of all that
-- was done before: whether a dial, a write, a TLS or an SSH handshake fails, and what the reads up to
-- the deadline bring. A list of reads that ends is a deadline that passes. What Go's net package
-- decides on addresses is a parameter, with its documented properties as hypotheses where a theorem
-- needs them (`Addresses`), and the order in which Go walks the map of `renderPayload` is one too.
-- The program iptables is a function on a state of the kernel from arguments to an error with its
-- output; `IsIptables` says what its calls do to the chains of the nat table, failures of -N, -A
-- and -I included, and `IsReporting` that a call without an error has done its work. A rule is
-- the list of its arguments, and two rules are the same if these are. That a killed daemon stops
-- between two commands is a choice of the model, and so is that it is killed behind the clean-up
-- with which `Apply` starts.
--
-- Not modelled: reading and writing files, the HTTP handlers around the operations, sockets, TLS
-- and the SSH protocol, what the connection manager publishes and starts, its keepalives, the queries of the
-- resolver, the loops that accept connections, which packets the kernel's rules match, the filter
-- table's FORWARD rule beyond the command, and metrics.
pub mod Base
pub mod Text
pub mod Config
pub mod Daemon
pub mod Dialling
pub mod Iptables
pub mod Transparent
pub mod Listening
pub mod Dns
pub mod Errors
pub mod Pool
pub mod Manager
pub mod Net
pub mod Responses
pub mod Socks
pub mod Profiles
pub mod Streams
pub mod Tests
