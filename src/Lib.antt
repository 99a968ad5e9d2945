-- ===== src/Lib.antt =====
-- tpn-worker, the worker node of a proxy network: it leases WireGuard peers and SOCKS5 credentials
-- to callers of an HTTP endpoint. The model follows the Rust code under src/.
--
-- The request `/api/lease/new` (src/api/lease.rs, `Api/Lease`) checks the caller's address against
-- the mining pool's (src/net, `Net`), checks its parameters and the token of a lease that it
-- extends (src/crypto, `Crypto`), and asks the lease manager (src/service/lease_manager.rs,
-- `Service/LeaseManager`) for a lease. A SOCKS5 lease is a row of one table (src/db/socks5.rs,
-- `Db/Socks5`). A WireGuard lease is a row of another (src/db/wireguard.rs, `Db/Wireguard`) and a
-- peer of the embedded server (src/wireguard/server.rs, `Wireguard/Server`), which the peer
-- manager (src/wireguard/peer_manager.rs, `Wireguard/PeerManager`) keeps in step.
--
-- A leased SOCKS5 credential is used at one of two proxies: src/proxy/socks5.rs (`Proxy/Socks5`)
-- and src/proxy/http_connect.rs (`Proxy/HttpConnect`). Both are handlers over a client's byte
-- stream (`Proxy/Stream`) that authenticate against the credentials in memory, which
-- src/proxy/credentials.rs (`Proxy/Credentials`) keeps with the table.
--
-- At the start (src/main.rs, `Startup`) the process reads its environment, sets up the tables
-- (src/db/init.rs, `Db/Init`), prepares the host's network and, in `Wireguard/Start` and
-- `Wireguard/Network` (src/wireguard/server.rs), makes the server with the keys of the table and
-- restores its peers; `Wireguard/Reachability` waits for the public port. In the background
-- (src/main.rs, `Daemon`) a worker registers with the mining pool (src/service/mining_pool.rs,
-- `Service/MiningPool`), whose answers go to a log (src/db/registration_log.rs,
-- `Db/RegistrationLog`), and removes what has expired (src/db/cleanup.rs, `Db/Cleanup`). Labelled
-- instants are in src/db/timestamps.rs (`Db/Timestamps`).
--
-- A middleware admits a request to the protected endpoints by a token that the login gave
-- (src/api/auth.rs, `Api/Auth`). The endpoint for upgrades (src/api/upgrade.rs, `Api/Upgrade`)
-- replaces the program's file. The answers about the worker are in src/api/health.rs and
-- src/api/status.rs (`Api/Health`, `Api/Stats`). The endpoint for settings (src/api/admin.rs,
-- `Api/Admin`) rewrites the lines of the .env file, and the one for the log (src/api/logs.rs,
-- `Api/Logs`) answers its last lines.
--
-- `World` is the state: the tables as lists of rows in rowid order, the server's peers, the
-- kernel's interface, the cache (src/service/cache.rs, `Service/Cache`). An operation is a
-- function from a state to an answer or an error and a state; an `Env` says what the outside
-- answers at each event: which statements and kernel calls fail, what the clock reads, what is
-- drawn, what a name resolves to, what the mining pool answers, what a probe of the public port
-- prints. Theorems hold for every `Env` unless they say which. `World/Triple` has the rules by
-- which conditions are carried through an operation, and `World/Frame` those for a condition that
-- an operation leaves alone.
--
-- Texts are lists of UTF-8 bytes. An i64 is an integer that wraps at 2 ^ 63 where the release
-- build wraps; ids and ports are naturals, cut to 16 bits where the code casts. Loops over rows,
-- octets and ids are structural recursion. Two loops run on fuel: the registration at the start,
-- whose fuel is the number of attempts, and the wait for the public port, which is given a round
-- for every five seconds of the wait and two more, of which each takes five seconds. An operation
-- under a lock runs alone; the lock (src/sync/locks.rs, `Locks`) is had or the wait times out.
-- `Locks/Tasks` has the map from names to mutexes, the tasks that contend for them, and the steps
-- that they take in any order; of a mutex of tokio it takes that `lock` answers only while the
-- mutex is not locked.
--
-- A read of a client's stream behind its last byte ends the handler, which stands for a client
-- that closes and for the end of the time that a handshake may take. Case and white space of texts
-- are those of ASCII; bytes that are not UTF-8 are replaced as the standard library does.
--
-- Parameters: the MAC of lease tokens, the key functions of the WireGuard library, the library of
-- JSON Web Tokens, the parsing of JSON and of a fraction of minutes, whether a text is a header's
-- value or an address, base64, the files of a directory, what an attempt to connect and a call of
-- the system comes to, and the commands iptables and ip, whose promises `FirewallLaws` names.
--
-- Not modelled: the SQL of the database's schema, the routing table of the endpoints, the template
-- of the .env file, the accept loops and the relaying of bytes, the page of the dashboard with its
-- data, and the endpoints that stop and start the process.
pub mod Base
pub mod Error
pub mod World
pub mod Locks
pub mod Net
pub mod Config
pub mod Crypto
pub mod Service
pub mod Startup
pub mod Daemon
pub mod Api
pub mod Tests
pub mod Db
pub mod Wireguard
pub mod Proxy
