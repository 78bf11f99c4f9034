-- ===== src/Lib.antt =====
-- remotehub lets people reach devices in customers' networks, with the rights that a catalog of
-- grants gives them, and only where the customer's own connector is open. This library models the
-- places where that is decided, how the connector and remotehub tell each other of it, the
-- sessions, second factors and sealed secrets that it rests on, and the protocol in which a
-- session's screen is sent, and proves what they decide.
--
-- The program's parts, and the files that model them:
--
--   * crates/model/src/lib.rs, the catalog: Catalog/. Catalog.Defs has roles, objects, grants and
--     `Catalog::new`, Catalog.Roles the queries (`effective_role`, `grants_along`, `reasons`,
--     `authorize`, `may_request`, `may_approve`, `visible`). The server loads the catalog from its
--     database and asks it at each request.
--   * crates/connector/src/inventory.rs, the customer's list of devices and groups:
--     Connector/Inventory/. Connector.Inventory.Defs has every operation on the list,
--     Connector.Inventory.Written the ports as they are written and read.
--   * crates/connector/src/network.rs, ranges of addresses: Connector.Network has `contains`.
--   * crates/connector/src/access.rs, what the customer has opened: Connector/Access/.
--     Connector.Access.Defs has the stored access and `device_until`, Connector.Access.Queries the
--     other queries of a snapshot, Connector.Access.Store the files and their errors,
--     Connector.Access.Changes the operations, each with its reads, writes and journal entry, and
--     Connector.Access.Running `Gate`: the snapshot that the running connector decides by, and the
--     round of `follow` that closes what ran out, through the same `change`.
--   * crates/connector/src/agent.rs, the connector's way to remotehub. `permitted` and
--     `open_until`, which let a connection through, are `permitted` and `connection_until` of
--     Connector.Access.Queries. The rest is in Connector/Agent/: Connector.Agent.Reach has
--     `resolve_target` and the answers to checks, Connector.Agent.Report `state`, `refusal` and a
--     round of `report`, Connector.Agent.Tunnel the connections that are carried, from the start
--     of `stream` to its end, the rounds of `while_open` and the waits of `connected`.
--   * crates/connector/src/requests.rs, what remotehub asks the customer for: Connector/Requests/.
--     Connector.Requests.Defs has `parse`, `plain`, `readable` and `host`, and the list of
--     requests with the answers to them. An approved one becomes a grant by `approve` of the
--     access.
--   * crates/connector/src/journal.rs: the events and `append`, in Connector.Access.Store.
--   * crates/connector/src/protocol.rs: its messages and limits stand with what writes them.
--   * crates/server/src/connectors.rs, the connectors that are online, the streams and checks
--     asked of them and what they reported: Server/Connectors/. Server.Connectors.Defs and
--     Server.Connectors.Asks have every operation on `Connectors`, Server.Connectors.Steps their
--     order: each operation is a step, and a wait for an answer is what happens between two steps.
--   * crates/server/src/api/connectors.rs, `checked_state`, what remotehub takes of a report:
--     Server.Reports. Its input is what Connector.Agent.Report gives.
--   * crates/directory/src/sid.rs, the identifiers by which remotehub stores the users and groups
--     of a directory: Directory.Sid.
--   * crates/totp/src/lib.rs, codes of one-time passwords: Totp has `code`, `step` and `code_at`,
--     Totp.Link `Params::parse`, `decode` and `uri`.
--   * crates/vault/src: Vault has `seal`, `open` (`open_sealed`) and `rewrap`, Vault.Keyring the
--     master keys of a file (keyring.rs), which it gives to them as their key provider.
--   * crates/server/src/session.rs, who is signed in: Server/Sessions/. Server.Sessions has the
--     table of sessions and each query on it, Server.Sessions.Active input into a connection,
--     Server.Sessions.Cookies the token's way in a request, and Server.Sessions.Requests the
--     extractors of the handlers, with what `confirm` of crates/server/src/api/confirm.rs does to
--     the table.
--   * crates/server/src/second_factor.rs, a user's authenticator app: Server.SecondFactor, by
--     `step` of Totp.
--   * crates/server/src/api/requests.rs, access for a while: Server.Approvals asks the catalog
--     (`may_request`, `may_approve`) and adds to its grants; Server.Approvals.Decisions has
--     `decide` and `cancel`.
--   * crates/gateway/src/guacamole.rs, the instructions to and from guacd: Gateway.Guacamole.Defs
--     has `encode`, `scan`, the parser's `push`, `next_instruction` and `take_complete`, and what
--     a browser may send.
--
-- Base/ has what the parts share: lists, maps, texts as lists of characters and as bytes in UTF-8,
-- decimal numbers, bits, a stable sort.
--
-- State: an operation on the connector's files is a function from the data directory to its
-- outcome and the directory after it; an argument says which reads and writes work and what the
-- clock says. A round of `follow` takes one such argument for each step of it. A loop over a list
-- is recursion on the list. The clock that is read for each of several addresses or connections is
-- a function from the address's place or the connection's id. `Connectors` keeps its counters in
-- 64 bits; a channel is a number, of which each new one takes the next. The loop of
-- `Catalog::path` recurses on a number of rounds, two more than the catalog has folders and
-- collections, which is enough since a round but the last two needs a container with an entry that
-- was not seen. `take_complete` looks for at most one instruction more than the buffer has bytes,
-- and each has bytes; `scan` reads at most 128 elements, after which it fails. A point in time is
-- a number, of seconds in the catalog (an integer), the sessions and the approvals, and of
-- nanoseconds in the connector. A table of the database is the list of its rows, a query a
-- function of it, and a transaction that fails leaves it as it was; that a primary key is unique
-- is a hypothesis where it matters. Where one-time codes would make the program panic, a
-- definition is `none`. A hash map is an association list: nothing that is proved depends on its
-- order.
--
-- Parameters, since their code is not in the repository: `str::to_lowercase` (the tables of
-- Unicode), the resolution of host names, the comparison of addresses and host names, how a `Uuid`
-- is written, what JSON reads as, whether a text is an IP address, how a point in time and a
-- status are written, what a name lookup gives, and what a post to remotehub gives. How an address
-- is read and written is in the repository, rests on the text form that the standard library gives
-- an address, and is a parameter too. So are the message authentication code of the one-time
-- codes, base32, base64, the hash of a session's token, the cipher of the vault, and random bytes,
-- which are arguments. Theorems on codes say in a hypothesis that a digest has at least 20 bytes,
-- those on the vault that the cipher decrypts what it encrypted, or refuses it with other
-- associated data; each is shown to be possible by a function that does so. Where a theorem is
-- about reports, it says in a hypothesis that both sides write a point in time the same way; the
-- other parameters carry no hypotheses. The theorems on access hold whatever a range contains;
-- what it does contain is `contains_ip` of Connector.Network, by which the tests of the access
-- run.
--
-- Not modelled: the HTTP API around the handlers named above, the loading of the catalog from the
-- database, the audit log, sockets and TLS of the connection between connector and server and the
-- copying of bytes over it, the connector's own pages and users, the web front end, the gateway's
-- SSH and RDP, the queries to a directory, security keys, and the escrow of master keys, whose
-- cryptography is a library's.
pub mod Base
pub mod Catalog
pub mod Connector
pub mod Directory
pub mod Gateway
pub mod Server
pub mod Totp
pub mod Vault
