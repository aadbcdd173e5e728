-- ===== src/Lib.antt =====
-- vpn-manager: a model of the panel's backend, which manages WireGuard interfaces, their peers, NAT and
-- published ports for a set of users with roles.
--
-- A request passes `middleware/auth.go`, which reads the session token of `auth/auth.go` and loads the
-- user of `models/rbac.go`; a handler of `handlers/` changes the tables, and those of port forwards
-- and interfaces then change the host through `wg/`. All paths are below backend/.
--
-- - Common: Boolean tests on numbers and texts, queries on lists, tables with a primary key.
-- - Text: Go's `strings` and `strconv`, over texts as lists of characters. A number is printed with
--   fuel for 20 digits, which is enough for 64 bits (Text/Decimal).
-- - Http: `dto/common.go`. A reply is a value; Http/Attempt is the chain of early returns of a handler,
--   and Http/Attempt/Ends the rules for what its last step hands on.
-- - Rbac: `models/rbac.go` (Model), the tables behind it (Store), `handlers/rbac_handler.go` (Resolve
--   its helpers, Users and Roles its requests), sequences of requests (Trace), `rbac/catalog.go`
--   (Catalog) and `rbac/seed.go` (Seed). Each request takes the tables and returns its reply with the
--   tables after it; which queries fail is an argument.
-- - Auth: `auth/auth.go` (Token), `middleware/auth.go` (Middleware), `security/password.go` (Password) and
--   `handlers/auth_handler.go` (Login). HMAC, base64 and the JSON codec are the fields of `Codec`,
--   Argon2id is one of `Crypto`.
-- - Wg: `wg/nat.go` (Firewall), `wg/portforward.go` (Forwards), `models/interface.go`, `models/peer.go`
--   (Model), `handlers/ownership.go` (Ownership), `handlers/portforward_handler.go` (Publish),
--   the configurations of `wg/service.go` (Device), `handlers/sync.go` (Sync),
--   `handlers/peer_handler.go` (Peers), `handlers/interface_handler.go` (Interfaces) and the allocation of
--   addresses in `wg/service.go` (Addresses). The state of the host is a parameter with the calls of
--   `Host` and `Kernel`; what iptables documents is `IsIptables` and `Adds`, and Wg/Simulated is a host
--   that has these properties. The search for a free address runs on fuel for every address with that
--   many bytes.
-- - Vpn: `sanitizeInstanceName` (Slug), `secrets/crypto.go` (Secrets), `runtimeexec/executor.go`
--   (Runtime), `openvpn/config.go` and `openvpn/runtime.go` (OpenVpn), `openvpn/operations.go` and
--   `openvpn/manifest_record.go` (OpenVpn.Plans), `openvpn/instance_draft.go` (OpenVpn.Drafts).
--
-- A text that the database or gorm fills in is filled in by the model: primary keys come from
-- sequences, and a column with a default gets it where the value to create is zero.
--
-- Numbers are natural numbers; the offset of a list query keeps its 64 bits. Not modelled: the handlers
-- of OpenVPN and the other protocols, with the registry and the plans of those; the read-only requests
-- of the modelled handlers; timestamps; generated code, the route table and the database driver, which
-- have no logic of the program.

pub mod Common
pub mod Text
pub mod Http
pub mod Rbac
pub mod Auth
pub mod Wg
pub mod Vpn
