-- ===== src/Lib.antt =====
-- passkey makes the phones that are connected to a computer its security key. A daemon
-- (src/daemon.rs) keeps a connection to each phone and a virtual USB key, hands the requests of the
-- host to the phones and answers with what one of them approves. A PAM module (pam/src/lib.rs) lets
-- a login wait for the password and the phone at once: it runs a helper (src/pam_auth.rs) that asks
-- the key for a signature. src/wifi.rs pairs a phone over Wi-Fi, and src/cli.rs sets a computer up.
--
-- The files, by the parts of the program:
--   Base      shared names, tests on numbers, lists, bytes, dictionaries and text
--   Link      `Link` of src/daemon.rs
--   Wire      the frames between the daemon and a phone: `frame`, `decode_response`, `read_link`
--   Daemon    the state `Daemon`, with `write_uhid`, `send_report` and `withdraw`
--   Report    `reply` and `error`, and the constants of CTAPHID
--   Hid       `packet`, `dispatch`, `cancel`, `finish_request`
--   Links     `by_device` and `publish`
--   Uhid      `add`, `remove`, `sync_uhid`, `create_uhid`, `destroy_uhid`, `read_uhid_events`
--   Fan       `fan_out`
--   Cbor      `decode_cbor`, `read_uint`, `silent`
--   Rounds    `handle_cbor` and `chosen_device`
--   Adb       `adb_request`, `adb_devices`, `adb_device_id`, the trust in the adb server
--   Loops     one round of `wifi_loop`, `adb_loop`, `keepalive_loop`, `update_loop`; the calls of BlueZ
--   System    the threads of the daemon beside each other, as a relation between states
--   Token     src/pam_auth.rs: `Device::open`, `Assertion::new`
--   Auth      src/pam_auth.rs: `credentials`, `base64`, `verify`, `run`
--   Pam       pam/src/lib.rs: `authenticate`, `user_registered`, `device_present`
--   Wifi      src/wifi.rs: `Peer`, `endpoint`, `hex`, `unhex`, `connect`; in Wifi/Directory
--             `load_from`, `save`, `remove`
--   Stack     src/cli.rs: `pam_line`, `is_auth`, `is_guard`, `is_ours`, and the lines of `pam_add`
--             and `pam_remove`; in Stack/Service their files, and the loops over the services
--   Registry  src/cli.rs: `root_store`, `root_remove`, `handles_for`, `names_for`, `remove`
--   Client    src/cli.rs: `connected_devices`, `select_connection`, `root_use`, the name that `add` offers
--   Environment  src/cli.rs: `check_environment`, `pam_module_dir`, `package`
--   Adding    src/cli.rs: `add` as a whole, `virtual_device`
--   Command   src/cli.rs: `run`, `wifi_command`, `require_root`
--   Tests     the theorems at concrete inputs
-- A file beside a folder of its name holds the definitions, and the folder the proofs.
--
-- The state of the daemon is one record that each handler takes and returns; what a handler does to
-- the outside is added to the list `done`: writes to the uhid file, messages to phones, requests
-- that start, contents of the state file. A handler runs to its end in one step, although `packet`
-- releases its lock on the way. The thread of a request reads the state when it starts, in
-- `outcome`; at its end `remember`, the test whether the request is current, `respond` and
-- `finish_request` are steps of their own, between which other threads have their turn. A link has
-- a serial number, which stands for the identity of its `Arc`.
--
-- What threads, clocks and sockets do enters as arguments: a `Poll` for each round of `fan_out`, a
-- `Tick` for each round of the PAM module's loop, the bytes that a phone sends, and whether a file
-- can be opened. What libfido2 gives is in the records `Fido`, `Devices` and `Builder`, and how the
-- standard library reads and prints addresses the record `Addresses`. What a ping or an attempt to
-- connect gives is an argument of the round that makes it. A file is its text, with what its
-- metadata says where the code asks for it; files that cannot be read or written are left out,
-- except where they end a command. Numbers are natural numbers, and where the code has a fixed
-- width the reduction is written out.
--
-- Fuel: `rest_packets` takes the length of the message, since each packet takes a byte at least;
-- `read_loop` one more than the number of bytes, since each frame takes five; `assign_channel` two
-- tries after the first, since only two numbers are skipped; `decode_cbor` counts down the levels
-- that the code counts up; `decimal_loop` one more than the number, which has fewer digits;
-- `default_loop` one round more than there are names, since each round that goes on has met
-- another one. The lists of observations are consumed one by one, and `none` says that they were
-- over before the loop.
--
-- Not modelled: the prompts and the terminal, `status`, sudo, systemd, the start of the adb server,
-- the session with BlueZ, TLS, the process of the helper, and signals. They are input and output for
-- the most part.
pub mod Base
pub mod Link
pub mod Wire
pub mod Adb
pub mod Adding
pub mod Daemon
pub mod Report
pub mod Hid
pub mod Links
pub mod Uhid
pub mod Fan
pub mod Cbor
pub mod Rounds
pub mod Auth
pub mod Pam
pub mod Wifi
pub mod Registry
pub mod Client
pub mod Loops
pub mod Environment
pub mod Command
pub mod Stack
pub mod System
pub mod Token
pub mod Tests
