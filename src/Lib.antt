-- ===== src/Lib.antt =====
-- The server of DroidWebDisplay, the program that shows an Android device in
-- a browser.
--
-- The parts and their files. Every path is below droid_web_display/.
--   * auth.py, the PIN, the login throttle and the browser sessions: Auth.
--     The service is the record `Service`, its store file the decoded content
--     that `persist` writes, and each public method one definition by the
--     method's name. `Crypto` stands for hashlib, hmac and the base64 text,
--     with `IsLawful` for what the code relies on, and `Draws` for the values
--     that secrets and uuid4 return.
--   * scrcpy/session.py, the manager of scrcpy sessions: Scrcpy. Options are
--     validated in Options, the server's arguments (scrcpy/command.py) built in
--     Command and read in Understood, the manager's tables are in Manager and its
--     methods in Control. `Step` is one stretch of a coroutine between two
--     awaits, so that `Reach` holds every interleaving of them.
--   * transfers/models.py and transfers/manager.py, the transfer queue:
--     Transfers, with the records in Types, the table in Queue, the
--     operations in Manager, Spool and Browse, and the run of a transfer in
--     Runs and Execute. `Surroundings` answers what a run asks of the device
--     and the disk, a cancellation being an answer that raises. A run is one
--     piece of a history of calls.
--   * transfers/paths.py: Transfers.Paths, Transfers.Filenames and
--     Transfers.Names, on a POSIX host.
--   * transfers/adb_sync.py, the client of the ADB sync protocol: Sync, with
--     the bytes in Wire and the operations in Client. `Link` has the bytes of
--     one connection in each direction; `pull` is on the connection behind
--     its `stat`. `list` takes Python's decoding of names as an argument.
--   * transfers/monitor.py, the watched folders: Monitor. Types has the
--     configuration and the entries, Observe the judgement of one entry, Scan
--     a sweep of either side, Trim the bounds of the tables and Service the
--     rest. `World` is the monitor's memory, its state file and the transfer
--     manager; `Outside` answers what a scan asks of the device and the disk.
--     Fingerprints are records of their three parts. A scan is one piece:
--     clear_history between its parts is left out.
--   * network_access.py: Network. Config has the configuration with its JSON
--     form, Policy the tests of clients, hosts and origins, Store the file of
--     the configuration, Firewall the PowerShell command, Certificates the two
--     certificate files and Interfaces the adapters. `Ipaddress`, `X509` and
--     `Conversions` answer for the libraries.
--   * the readers and channels of scrcpy/session.py, and
--     websocket/channels.py: Relay. Stream has what is asked of a reader of
--     bytes, Prefixed the reader with bytes in front of another, Media and
--     Control the relays of media and of control bytes and Channel the claims of
--     a channel. `Reader` and `Sending` answer for asyncio and the web socket.
--     A turn of a control relay's task goes up to its next await.
--   * Common has the tests, lists, tables and error results they share.
--
-- What is taken as given. Time is whole milliseconds, in auth.py microseconds
-- and for certificates seconds, and a call reads the clock once, a certificate's issue twice. A
-- file is replaced at once or not at all, and the environment says whether it
-- can be written. An object is a row of a table under its own identifier, so a
-- change of the object is an update of the row. Texts are lowered as
-- ASCII is. Whole numbers that the code keeps at zero or more are natural
-- numbers.
--
-- Bounds. Recursion is on the structure of lists and texts. The loops over
-- the bytes of a connection have as fuel their number, and each turn takes
-- four or more; the relay's loop has more turns than there are bytes, and each
-- takes one or more; the search for a free file name has the 9999 turns of
-- the code.
--
-- Not modelled: the sockets and subprocesses below the ADB client, the HTTP
-- routes, the desktop window, the release and update tooling, and the browser
-- client. They hand values to the parts above or take values from them.

pub mod Common
pub mod Auth
pub mod Scrcpy
pub mod Transfers
pub mod Sync
pub mod Monitor
pub mod Network
pub mod Relay
