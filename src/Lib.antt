-- ===== src/Lib.antt =====
-- wa_logger: a server that logs the messages and calls of WhatsApp accounts. One worker process per user
-- (tenant) drives a browser with WhatsApp Web; a gateway is the only process on the network and relays
-- each request to the worker of its user; a supervisor starts, restarts and stops all of them.
--
-- The parts that are modelled, and where (paths are from the root of the repository):
--
-- Base            what the modules share: numbers, lists, Boolean tests, `Map` of JavaScript as a list of
--                 entries in the order of first insertion (JsMap), and AppError and Errors of
--                 server/src/errors.ts without their messages. A handler that may throw returns Result,
--                 or Option where only success matters.
-- Auth.Throttle   server/src/auth/throttle.ts: begin, success and prune. The row of the account that
--                 getAuthLock reads is the optional field `lock`.
--                 Locks, Rate, Address and Runs hold the theorems on locks, on guessing, on single
--                 addresses, and on many attempts in a row.
-- Auth            the rest of server/src/auth: Store holds the rows of server/src/db/repo.ts that signing in
--                 uses, Totp is totp.ts, Sessions sessions.ts with the wrapping of private keys, Keys is
--                 server/src/crypto/password.ts and the sealing of keyring.ts. Routes is routes.ts: its
--                 children Login, Account, Recovery and Factor are the handlers, split where they wait for
--                 scrypt, so that a handler sees the store as others left it meanwhile; Accepted, Refused
--                 and Unlocked hold the theorems. What Node and Unicode give is the parameter Kit; random
--                 values are arguments.
-- Crypto          server/src/crypto/stream.ts: the encrypted media files, byte for byte. Gcm is the
--                 cipher of node:crypto as an interface with the law that opening inverts sealing;
--                 Bytes are the number formats; Media is MediaFileWriter, openMediaFile, decryptRange
--                 and decryptAll, with the file system as the two files of a writer. The children of
--                 Media are the layout of a file, the writer, the reader, and what they do together.
-- Calls           server/src/wa/calls.ts: Types is the data, Bridge the current call and the streams,
--                 Service what the page reports, Clients what clients ask for. Handlers that wait for
--                 the page are two functions, before and behind the wait. Effects on the outside are
--                 appended to `out`. The clock, the block list, the settings and the repository are
--                 the parameter Env. Lifecycle, Reports, Losses, Streams, Latest and Hourly hold the theorems.
--                 Mixer is the audio of server/src/wa/recfmt.ts, with integers of its own; Queue, Waiting and
--                 Clock hold its theorems.
-- Supervisor      server/src/supervisor/supervisor.ts: Model has a step for every event: requests, exits
--                 of processes, restart timers, shutdown. Worker objects are kept in a store by number,
--                 since their listeners and timers outlive their entry in the map. Workers, Processes,
--                 Endings, Fates and Shutdown hold the theorems.
-- Http.Zip        server/src/http/zip.ts: the archive as bytes; Archive is a reader written from the
--                 format, Reading compares the two.
-- Web.Ogg         web/src/lib/ogg.ts: Opus packets in Ogg pages, byte for byte, with the checksum of Ogg;
--                 Pages has a reader written from the format, Checksum the reader's own checksum.
-- Front           the gateway, server/src/front: Rows is db.ts (users, listeners, audit entries as lists),
--                 Config is parsePortList of config.ts, Headers upstreamHeaders of proxy.ts, Gateway and
--                 Forward are gateway.ts (who a request belongs to, forwardApi, onUpgrade), Admin is admin.ts
--                 with listeners.ts. decodeURIComponent, the parsing of addresses and what workers, pool and
--                 network answer are parameters. Base.Text is text as code units.
--
-- Numbers are natural numbers; times are milliseconds. Where the source subtracts, the model only
-- subtracts what is not larger or says what happens. Fields of 16 and 32 bits are written byte by byte, with
-- the range that the writer checks. Four loops run on fuel: MediaFileWriter.write, whose rounds are fewer
-- than the bytes that are pending (each takes a whole chunk, which is not empty), the printing of
-- decimals, whose digits are fewer than the number plus one, the segments of a packet (fewer than its bytes
-- plus one), and the pages of a stream, which are no more than its packets. The other loops are recursion on their list.
--
-- Not modelled: node:crypto, node:zlib, processes, sockets, files beyond their bytes, SQL, the scripts that
-- run in the page, the user interfaces, and the parts in other languages. The
-- CallRecorder of server/src/wa/recorder.ts, the intake of messages, the rest of server/src/db/repo.ts and the
-- other parts of the server are not modelled either.
pub mod Base
pub mod Auth
pub mod Crypto
pub mod Calls
pub mod Supervisor
pub mod Http
pub mod Web
pub mod Front
