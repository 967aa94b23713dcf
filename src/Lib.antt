-- ===== src/Lib.antt =====
-- The armored witness applet: its storage, journals in slots of a block device, and the persistence of
-- the witness's checkpoints in them; its keys; its network; the update of its firmware; and its start.
--
-- The witness stores the last checkpoint of each log (trusted_applet/internal/storage/persistence.go).
-- Slot 0 of a partition holds a directory, from log ID to slot; each other slot holds the checkpoint
-- of one log. A slot (trusted_applet/internal/storage/slots/slots.go) is a register with a version:
-- Read gives the data and a token, and CheckAndWrite writes only where the token is the current one.
-- Behind a slot is a journal (slots/journal.go): Update writes a record with the next revision
-- behind the last, or at the start where it does not fit, and OpenJournal scans for the last one.
-- The journal reads and writes blocks of a device (the interface BlockReaderWriter).
--
-- At its start (main of trusted_applet/main.go) the applet asks the operating system for its status,
-- derives its keys (key.go), starts the network (net.go) and opens the storage. Under a lease of the
-- DHCP client, runWithNetworking waits for the clock (runNTP), starts the loop that looks for firmware
-- (updateChecker, update.go), opens its ports and runs the witness, until the lease ends.
--
-- Prelude: Boolean tests, lists, the big-endian numbers of encoding/binary, and texts, which are
--   lists of characters (Strings, with the verb %d of fmt).
-- Result: what a function returns: a value, an error, a panic. One error stands for each message.
-- Device: BlockReaderWriter as functions of the storage's state (block_size, read_blocks,
--   write_blocks); Device/Laws is what the journal relies on of it: the contract that its comments
--   document, and that the device pads a write of no whole number of blocks.
-- Journal: BlockReader (blockReader, io.ReadFull), Record (marshalEntry, unmarshalEntry), Open
--   (OpenJournal, init) and Update (Data, Update). The modules beside them are about the reader
--   (Filling, Reading), a record that is read back (RoundTrip, Layout), the place of a record
--   (Space), Update (Updating), the scan (Chain, Reopen, Blank), a restart after a write (Durable)
--   and after a failed one (Recovery), and a record that was torn (Torn).
-- MemDev: trusted_applet/internal/storage/testonly/memdev.go.
-- Mmc: trusted_applet/internal/storage/mmc/internal.go, over the system calls (System); Mmc/Writes
--   states what the calls promise, and is about a write, Reads about a read, and Transfers about
--   both. The addresses of blocks are below 2^31, so that `int(lba)` is the address.
-- Slot, Slots: Slot, and Geometry, OpenPartition, Partition of slots.go. A method of a slot takes
--   the storage and the slot, and returns both. A pointer to a slot is its index. Slot/Settled says
--   what a restart finds in a slot, Slot/Reopened what CheckAndWrite does to it and to the other
--   slots; Slots/LaidAgain is the partition of a restart.
-- Persistence: SlotPersistence. Directory has Init, populateMap, storeDirectory, addLog and logSlot;
--   Checkpoints has Latest and Update. A method is a function of the persistence and the storage,
--   and returns both on an error, too. Stored is about the directory that is read back,
--   Restart about Init and Latest from storage alone, Served about a log that has its slot, and
--   Durable about a restart after an Update, also one whose write was torn. Blank is about a slot
--   whose blocks hold no record, Empty about Init of a device that holds nothing, Assigned, Taken
--   and Created about the first call for a log, and Recovered about a log after a restart.
-- Updater: Client of trusted_applet/internal/update/rpc/update_client.go, and Bundle of
--   trusted_applet/internal/firmware/bundle.go. The system call is a parameter; it may not return.
-- Startup: openStorage of trusted_applet/main.go.
-- Keys: trusted_applet/key.go, with the diversifiers (Separation), the notes (Notes), and the keys
--   under another counter (Stable). The package's variables are a record, Identity.
-- Firmware: trusted_applet/update.go: updater (Configuring), Verify (Verifying) and readHTTP (Fetching).
--   `updater` returns the parameters, too, since it writes to them.
-- Checker: updateChecker of main.go. Step is what its goroutines, a request and the context do, one
--   at a time; on_trigger is a round of the loop. Running is about the states that it comes to,
--   Draining about the triggers, and Counting about the counters.
-- Frames: rx, tx, rxFromEth and WriteNotify of net.go, and eventHandler (handler.go), over a list of
--   wake-ups, each a function of what the system does while the handler sleeps. Draining is about
--   the loop of a wake-up, Waking about all of them, Delivered about what the network stack is
--   given, and Laws about a frame.
-- Dhcp: runDHCP and configureNetFromDHCP of net.go; Leases has the events of the client as a step
--   relation, and Failing an address that is refused.
-- Clock: runNTP of net.go, with what a round meets as an argument (Attempt).
-- Naming: mac of net.go (Octets), and cleanForDNS of main.go (Clean).
-- Networking: startNetworking of net.go.
-- Serving: runWithNetworking of main.go, as the list of what it does under what it meets
--   (Conditions); Ports is about the listeners. Also what its handlers answer, and the loop of main
--   without DHCP (Rounds).
-- Boot: main of main.go, up to the DHCP client; Ready is about its end, and Reports about the calls
--   of the operating system that main makes itself (Call).
-- Tests: concrete runs.
--
-- Numbers: the applet is built for 32 bits (GOARCH=arm), so each operation on `uint` wraps at 2^32.
-- Fuel: the scan of `init` has as much as the journal has blocks, io.ReadFull as much as the bytes to
-- read, the transfers of the MMC device as much as the bytes to move, that of a firmware more than its
-- bytes, openStorage as much as there are slots, and the loop over frames more than those that wait. A
-- round of each loop takes one of them at least.
--
-- Parameters, for code that is not in the repository: SHA-256 (`sha256`), the largest slice that
-- `make` gives (`max_alloc`), YAML and the log ID of the witness library (`Library`), the system calls
-- (`System`, and `Status` for what is read of the status), the device, the primitives of the keys
-- (`Crypto`), the firmware packages (`Packages`, `Updates`), package net/http (`new_request`, `send`), the
-- network stack (`Stack`, `Calls`, `inject`), and the package ntp.
-- Not modelled: the mutexes, which make each method atomic; log messages; the goroutine that blinks
-- the LED; the callback of MemDev; the metrics; the values that the witness library is configured
-- with; the close of fDone where runDHCP ends; the memory layout (mem.go, mem_bee.go), which is
-- constants of the linker; and third_party/dhcp, a copy of another project's client.
pub mod Prelude
pub mod Result
pub mod Device
pub mod Journal
pub mod MemDev
pub mod Slot
pub mod Slots
pub mod Persistence
pub mod Mmc
pub mod Updater
pub mod Startup
pub mod Frames
pub mod Networking
pub mod Serving
pub mod Boot
pub mod Dhcp
pub mod Clock
pub mod Naming
pub mod Checker
pub mod Keys
pub mod Firmware
pub mod Tests
