-- ===== src/Lib.antt =====
-- A verification library for zts-airdrop, the command that scans a range of Zenon momentums for
-- active addresses and sends each of them the same amount of a token.
--
-- The program's parts, and the files that model them:
--   amount.go    Amount: ParseAmount and FormatAmount (parse_amount, format_amount).
--   airdrop.go   Airdrop: Airdrop.Run over an abstract state (run, run_loop, visit, pay,
--                on_success, on_failure), its Report, short and width.
--   journal.go   Journal: RunKey, OpenJournal, Paid and Record (run_key, open_journal, paid,
--                record_payment).
--   rpc.go       Ledger holds its types, Rpc its calls over World (post, call and one function
--                per method).
--   send.go      Sender: NewSender, Send, Receive, frontier and payPlasma; Sender/Receiving:
--                ReceiveAll; Sender/Waiting: the end of the wait for the frontier.
--   scan.go      Scan: Scan, scanBatch and ResolveRange (scan, scan_loop, fetch, add, range_at).
--   scanlog.go   ScanLog: the log's records, AddressDigest, NewScanLog, SetFilter, Filename,
--                reproduceCommand and ReadScanLog; ScanLog/Write: Write, as the states of its
--                directory.
--   replay.go    Replay: replayList and the amount of a replay (replay_list, replay_amount);
--                Main/Resend: replayScan.
--   plan.go      Plan: planAndSend, in the stages collect, afford, conclude and send_out.
--   main.go      Options: the flags' values; Main: keySource, the filters, rangeNamedBy and the
--                exit code; Main/Shell: what the commands share; Main/Verify: verifyScan;
--                Main/Fresh: run.
--   env.go       Env: LoadDotEnv and ApplyEnvDefaults.
--   wallet.go    Wallet: LoadKey and ReadMnemonicFile.
-- Shared by all: Base (tests, lists, results, integers), Text and Decimal (what the program uses
-- of Go's strings and of big.Int's text), Effect (a state monad with errors), Sort (sort.Strings
-- and sort.Slice by text), and Zenon and World (the parameters below). Examples holds tests
-- and runs at concrete inputs.
--
-- How they interact: a run asks for each recipient whether the journal named it, sends through the
-- Sender, which asks the node by the client for the frontier and publishes a signed block, and
-- records the payment before the next send. The run takes these three as a Desk, a record of
-- operations over any state; what the theorems need of them is the record Watch of Airdrop/Trace,
-- and Airdrop/Paying fills it with the sender and the journal over World.
-- A scan reads the client as a Feed in the same way, and what the theorems need of the node is the
-- record IsFaithful of Scan/Batches. A replay takes its recipients from a saved log. The stage
-- planAndSend is over a Session, the world with the scan log of the run; a command is the scan, the
-- filters and that stage, or the replay, or the verification. What Paid reads is the record
-- IsReadable of Plan/Stages, which one call leaves to the next.
--
-- Parameters. Zenon stands for go-zenon's common/types (addresses, hashes, token standards, their
-- text) and SHA-256 with its hexadecimal text. Host stands for HTTP and the node, the clock, the
-- context, the disk, encoding/json at the types that the program decodes, and go-zenon's wallet,
-- block hashing and proof of work. Shell adds what the commands use of the process: other files than
-- the journal, the environment, key derivation (Wallet), the node that the client is bound to, and
-- which paths name the journal's file: -out at such a path overwrites it, so the theorems on whole
-- commands assume another one. The scan log that run writes when it returns is ScanLog/Write, on a
-- directory of its own.
--
-- Bounds. Texts are ASCII bytes, so TrimSpace trims ASCII white space. A big.Int is an integer of
-- any size. Heights and request numbers wrap at 2 ^ 64. The loop of frontier has fuel for 182
-- rounds, which is FrontierWait in steps of half a second and two more; running out of it is an error
-- of its own, so no theorem takes it for a result. The loop of width has its
-- argument as fuel, and the loop of Scan two more than the distance of its ends, since each round
-- but the last advances. A negative limit of failures in a row is written 0, since the code treats both
-- alike.
--
-- The loop of ReceiveAll has its fuel as an argument, since nothing bounds what a node lists as
-- pending; its theorems hold for any.
--
-- Not modelled: progress output, eta and printed lines, the flag set of the standard library and the
-- usage text, and Journal.Close, which flushes a buffer that Record leaves empty.
pub mod Airdrop
pub mod Amount
pub mod Base
pub mod Decimal
pub mod Effect
pub mod Env
pub mod Examples
pub mod Journal
pub mod Ledger
pub mod Main
pub mod Options
pub mod Plan
pub mod Replay
pub mod Rpc
pub mod Scan
pub mod ScanLog
pub mod Sender
pub mod Sort
pub mod Text
pub mod Wallet
pub mod World
pub mod Zenon
