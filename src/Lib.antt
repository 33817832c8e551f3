-- ===== src/Lib.antt =====
-- VKodex lets a person drive Codex tasks from a messenger. Several processes share each task: a
-- desktop application with its native queue, a worker that owns the task's backend, and the bridge
-- to the messenger. What keeps them from doing a thing twice, or from losing it, are small durable
-- journals and pure admission rules. This library models those.
--
-- src/codex/homogeneous-queue-policy.ts is QueuePolicy: the state of `HomogeneousStockQueuePolicy`
-- is the record `Policy`, and each method a function of it (`beginObservation` is
-- `begin_observation`, `observe`, `reserveAdd` is `reserve_add`, `recordAddOutcome`,
-- `reserveSettingsChange`, `recordSettingsOutcome`, `changeOwnerEpoch`, `status`). QueuePolicy/Run
-- has the calls in any order. A ticket's object identity, which a `WeakSet` knows, is a number.
-- Json is what the policy reads of a JSON value, and its canonical text.
--
-- src/codex/native-queue-state.ts is QueueState: `classifyNativeQueueState` is `classify`, with one
-- function for each of its loops.
--
-- src/codex/managed-worker-operation-journal.ts is OperationJournal: the two tables are lists of
-- rows in rowid order, each SQL statement is a function on them, and each command (`reserve`,
-- `markUnknown`, `rejectBeforeWrite`, `accept`, `reject`, `reserveSettings`, `markSettingsUnknown`,
-- `noteSettingsAck`, `confirmSettings`) a function of the journal. Identifiers are the text checks
-- that it shares with the registry.
--
-- src/codex/managed-worker-registry.ts is Registry: the ledger is a list of attempts, `transition`
-- and the commands made of it are in Registry/Transitions. What `canonicalHome` makes of a
-- directory, the UUID that is drawn and the time are arguments.
--
-- src/codex/native-stock-queue-journal.ts is StockQueue: one task's rows, its reads, and its writes
-- `reserve`, `markAccepted`, `reconcilePositive`, `markUnknown`, `markNotWritten`, `consume`,
-- `acknowledgePublication`. The runtime's deep equality, the check that a value survives its JSON
-- text and the SHA-256 are the fields of `Runtime`, an argument. A native queue that arrives is
-- classified against the pending and the consumed rows of this journal.
--
-- src/codex/native-cli-resume-policy.ts is ResumePolicy. src/core/turn-coordinator.ts is
-- TurnCoordinator, where the method `run` is the two steps `start` and `finish`, and the function
-- `run` takes the events of a coordinator in any order. src/lib/text.ts is TextChunks, for its
-- `chunkText`. src/bridge/input-batcher.ts is InputBatcher: its calls of the store and of the
-- sender are a list of effects, a timer that fires is a call of `flush`, and the clock and the UUID
-- are arguments.
--
-- src/bridge/store.ts is Bridge, by its tables. Bridge/Inbox is the journal of messages and prompt
-- operations: Inbox/Replay has `receiveInput`, `reserveReplayableInputs`, `claimInput`, the marks,
-- `finishInput` and the input batches that InputBatcher saves, Inbox/Dispatch
-- `beginPromptDispatch`, `recordOperation`, `settlePromptDispatch` and what `recover` does to these
-- tables, Inbox/Run the calls in any order, Inbox/Life the states of one message as a step
-- relation. A sender and a peer are natural numbers, and the bound of a safe integer stands where a
-- request for messages to try again checks it; what the messenger's side gives `receiveInput` may
-- break it, so theorems that need it ask for it. Bridge/Staging is the space of staged files
-- (`reserveStage`, `abandonStageReservation`, `markStageReady`, `markStageRecyclePending`,
-- `markStageRecycled`). Bridge/Owners is `claimManagedOwner`, `managedOwner`,
-- `transitionManagedOwner` and `retireManagedOwner`, Bridge/Identity the process that a row names.
-- Bridge/Handoffs is the mark that a Desktop client was opened for a task (`claimInitialHandoff`,
-- `markDesktopHandoff`, `clearDesktopHandoff`, and the write of `switchTransfer` to it), a task
-- being its `taskKey`. Bridge/Actions is the buttons (`action`, `getAction`, `scopedAction`,
-- `consumeAction`), Bridge/Receipts the receipts of queued operations
-- (`rememberManagedQueueReceipt`, `markManagedQueueReceiptChecked`, `settleManagedQueueReceipt`,
-- `managedQueueReceipt`), where what `managedOperationAuthority` answers is an argument. The size
-- of an input's JSON text, the tests and the normal form of a home that node's `path` gives, the
-- receipts of another table, the UUID and the clock are arguments.
--
-- src/desktop/ipc-client.ts is DesktopIpc, for `FrameDecoder` and `encodeFrame`: a state holds the
-- bytes received so far in place of a buffer with a fill count, and DesktopIpc/Bytes is a decoder
-- of single bytes to compare with. A call of `push` that throws returns no messages, also where its
-- chunk had complete frames. What JSON and UTF-8 make of an object and of bytes are arguments.
--
-- Code that throws gives `err` of an error with one constructor for each message, and the state is
-- then as it was: the policy checks before it changes anything, and the journals roll their
-- transaction back. A string is the list of its UTF-16 code units, so that lengths and order are
-- the runtime's. Numbers that the code bounds by `Number.isSafeInteger` are natural numbers, or
-- integers where they can be negative, with the bound written out. Loops are recursion on a list;
-- those of `chunkText` and `FrameDecoder.push` run on fuel, as much as the text or the chunk is
-- long, since a round takes at least one code unit or byte away. `created_at` and `updated_at` are
-- left out where no statement reads them.
--
-- Not modelled: the opening of SQLite files and their pragmas, the transports, processes and
-- timers, the rendering for the messenger, and the parts of the repository that these components do
-- not reach. The checks that a JavaScript object is plain and has exactly the fields of its type
-- are in the types.
pub mod Prelude
pub mod Json
pub mod QueuePolicy
pub mod QueueState
pub mod Identifiers
pub mod OperationJournal
pub mod StockQueue
pub mod Registry
pub mod TextChunks
pub mod ResumePolicy
pub mod TurnCoordinator
pub mod Bridge
pub mod DesktopIpc
pub mod InputBatcher
pub mod Tests
