-- ===== src/Lib.antt =====
-- A verification library for go-uspclient, the client of the LimaCharlie USP proxy.
--
-- The program. A `Client` (client.go) numbers the messages that its users ship and keeps them in an
-- `AckBuffer` (ack_buffer.go) until the proxy acknowledges them. A sender takes the next message
-- from the buffer; a listener turns the proxy's control messages into acknowledgements and changes
-- of the window; after a reconnection everything that is not acknowledged is delivered again. A
-- `ByteBudget` (byte_budget.go) bounds the bytes that several buffers hold together, and may share
-- them fairly between groups. Receipts (receipt.go) let a caller observe what became of a message.
-- `Event` (event.go) is the flag with timeouts that the sender waits on. The package protocol holds
-- the messages and the descriptors that a client declares.
--
-- The files.
--   Base            numbers, words, lists and tests that the others share
--   Event           event.go; Waiting has the proofs
--   Protocol        protocol/messages.go, protocol/mapping.go, protocol/indexing.go,
--                   protocol/auth.go; Decoding is `MappingDescriptor.UnmarshalJSON`
--   Size            the size estimate of byte_budget.go
--   Budget          byte_budget.go: State (data, registration), Account (shares, charges, releases),
--                   GroupHeap (the heap of blocked groups), Schedule (the scheduler), Reserve
--                   (`reserveFor`, `cancel`, `releaseFor`); then the proofs: Ungrouped (the budget
--                   without groups), Fair and Ledger (admission and the books of the fair one),
--                   Relinked, Paying, Rounds and Settling (the scheduler's loop), Registering
--   Buffer          ack_buffer.go and the parts of receipt.go that run under its lock: State, Retire
--                   (removal of a prefix, retirement), Admit (`tryAddWithReceiptLocked`), Deliver
--                   (`Ack`, `GetNextToDeliver`, `ResetDelivery`), Control (`Close`, `drain`,
--                   `UpdateCapacity`, `GetUnAcked`); then the proofs: Window and Chain (numbering of
--                   slots and receipts), Valid (the invariant and its preservation), Run (sequences
--                   of operations), Acks, Delivery, Handed, Admission, Finality,
--                   Counts, Limits, Limited, Stopped and Detached; Log (an append-only log, which the buffer
--                   implements) with Cut, Cutting and Refining; Wakeups, Waking and Retrying
--                   (the wake channel); Asking, Staying, Flagged and Guarantee (who waits for bytes);
--                   Listing and Reported (the error of `drain`). Blocking is a round of
--                   `addWithReceipt` and the accessors
--   Client          client.go and the lock-free parts of receipt.go: State, Receipts (the owner of
--                   receipts, `ObserveReceipt`), Control (`processControlMessage`, `Reconnect` up to
--                   its goroutine), Threads (`Close`, `disconnect`, `connectBeforeWorkers` and the
--                   goroutine of `Reconnect`), Workers (`listener`, `sender`, `keepAliveSender`),
--                   System (a client with its goroutines, and their moves); then the proofs: Turns,
--                   Exclusion, Closing and Shutdown (locks, ownership, `Close`), Keeping, Threading
--                   and Sound (what the operations on the buffer keep, schedules keep), Final,
--                   Ending, Observing, Timely and Settled (receipts), Looping and Hang (a `Close`
--                   that waits for ever), Throttle (the wait of the sender).
--                   Beside them: Options and Accepting (`Validate`), Starting and Passing (the tests
--                   of `NewClient`, the header), Dial and Tunnel (the dial and the proxy),
--                   Connect, Connecting, Create and Creation (`NewClient` with its first connection),
--                   Api and Draining (the other calls on a client)
--
-- How code becomes definitions. A method that holds a lock is a function from the state of its
-- object to the new state, its results beside it; concurrent callers take turns, so a sequence of
-- operations stands for any interleaving of them. A `uint64` is a number below 2 ^ 64 with the wrap
-- written out (`add64`, `sub64`, `mul64`). A pointer into a shared structure is a position in a
-- store or the number of a receipt's cell; a channel is a number, and a closed one is listed. The
-- budget of a buffer is the state that its pointer leads to. A nil error or message is `none`. Maps
-- that are only tested for keys are lists of keys. A function's Go name is its name here in snake
-- case; a loop or a branch that has a name of its own is named for what it does.
--
-- Goroutines. A goroutine of the client is a program counter between its accesses to shared state,
-- and `advance` or `proceed` its next step; a schedule is a list of moves of threads, workers,
-- callers and the proxy, in any order. What the network, a timer or a context answers comes with the
-- move. A step that cannot be taken, as at a lock that is held, changes nothing. A read may still give
-- a message once the socket is closed, since its reader is buffered. While `NewClient` gives a client
-- up, the goroutine that its first answer may have started takes any steps (`turns`). The budget of the
-- client's buffer is changed by its own steps only.
--
-- Loops. Loops over indexes and lists are structural. Three run on fuel: `deliver_loop` on one more
-- than the number of slots behind the delivery index; `rounds` of the scheduler on one more than
-- what the queued waiters still want, since a round that goes on charges at least one byte of it;
-- and the loops `up` and `down` of container/heap on the length of the array, since they follow one
-- path of the tree. `promote` and `first_eligible` take one element off a list in each round.
--
-- Not modelled: the websocket, TLS, JSON and msgpack packages; logging, callbacks and the texts of
-- errors; the SDK that finds the datacenter, whose answers are parameters of `create`; the header of
-- the tunnel's request and the certificates of its dialer. Connect and Dial stand beside the
-- schedules: there the dial, the header and the read of the answer are one step that fails or gives
-- an answer, and the client is connected at first. Test sink mode counts in `create`, in the calls
-- of Api and in `ShipWithReceiptOptions`. An error of closing a socket is taken as nil. All errors of sockets and
-- encoders are one, `io_failed`. Memory limits are taken as those of Go: a window is below 2 ^ 63,
-- since `make` panics for a longer slice.
pub mod Base
pub mod Event
pub mod Protocol
pub mod Size
pub mod Budget
pub mod Buffer
pub mod Client
