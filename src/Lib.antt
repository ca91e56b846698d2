-- ===== src/Lib.antt =====
-- Verification library of the infrastructure platform: a control plane and agents, written in Go,
-- that manage networks, machines, load balancers and identities on a set of hosts.
--
-- The parts of the program that are modelled, and how they meet:
--
-- - Prelude: Go's `(value, error)` results (Results), calls that change a state and may fail (Exec),
--   maps with text keys (Dict), signed integers (Int), lists, and Boolean tests.
-- - Resource (internal/domain/resource): finalizers of the metadata (Meta, from resource.go) and the
--   phase and conditions of a status (Condition, from condition.go).
-- - State (internal/state): the file store over a map of files (file_store.go; Paths is where a key
--   leads), and what a store promises at a key (Contract, store.go).
-- - Registry (internal/registry/registry.go): resources as bytes in a store, with the revision as the
--   token of a compare-and-swap (Writes), and updaters whose reads and swaps interleave (Updates, Progress). It
--   takes any Store of State.Contract, and what it shows needs only the promises there, which the file
--   store keeps (State.Files).
-- - Iam (internal/iam): roles and what they grant (Role, role.go), the chain of scopes from a project
--   up to its organization (Scope, `ScopeChain` of resolve.go), bindings and the effective permissions
--   (Binding, `EffectivePermissions`, and the validation of
--   internal/domain/resource/iam_binding.go), and the authorizer with its copy for one request (Authorizer,
--   `Allowed` and `ForRequest` of authorizer.go). The lookups of parents and the stored bindings are
--   calls over a state, since the copy for a request caches them.
-- - LbProxy (internal/lbproxy): the health of a target (Target) and the smooth weighted round robin
--   over a group (Group), from pool.go; the defaults and the validation of a configuration (Config,
--   from config.go), which decides what groups and listeners there can be.
-- - Scheduler (internal/scheduler/scheduler.go): the choice of a node by a strategy.
-- - MicroVms (internal/controllers/microvm_scheduler.go, with pickNode of scheduler.go): a pass that
--   takes micro-VMs off nodes that are not ready, counts what the nodes have (Sums), picks nodes
--   (Choice) and writes the placements through the Registry (Reconcile, Within).
-- - FunctionPool (internal/functionpool/pool.go): the retirement of a compute that a function owns, 16
--   attempts to update it through the Registry, between whose reads and swaps others may write.
-- - Lease (internal/controllers/lease.go): leader election over the compare-and-swap of the store
--   (internal/state/store.go); Contention is many holders whose reads and swaps interleave.
-- - Device (internal/idp/device.go): the device authorizations that the instances of the identity
--   provider share, and the transactions that read, change and swap them; a change that is run again
--   is a closure, which keeps what an earlier run has left in its variables.
-- - Hypervisor (internal/hypervisor): the serial console (Uart, uart/uart.go), the register window of
--   a virtio device (Transport, virtio/transport.go), the guest's memory (Memory, guestmemory.go), the
--   virtqueue in it (VirtQueue, virtio/queue.go), the windows of the devices (Mmio, mmio.go), and the
--   block device (Blk, virtio/blk.go), the network device (Net, virtio/net.go), the loop in which both
--   answer what a queue holds (Drain), and what is in the memory when a guest is
--   entered (Boot, boot/*.go: page tables, MP table, command line, initrd, memory map, zero page; and
--   Boot.Load, `write` and `loadGuest` of machine.go). Mmio hands an access to the Transport of a
--   device; a VirtQueue takes its size and its rings from the Transport, and reads and writes the
--   Memory; Blk answers the segments of a chain that a VirtQueue hands out.
--
-- Each operation of the source is a function of the same name, in the language's spelling. A function
-- that changes a receiver returns the changed receiver. A mutex makes a call one step, except in
-- Lease, where the steps between two calls of the store are what matters. `Outcome` tells an error
-- from a panic, which in the hypervisor ends the process, as nothing there recovers.
--
-- Bounds. `climb` and `follow` recurse on the rounds that the source allows, 64 scopes
-- (`maxChainDepth`) and 1024 descriptors, `retry` on the 16 attempts of a transaction and
-- `retry_retire` on the 16 of a retirement; running out is the source's own error. The source's
-- loop over a queue has no bound; `drain` has fuel, of which 2^16 rounds are enough for the network
-- device, since the indices of a ring have 16 bits. All other recursion is on the data, or on the
-- count of a loop's rounds. Machine words wrap around where the source's types do; `int` and
-- `int64` values that are small by construction are integers without bound. A time is a number of
-- nanoseconds, read where the source reads the clock, once in a transaction of Device.
--
-- Not modelled: log lines, metrics, the text of error messages beyond its constant part, the
-- decoding of JSON (a lease record is encoded injectively), the network, the kernel, errors of the
-- file system, the lock file of the file store, and what a guest writes to its memory while a
-- device serves a notification. What Go's library says of an IP address, a certificate or a key
-- pair is a parameter of Config, as is lower case. The agent's managers, the rest of the identity
-- provider, the HTTP handlers, the creation of computes for functions, the rest of the controllers
-- and the run loop are not part of the library.
pub mod Prelude
pub mod Resource
pub mod State
pub mod Registry
pub mod FunctionPool
pub mod Iam
pub mod LbProxy
pub mod Scheduler
pub mod MicroVms
pub mod Lease
pub mod Device
pub mod Hypervisor
