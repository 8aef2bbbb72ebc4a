-- ===== src/Lib.antt =====
-- A verification library for bufferpool, a byte-buffer pool in Go.
--
-- A request or a returned buffer is classified by the class table. A class has a budget, divided
-- among its shards as credits. A shard guards a bucket, a stack of retained buffers in segments, by a
-- mutex: it counts what it does, and asks its credit before it keeps a buffer.
--
--   Base         shared names, lists, results, and Go's integers. An int whose sign is tested is an
--                integer of Base.Int; a uint64 is a natural number, with the wrap-around or the
--                overflow test written out. Base.Words has the saturating helpers of pool_classes.go
--   Panic        the panics, one constructor for each
--   Size         size.go, class_size.go: sizes and class sizes
--   ClassTable   class.go, class_table.go: the size classes and the three lookups. sort.Search is a
--                parameter: what is assumed of it is its documentation (ClassTable.Search)
--   Slice        Go's byte slices as views of memory; zeroBufferCapacity of pool_admission.go
--   Segment      bucket_segment.go: newBucketSegment, clearOccupiedSlots and the checks of a slot
--   Bucket       bucket.go, bucket_trim.go: the bucket's state and helpers; Bucket.Ops has push, pop,
--                trimBounded and clear. The chain of segments is a list, the head first
--   Generation   generation.go, with the publication loop of shard_credit.go and class_budget.go and
--                budgetPublicationGeneration of budget_allocation.go; Generation.Race runs that loop
--                by many callers in any interleaving
--   ShardCredit  shard_credit.go: limits, publication, evaluateRetain, remaining and overage
--   ClassBudget  class_budget.go: class targets and their division among shards
--   Atomic       internal/atomicx/counters.go: counters that wrap and gauges that panic
--   BudgetAllocation  budget_allocation.go: a parent's bytes divided among children. The module has
--                phase 1 and the reduction, Share the weights and the distribution, Allocate the
--                whole. A child's score is a float, of which an input carries the integer weight. The
--                loops run on fuel, one more than the total or the remainder: a pass takes at least
--                a byte, and the theorems say that this is enough
--   Lifecycle    lifecycle.go: the states, the transition table and the operations' loops, which
--                Lifecycle.Race runs by many callers in any interleaving
--   Mathx        internal/mathx/pow2.go and clamp.go: NextPowerOfTwo, and Clamp at int
--   Policy       policy.go: the records of a policy. Report has the validation errors, a combined error
--                as the list of its messages; Sections and Behaviour the validation of each section,
--                and Validate that of a whole policy (policy_validate.go); Shape the sections that
--                pools are built from and may update; Defaults and Profiles the default and the named
--                policies (policy_defaults.go, profiles.go), where GOMAXPROCS is an argument
--   ShardSelection  shard_selection.go: the choice of a shard. What a selector answers is an argument
--   ClassState   class_state.go, class_counters.go, class_admission.go: the shards of a class. Get has
--                the gets with fallback, and Run any run of the operations
--   Lease        lease*.go and ownership*.go: a registry of the buffers that are checked out. Ownership
--                has the checks, Counters the counters, Registry and Release the operations, Reach
--                any run of them, and Ledger what a run looks like to clients. What a pool answers is an
--                argument
--   Shard        shard.go, shard_counters.go: the operations under the lock, and any run of them
--
-- Code that changes state is a function from the state to the new state and the reply; code that
-- panics returns an error that names the panic. Other loops are structural recursion over their list,
-- or over the number of rounds that the source's loop condition allows, so that no fuel can run out.
-- A definition of a module is named as in the source, in snake case.
--
-- A run of a lease registry has whole acquisitions as its steps: the choice of an id and the
-- registration are not taken apart, so that no close comes between them.
--
-- Not modelled: the control plane above the class budgets (partitions, groups, scores in floating
-- point), lease snapshots, updates of a policy, the pool above its classes, snapshots and metrics, and
-- readers of several atomics during a publication.
pub mod Base
pub mod Mathx
pub mod Panic
pub mod Size
pub mod ClassTable
pub mod Slice
pub mod Segment
pub mod Bucket
pub mod Generation
pub mod ShardCredit
pub mod ClassBudget
pub mod Atomic
pub mod BudgetAllocation
pub mod Lease
pub mod Lifecycle
pub mod Policy
pub mod Shard
pub mod ShardSelection
pub mod ClassState
