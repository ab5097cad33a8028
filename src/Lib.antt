-- ===== src/Lib.antt =====
-- A verification of the planning, configuration and agent logic of Laforge.
--
-- Laforge reads layers of configuration (core/base.go, core/mergeable.go), gives every object of a
-- build an ID that is a path (core/metadata.go and the SetID methods), hashes the objects
-- (core/checksum.go), compares the snapshot of a build with the one it persisted and with the
-- revisions on disk, and makes a plan of the differences (core/state.go). The plan is then carried
-- out, vertex by vertex (core/planner.go, core/generic_job.go), and on the provisioned hosts an agent
-- runs the steps that it is given (agent). The snapshot itself is built by goroutines that walk an
-- environment and its teams (core/snapshot.go), which are created from the environment's networks and
-- hosts or are read back and linked to each other (core/base.go).
--
-- Which file models which part:
--   Base            tests, lists, sorting, equality, and Go's maps as association lists
--   Checksum        ChecksumList.Hash of core/checksum.go; sum64 is xxhash
--   Metadata        TypeByPath, IsGlobalType and GetTeamIDFromPath of core/metadata.go; Metadata/GoPath has
--                   the functions of Go's path package that they call, Metadata/Ids the methods SetID and
--                   ParentLaforgeID of core/build.go, core/team.go, core/provisioned_network.go,
--                   core/provisioned_host.go, core/connection.go and core/provisioning_step.go
--   Revision        core/revision.go, and ToRevision of core/metadata.go
--   Delta           the methods of core/state.go on revisions and snapshots before CalculateDelta
--   Planning        CalculateDelta of core/state.go: Planning/Taint finds the changes, Planning/Tasks the
--                   tasks and their order, and Planning/Delta puts them together
--   Execution       PerformInTimeout of core/generic_job.go (Execution/Attempts), Orchestrator and
--                   WriteRevisionFile of core/planner.go (Execution/Orchestrator)
--   Terraform       CalculateTerraformNeeds of core/planner.go
--   Build           how a build is populated: the Create methods of core/build.go, core/team.go,
--                   core/provisioned_network.go and core/provisioned_host.go, and LocateProvisionedHost
--   Snapshot        core/snapshot.go: the store, the graph and their buses; Snapshot/Builder has the
--                   goroutines of NewSnapshotFromEnv as a step relation, Snapshot/Walk what the walkers
--                   send, and Snapshot/Library what is used of terraform's dag and of golang-set
--   Included        ResolveIncludedNetworks of core/environment.go
--   Index           IndexBuildDependencies to IndexProvisioningStepDependencies of core/base.go
--   Relationship    core/graph/relationship.go
--   Host            Index, CalcIP, IPv42Int and Int2IPv4 of core/host.go
--   Config          SmartMerge of core/mergeable.go, Stack of core/caller.go and Mask of core/base.go
--                   (Config/Layers), with Update; the contexts of core/base.go (Config/Context)
--   Agent           agent/step.go, agent/state.go and the loop of agent/worker.go
--   Examples        the theorems at concrete inputs
--
-- IDs are lists of the elements between slashes. Maps are association lists; where `range` meets their
-- entries in an order that Go leaves open, a theorem for all lists is one for all orders. An error is
-- a value, and so is a panic. Times are natural numbers of nanoseconds. Terraform's graph is the
-- record Planning.Dag.Dag, whose walks list the calls of their callbacks; its concurrent walks are
-- taken one callback after the other. The goroutines that build a snapshot are interleaved in every
-- order that their channels and the wait group allow; the mutex makes each receive with what follows
-- it one step, and a send waits for room in its channel. mergo's merge, the hash of a dependency,
-- the formatting of numbers, the outcome of a command, and in Included that of the indexing of a
-- host are parameters or inputs. Of the transitive reduction of a graph only its documented laws
-- are used: it keeps the vertices, adds no edge and, where there are no cycles, leads where the
-- graph led.
--
-- Loops over data are structural recursion. The two loops that need not end, that of the agent's
-- worker and that of PerformInTimeout, run on the list of what the outside does in each round, and
-- are still running, or waiting, when it is used up; no bound on the number of rounds is chosen.
-- When a timeout comes is part of that list, and not tied to the time that the other rounds take.
-- The walks of Relationship and their searches run on fuel: one for each level, so that one more than
-- the maximal depth, or than the rank of the object, is enough.
-- uvarint_bytes has one step for each of the ten bytes that an encoding of 64 bits can have.
--
-- Not modelled: parsing and printing of HCL and JSON, files, databases, SSH and WinRM sessions, the
-- templates, the generated code, and the HTTP service of the agent. The
-- addresses and credentials of connections, the JSON in which snapshots are persisted, the directories of objects, the hashes of the
-- configuration's objects, and the checks of IDs by regular expressions are left out too.
pub mod Base
pub mod Checksum
pub mod Metadata
pub mod Agent
pub mod Revision
pub mod Delta
pub mod Planning
pub mod Execution
pub mod Terraform
pub mod Index
pub mod Relationship
pub mod Included
pub mod Host
pub mod Build
pub mod Snapshot
pub mod Config
pub mod Examples
