-- ===== src/Lib.antt =====
-- serial-sync keeps a library of serial fiction: it reads releases from a provider, routes each to a
-- series, gives each its place in the reading order, and delivers files to publish targets. This
-- library models the parts that decide, and states what makes their decisions right.
--
-- Parts, by file, and the code each models (paths from the repository's root):
--   Base            shared names, lists, texts, errors, sorting, integers; Base/FilePath is Go's
--                   filepath.Join
--   Domain          internal/domain: a record for each struct, a data type for each closed set of
--                   constants (types.go, publication.go, labels.go, authoring.go, sequence.go)
--   Config          internal/config: series, books, overrides and routing rules; RuleSet is
--                   ruleset.go, with the proof of its order in RuleOrder
--   Classify        internal/classify: Select is selectors.go, Content the choice of a release's
--                   content, Explain and Decide the function Explain; FirstRule, Reference,
--                   Conflicts and Override hold the proofs
--   Sequence        internal/sequence: Words, Title and Detect are detect.go, Resolve is
--                   ApplyDetected and Resolve of sequence.go, Index and Labels are series_index.go;
--                   Consistent, WordBounds, Order, Range, Overrides and Stable hold the proofs
--   Publish         internal/publish: Publish/Target is the Target interface of target.go as a record
--                   of functions; Filesystem (with Filesystem/Order for Reorder), Drop and Exec are
--                   its three adapters, as planning asks them. Filesystem/Copy is copyFile, and
--                   Filesystem/Deliver is Deliver and Retire of filesystem.go and drop.go.
--                   Destination, Reorder (with Graph, Ends, Visited, Visits and Sorted below it),
--                   Filesystem/Atomic and Filesystem/Untouched hold the proofs
--   Delivery        internal/app/transitions.go, planDelivery: Candidate is the loop over the
--                   candidates, Retire the loop over the delivered records (with
--                   retirementOwnedHashes of internal/app/replacement.go), Plan puts them together;
--                   Justified, Ownership, Retirement, HandOff and Items hold the proofs. Names is
--                   resolveCollisionNames of replacement.go, which runs before planning, with its
--                   proof in Distinct
--   Delivery        internal/app/delivery.go, executeDelivery: Effects is what it asks of the adapter,
--                   the catalog and the rest, as steps on a state; Outcome is deliveryOutcome,
--                   Deliver the loop over the plan's order (One below it is deliverCandidate), Resume is
--                   deliveryPlan and pendingDelivery of transitions.go, Cleanup its
--                   applyRetirements, and Execute puts them together. FileEffects gives the executor
--                   the adapters of Publish on the files of the state. Below Execute, Respects is
--                   the interface of the operations to a property of the state; Delivered, Planned
--                   and Attempted carry such a property through the code, and Accounted, DryRun
--                   and Foreign (beside Execute) use them; Gated and Live are about the loop's order, and
--                   Saved about the saved plan
--   Volumes         internal/app/volumes.go, planSeriesVolumes: Group collects the chapters of a
--                   series in groups, with proofs in Ranges and Partition, and Check is the check of
--                   one group's chapters against the range of its volume, with its proof in Whole.
--                   Names is VolumeFilename, BookVolumeFilename and slug of internal/artifact, with
--                   its proof in Slug
--   Tests           concrete inputs: a witness for each result, and runs of the definitions
-- Classify routes a release to a series, Sequence reads its number and gives it a place there.
-- A decision of Sequence orders the chapters that a plan of Delivery publishes; Delivery asks a
-- Target for identities, keys and destinations and never for the kind of a target.
--
-- How the code is read. A loop is a recursion on its list, with the loop's variables as arguments;
-- a map that is only tested for keys is a list of texts; a map that is looked up is an association
-- list or a function; a pointer is an Option; a (value, error) pair is a Result, or the pair itself
-- where the code uses the value beside the error. A constant string that names an action or a
-- status is a constructor. An int is a natural number: the numbers of books, ranges and chapters
-- are not negative in a validated configuration nor in a title, and the model agrees with the code
-- while sums stay below 2^63. The priority of a rule is not validated and is an integer. time.Time
-- is the instant as a number. Random ids and clocks, which no decision reads, are left out of the
-- plan of DeliveryPlan; NamedPlan adds the names that a saved plan keeps. An operation of the
-- executor is a step, a function from a state to a state and an answer (Base/Stateful); the disk of
-- Copy keeps every earlier moment, so that a crash between two calls is seen. The adapter that is
-- one object in the code is Run.pt for its id, kind and capabilities, and Effects.target_of for
-- what it reads of the files. The recorder's events change nothing that is modelled and are left
-- out.
--
-- Parameters, for code that the repository does not contain: the SHA-256 of a text, strconv.Quote,
-- the disk, a function from paths to entries as internal/filehash tells them apart, the operating
-- system's answers to the calls of a delivery (Calls in Publish/Filesystem/Copy), json.Marshal, the
-- hook's process, Unicode's case tables, filepath.Match and regexp (Matchers in Base/GoStrings), the
-- submatches of the expressions of detect.go and series_index.go (Expressions in Sequence/Detect,
-- TitleExpressions in Sequence/Index), and textcontent.Count, which counts what an HTML tokenizer
-- leaves of a post. The catalog (internal/store) and the files of saved plans
-- (internal/app/planfiles.go) are the executor's neighbours: Effects in Delivery/Effects is the
-- interface to them, and a theorem that needs something of them says so.
--
-- Fuel: the depth-first visit of Publish/Filesystem/Order takes two more than the number of
-- candidates, since a deeper stack of visits would name an artifact twice and be refused as a cycle.
-- Decimal printing takes one more than the number.
--
-- Not modelled: network, browser automation, SQL, EPUB building, logging and the command line, which
-- are input and output; the exec hook's own delivery, the rest of the volume planner and discovery,
-- which are not reached yet.
pub mod Base
pub mod Domain
pub mod Publish
pub mod Delivery
pub mod Classify
pub mod Config
pub mod Sequence
pub mod Volumes
mod Tests
