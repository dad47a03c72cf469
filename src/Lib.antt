-- ===== src/Lib.antt =====
-- The economy of the playerbots module: the material commitment book and the coordinator.
--
-- The module lets bots plan crafts, gather, trade and take over work for each other. Two classes
-- keep what bots promise.
--
-- The commitment book: what a plan needs is an intent of the book, and what was set aside for it is
-- a commitment with its reservations. PlayerbotMaterialCommitmentAuthority of
-- `src/Bot/Economy/PlayerbotMaterialCommitmentAuthority.cpp` keeps it. It restores the book from
-- the database, applies commands to a copy, hands the copy to an asynchronous writer and takes it
-- over when the write completes. The functions of
-- `src/Bot/Economy/PlayerbotMaterialCommitmentEncoding.cpp` name operations and commitments,
-- compute the fingerprint by which a retry is known, build gathering paths and prepare commands.
--
-- The coordinator: PlayerbotEconomyCoordinator of
-- `src/Bot/Economy/PlayerbotEconomyCoordinator.cpp` collects what actors and markets report, adds up
-- demand and supply by market and kind of good, and leases parts of the unmet demand to actors. A
-- lease is a claim, which ends with an outcome. `src/Bot/Economy/PlayerbotEconomyChains.cpp` keeps
-- the history of every gap, and EvaluateWork of `src/Bot/Economy/PlayerbotEconomyPolicy.cpp` turns
-- work away. The runtime calls both classes; they share no state.
--
-- The files under Commitment/:
--   Types: the data of PlayerbotMaterialCommitmentAuthority.h.
--   Encoding: Fnv1a, Fingerprint, CommitmentIdentity and their helpers.
--   Outcome: CheckedAdd, the Find functions, what an operation returns, and the capacity maps.
--   Path: BuildSameActorGatheringPath; Path/Build takes a built path apart, and Path/Bounds is on
--     its numbers.
--   Validity: ValidStartup and what it calls; Validity/Rebuild is on stored paths.
--   Observe, Admission, Admit, Settle, Supersede, Compact: ObserveIntents, ValidateAdmissionFacts,
--     AdmitCandidates, StartSources to ReleaseCommitments, SupersedeCommitments and CompactBook.
--     Settle/Conservation is on fulfillments, Compact/Log on the operation log.
--   Authority: ApplyToReplacement, the class and SettleCompletedMaterialSource.
--   Compaction: ProfessionProgressionOriginGuid and BuildCompaction.
--   Scarce: ProfessionProgressionScarceRequirements; Scarce/Valid is on its bill.
--   Progression: BuildProfessionProgressionObserve and ObserveProfessionProgression;
--     Progression/Requirements is on the sorted requirements, and Progression/Accepted on what the
--     book makes of the command.
--   Frame, Soundness, Invariant, Remembered, Retry, Lifecycle and Capacity: the properties of the
--     whole book; Remembered is on the operation log between compactions.
--   Tests: a small book, runs of it, and the theorems at inputs where they apply.
-- The files under Coordinator/:
--   Types: the data of PlayerbotEconomyCoordinator.h, EconomyWorkPolicyInput and
--     ProfessionCapability.
--   Groups: EconomySubstitutionGroup, its identity and order, and ordered maps.
--   State: the members of the class, and CalculateGapsLocked with its cache.
--   Chains: SyncChainsLocked, EnsureChainLocked and the two Append functions.
--   Outcome: ApplyOutcomeLocked, ExpireLocked, InvalidateActorLocked, ReleaseSpeculationLocked.
--   Excess: ReleaseExcessClaimsLocked.
--   Capability: RevalidateCapabilities, ReconcileCapabilityBlockersLocked and what they call.
--   Request: EvaluateWork, RejectLocked and the checks that Lease begins with.
--   Lease: the rest of Lease.
--   Production: RecordOutcome, RecordProductionOutput, RecordProductionInventory and Snapshot.
--   Orders: AssignProduction.
--   Facts: RefreshActor, RefreshMarket, RecordConsumedInputs, InvalidateActor and Expire.
--   Observation: ObserveActor.
--   Credits: lookups in the credits for consumed inputs.
--   Moves: the ways in which an operation may change the claims and the cached totals; its children
--     show that the operations of each part change them in these ways only.
--   Reach: the calls of the class as a step relation, and the states that they reach.
--   Invariant: what holds in all of them.
--   Deadlines: due claims and claims past their retention.
--   Grants: what EvaluateWork lets through and what Lease grants.
--   Identities: the loop that draws the identity of a chain.
--   Shown: what a snapshot shows of the gaps.
--   Lifecycle: what an outcome makes of a claim.
--   Supply: what Lease offers of a gap.
--   Owners: whom AssignCapabilityOwnerLocked picks.
--   Tests: a market with two actors, a run of it, and the theorems at inputs where they apply.
-- Prelude holds Boolean tests, lists and byte texts that all of them share.
--
-- How the program is modelled:
--   A `std::string` is the list of its bytes. Unsigned fields are natural numbers. Where the code
--   adds, multiplies or casts, the wrap-around at 32 or 64 bits is written out, and a subtraction
--   stands behind the test that the code has before it, or wraps around.
--   Every method runs under the mutex of its class, so it is one step. AssignProduction takes the
--   mutex three times: the whole call is a step, and its first critical section, a snapshot and a
--   lease are steps too, so that other calls may come between them.
--   The writer of the book is a parameter of the program: the model keeps whether there is one, and
--   Apply gives the write that goes to it. A call of CompleteWrite is a step of its own, at any time
--   and with any token.
--   An operation on the book returns the changed book, a status other than PendingPersistence, or a
--   fault. A fault is a null pointer, an empty optional or a missing map entry that the code would
--   read. On a status the caller drops the copy of the book, so the status alone is kept.
--   The capacity maps are lists in the order of insertion, and no result depends on their order.
--   The sort of the log is by insertion: the revisions of a valid book differ.
--   A number is printed with at most 20 decimal digits, enough for 64 bits.
--   A `std::map` of the coordinator is a list in the order of a code of its keys, the tuple of their
--   fields. A pointer to a claim is its position, or the claims before and behind it; a pointer to a
--   chain is its identity. A loop that changes claims in place carries the claims behind it.
--   ChainPublicId hashes the sequence number, the time and random numbers, and the random numbers,
--   the hash and the formatting of it are not in the repository: `draw` gives the identity for a
--   sequence number and a time, and is a parameter. Each call has a sequence number of its own.
--   The loop that draws again while the identity is taken has the number of chains kept as its
--   fuel. That is enough unless two of these draws gave the same identity of 64 bits.
--
-- Not modelled: the SQL of PlayerbotMaterialCommitmentPersistence.cpp, the runtime and the bot
-- actions, which call the game server, and the market, travel, consumption, gathering and career
-- parts and the rest of the policy, which keep states of their own.
pub mod Prelude
pub mod Commitment
pub mod Coordinator
