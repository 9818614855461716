-- ===== src/Lib.antt =====
-- The pallets of the sunshine node that carry its logic, as functions on the chain's state.
--
-- The node (bin/node, bin/runtime) is a Substrate chain whose runtime is made of pallets. An
-- organization (pallets/org) has members with shares. A vote (pallets/vote) is opened on an
-- organization: its members are given signal, by their shares or one each, and a threshold decides.
-- A donation (pallets/donate) is divided among the members of an organization. A bank account
-- (pallets/bank) belongs to an organization; a spend from it is proposed by a member, and is paid once
-- the controller or a vote has approved it. bank calls donate, vote and org; vote and donate call org.
--
-- Three more pallets stand on these. A moloch (pallets/moloch) is a bank whose shares are bought with a
-- tribute and burned for a portion of the balance; it calls org, vote and donate. A foundation
-- (pallets/grant) reviews applications and their milestones, and an insurance (pallets/insurance) locks
-- funds until a dispute is decided; both call vote and org. The others use the currency alone: a bounty
-- (pallets/bounty) escrows money for submissions, a kickback event (pallets/kickback) shares the
-- deposits among those who come, a drip (pallets/drip) pays at a rate, a recovery group
-- (pallets/recovery) keeps the shares of a secret by commit and reveal, and the treasury
-- (pallets/treasury) mints at a period. Ranked votes (pallets/rank) and courts (pallets/court) keep
-- records alone.
--
-- Which file models which part:
-- - Prelude, Word: shared tests on numbers, lists, and the machine integers. A u32, u64 or u128 is a
--   natural number; an operation wraps as it does in a release build (add64 and so on), and
--   checked_add and checked_sub are those of sp_runtime.
-- - Storage: decl_storage's maps (Map), double maps (DoubleMap) as association lists, and the loop that
--   finds a free identifier (Fresh), on fuel of one round more than the map has entries.
-- - Dispatch, Exec: decl_error's enumerations (those of the further pallets in Dispatch.Funding and
--   Dispatch.Groups), and code that reads and writes the state and may fail. What was written before an
--   error stays written, since no call is transactional.
-- - Util: a module for each of utils/src/organization.rs, share.rs, vote.rs, bank.rs, bounty.rs,
--   kickback.rs, drip.rs, moloch.rs, meta.rs, grant.rs, insurance.rs, rank.rs and court.rs; Recovery is
--   sss.rs.
-- - Runtime: the storage items and events of the first four pallets (Stores, Events), and Config, the
--   parameters that stand for code outside the repository (Host): origins, the currency, Permill,
--   OrderedSet. Each further pallet keeps its storage and its events beside the state it calls into
--   (Local), which is the whole Runtime or the currency alone (Money). Currency states what the
--   theorems about money ask of the currency, Payments what a loop of transfers has paid.
-- - Org: pallets/org/src/lib.rs. Base has the queries, Issuance `impl ShareIssuance`, Register
--   `impl RegisterOrganization` and `impl RemoveOrganization`, Calls the dispatchable calls under their
--   own names. recursive_remove_organization runs on fuel and is `none` without it: on a tree with a
--   cycle the code does not end. The proofs are in Holdings (sums of members' shares), Ownership
--   (Reach has the calls as a step relation) and Removal.
-- - Vote: pallets/vote/src/lib.rs. Base has thresholds, identifiers and queries, Open the minting and the
--   opening of votes, Ballot the vote and the updates, Calls the dispatchable calls. The proofs are in
--   Tally (the tallies are sums over the logged votes; Reach has the operations as a step relation),
--   Frame (what a vote leaves alone) and Thresholds.
-- - Donate: pallets/donate/src/lib.rs; the proof about equal donations is in Donate/Equal.
-- - Bank: pallets/bank/src/lib.rs. Base has the accounts, Spend `impl SpendGovernance` (its methods are
--   named _propose_spend and so on in the source; propose_spend_for is the first), Calls the
--   dispatchable calls (open is open_account) and on_finalize, which is `none` where the code panics.
--   Moves is the life of a spend as a step relation, Progress, Life and Finalize show that the
--   operations and the hook follow it, and Payment when a spend is paid.
-- - Moloch: pallets/moloch/src/lib.rs. Base has the banks and their members, Spend and Membership the
--   two kinds of proposal, Calls the dispatchable calls and on_finalize. The proofs are in Ragequit and
--   Payment.
-- - Grant: pallets/grant/src/lib.rs. Base has the storage, Calls the foundations and applications,
--   Milestones the calls on milestones, Finalize the hook. The proofs are in Awards, Applied, Delivered,
--   Polled and Reach (the step relation), in Paid, and in Polling (when the hook polls).
-- - Insurance: pallets/insurance/src/lib.rs; the proofs are in Insurance/Reserved.
-- - Bounty: pallets/bounty/src/lib.rs, with Base and Calls; the proofs are in Solvency and Reach.
-- - Kickback: pallets/kickback/src/lib.rs; the proofs are in Seats, Reach and Drain (the division).
-- - Drip: pallets/drip/src/lib.rs; the proofs are in Rates (the first block) and Reach.
-- - Recovery: pallets/recovery/src/lib.rs, with Base and Calls; the proofs are in Histories (one
--   history), Keeping (each call) and Reach.
-- - Treasury: pallets/treasury/src/lib.rs, its hook.
-- - Rank, Court: pallets/rank/src/lib.rs and pallets/court/src/lib.rs, the calls that the source has so far.
-- - Tests: concrete hosts, one of them with a currency that keeps balances (CoinHost), runs of the
--   model, and the theorems at concrete inputs.
--
-- Identifiers, account names, content hashes and block numbers are natural numbers; identifiers wrap at
-- 2^64, block numbers and counters at 2^32, balances at 2^128. The order in which a map is iterated is
-- that of its association list, and no theorem depends on it but through that list.
--
-- Not modelled: pallets/bounty2, vote-direct and rfp and their types under utils/src, of which bounty2
-- is unfinished in the source; weights and the encoding of storage; bin
-- and client, which start the node, parse arguments and talk to a remote node.
--
-- The invariant of the org pallet (Org.Ownership.Invariant.IsOwned): no member is listed twice, each
-- organization has the shares that its members hold, less than 2^64, and above the nonce nothing is
-- stored. The invariant of the vote pallet (Vote.Tally.Invariant.IsCounted): the tallies of a stored
-- vote are the sums over its logged votes, and above the counter nothing is stored.
pub mod Prelude
pub mod Word
pub mod Storage
pub mod Dispatch
pub mod Exec
pub mod Util
pub mod Runtime
pub mod Org
pub mod Vote
pub mod Donate
pub mod Bank
pub mod Bounty
pub mod Kickback
pub mod Drip
pub mod Treasury
pub mod Recovery
pub mod Insurance
pub mod Moloch
pub mod Grant
pub mod Rank
pub mod Court
mod Tests
