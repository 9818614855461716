-- ===== src/Tests/BankRuns.antt =====
-- The bank and donate pallets on concrete inputs.
use sunshine_node.Prelude.{ℕ, ◌+◌, ◌*◌, ◌<◌, ◌≡◌, refl, some, [], ◌∷◌, arith, length}
use sunshine_node.Word.{u64_mod, add128, sub128}
use sunshine_node.Storage.Map
use sunshine_node.Storage.DoubleMap
use sunshine_node.Storage.DoubleMap.{DoubleMap}
use sunshine_node.Dispatch.{ok}
use sunshine_node.Util.Organization.{OrgRep}
use sunshine_node.Util.Vote.{XorThreshold}
use sunshine_node.Util.Bank
use sunshine_node.Util.Bank.{BankState, SpendProposal, SpendState, set_state}
use sunshine_node.Runtime.{Runtime, VoteStore, BankStore, Paid}
use sunshine_node.Org
use sunshine_node.Donate.{donate, pay_each, distribute, calculate_uniform_amount}
use sunshine_node.Donate.Equal.{equal_donation_conserves}
use sunshine_node.Bank as Banks
use sunshine_node.Bank.Moves.{Progress}
use sunshine_node.Bank.Payment.{
  Approval, sudo_approve-Approval, approved_is_settled, Unapproved, poll-Unapproved,
}
use sunshine_node.Bank.Finalize.{IsFiled, on_finalize-Progress}
use sunshine_node.Bank.Life.{SpendStep-Progress, approve}
use sunshine_node.Tests.Host.{host, empty_bank, ordered}
use sunshine_node.Tests.VoteRuns.{opened, opened_store, five}

-- Spends of 20 to account 11: one waits, one is in the vote 1, one is paid.
abbrev waiting : SpendProposal
waiting = Bank.new 1 1 20 11

abbrev in_vote : SpendProposal
in_vote = set_state (Bank.new 1 2 20 11) (SpendState.voting 1)

abbrev paid : SpendProposal
paid = set_state (Bank.new 1 3 20 11) SpendState.approved_and_executed

abbrev bank_store : BankStore
bank_store = record empty_bank {
  bank_id_nonce = 1;
  spend_nonce_map = (1, 3) ∷ [];
  total_bank_count = 1;
  org_treasury_count = (1, 1) ∷ [];
  banks = (1, record { id = 1; org = 1; controller = some 10; threshold_id = 1 }) ∷ [];
  spend_proposals = (1, 1, waiting) ∷ (1, 2, in_vote) ∷ (1, 3, paid) ∷ [];
}

abbrev vote_store : VoteStore
vote_store = record opened_store {
  vote_thresholds =
      (1, record { id = 1; org = OrgRep.weighted 1; threshold = XorThreshold.signal five }) ∷ [];
}

abbrev banked : Runtime (Map.Map ℕ)
banked = record opened { ledger = (1001, 50) ∷ (11, 50) ∷ []; vote = vote_store; bank = bank_store }

in_vote-stored : DoubleMap.get bank_store.spend_proposals 1 2 ≡ some in_vote
unfolding DoubleMap.get
in_vote-stored = refl

room :
    Banks.or_zero (Map.get bank_store.spend_nonce_map 1)
      + 1
      + length (DoubleMap.iter_prefix bank_store.spend_proposals 1)
    < u64_mod
unfolding Map.get DoubleMap.iter_prefix
room = omega arith

approves : (Banks.sudo_approve_spend_proposal host 10 1 1 banked).0 ≡ ok tt
unfolding Banks.sudo_approve_spend_proposal Map.get Map.insert DoubleMap.get DoubleMap.insert
approves = refl

sudo_approve-Approval_example :
    Approval host 10 1 1 banked (Banks.sudo_approve_spend_proposal host 10 1 1 banked).1
sudo_approve-Approval_example = sudo_approve-Approval host 10 1 1 banked approves

paid-stored : DoubleMap.get bank_store.spend_proposals 1 3 ≡ some paid
unfolding DoubleMap.get
paid-stored = refl

approved_is_settled_example :
    ((Banks.sudo_approve_spend_proposal host 10 1 3 banked).1 ≡ banked)
    × ((Banks.trigger_vote_on_spend_proposal host 10 1 3 banked).1 ≡ banked)
    × ((Banks.poll_spend_proposal host paid banked).1 ≡ banked)
approved_is_settled_example = approved_is_settled host 1 3 banked paid paid-stored tt 10

undecided : (v : ℕ) → in_vote.state ≡ SpendState.voting v → Unapproved host in_vote banked v
unfolding Map.get
undecided v e st h = ground arith

poll-Unapproved_example : (Banks.poll_spend_proposal host in_vote banked).1 ≡ banked
poll-Unapproved_example = poll-Unapproved host in_vote banked undecided

-- Account 11 gives 7 to the two members: 3 to each, and 1 to account 12.
two : Org.get_group ordered banked.org 1 ≡ some (10 ∷ 11 ∷ [])
unfolding Org.get_group Org.id_is_available Map.get DoubleMap.iter_prefix ordered
two = refl

gives : (donate host 11 (OrgRep.equal 1) 12 7 banked).0 ≡ ok (6, 1)
unfolding donate distribute pay_each calculate_uniform_amount Org.get_group Org.id_is_available
    Map.get Map.insert DoubleMap.iter_prefix ordered add128 sub128
gives = refl

equal_donation_conserves_example :
    Paid host.transfer 11 banked.ledger
      ((10, 3) ∷ (11, 3) ∷ (12, 1) ∷ [])
      (donate host 11 (OrgRep.equal 1) 12 7 banked).1.ledger
    × (6 ≡ 2 * 3)
    × (6 + 1 ≡ 7)
unfolding calculate_uniform_amount
equal_donation_conserves_example =
    equal_donation_conserves host 11 7 1 12 6 1 banked (10 ∷ 11 ∷ []) (omega arith) two
      (omega arith) (omega arith) gives

spends-IsFiled : IsFiled bank_store.spend_proposals
unfolding DoubleMap.get
spends-IsFiled = record { once = (refl, (refl, (refl, tt))); own_id = λ b i p h. ground arith }

-- The block 20 is due, and the vote 1 has not decided.
abbrev due : Runtime (Map.Map ℕ)
due = record banked { block_number = 20 }

on_finalize-Progress_example :
    (t : Runtime (Map.Map ℕ)) × (Banks.on_finalize host due ≡ some t) × Progress bank_store t.bank
on_finalize-Progress_example = on_finalize-Progress host due spends-IsFiled (omega arith)

SpendStep-Progress_example :
    Progress bank_store (Banks.sudo_approve_spend_proposal host 10 1 1 banked).1.bank
SpendStep-Progress_example = SpendStep-Progress {T = host} {s = banked} (approve 10 1 1)
