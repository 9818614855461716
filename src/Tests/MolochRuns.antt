-- ===== src/Tests/MolochRuns.antt =====
-- The moloch pallet on concrete inputs.
use sunshine_node.Prelude.{ℕ, ◌≡◌, refl, none, some, [], ◌∷◌, arith}
use sunshine_node.Word.{sub64}
use sunshine_node.Storage.Map
use sunshine_node.Storage.DoubleMap
use sunshine_node.Util.Organization.{Organization}
use sunshine_node.Util.Share.{ShareProfile, ProfileState}
use sunshine_node.Util.Bank.{BankState, SpendProposal, SpendState}
use sunshine_node.Util.Moloch.{MembershipProposal, ProposalState}
use sunshine_node.Moloch
use sunshine_node.Moloch.Spend.{
  approve_spend_by_sudo, trigger_vote_on_spend_proposal, poll_spend_proposal,
}
use sunshine_node.Moloch.Membership.{trigger_vote_on_member_proposal, poll_membership_proposal}
use sunshine_node.Moloch.Ragequit.{ragequit}
use sunshine_node.Moloch.Payment.{approved_spend_rests, approved_member_rests}
use sunshine_node.Tests.Host.{host, move}
use sunshine_node.Tests.VoteRuns.{opened}

-- Account 11 has 4 of the 10 shares of organization 1, whose bank has 50.
abbrev summoned : Moloch.State (Map.Map ℕ)
summoned = record {
  base = record opened { ledger = (1001, 50) ∷ (11, 5) ∷ [] };
  store = record {
    bank_id_nonce = 1;
    spend_nonce_map = [];
    proposal_nonce_map = [];
    total_bank_count = 1;
    org_bank_registrar = (1, tt) ∷ [];
    bank_stores = (1, record { id = 1; org = 1; controller = some 10; threshold_id = 1 }) ∷ [];
    spend_props = [];
    member_props = [];
    spend_poll_frequency = 10;
    member_poll_frequency = 10;
  };
  posted = [];
}

abbrev own_bank : BankState
own_bank = record { id = 1; org = 1; controller = some 10; threshold_id = 1 }

abbrev own_org : Organization
own_org = record { sudo = some 10; id = 1; shares = 10; constitution = 7 }

abbrev four_shares : ShareProfile
four_shares = record { id = (1, 11); total = 4; state = ProfileState.unlocked }

bank-stored : Map.get summoned.store.bank_stores 1 ≡ some own_bank
unfolding Map.get
bank-stored = refl

org-stored : Map.get summoned.base.org.orgs 1 ≡ some own_org
unfolding Map.get
org-stored = refl

member-stored : DoubleMap.get summoned.base.org.members 1 11 ≡ some four_shares
unfolding DoubleMap.get
member-stored = refl

ragequit_example :
    let t = (Moloch.burn_shares host 11 1 summoned).1 in
    ((Moloch.burn_shares host 11 1 summoned).0 ≡ (move 1001 11 20 summoned.base.ledger).0)
    × (t.base.ledger ≡ (move 1001 11 20 summoned.base.ledger).1)
    × (DoubleMap.get t.base.org.members 1 11 ≡ none)
    × (Map.get t.base.org.orgs 1 ≡ some (record own_org { shares = sub64 10 4 }))
unfolding Map.get
ragequit_example =
    ragequit host summoned 11 1 11 own_bank own_org four_shares refl bank-stored org-stored
      member-stored (omega arith) (omega arith)

-- A spend that was paid and a membership whose tribute was refused.
abbrev paid_spend : SpendProposal
paid_spend = record { id = (1, 1); amount = 7; dest = 12; state = SpendState.approved_and_executed }

abbrev refused_member : MembershipProposal
refused_member = record {
  id = (1, 1);
  tribute = 9;
  shares_requested = 3;
  applicant = 12;
  state = ProposalState.approved_but_not_executed;
}

abbrev concluded : Moloch.State (Map.Map ℕ)
concluded = record summoned {
  store = record summoned.store {
    spend_props = (1, 1, paid_spend) ∷ [];
    member_props = (1, 1, refused_member) ∷ [];
  };
}

spend-stored : DoubleMap.get concluded.store.spend_props 1 1 ≡ some paid_spend
unfolding DoubleMap.get
spend-stored = refl

membership-stored : DoubleMap.get concluded.store.member_props 1 1 ≡ some refused_member
unfolding DoubleMap.get
membership-stored = refl

approved_spend_rests_example :
    ((approve_spend_by_sudo host 10 1 1 concluded).1 ≡ concluded)
    × ((trigger_vote_on_spend_proposal host 10 1 1 concluded).1 ≡ concluded)
    × ((poll_spend_proposal host paid_spend concluded).1 ≡ concluded)
approved_spend_rests_example = approved_spend_rests host concluded 1 1 paid_spend 10 spend-stored tt

approved_member_rests_example :
    ((trigger_vote_on_member_proposal host 10 1 1 concluded).1 ≡ concluded)
    × ((poll_membership_proposal host refused_member concluded).1 ≡ concluded)
approved_member_rests_example =
    approved_member_rests host concluded 1 1 refused_member 10 membership-stored tt
