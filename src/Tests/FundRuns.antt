-- ===== src/Tests/FundRuns.antt =====
-- The bounty, recovery, kickback and drip pallets on concrete inputs.
use sunshine_node.Prelude.{
  ◌<◌, ◌⊎◌, ℕ, ◌+◌, ◌*◌, ◌≤◌, ◌≡◌, refl, some, [], ◌∷◌, arith, length, true,
}
use sunshine_node.Word.{add64, add32}
use sunshine_node.Storage.Map
use sunshine_node.Storage.DoubleMap
use sunshine_node.Storage.Fresh.{next_free}
use sunshine_node.Util.Bounty.{BountyInformation}
use sunshine_node.Util.Recovery.{Relation, RelationState}
use sunshine_node.Util.Kickback.{KickbackEvent}
use sunshine_node.Bounty
use sunshine_node.Bounty.Reach as BountyReach
use sunshine_node.Recovery
use sunshine_node.Recovery.{RecoveryTrait}
use sunshine_node.Recovery.Histories.{IsHonest}
use sunshine_node.Recovery.Keeping.{OrderedCommitsLaws}
use sunshine_node.Recovery.Reach as RecoveryReach
use sunshine_node.Kickback
use sunshine_node.Kickback.{KickbackTrait}
use sunshine_node.Kickback.Reach as KickbackReach
use sunshine_node.Drip
use sunshine_node.Drip.Rates.{first_block-remainder}
use sunshine_node.Drip.Reach as DripReach
use sunshine_node.Tests.Host.{host, ordered}
use sunshine_node.Tests.CoinHost.{Coin, coin_host, bounty_trait, coin-laws, coin-Escrow}

-- Account 10 posts a bounty of its coin, and account 11 submits for it.
abbrev no_bounty : Bounty.State Coin
no_bounty = record {
  base = record { block_number = 1; ledger = some 10 };
  store = record {
    bounty_nonce = 0;
    submission_nonce = 0;
    issue_hash_set = [];
    bounties = [];
    contributions = [];
    submissions = [];
  };
  posted = [];
}

abbrev with_bounty : Bounty.State Coin
with_bounty = (Bounty.post_bounty coin_host bounty_trait 10 7 8 100 no_bounty).1

abbrev submitted : Bounty.State Coin
submitted = (Bounty.submit_for_bounty coin_host bounty_trait 11 1 9 3 100 with_bounty).1

abbrev bounty_one : BountyInformation
bounty_one = record { id = 1; info = 8; depositer = 10; total = 100 }

bounty_one-stored : Map.get submitted.store.bounties 1 ≡ some bounty_one
unfolding Bounty.submit_for_bounty Bounty.post_bounty Bounty.bounty_generate_uid
    Bounty.submission_generate_uid Map.get Map.insert next_free add64
bounty_one-stored = refl

Reachable-funded_example :
    100 ≤ coin_host.total_balance submitted.base.ledger (bounty_trait.bounty_account_id 1)
Reachable-funded_example =
    BountyReach.Reachable-funded coin_host bounty_trait 1 coin-laws coin-Escrow (omega arith)
      (BountyReach.next
        (BountyReach.next (BountyReach.begin no_bounty refl refl) (BountyReach.post 10 7 8 100))
        (BountyReach.submit 11 1 9 3 100))
      1 bounty_one bounty_one-stored

-- The hash of a share is twice the share. Account 11 keeps a share of the secret of account 10.
abbrev keepers : RecoveryTrait
keepers = record {
  secret_account_id = λ id. 2000 + id;
  hash = λ p. 2 * p;
  from_sorted_set = λ l. l;
}

keepers-laws : OrderedCommitsLaws keepers
keepers-laws = record { sorted_as_is = λ l a. refl }

abbrev no_secret : Recovery.State (Map.Map ℕ)
no_secret = record {
  base = record { block_number = 1; ledger = (10, 100) ∷ (11, 50) ∷ [] };
  store = record { secret_id_counter = 0; secrets = []; commits = [] };
  posted = [];
}

abbrev invited : Recovery.State (Map.Map ℕ)
invited = (Recovery.invite_group host keepers 10 20 5 (11 ∷ []) no_secret).1

abbrev committed : Recovery.State (Map.Map ℕ)
committed = (Recovery.commit_hash host keepers 11 1 14 invited).1

abbrev requested : Recovery.State (Map.Map ℕ)
requested = (Recovery.request_recovery host keepers 10 1 committed).1

abbrev revealed : Recovery.State (Map.Map ℕ)
revealed = (Recovery.reveal_preimage host keepers 11 1 7 requested).1

abbrev shown : Relation
shown = record {
  key = (1, 11);
  history = record { round_id = 0; hash = 14; preimage = some 7 } ∷ [];
  state = RelationState.reserved_collateral;
}

shown-stored : DoubleMap.get revealed.store.commits 1 11 ≡ some shown
unfolding Recovery.reveal_preimage Recovery.request_recovery Recovery.commit_hash
    Recovery.invite_group Recovery.invite_each Recovery.generate_secret_uid Recovery.push
    Recovery.popped Map.get Map.insert DoubleMap.get DoubleMap.insert next_free add64 ordered
shown-stored = refl

Reachable-IsHonest_example : IsHonest keepers.hash shown.history
Reachable-IsHonest_example =
    RecoveryReach.Reachable-IsHonest host keepers keepers-laws
      (RecoveryReach.next
        (RecoveryReach.next
          (RecoveryReach.next
            (RecoveryReach.next (RecoveryReach.begin no_secret refl)
              (RecoveryReach.invite 10 20 5 (11 ∷ [])))
            (RecoveryReach.commit 11 1 14))
          (RecoveryReach.request 10 1))
        (RecoveryReach.reveal 11 1 7))
      1 11 shown shown-stored

-- Account 10 posts an event with two seats of 20 each, and account 11 takes one.
abbrev venue : KickbackTrait
venue = record {
  event_account_id = λ id. 3000 + id;
  min_reservation_req = 5;
  max_attendance = 100;
  finds = λ present account. true;
}

abbrev no_event : Kickback.State (Map.Map ℕ)
no_event = record {
  base = record { block_number = 1; ledger = (10, 100) ∷ (11, 50) ∷ [] };
  store = record { kickback_event_nonce = 0; kickback_events = []; kickback_reservations = [] };
  posted = [];
}

abbrev announced : Kickback.State (Map.Map ℕ)
announced = (Kickback.post_kickback_event host venue 10 7 20 2 no_event).1

abbrev taken : Kickback.State (Map.Map ℕ)
taken = (Kickback.reserve_seat host venue 11 1 announced).1

abbrev half_full : KickbackEvent
half_full = record {
  info = 7;
  supervisor = 10;
  reservation_req = 20;
  expected_attendance = 1;
  attendance_limit = 2;
}

half_full-stored : Map.get taken.store.kickback_events 1 ≡ some half_full
unfolding Kickback.reserve_seat Kickback.post_kickback_event Kickback.kickback_event_generate_uid
    Map.get Map.insert DoubleMap.get DoubleMap.insert next_free add64 add32
half_full-stored = refl

Reachable-seated_example :
    (length (DoubleMap.iter_prefix taken.store.kickback_reservations 1) ≡ 1) × (1 ≤ 2) × (2 ≤ 100)
Reachable-seated_example =
    KickbackReach.Reachable-seated host venue (omega arith)
      (KickbackReach.next
        (KickbackReach.next (KickbackReach.begin no_event refl refl)
          (KickbackReach.post 10 7 20 2 (omega arith)))
        (KickbackReach.reserve 11 1))
      1 half_full half_full-stored

-- The 25 of an event are divided among two accounts; account 10 gets the rest.
abbrev to_divide : Kickback.State (Map.Map ℕ)
to_divide = record no_event { base = record { block_number = 2; ledger = (3001, 25) ∷ [] } }

-- At the block 20, a drip of 3 in every 6 blocks from account 10 to account 11 is started.
abbrev no_drip : Drip.State (Map.Map ℕ)
no_drip = record {
  base = record { block_number = 20; ledger = (10, 100) ∷ [] };
  store = record { drip_id_counter = 0; open_drip_counter = 0; drips = [] };
  posted = [];
}

abbrev dripping : Drip.State (Map.Map ℕ)
dripping = (Drip.start_drip host 10 11 (record { amount = 3; period_length = 6 }) no_drip).1

first_block-remainder_example :
    (Drip.first_next_block_mod_period_is_zero 20 6 ≡ some 8) × ((20 < 6) ⊎ (8 ≤ 20))
first_block-remainder_example = first_block-remainder 20 6 (omega arith) (omega arith)

Reachable-on_finalize_example :
    (t : Drip.State (Map.Map ℕ)) × (Drip.on_finalize host dripping ≡ some t)
    × (t.store ≡ dripping.store)
Reachable-on_finalize_example = DripReach.Reachable-on_finalize host (
    DripReach.next (DripReach.begin no_drip refl)
      (DripReach.start 10 11 (record { amount = 3; period_length = 6 })))
