-- ===== src/Tests/Host.antt =====
-- A concrete host: signed origins, a currency of plain balances, and exact parts per million.
use sunshine_node.Prelude.{
  ℕ, ◌+◌, ◌-◌, ◌*◌, ◌≡◌, refl, arith, List, [], ◌∷◌, map, some, none, is_some, leb, if◌then◌else◌,
}
use Prim.Native.Nat.{◌/◌}
use sunshine_node.Storage.Map
use sunshine_node.Storage.Map.{Map, Distinct}
use sunshine_node.Dispatch.{DispatchError, DonateError, ok, err}
use sunshine_node.Exec.{Exec}
use sunshine_node.Bank.{or_zero}
use sunshine_node.Runtime.{Config, Runtime, OrgStore, VoteStore, BankStore}
use sunshine_node.Vote.Tally.Voters.{OrderedSetLaws, one_each}

abbrev pub balance : Map ℕ → ℕ → ℕ
balance m who = or_zero (Map.get m who)

-- The existential deposit is 1: the sender keeps at least that.
abbrev pub move : ℕ → ℕ → ℕ → Exec (Map ℕ) (Unit {0})
move src dest amount m =
    if leb (amount + 1) (balance m src)
    then (
      ok tt,
      let less = Map.insert m src (balance m src - amount) in
          Map.insert less dest (balance less dest + amount),
    )
    else (err (DispatchError.donate DonateError.not_enough_funds_in_free_to_make_transfer), m)

abbrev pub take : ℕ → ℕ → Exec (Map ℕ) (Unit {0})
take who amount m =
    if leb amount (balance m who)
    then (ok tt, Map.insert m who (balance m who - amount))
    else (err (DispatchError.other 1), m)

abbrev pub give : ℕ → ℕ → Map ℕ → Map ℕ
give who amount m = Map.insert m who (balance m who + amount)

abbrev pub move_all : ℕ → ℕ → ℕ → Exec (Map ℕ) (Unit {0})
move_all src dest amount m =
    if leb amount (balance m src)
    then (ok tt, give dest amount (Map.insert m src (balance m src - amount)))
    else (err (DispatchError.other 1), m)

-- Each element once.
unfoldable pub ordered : List ℕ → List ℕ
ordered [] = []
ordered (x ∷ l) =
    let rest = ordered l in
    if is_some (Map.get {V = ℕ} (map (λ who. (who, 1)) rest) x) then rest else x ∷ rest

ordered-Distinct : (l : List ℕ) → Distinct {V = ℕ} (map (λ who. (who, 1)) (ordered l))
unfolding ordered
ordered-Distinct [] = tt
ordered-Distinct (x ∷ l) = ground (arith, ordered-Distinct l)

get-one_each :
    (l : List ℕ) (who : ℕ)
    → Map.get (one_each l) who ≡ (if is_some (Map.get (one_each l) who) then some 1 else none)
unfolding Map.get
get-one_each [] who = refl
get-one_each (x ∷ l) who = ground (arith, get-one_each l who)

get-ordered : (l : List ℕ) (who : ℕ) → Map.get (one_each (ordered l)) who ≡ Map.get (one_each l) who
unfolding ordered Map.get
get-ordered [] who = refl
get-ordered (x ∷ l) who = ground (arith, get-ordered l who, get-ordered l x, get-one_each l who)

pub ordered-laws : OrderedSetLaws ordered
ordered-laws = record { no_repeats = ordered-Distinct; same_elements = get-ordered }

abbrev pub host : Config
host = record {
  Origin = ℕ;
  ensure_signed = ok;
  Ledger = Map ℕ;
  free_balance = balance;
  total_balance = balance;
  transfer = move;
  transfer_allow_death = move_all;
  withdraw = take;
  resolve_creating = give;
  deposit_creating = give;
  reserve = take;
  unreserve = give;
  ordered_set = ordered;
  from_rational_approximation = λ p q. p * 1000000 / q;
  mul_floor = λ x a. x * a / 1000000;
  mul_ceil = λ x a. (x * a + 999999) / 1000000;
  into_sub_account = λ id. 1000 + id;
  max_treasury_per_org = 2;
  min_deposit = 5;
}

abbrev pub empty_org : OrgStore
empty_org = record { org_id_nonce = 0; org_counter = 0; orgs = []; org_tree = []; members = [] }

abbrev pub empty_vote : VoteStore
empty_vote = record {
  vote_id_counter = 0;
  threshold_id_counter = 0;
  open_vote_counter = 0;
  vote_states = [];
  vote_thresholds = [];
  total_signal_issuance = [];
  vote_logger = [];
}

abbrev pub empty_bank : BankStore
empty_bank = record {
  bank_id_nonce = 0;
  spend_nonce_map = [];
  total_bank_count = 0;
  org_treasury_count = [];
  banks = [];
  spend_proposals = [];
  spend_poll_frequency = 10;
}

-- Nothing but some accounts with money.
abbrev pub start : Runtime (Map ℕ)
start = record {
  block_number = 1;
  ledger = (10, 100) ∷ (11, 50) ∷ [];
  org = empty_org;
  vote = empty_vote;
  bank = empty_bank;
  events = [];
}
