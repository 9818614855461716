-- ===== src/Tests/CoinHost.antt =====
-- A host whose currency is one coin of 100: it is in one account, or withdrawn from all.
use sunshine_node.Prelude.{
  ℕ, ◌+◌, ◌*◌, ◌<◌, ◌≡◌, ◌≢◌, refl, arith, Option, none, some, ltb, ◌==◌, ◌&&◌, if◌then◌else◌,
}
use sunshine_node.Word.{u128_mod}
use sunshine_node.Dispatch.{DispatchError, Result, ok, err}
use sunshine_node.Exec.{Exec}
use sunshine_node.Runtime.{Config, Moved, CurrencyLaws}
use sunshine_node.Bounty.{BountyTrait}
use sunshine_node.Bounty.Solvency.{Escrow}

abbrev pub Coin : Type 0
Coin = Option ℕ

abbrev pub holds : Coin → ℕ → ℕ
holds none a = 0
holds (some owner) a = if owner == a then 100 else 0

abbrev pub send : ℕ → ℕ → ℕ → Exec Coin (Unit {0})
send a b x none = (err (DispatchError.other 1), none)
send a b x (some owner) =
    if owner == a && x == 100 then (ok tt, some b) else (err (DispatchError.other 1), some owner)

abbrev pub draw : ℕ → ℕ → Exec Coin (Unit {0})
draw a x none = (err (DispatchError.other 1), none)
draw a x (some owner) =
    if owner == a && x == 100 then (ok tt, none) else (err (DispatchError.other 1), some owner)

abbrev pub put : ℕ → ℕ → Coin → Coin
put a x none = if x == 100 then some a else none
put a x (some owner) = some owner

-- Accounts below 1000 sign; the others are those of bounties.
abbrev pub signed : ℕ → Result ℕ
signed who = if ltb who 1000 then ok who else err (DispatchError.other 2)

abbrev pub coin_host : Config
coin_host = record {
  Origin = ℕ;
  ensure_signed = signed;
  Ledger = Coin;
  free_balance = holds;
  total_balance = holds;
  transfer = send;
  transfer_allow_death = send;
  withdraw = draw;
  resolve_creating = put;
  deposit_creating = put;
  reserve = draw;
  unreserve = put;
  ordered_set = λ l. l;
  from_rational_approximation = λ p q. p;
  mul_floor = λ x a. x * a;
  mul_ceil = λ x a. x * a;
  into_sub_account = λ id. 1000 + id;
  max_treasury_per_org = 2;
  min_deposit = 5;
}

abbrev pub bounty_trait : BountyTrait
bounty_trait = record { bounty_account_id = λ id. 1000 + id; min_deposit = 5; min_contribution = 1 }

holds-lt : (l : Coin) (a : ℕ) → holds l a < u128_mod
holds-lt none a = omega arith
holds-lt (some owner) a = ground arith

send-Moved :
    (a b x : ℕ) (l : Coin) → (send a b x l).0 ≡ ok tt → Moved coin_host a b x l (send a b x l).1
send-Moved a b x none h = ground arith
send-Moved a b x (some owner) h = record {
  sent = λ ne. ground arith;
  received = λ ne. ground arith;
  to_itself = λ e. ground arith;
  others = λ c na nb. ground arith;
}

send_refused :
    (a b x : ℕ) (l : Coin) (e : DispatchError) → (send a b x l).0 ≡ err e → (send a b x l).1 ≡ l
send_refused a b x none e h = refl
send_refused a b x (some owner) e h = ground arith

draw_others : (a x : ℕ) (l : Coin) (c : ℕ) → c ≢ a → holds (draw a x l).1 c ≡ holds l c
draw_others a x none c ne = refl
draw_others a x (some owner) c ne = ground arith

put-draw :
    (a b x : ℕ) (l : Coin)
    → (draw a x l).0 ≡ ok tt
    → a ≢ b
    → holds (put b x (draw a x l).1) b ≡ holds l b + x
put-draw a b x none h ne = ground arith
put-draw a b x (some owner) h ne = ground arith

put_others : (a x : ℕ) (l : Coin) (c : ℕ) → c ≢ a → holds (put a x l) c ≡ holds l c
put_others a x none c ne = ground arith
put_others a x (some owner) c ne = refl

pub coin-laws : CurrencyLaws coin_host 1
coin-laws = record {
  bounded = holds-lt;
  transfer_ok = send-Moved;
  transfer_err = send_refused;
  withdraw_others = draw_others;
  deposited = λ a b x l h ne big. put-draw a b x l h ne;
  resolve_others = put_others;
}

signs-below : (origin who : ℕ) → signed origin ≡ ok who → who < 1000
signs-below origin who h = ground arith

pub coin-Escrow : Escrow coin_host bounty_trait
coin-Escrow = record {
  own_account = λ i j e. omega arith;
  no_signer = λ origin who b h. ground (arith, signs-below origin who h);
}
