-- ===== src/Token/Witnesses.antt =====
-- Concrete calls of a bridged token.
use omni_bridge.Prelude.{ℕ, ◌≡◌, refl, Option, none, some, ◌+◌, ◌-◌, leb, if◌then◌else◌}
use omni_bridge.Prelude.Equality.{◌==◌, string_eq}
use omni_bridge.Prelude.Result.{ok}
use omni_bridge.Types.Codecs.{AccountId}
use omni_bridge.Exec.{◌>>=◌}
use omni_bridge.Token.{Answer, FungibleToken, OmniToken, Receipt, mint, call, assert_controller}
use omni_bridge.Token.Calls.{TokenCall}
use omni_bridge.Token.Control.{handle, Outcome, handle-Outcome}

abbrev Balances : Type 0
Balances = AccountId → ℕ

abbrev deposit : AccountId → ℕ → Balances → Balances
deposit account amount b other = if account == other then b other + amount else b other

abbrev withdraw : AccountId → ℕ → Balances → Option Balances
withdraw account amount b =
    if leb amount (b account)
    then some (λ other. if account == other then b other - amount else b other)
    else none

abbrev library : FungibleToken Balances
library = record {
  metadata_spec = "ft-1.0.0";
  fresh = λ _. 0;
  internal_deposit = λ account amount b. some (deposit account amount b);
  internal_withdraw = withdraw;
  ft_transfer = λ _ _ _ _ b. some b;
  ft_transfer_call = λ _ _ _ _ _ b. some (Answer.nothing, b);
  internal_ft_resolve_transfer = λ _ _ _ b. some (0, b);
  storage_deposit = λ _ _ _ b. some (Answer.nothing, b);
  storage_withdraw = λ _ _ b. some (Answer.nothing, b);
  internal_storage_unregister = λ _ _ b. some (Answer.nothing, b);
}

abbrev receipt : Receipt
receipt = record { predecessor = "bridge"; current = "token"; parent = some "deployer" }

abbrev token : OmniToken Balances
token = record { controller = "bridge"; token = λ _. 0; metadata = none; withdraw_relayer = none }

abbrev minted : OmniToken Balances
minted = record token { token = deposit "alice" 10 (λ _. 0) }

abbrev minting : TokenCall
minting = TokenCall.mint "alice" 10 none

handle-run : handle library receipt minting token ≡ ok (Answer.value 10, minted)
unfolding handle mint call assert_controller ◌>>=◌
handle-run = refl

handle-Outcome_example : Outcome library receipt minting token minted
handle-Outcome_example = handle-Outcome library receipt token minting handle-run
