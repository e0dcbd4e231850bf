-- ===== src/Token/Calls.antt =====
-- The calls of a bridged token, near/omni-token/src/lib.rs, that change its state.
use omni_bridge.Prelude.{ℕ, String, Bool, true, false, Option}
use omni_bridge.Types.Codecs.{Bytes, AccountId}

-- The methods that change the contract, with their arguments.
pub data TokenCall : Type 0 where
  attach_full_access_key : Bytes → TokenCall
  set_withdraw_relayer_address : AccountId → TokenCall
  mint : AccountId → ℕ → Option String → TokenCall
  burn : ℕ → TokenCall
  set_metadata :
      Option String
      → Option String
      → Option String
      → Option Bytes
      → Option ℕ
      → Option String
      → TokenCall
  ft_transfer : AccountId → ℕ → Option String → TokenCall
  ft_transfer_call : AccountId → ℕ → Option String → String → TokenCall
  ft_resolve_transfer : AccountId → AccountId → ℕ → TokenCall
  storage_deposit : Option AccountId → Option Bool → TokenCall
  storage_withdraw : Option ℕ → TokenCall
  storage_unregister : Option Bool → TokenCall

-- The methods that begin with `assert_controller`.
abbrev pub is_privileged : TokenCall → Bool
is_privileged (TokenCall.attach_full_access_key _) = true
is_privileged (TokenCall.set_withdraw_relayer_address _) = true
is_privileged (TokenCall.mint _ _ _) = true
is_privileged (TokenCall.burn _) = true
is_privileged (TokenCall.set_metadata _ _ _ _ _ _) = true
is_privileged _ = false
