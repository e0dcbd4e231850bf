-- ===== src/Token/Deployer.antt =====
-- The deployer of bridged tokens: near/token-deployer/src/lib.rs. The roles belong to near-plugins
-- and are read through parameters; a promise is the account it creates and what it does there.
use omni_bridge.Prelude.{ℕ, Bool, ◌||◌}
use omni_bridge.Types.Codecs.{Bytes, AccountId}
use omni_bridge.Types.Messages.{BasicMetadata}
use omni_bridge.Exec.{Exec, pure, require, gets, modify, ◌>>=◌, ◌>>◌}

-- `Role`.
pub data DeployerRole : Type 0 where
  dao pause_manager upgradable_code_stager upgradable_code_deployer controller : DeployerRole
  legacy_controller : DeployerRole

pub record TokenDeployer : Type 0 where
  pub global_code_hash : Bytes

-- `create_account`, `transfer`, `use_global_contract` and the call of `new` with its arguments.
pub record Deployment : Type 0 where
  pub account_id : AccountId
  pub transferred : ℕ
  pub code_hash : Bytes
  pub token_controller : AccountId
  pub token_metadata : BasicMetadata

module _ (has_role : DeployerRole → Bool) (predecessor : AccountId) (attached_deposit : ℕ) where
  unfoldable pub deploy_token : AccountId → BasicMetadata → Exec TokenDeployer Deployment
  deploy_token account_id metadata = do
    require (has_role DeployerRole.controller || has_role DeployerRole.legacy_controller)
        "Insufficient permissions for method"
    code_hash ← gets (λ s. s.global_code_hash)
    pure record {
      account_id = account_id;
      transferred = attached_deposit;
      code_hash = code_hash;
      token_controller = predecessor;
      token_metadata = metadata;
    }

  unfoldable pub set_global_code_hash : Bytes → Exec TokenDeployer (Unit {0})
  set_global_code_hash code_hash = do
    require (has_role DeployerRole.dao) "Insufficient permissions for method"
    modify (λ s. record s { global_code_hash = code_hash })
