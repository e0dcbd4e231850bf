-- ===== src/Solana/Witnesses.antt =====
-- Concrete runs of the Solana program.
use omni_bridge.Prelude.{
  ℕ, Bool, true, false, ◌||◌, ◌≡◌, ◌≢◌, refl, ap, subst, ◌≤◌, ◌+◌, ◌-◌, Option, none, some, List,
  [], ◌∷◌, ◌++◌, leb, length, if◌then◌else◌, arith,
}
use omni_bridge.Prelude.Equality.{◌==◌, list_eq, nat_eq, beq_ne, beq_self}
use omni_bridge.Prelude.Maps.{add, insert}
use omni_bridge.Prelude.Result.{ok, err}
use omni_bridge.Types.Codecs.{Bytes}
use omni_bridge.Exec.{◌>>=◌}
use omni_bridge.Exec.Keeps.{Triple}
use omni_bridge.Solana.State.{
  load_config, invoke, pay_positive, pay, store_config, post_message, Pubkey, Text, default_key,
  Config, Borsh, Runtime, Program,
}
use omni_bridge.Solana.Messages.{
  verify_signature, finalize_transfer_for_near, finalized_for_near, init_transfer_for_near,
  deploy_token_for_near, FinalizeTransferPayload, TransferId, InitTransferPayload,
  DeployTokenPayload,
}
use omni_bridge.Solana.Messages.Unique.{
  BorshLaws, ∷-injective, finalize_transfer_for_near_unique, deploy_token_for_near_unique,
  kinds-differ,
}
use omni_bridge.Solana.Nonces.{
  open_used_nonces, rent_level, full_rent, replace_slot, load, raise_nonce, use_nonce,
  settle_reserve, expected_reserve,
}
use omni_bridge.Solana.Nonces.Set.{mark, is_used}
use omni_bridge.Solana.Transfers.{
  init_transfer_sol, post_init_transfer, init_allowed, finalize_transfer_sol, to_u64,
  post_finalized, InitTransferSol,
}
use omni_bridge.Solana.Transfers.Payments.{init_transfer_sol-ok}
use omni_bridge.Solana.Admin.{pause}
use omni_bridge.Prelude.Words.{u64_max}
use omni_bridge.Solana.Calls.{Instruction}
use omni_bridge.Solana.Instructions.{process, execute, accepted}
use omni_bridge.Solana.Reserve.{MovesLamports, use_nonce-Holds}
use omni_bridge.Solana.Replay.{member, AllDifferent, execute-used, accepted-once}
use omni_bridge.Solana.Access.{process-IsAuthorised}
use omni_bridge.Solana.Witnesses.Sample.{
  moved, move, admin, payer, borsh, runtime, Ledger, moves, borsh-laws,
}
mod Sample

abbrev transfer_id : TransferId
transfer_id = record { origin_chain = 1; origin_nonce = 77 }

abbrev arrival : ℕ → FinalizeTransferPayload
arrival nonce = record {
  destination_nonce = nonce;
  transfer_id = transfer_id;
  amount = 500;
  fee_recipient = some (13 ∷ []);
}

abbrev finalize : ℕ → Instruction
finalize nonce =
    Instruction.finalize_transfer_sol record { recipient = 14 ∷ []; payer = payer }
      record { payload = arrival nonce; signature = []; recovery_id = 0 }

abbrev config : Config
config = record {
  admin = admin;
  max_used_nonce = 0;
  derived_near_bridge_address = 12 ∷ [];
  bumps = record {
    config = 255;
    authority = 254;
    sol_vault = 253;
    wormhole = record { bridge = 252; fee_collector = 251; sequence = 250 };
  };
  paused = 0;
  pausable_admin = 15 ∷ [];
  metadata_admin = 16 ∷ [];
}

abbrev program : Program Ledger
program = record { config = some config; used_nonces = λ _. none; ledger = λ _. 1000000 }

abbrev transactions : List Instruction
transactions = finalize 5 ∷ finalize 5 ∷ []

-- The repeated finalisation fails.
accepted-transactions : accepted runtime transactions program ≡ 5 ∷ []
unfolding accepted process finalize_transfer_sol ◌>>=◌ load_config open_used_nonces invoke
    verify_signature use_nonce expected_reserve rent_level raise_nonce full_rent settle_reserve
    pay_positive pay replace_slot load to_u64 add insert store_config post_message post_finalized
    finalize_transfer_for_near finalized_for_near
accepted-transactions = refl

execute-used_example :
    is_used (execute runtime transactions program).used_nonces 5
    ≡ (member 5 (accepted runtime transactions program) || is_used program.used_nonces 5)
execute-used_example = execute-used runtime transactions program 5

accepted-once_example :
    AllDifferent (accepted runtime transactions program)
    × ((j : ℕ)
        → member j (accepted runtime transactions program) ≡ true
        → is_used program.used_nonces j ≡ false)
accepted-once_example = accepted-once runtime transactions program

abbrev paused_config : Config
paused_config = record config { paused = 3 }

abbrev paused : Program Ledger
paused = record program { config = some paused_config }

pause-run : process runtime (Instruction.pause admin) program ≡ ok (tt, paused)
unfolding process pause load_config store_config ◌>>=◌
pause-run = refl

process-IsAuthorised_example :
    ((admin == config.pausable_admin || admin == config.admin) ≡ true)
    × (paused.config ≡ some paused_config)
process-IsAuthorised_example =
    process-IsAuthorised runtime config (Instruction.pause admin) program refl pause-run

payer_ne : payer ≢ runtime.authority
payer_ne h = ground (arith, (∷-injective h).0)

use_nonce-Holds_example :
    Triple
      (λ _. Unit {0})
      (use_nonce runtime 5 payer config)
      (λ d s.
        (d ≡ raise_nonce 5 config)
        × (expected_reserve runtime d.max_used_nonce ≡ some (s.ledger (3 ∷ []))))
use_nonce-Holds_example = use_nonce-Holds runtime moves 5 payer config payer_ne

abbrev departure : InitTransferPayload
departure = record { amount = 500; recipient = 17 ∷ []; fee = 0; native_fee = 100; message = [] }

abbrev sender : InitTransferSol
sender = record { user = payer; payer = payer }

abbrev departed : Program Ledger
departed = record program {
  ledger = moved payer (6 ∷ []) 10 (moved payer (4 ∷ []) 600 program.ledger);
}

init_transfer_sol-run : init_transfer_sol runtime sender departure program ≡ ok (tt, departed)
unfolding init_transfer_sol load_config invoke pay_positive pay to_u64 post_message
    post_init_transfer init_transfer_for_near ◌>>=◌
init_transfer_sol-run = refl

init_transfer_sol-ok_example :
    (c : Config) × (l : Ledger) × (some config ≡ some c)
    × (init_allowed c ≡ true)
    × (departure.fee ≡ 0)
    × (departure.native_fee + departure.amount ≤ u64_max)
    × (move payer (4 ∷ []) 600 program.ledger ≡ some l)
    × (post_init_transfer runtime departure payer default_key payer (record program { ledger = l })
        ≡ ok (tt, departed))
init_transfer_sol-ok_example =
    init_transfer_sol-ok runtime sender departure program init_transfer_sol-run

finalize_transfer_for_near_unique_example :
    (arrival 5 ≡ arrival 5) × (default_key ≡ default_key) × (default_key ≡ default_key)
finalize_transfer_for_near_unique_example =
    finalize_transfer_for_near_unique borsh borsh-laws (arrival 5) (arrival 5) default_key
      default_key default_key default_key (omega arith, omega arith, omega arith)
      (omega arith, omega arith, omega arith) refl refl refl refl refl

abbrev deployment : DeployTokenPayload
deployment = record { token = 18 ∷ []; name = 19 ∷ []; symbol = 20 ∷ []; decimals = 24 }

deploy_token_for_near_unique_example : deployment ≡ deployment
deploy_token_for_near_unique_example =
    deploy_token_for_near_unique borsh borsh-laws deployment deployment
      (omega arith, omega arith, omega arith) (omega arith, omega arith, omega arith) refl

kinds-differ_example :
    finalize_transfer_for_near borsh (arrival 5) default_key default_key
    ≢ deploy_token_for_near borsh deployment
kinds-differ_example = kinds-differ borsh (arrival 5) deployment default_key default_key
