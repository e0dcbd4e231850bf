-- ===== src/Bridge/Frame.antt =====
-- Conditions on the contract that a call keeps because it does not write what they speak of.
pub mod Actions
pub mod Calls
use omni_bridge.Prelude.{ℕ, String}
use omni_bridge.Prelude.Maps.{LookupMap}
use omni_bridge.Types.Chain.{ChainKind}
use omni_bridge.Types.Codecs.{Bytes, AccountId}
use omni_bridge.Types.Transfer.{TransferId, FastTransferId}
use omni_bridge.Types.Messages.{OmniBridgeEvent}
use omni_bridge.Types.Stored.{TransferMessageStorage, FastTransferStatusStorage}
use omni_bridge.Host.{StorageBalance, Promise}
use omni_bridge.Exec.Keeps.{Keeps, keeps_rules, Keeps-modify, Keeps-gets}
use omni_bridge.Bridge.State.{Contract, State, Action, update, view, detach, log_event}

-- A condition on the contract, read in the state of a call.
pub record On (P : Contract → Type 0) (s : State) : Type 0 where
  pub at : P s.contract

-- `P` does not speak of balances, pending and fast transfers, nonces and yielded calls.
pub record Frame (P : Contract → Type 0) : Type 0 where
  pub balances :
      (c : Contract) (m : LookupMap AccountId StorageBalance)
      → P c
      → P (record c { accounts_balances = m })
  pub pending :
      (c : Contract) (m : LookupMap TransferId TransferMessageStorage)
      → P c
      → P (record c { pending_transfers = m })
  pub fast :
      (c : Contract) (m : LookupMap FastTransferId FastTransferStatusStorage)
      → P c
      → P (record c { fast_transfers = m })
  pub origin_nonce : (c : Contract) (n : ℕ) → P c → P (record c { current_origin_nonce = n })
  pub destination_nonces :
      (c : Contract) (m : LookupMap ChainKind ℕ) → P c → P (record c { destination_nonces = m })
  pub promises :
      (c : Contract) (m : LookupMap AccountId Bytes)
      → P c
      → P (record c { init_transfer_promises = m })

module _ {P : Contract → Type 0} where
  pub Keeps-update :
      (f : Contract → Contract) → ((c : Contract) → P c → P (f c)) → Keeps (On P) (update f)
  unfolding update
  Keeps-update f h = Keeps-modify _ (λ s p. record { at = h s.contract p.at })

  pub Keeps-view : {A : Type 0} (f : Contract → A) → Keeps (On P) (view f)
  unfolding view
  Keeps-view f = Keeps-gets _

  pub Keeps-detach : (p : Promise) → Keeps (On P) (detach p)
  unfolding detach
  Keeps-detach p = Keeps-modify _ (λ s h. record { at = h.at })

  pub Keeps-log_event : (e : OmniBridgeEvent) → Keeps (On P) (log_event e)
  unfolding log_event
  Keeps-log_event e = Keeps-modify _ (λ s h. record { at = h.at })

pub ruleset frame_rules = (keeps_rules, Keeps-update, Keeps-view, Keeps-detach, Keeps-log_event)
