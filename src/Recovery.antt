-- ===== src/Recovery.antt =====
-- src/recovery/RecoveryProxy.hpp: the recovery fragments of causes, and the effects that only the
-- master, or only a mirror, carries out. The store of src/persistence/PersistenceStore.hpp in
-- memory is the same list under a lock. The operation of a cause and the functions of effects are
-- arguments; the operation acts on a state `S` of its own. A store belongs to one proxy, though the
-- code lets proxies share one, and lets an operation reach it.
pub mod Replay
pub mod Tests
use eu_nex.Common.{ℕ, Bool, not, List, [], ◌∷◌, ◌++◌, if◌then◌else◌, length, add64}
use eu_nex.Common.Int.{ℤ}

-- The payload is the list of its bytes, `payloadSize` long.
pub record Fragment : Type 0 where
  pub sequence_number : ℕ
  pub origin_id : ℕ
  pub origin_key : ℕ
  pub chain_id : ℕ
  pub persistence_id : ℕ
  pub next_count : ℤ
  pub payload : List ℕ

pub record FragmentStore : Type 0 where
  pub fragments : List Fragment

unfoldable pub append : Fragment → FragmentStore → FragmentStore
append f s = record { fragments = s.fragments ++ f ∷ [] }

unfoldable pub size : FragmentStore → ℕ
size s = length s.fragments

unfoldable pub clear : FragmentStore → FragmentStore
clear s = record { fragments = [] }

pub record RecoveryProxy : Type 0 where
  pub origin_id : ℕ
  pub origin_key : ℕ
  pub store : FragmentStore
  pub is_master : Bool
  pub sequence_number : ℕ

unfoldable pub new_proxy : ℕ → ℕ → FragmentStore → Bool → RecoveryProxy
new_proxy origin_id origin_key store is_master = record {
  origin_id = origin_id;
  origin_key = origin_key;
  store = store;
  is_master = is_master;
  sequence_number = 0;
}

unfoldable pub set_master : Bool → RecoveryProxy → RecoveryProxy
set_master v p = record p { is_master = v }

-- The chain is named by the sequence number.
abbrev pub make_fragment : ℕ → List ℕ → ℕ → ℤ → RecoveryProxy → Fragment
make_fragment persistence_id payload sequence next_count p = record {
  sequence_number = sequence;
  origin_id = p.origin_id;
  origin_key = p.origin_key;
  chain_id = sequence;
  persistence_id = persistence_id;
  next_count = next_count;
  payload = payload;
}

module _ {ℓ} {S : Type ℓ} where
  -- The operation gets the chain's identifier and the sequence number, and gives `nextCount`.
  unfoldable pub cause :
      ℕ → List ℕ → (ℕ → ℕ → S → ℤ × S) → S → RecoveryProxy → ℕ × S × RecoveryProxy
  unfolding append
  cause persistence_id payload op s p =
      let sequence = add64 p.sequence_number 1 in
      let (next_count, s') = op sequence sequence s in
      (
        sequence,
        s',
        record p {
          sequence_number = sequence;
          store = append (make_fragment persistence_id payload sequence next_count p) p.store;
        },
      )

  unfoldable pub effect : (S → S) → S → RecoveryProxy → S
  effect fn s p = if p.is_master then fn s else s

  unfoldable pub recovery_effect : (S → S) → S → RecoveryProxy → S
  recovery_effect fn s p = if not p.is_master then fn s else s
