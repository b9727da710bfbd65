-- ===== src/Iaca.antt =====
-- src/iaca/Fragment.hpp, src/iaca/IacaAggregator.hpp and src/iaca/IacaAggregator.cpp: fragments are
-- collected into chains, and a chain that is complete is handed to the handlers. The calls of
-- `process` are the list of the handler's number and the chain, in order.
pub mod Chains
pub mod Arrival
pub mod Tests
use eu_nex.Common.{
  ℕ, suc, Bool, true, false, not, ◌&&◌, ◌||◌, List, [], ◌∷◌, ◌++◌, Option, none, some, ◌==◌,
  if◌then◌else◌, is_empty, keep, length, lookup, insert, erase, get_or, add64,
}
use eu_nex.Common.Int.{ℤ, pos, eq_ℤ}

pub record Origin : Type 0 where
  pub origin_id : ℕ
  pub key : ℕ
  pub sequence_number : ℕ

abbrev pub null : Origin
null = record { origin_id = 0xFFFF; key = 0; sequence_number = 0 }

abbrev pub eq_origin : Origin → Origin → Bool
eq_origin a b =
    a.origin_id == b.origin_id && (a.key == b.key && a.sequence_number == b.sequence_number)

unfoldable pub is_null : Origin → Bool
is_null o = o.origin_id == 0xFFFF && (o.key == 0 && o.sequence_number == 0)

pub data CauseId : Type 0 where
  new_order_buy new_order_sell cancel_order modify_order : CauseId
  ack_data trade_data limit_update imp_result market_status : CauseId

-- The payload is the list of its bytes, `payloadSize` long.
pub record IacaFragment : Type 0 where
  pub chain_id : ℕ
  pub origin : Origin
  pub previous_origin : Origin
  pub next_count : ℤ
  pub cause_id : CauseId
  pub payload : List ℕ

pub record FragmentChain : Type 0 where
  pub chain_id : ℕ
  pub fragments : List IacaFragment
  pub complete : Bool

-- The inner loop: how many fragments come next after this origin.
unfoldable pub child_count : Origin → List IacaFragment → ℕ
child_count o [] = 0
child_count o (f ∷ fs) =
    if eq_origin f.previous_origin o then suc (child_count o fs) else child_count o fs

-- The outer loop, over `fs`.
unfoldable pub all_satisfied : List IacaFragment → List IacaFragment → Bool
unfolding child_count
all_satisfied all [] = true
all_satisfied all (f ∷ fs) =
    if eq_ℤ (pos (child_count f.origin all)) f.next_count then all_satisfied all fs else false

unfoldable pub check_complete : FragmentChain → Bool
unfolding all_satisfied
check_complete c = all_satisfied c.fragments c.fragments && not (is_empty c.fragments)

-- A handler: `canProcess`, and a number that stands for its `process`.
pub record FragmentHandler : Type 0 where
  pub can_process : FragmentChain → Bool
  pub process : ℕ

pub record IacaAggregator : Type 0 where
  pub chains : List (ℕ × FragmentChain)
  pub handlers : List FragmentHandler
  pub completed_count : ℕ

abbrev pub new_aggregator : IacaAggregator
new_aggregator = record { chains = []; handlers = []; completed_count = 0 }

unfoldable pub register_handler : FragmentHandler → IacaAggregator → IacaAggregator
register_handler h a = record a { handlers = a.handlers ++ h ∷ [] }

-- The loop over the handlers.
unfoldable pub dispatch : FragmentChain → List FragmentHandler → List (ℕ × FragmentChain)
dispatch c [] = []
dispatch c (h ∷ hs) =
    let rest = dispatch c hs in if h.can_process c then (h.process, c) ∷ rest else rest

abbrev pub complete_chain :
    ℕ → Option FragmentChain → IacaAggregator → IacaAggregator × List (ℕ × FragmentChain)
complete_chain id none a = (a, [])
complete_chain id (some c) a =
    if check_complete c
    then (
      record a { chains = erase id a.chains; completed_count = add64 a.completed_count 1 },
      dispatch (record c { complete = true }) a.handlers,
    )
    else (a, [])

unfoldable pub try_complete : ℕ → IacaAggregator → IacaAggregator × List (ℕ × FragmentChain)
try_complete id a = complete_chain id (lookup id a.chains) a

-- The chain that `chains_[id]` makes for an identifier that is not there.
abbrev pub no_chain : FragmentChain
no_chain = record { chain_id = 0; fragments = []; complete = false }

abbrev pub extend : IacaFragment → FragmentChain → FragmentChain
extend f c = record c { chain_id = f.chain_id; fragments = c.fragments ++ f ∷ [] }

unfoldable pub add_fragment :
    IacaFragment → IacaAggregator → IacaAggregator × List (ℕ × FragmentChain)
unfolding try_complete
add_fragment f a =
    let c = extend f (get_or (lookup f.chain_id a.chains) no_chain) in
    try_complete f.chain_id (record a { chains = insert f.chain_id c a.chains })

abbrev pub starts_order : CauseId → Bool
starts_order new_order_buy = true
starts_order new_order_sell = true
starts_order _ = false

-- `NewOrderHandler::canProcess`
unfoldable pub can_process_new_order : List IacaFragment → Bool
can_process_new_order [] = false
can_process_new_order (f ∷ fs) = starts_order f.cause_id || can_process_new_order fs
