-- ===== src/Iaca/Tests.antt =====
-- The theorems about src/iaca/IacaAggregator.cpp at a chain of two fragments.
use mathlib.Core.List.{Permᴰ}
use eu_nex.Common.{ℕ, ◌≡◌, refl, false, [], ◌∷◌, All, arith, add64}
use eu_nex.Common.Int.{pos}
use eu_nex.Iaca.{
  Origin, null, new_order_buy, ack_data, IacaFragment, IacaAggregator, can_process_new_order,
  check_complete, add_fragment, all_satisfied, child_count,
}
use eu_nex.Iaca.Chains.{AllPending, IsHandedOut, add_fragment-AllPending}
use eu_nex.Iaca.Arrival.{check_complete-perm}

abbrev origin : ℕ → Origin
origin n = record { origin_id = 1; key = 7; sequence_number = n }

abbrev root : IacaFragment
root = record {
  chain_id = 5;
  origin = origin 1;
  previous_origin = null;
  next_count = pos 1;
  cause_id = new_order_buy;
  payload = 1 ∷ 2 ∷ [];
}

abbrev leaf : IacaFragment
leaf = record {
  chain_id = 5;
  origin = origin 2;
  previous_origin = origin 1;
  next_count = pos 0;
  cause_id = ack_data;
  payload = [];
}

-- The root waits for its leaf.
abbrev waiting : IacaAggregator
waiting = record {
  chains = (5, record { chain_id = 5; fragments = root ∷ []; complete = false }) ∷ [];
  handlers = record { can_process = λ c. can_process_new_order c.fragments; process = 1 } ∷ [];
  completed_count = 0;
}

leaf_completes : (add_fragment leaf waiting).0.completed_count ≡ 1
unfolding add_fragment check_complete child_count all_satisfied add64
leaf_completes = ground arith

add_fragment-AllPending_example :
    let (a', calls) = add_fragment leaf waiting in
    AllPending a' × All (λ call. IsHandedOut call.1) calls
unfolding check_complete all_satisfied child_count
add_fragment-AllPending_example = add_fragment-AllPending leaf waiting ((refl, refl, refl), tt)

check_complete-perm_example :
    check_complete (record { chain_id = 5; fragments = leaf ∷ root ∷ []; complete = false })
    ≡ check_complete (record { chain_id = 5; fragments = root ∷ leaf ∷ []; complete = false })
check_complete-perm_example =
    check_complete-perm (record { chain_id = 5; fragments = leaf ∷ root ∷ []; complete = false })
      (record { chain_id = 5; fragments = root ∷ leaf ∷ []; complete = false })
      ∣ Permᴰ.swap refl refl ∣₁
