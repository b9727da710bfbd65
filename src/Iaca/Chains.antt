-- ===== src/Iaca/Chains.antt =====
-- The chains that `addFragment` of src/iaca/IacaAggregator.cpp keeps waiting.
use eu_nex.Common.{
  ℕ, ◌≡◌, refl, ap, true, false, List, [], ◌∷◌, some, ◌==◌, All, lookup, insert, erase, get_or,
  lookup-insert, Bool-cases, inl, inr, arith,
}
use eu_nex.Iaca.{
  IacaFragment, FragmentHandler, FragmentChain, dispatch, IacaAggregator, check_complete,
  try_complete, complete_chain, extend, no_chain, add_fragment,
}

-- A chain that waits: it is stored under its identifier, and neither complete nor marked as such.
abbrev pub IsPending : ℕ × FragmentChain → Type 0
IsPending (id, c) = (c.chain_id ≡ id) × (c.complete ≡ false) × (check_complete c ≡ false)

abbrev pub AllPending : IacaAggregator → Type 0
AllPending a = All IsPending a.chains

All-insert {ℓ} :
    {V : Type 0} (P : ℕ × V → Type ℓ) (k : ℕ) (v : V) (m : List (ℕ × V))
    → P (k, v)
    → All P m
    → All P (insert k v m)
All-insert P k v [] h all = (h, tt)
All-insert P k v (e ∷ m) h all = elim (Bool-cases (e.0 == k)) [
  | inl same ↦ rw same (h, all.1)
  | inr other ↦ rw other (all.0, All-insert P k v m h all.1)
]

erase-insert : {V : Type 0} (k : ℕ) (v : V) (m : List (ℕ × V)) → erase k (insert k v m) ≡ erase k m
erase-insert k v [] = ground arith
erase-insert k v (e ∷ m) = ground (arith, erase-insert k v m)

All-erase {ℓ} :
    {V : Type 0} (P : ℕ × V → Type ℓ) (k : ℕ) (m : List (ℕ × V)) → All P m → All P (erase k m)
All-erase P k [] all = tt
All-erase P k (e ∷ m) all = elim (Bool-cases (e.0 == k)) [
  | inl same ↦ rw same all.1
  | inr other ↦ rw other (all.0, All-erase P k m all.1)
]

-- The chain of a fragment is not marked as complete when the fragment arrives.
looked_up-incomplete :
    (k : ℕ) (m : List (ℕ × FragmentChain))
    → All IsPending m
    → (get_or (lookup k m) no_chain).complete ≡ false
looked_up-incomplete k [] all = refl
looked_up-incomplete k ((j, c) ∷ m) all = elim (Bool-cases (j == k)) [
  | inl same ↦ rw same all.0.1
  | inr other ↦ rw other (looked_up-incomplete k m all.1)
]

dispatch-All :
    (P : FragmentChain → Type 0) (c : FragmentChain) (hs : List FragmentHandler)
    → P c
    → All (λ call. P call.1) (dispatch c hs)
unfolding dispatch
dispatch-All P c [] h = tt
dispatch-All P c (g ∷ gs) h = elim (Bool-cases (g.can_process c)) [
  | inl can ↦ rw can (h, dispatch-All P c gs h)
  | inr cannot ↦ rw cannot (dispatch-All P c gs h)
]

add_fragment-eq :
    (f : IacaFragment) (a : IacaAggregator)
    → let c = extend f (get_or (lookup f.chain_id a.chains) no_chain) in
      add_fragment f a
      ≡ complete_chain f.chain_id (some c) (record a { chains = insert f.chain_id c a.chains })
unfolding add_fragment try_complete
add_fragment-eq f a =
    let c = extend f (get_or (lookup f.chain_id a.chains) no_chain) in
    let a1 = record a { chains = insert f.chain_id c a.chains } in
    let found : lookup f.chain_id a1.chains ≡ some c =
      ground (arith, lookup-insert f.chain_id f.chain_id c a.chains) in
    ap (λ r. complete_chain f.chain_id r a1) found

-- What is handed to the handlers is complete, and marked as such.
abbrev pub IsHandedOut : FragmentChain → Type 0
IsHandedOut c = (check_complete c ≡ true) × (c.complete ≡ true)

-- An aggregator in which every chain waits for a fragment and stands under its identifier stays so
-- when a fragment is added; and each chain that the handlers get then is complete and marked.
pub add_fragment-AllPending :
    (f : IacaFragment) (a : IacaAggregator)
    → AllPending a
    → let (a', calls) = add_fragment f a in AllPending a' × All (λ call. IsHandedOut call.1) calls
unfolding check_complete
add_fragment-AllPending f a pending =
    let c = extend f (get_or (lookup f.chain_id a.chains) no_chain) in
    elim (Bool-cases (check_complete c)) [
      | inl done ↦
          rw (add_fragment-eq f a, done, erase-insert f.chain_id c a.chains)
            (
              All-erase IsPending f.chain_id a.chains pending,
              dispatch-All IsHandedOut (record c { complete = true }) a.handlers (done, refl),
            )
      | inr waits ↦
          rw (add_fragment-eq f a, waits)
            (
              All-insert IsPending f.chain_id c a.chains
                  (refl, looked_up-incomplete f.chain_id a.chains pending, waits) pending,
              tt,
            )
    ]
