-- ===== src/Recovery/Replay.antt =====
-- The store and the role of a proxy (src/recovery/RecoveryProxy.hpp) along a run of causes.
use eu_nex.Common.{
  ℕ, suc, ◌+◌, ◌<◌, ◌≡◌, refl, List, [], ◌∷◌, ◌++◌, arith, length, length-append, add64, add64-eq,
  u64_mod,
}
use eu_nex.Common.Int.{ℤ}
use eu_nex.Recovery.{Fragment, RecoveryProxy, append, make_fragment, cause}

-- The fragments are numbered one by one from `n`, and each names its origin and its chain.
abbrev pub Numbered : ℕ → ℕ → ℕ → List Fragment → Type 0
Numbered origin_id origin_key n [] = Unit
Numbered origin_id origin_key n (f ∷ fs) =
    (f.sequence_number ≡ n)
    × (f.chain_id ≡ n)
    × (f.origin_id ≡ origin_id)
    × (f.origin_key ≡ origin_key)
    × Numbered origin_id origin_key (suc n) fs

Numbered-append :
    (i k n : ℕ) (fs : List Fragment) (f : Fragment)
    → Numbered i k n fs
    → Numbered i k (n + length fs) (f ∷ [])
    → Numbered i k n (fs ++ f ∷ [])
Numbered-append i k n [] f h last = ground arith
Numbered-append i k n (g ∷ gs) f h last =
    (h.0, h.1, h.2, h.3, Numbered-append i k (suc n) gs f h.4 (ground arith))

-- The store of a proxy holds all that the proxy has numbered, from 1 on.
pub record IsLogged (p : RecoveryProxy) : Type 0 where
  pub numbered : Numbered p.origin_id p.origin_key 1 p.store.fragments
  pub all : length p.store.fragments ≡ p.sequence_number

module _ {ℓ} {S : Type ℓ} where
  -- A cause whose sequence number does not wrap keeps the store numbered without a gap; the number
  -- that it gives back is that of the fragment that it appends.
  pub cause-IsLogged :
      (persistence_id : ℕ) (payload : List ℕ) (op : ℕ → ℕ → S → ℤ × S) (s : S) (p : RecoveryProxy)
      → p.sequence_number + 1 < u64_mod
      → IsLogged p
      → let (sequence, s', p') = cause persistence_id payload op s p in
        IsLogged p' × (sequence ≡ length p'.store.fragments) × (s' ≡ (op sequence sequence s).1)
  unfolding cause append
  cause-IsLogged persistence_id payload op s p h logged =
      let sequence = add64-eq p.sequence_number 1 h in
      let number = add64 p.sequence_number 1 in
      let f = make_fragment persistence_id payload number (op number number s).0 p in
      let grown = length-append p.store.fragments (f ∷ []) in
      (
        record {
          numbered =
              Numbered-append p.origin_id p.origin_key 1 p.store.fragments f logged.numbered
                (ground (arith, sequence, logged.all));
          all = omega (arith, sequence, grown, logged.all);
        },
        omega (arith, sequence, grown, logged.all),
        refl,
      )
