-- ===== src/Recovery/Tests.antt =====
-- The theorem about src/recovery/RecoveryProxy.hpp at a proxy that has logged one cause.
use eu_nex.Common.{ℕ, suc, ◌≡◌, refl, true, [], ◌∷◌, arith, length}
use eu_nex.Common.Int.{ℤ, pos}
use eu_nex.Recovery.{RecoveryProxy, cause}
use eu_nex.Recovery.Replay.{IsLogged, cause-IsLogged}

abbrev proxy : RecoveryProxy
proxy = record {
  origin_id = 3;
  origin_key = 9;
  store = record {
    fragments =
        record {
          sequence_number = 1;
          origin_id = 3;
          origin_key = 9;
          chain_id = 1;
          persistence_id = 2;
          next_count = pos 0;
          payload = 7 ∷ [];
        }
        ∷ [];
  };
  is_master = true;
  sequence_number = 1;
}

-- The operation counts its calls.
abbrev count : ℕ → ℕ → ℕ → ℤ × ℕ
count chain sequence s = (pos 0, suc s)

cause-IsLogged_example :
    let (sequence, s', p') = cause 2 (4 ∷ []) count 10 proxy in
    IsLogged p' × (sequence ≡ length p'.store.fragments) × (s' ≡ 11)
cause-IsLogged_example =
    cause-IsLogged 2 (4 ∷ []) count 10 proxy (omega arith)
      (record { numbered = (refl, refl, refl, refl, tt); all = refl })
