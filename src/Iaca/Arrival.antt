-- ===== src/Iaca/Arrival.antt =====
-- Whether a chain is complete (`checkComplete` of src/iaca/IacaAggregator.cpp) does not depend on
-- the order in which its fragments arrived.
use mathlib.Core.Logic.{∥∥₁_elim}
use mathlib.Core.Bool.{Bool-set}
use mathlib.Core.List.{Perm, Permᴰ}
use eu_nex.Common.{◌≡◌, refl, ◌∙◌, List, [], ◌∷◌, is_empty, arith}
use eu_nex.Iaca.{Origin, IacaFragment, FragmentChain, child_count, all_satisfied, check_complete}

child_count-perm :
    (o : Origin) {fs gs : List IacaFragment} → Permᴰ fs gs → child_count o fs ≡ child_count o gs
unfolding child_count
child_count-perm o Permᴰ.nil = refl
child_count-perm o (Permᴰ.cons e p) = let rest = child_count-perm o p in cc
child_count-perm o (Permᴰ.swap d e) = rw (d, e) (ground arith)
child_count-perm o (Permᴰ.trans p q) = child_count-perm o p ∙ child_count-perm o q

all_satisfied-all :
    {all all' : List IacaFragment} (fs : List IacaFragment)
    → Permᴰ all all'
    → all_satisfied all fs ≡ all_satisfied all' fs
unfolding all_satisfied
all_satisfied-all [] p = refl
all_satisfied-all (f ∷ fs) p = rw (child_count-perm f.origin p, all_satisfied-all fs p) refl

all_satisfied-perm :
    (all : List IacaFragment) {fs gs : List IacaFragment}
    → Permᴰ fs gs
    → all_satisfied all fs ≡ all_satisfied all gs
unfolding all_satisfied
all_satisfied-perm all Permᴰ.nil = refl
all_satisfied-perm all (Permᴰ.cons e p) = let rest = all_satisfied-perm all p in cc
all_satisfied-perm all (Permᴰ.swap d e) = rw (d, e) (ground arith)
all_satisfied-perm all (Permᴰ.trans p q) = all_satisfied-perm all p ∙ all_satisfied-perm all q

is_empty-perm : {fs gs : List IacaFragment} → Permᴰ fs gs → is_empty fs ≡ is_empty gs
is_empty-perm Permᴰ.nil = refl
is_empty-perm (Permᴰ.cons e p) = refl
is_empty-perm (Permᴰ.swap d e) = refl
is_empty-perm (Permᴰ.trans p q) = is_empty-perm p ∙ is_empty-perm q

-- Two chains whose fragments are the same, each as often and in any order, are both complete or
-- both not.
pub check_complete-perm :
    (c d : FragmentChain) → Perm c.fragments d.fragments → check_complete c ≡ check_complete d
unfolding check_complete
check_complete-perm c d same = ∥∥₁_elim same (Bool-set _ _) (λ p.
    rw (all_satisfied-all c.fragments p, all_satisfied-perm d.fragments p, is_empty-perm p) refl)
