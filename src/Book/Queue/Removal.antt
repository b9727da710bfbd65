-- ===== src/Book/Queue/Removal.antt =====
-- `cancelOrder` (src/common/Book.cpp) finds an order by the table `orderIndex_`: that is to take it
-- out of its queue.
use eu_nex.Common.{
  ℕ, ◌≡◌, refl, sym, ap, ◌∙◌, ◌≢◌, List, [], ◌∷◌, ◌++◌, Option, none, some, arith, All-append,
  Bool-cases, Option-cases, inl, inr, ◌==◌, ◌>>=◌,
}
use eu_nex.Common.Int.{ℤ, eq_ℤ, eq_ℤ→eq}
use eu_nex.Types.{Side, Order}
use eu_nex.Book.Levels.{Levels, Index, index_find}
use eu_nex.Book.Levels.Sides.{IsSorted}
use eu_nex.Book.Levels.Index.{Indexed, Without, AllWithout, Without-elsewhere, AllWithout-behind}
use eu_nex.Book.Cancel.{take_order, take_at}
use eu_nex.Book.Indexed.Cancel.{take_order-Without}
use eu_nex.Book.Queue.Flat.{flat, flat-keep_level}

take_order-append_left :
    (id : ℕ) (os rs : List Order)
    → Without id rs
    → take_order id (os ++ rs) ≡ (take_order id os >>= λ (o, os'). some (o, os' ++ rs))
unfolding take_order
take_order-append_left id [] rs h = take_order-Without id rs h
take_order-append_left id (x ∷ os) rs h = elim (Bool-cases (x.order_id == id)) [
  | inl e ↦ rw e refl
  | inr e ↦ elim (Option-cases (take_order id os)) [
    | inl missing ↦ rw (e, take_order-append_left id os rs h, missing) refl
    | inr (r, found) ↦ rw (e, take_order-append_left id os rs h, found) refl
  ]
]

take_order-append_right :
    (id : ℕ) (os rs : List Order)
    → Without id os
    → take_order id (os ++ rs) ≡ (take_order id rs >>= λ (o, rs'). some (o, os ++ rs'))
unfolding take_order
take_order-append_right id [] rs h = elim (Option-cases (take_order id rs)) [
  | inl e ↦ rw e refl
  | inr (r, e) ↦ rw e refl
]
take_order-append_right id (x ∷ os) rs h = elim (Bool-cases (x.order_id == id)) [
  | inl e ↦ ground arith
  | inr e ↦ elim (Option-cases (take_order id rs)) [
    | inl missing ↦ rw (e, take_order-append_right id os rs h.1, missing) refl
    | inr (r, found) ↦ rw (e, take_order-append_right id os rs h.1, found) refl
  ]
]

pub flat-Without : (id : ℕ) (ls : Levels) → AllWithout id ls → Without id (flat ls)
unfolding flat
flat-Without id [] h = tt
flat-Without id (l ∷ ls) h =
    All-append (λ o. o.order_id ≢ id) l.orders (flat ls) h.0 (flat-Without id ls h.1)

abbrev pub flat_taken : Option (Order × Levels) → Option (Order × List Order)
flat_taken t = t >>= λ (o, ls). some (o, flat ls)

-- What is taken at the price that the table gives is what is taken out of the queue.
pub take_at-flat :
    (s : Side) (id : ℕ) (p : ℤ) (m : Index) (ls : Levels)
    → index_find id m ≡ some (s, p)
    → IsSorted s ls
    → Indexed s m ls
    → flat_taken (take_at id p ls) ≡ take_order id (flat ls)
unfolding flat take_at
take_at-flat s id p m [] there sorted i = sym (take_order-Without id [] tt)
take_at-flat s id p m (l ∷ ls) there sorted i = elim (Bool-cases (eq_ℤ p l.price)) [
  | inl same ↦
      let at_price : index_find id m ≡ some (s, l.price) =
        there ∙ ap (λ q. some (s, q)) (eq_ℤ→eq p l.price same) in
      let clear = flat-Without id ls (AllWithout-behind s l.price id m ls at_price sorted.0 i.1) in
      elim (Option-cases (take_order id l.orders)) [
        | inl e ↦ rw (same, take_order-append_left id l.orders (flat ls) clear, e) refl
        | inr ((o, os), e) ↦
            rw (same, take_order-append_left id l.orders (flat ls) clear, e)
              (ap (λ rest. some (o, rest)) (flat-keep_level l os ls))
      ]
  | inr differ ↦
      let clear = Without-elsewhere s l.price id m l.orders (λ e. ground arith) i.0 in
      let rest = take_at-flat s id p m ls there sorted.1 i.1 in
      let beyond = take_order-append_right id l.orders (flat ls) clear in
      elim (Option-cases (take_at id p ls)) [
        | inl e ↦
            let gone : take_order id (flat ls) ≡ none = sym rest ∙ ap flat_taken e in
            rw (differ, e, beyond, gone) refl
        | inr ((o, rs), e) ↦
            let found : take_order id (flat ls) ≡ some (o, flat rs) = sym rest ∙ ap flat_taken e in
            rw (differ, e, beyond, found) refl
      ]
]
