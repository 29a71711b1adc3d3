-- ===== src/Session/Cards/Best.antt =====
-- internal/service/pool_service.go, `bestActionableItem`: it finds a minimum of the order on cards.
use wordbit_advanced.Prelude.{
  ◌≡◌, true, false, Option, none, some, List, [], ◌∷◌, arith, All, In, inl, inr, refl, if_elim,
}
use wordbit_advanced.Domain.{DailyLearningPoolItem}
use wordbit_advanced.Session.Cards.{best_from, best_actionable_item, comes_first}

In-skip : {A : Type 0} (a b c : A) (l : List A) → In a (b ∷ l) → In a (b ∷ c ∷ l)
In-skip a b c l (inl e) = inl e
In-skip a b c l (inr i) = inr (inr i)

module _ {F : Type 0} where
  comes_first_irrefl : (a : DailyLearningPoolItem F) → comes_first a a ≡ false
  comes_first_irrefl a = ground arith

  -- If b does not come before a, and a not after c, then b does not come before c.
  comes_first_trans :
      (a b c : DailyLearningPoolItem F)
      → comes_first b a ≡ false
      → comes_first c b ≡ false
      → comes_first c a ≡ false
  comes_first_trans a b c h k = ground arith

  beaten :
      (a b c : DailyLearningPoolItem F)
      → comes_first a c ≡ false
      → comes_first a b ≡ true
      → comes_first b c ≡ false
  beaten a b c h k = ground arith

  -- No card of the list comes before it.
  abbrev pub IsFirst : List (DailyLearningPoolItem F) → DailyLearningPoolItem F → Type 0
  IsFirst items card = All (λ item. comes_first item card ≡ false) items

  IsFirst-trans :
      (items : List (DailyLearningPoolItem F)) (a b : DailyLearningPoolItem F)
      → IsFirst items a
      → comes_first a b ≡ false
      → IsFirst items b
  IsFirst-trans [] a b first h = tt
  IsFirst-trans (item ∷ items) a b (f, first) h =
      (comes_first_trans b a item h f, IsFirst-trans items a b first h)

  -- A card of the list that none of the list comes before.
  abbrev pub IsBest : List (DailyLearningPoolItem F) → Option (DailyLearningPoolItem F) → Type 0
  IsBest items none = items ≡ []
  IsBest items (some card) = In card items × IsFirst items card

  best_from-IsBest :
      (items : List (DailyLearningPoolItem F)) (selected : DailyLearningPoolItem F)
      → IsBest (selected ∷ items) (some (best_from selected items))
  unfolding best_from
  best_from-IsBest [] selected = (inl refl, (comes_first_irrefl selected, tt))
  best_from-IsBest (item ∷ items) selected =
      if_elim (λ s. IsBest (selected ∷ item ∷ items) (some (best_from s items)))
        (comes_first item selected)
        (λ t.
          let (there, (top, first)) = best_from-IsBest items item in
          (inr there, (beaten item selected (best_from item items) top t, (top, first))))
        (λ f.
          let (there, (top, first)) = best_from-IsBest items selected in
          (
            In-skip (best_from selected items) selected item items there,
            (top, (comes_first_trans (best_from selected items) selected item top f, first)),
          ))

  -- The card that `bestActionableItem` picks is one of the list, and no card of the list comes before it:
  -- by its priority, then the due time with none last, then the ordinal; it picks none only from [].
  pub best_actionable_item-IsBest :
      (items : List (DailyLearningPoolItem F)) → IsBest items (best_actionable_item items)
  unfolding best_actionable_item
  best_actionable_item-IsBest [] = refl
  best_actionable_item-IsBest (item ∷ items) = best_from-IsBest items item
