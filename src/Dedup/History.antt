-- ===== src/Dedup/History.antt =====
-- FilterCandidates: what the sets of the history hold.
use wordbit_advanced.Prelude.{
  ◌≡◌, ◌⊎◌, inl, inr, true, false, Option, none, some, List, [], ◌∷◌, Text, text_eq, text_beq_iff,
  All, contains, ◌==◌, Bool-cases, if_elim,
}
use wordbit_advanced.Domain.{Word, DailyLearningPoolItem}
use wordbit_advanced.Normalization.{Unicode, normalize_word}
use wordbit_advanced.Dedup.{
  Taken, is_taken, add_unless_empty, take_word, take_words, take_item_word, take_items,
}
use wordbit_advanced.Dedup.Keys.{contains-cons, contains_self, is_taken-false}

-- A key that a set is given, unless the text it comes from is empty.
abbrev Has : Text → Text → List Text → Type 0
Has test key set = (test ≡ []) ⊎ (contains set key ≡ true)

Has-added : (test key : Text) (set : List Text) → Has test key (add_unless_empty test key set)
Has-added test key set = elim (Bool-cases (test == [])) [
  | inl empty ↦ inl ((text_beq_iff test []).0 empty)
  | inr full ↦ inr (rw full (contains_self key set))
]

still_contains :
    (test key k : Text) (set : List Text)
    → contains set k ≡ true
    → contains (add_unless_empty test key set) k ≡ true
still_contains test key k set there =
    if_elim (λ s. contains s k ≡ true) (test == []) (λ _. there)
      (λ _. contains-cons key k set there)

-- Every key of the first is one of the second.
pub record IsWithin (h h' : Taken) : Type 0 where
  pub normalized : (k : Text) → contains h.normalized k ≡ true → contains h'.normalized k ≡ true
  pub lemmas : (k : Text) → contains h.lemmas k ≡ true → contains h'.lemmas k ≡ true
  pub groups : (k : Text) → contains h.groups k ≡ true → contains h'.groups k ≡ true

IsWithin-refl : (h : Taken) → IsWithin h h
IsWithin-refl h = record {
  normalized = λ k there. there;
  lemmas = λ k there. there;
  groups = λ k there. there;
}

IsWithin-trans : (a b c : Taken) → IsWithin a b → IsWithin b c → IsWithin a c
IsWithin-trans a b c x y = record {
  normalized = λ k there. y.normalized k (x.normalized k there);
  lemmas = λ k there. y.lemmas k (x.lemmas k there);
  groups = λ k there. y.groups k (x.groups k there);
}

Has-IsWithin :
    (test key : Text) (s s' : List Text)
    → ((k : Text) → contains s k ≡ true → contains s' k ≡ true)
    → Has test key s
    → Has test key s'
Has-IsWithin test key s s' f (inl empty) = inl empty
Has-IsWithin test key s s' f (inr there) = inr (f key there)

-- A key that is taken by no entry differs from every entry's, unless one of the two is empty.
pub taken_apart :
    (set : List Text) (k test key : Text)
    → is_taken set k ≡ false
    → Has test key set
    → k ≡ key
    → (k ≡ []) ⊎ (test ≡ [])
taken_apart set k test key free (inl empty) e = inr empty
taken_apart set k test key free (inr there) e = elim (is_taken-false set k free) [
  | inl empty ↦ inl empty
  | inr absent ↦ cc
]

-- What holds of an item's word, where the item has one.
abbrev pub OfWord : {F : Type 0} → (Word F → Type 0) → Option (Word F) → Type 0
OfWord P none = Unit
OfWord P (some w) = P w

pub OfWord-map :
    {F : Type 0} (P Q : Word F → Type 0) (o : Option (Word F))
    → ((w : Word F) → P w → Q w)
    → OfWord P o
    → OfWord Q o
OfWord-map P Q none f h = tt
OfWord-map P Q (some w) f h = f w h

module _ {F : Type 0} (u : Unicode) where
  -- What the sets hold of a word that the user has, and of the word of one of the day's items.
  pub record HasItemWord (w : Word F) (h : Taken) : Type 0 where
    pub form : contains h.normalized w.normalized_form ≡ true
    pub group : Has w.confusable_group_key w.confusable_group_key h.groups

  pub record HasWord (w : Word F) (h : Taken) : Type 0 where
    pub item : HasItemWord w h
    pub canonical : Has w.canonical_form (normalize_word u w.canonical_form) h.normalized
    pub lemma : Has w.lemma (normalize_word u w.lemma) h.lemmas

  pub HasItemWord-IsWithin :
      (w : Word F) (h h' : Taken) → IsWithin h h' → HasItemWord w h → HasItemWord w h'
  HasItemWord-IsWithin w h h' le x = record {
    form = le.normalized w.normalized_form x.form;
    group = Has-IsWithin _ _ _ _ le.groups x.group;
  }

  pub HasWord-IsWithin : (w : Word F) (h h' : Taken) → IsWithin h h' → HasWord w h → HasWord w h'
  HasWord-IsWithin w h h' le x = record {
    item = HasItemWord-IsWithin w h h' le x.item;
    canonical = Has-IsWithin _ _ _ _ le.normalized x.canonical;
    lemma = Has-IsWithin _ _ _ _ le.lemmas x.lemma;
  }

  take_word-IsWithin : (w : Word F) (h : Taken) → IsWithin h (take_word u w h)
  take_word-IsWithin w h = record {
    normalized = λ k there.
        still_contains w.canonical_form (normalize_word u w.canonical_form) k
          (w.normalized_form ∷ h.normalized) (contains-cons w.normalized_form k h.normalized there);
    lemmas = λ k there. still_contains w.lemma (normalize_word u w.lemma) k h.lemmas there;
    groups =
        λ k there. still_contains w.confusable_group_key w.confusable_group_key k h.groups there;
  }

  take_word-has : (w : Word F) (h : Taken) → HasWord w (take_word u w h)
  take_word-has w h = record {
    item = record {
      form =
          still_contains w.canonical_form (normalize_word u w.canonical_form) w.normalized_form
            (w.normalized_form ∷ h.normalized) (contains_self w.normalized_form h.normalized);
      group = Has-added w.confusable_group_key w.confusable_group_key h.groups;
    };
    canonical = Has-added w.canonical_form (normalize_word u w.canonical_form) _;
    lemma = Has-added w.lemma (normalize_word u w.lemma) h.lemmas;
  }

  take_words-IsWithin : (words : List (Word F)) (h : Taken) → IsWithin h (take_words u words h)
  unfolding take_words
  take_words-IsWithin [] h = IsWithin-refl h
  take_words-IsWithin (w ∷ words) h =
      IsWithin-trans h (take_word u w h) _ (take_word-IsWithin w h)
        (take_words-IsWithin words (take_word u w h))

  pub take_words-has :
      (words : List (Word F)) (h : Taken) → All (λ w. HasWord w (take_words u words h)) words
  unfolding take_words
  take_words-has [] h = tt
  take_words-has (w ∷ words) h = (
    HasWord-IsWithin w (take_word u w h) _ (take_words-IsWithin words (take_word u w h))
        (take_word-has w h),
    take_words-has words (take_word u w h),
  )

  take_item_word-IsWithin : (o : Option (Word F)) (h : Taken) → IsWithin h (take_item_word u o h)
  take_item_word-IsWithin none h = IsWithin-refl h
  take_item_word-IsWithin (some w) h = record {
    normalized = λ k there. contains-cons w.normalized_form k h.normalized there;
    lemmas = λ k there. there;
    groups =
        λ k there. still_contains w.confusable_group_key w.confusable_group_key k h.groups there;
  }

  pub take_items-IsWithin :
      (items : List (DailyLearningPoolItem F)) (h : Taken) → IsWithin h (take_items u items h)
  unfolding take_items
  take_items-IsWithin [] h = IsWithin-refl h
  take_items-IsWithin (item ∷ items) h =
      IsWithin-trans h (take_item_word u item.word h) _ (take_item_word-IsWithin item.word h)
        (take_items-IsWithin items (take_item_word u item.word h))

  item_word-has :
      (o : Option (Word F)) (h h' : Taken)
      → IsWithin (take_item_word u o h) h'
      → OfWord (λ w. HasItemWord w h') o
  item_word-has none h h' le = tt
  item_word-has (some w) h h' le =
      HasItemWord-IsWithin w (take_item_word u (some w) h) h' le (record {
        form = contains_self w.normalized_form h.normalized;
        group = Has-added w.confusable_group_key w.confusable_group_key h.groups;
      })

  pub take_items-has :
      (items : List (DailyLearningPoolItem F)) (h : Taken)
      → All (λ item. OfWord (λ w. HasItemWord w (take_items u items h)) item.word) items
  unfolding take_items
  take_items-has [] h = tt
  take_items-has (item ∷ items) h = (
    item_word-has item.word h _ (take_items-IsWithin items (take_item_word u item.word h)),
    take_items-has items (take_item_word u item.word h),
  )
