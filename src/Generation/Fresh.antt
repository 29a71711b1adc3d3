-- ===== src/Generation/Fresh.antt =====
-- generateNewWordsWithSource: the words that a call selects are new, different, and within the quota.
use wordbit_advanced.Prelude.{
  ℕ, arith, ◌≤◌, ◌≡◌, ◌≢◌, refl, Bool, true, false, Option, none, some, List, [], ◌∷◌, ◌++◌, String,
  nat_eq, nat_beq_iff, ◌||◌, if◌then◌else◌, if_elim, contains, length, length-append, leb, All,
  AllPairs, All-append, All-map, AllPairs-snoc,
}
use wordbit_advanced.Domain.{Uuid, Word}
use wordbit_advanced.Normalization.{Unicode}
use wordbit_advanced.Dedup.{CandidateWord}
use wordbit_advanced.Dedup.Exclusions.{Exclusions}
use wordbit_advanced.Generation.Bank.{filter_bank_words, add_word_values, is_excluded}
use wordbit_advanced.Generation.Select.{
  WordSource, Selection, Blocked, Upserted, stored, refused, select_word, take_bank_words,
  duplicate_reason, settle_stored, settle_upsert, store_accepted,
  mark_developer_list_fallback_candidate,
}

-- The word was not a new word lately, has no state, and is not among the items that are there.
pub record IsFree {F : Type 0} (b : Blocked) (w : Word F) : Type 0 where
  pub unseen : contains b.seen_new w.id ≡ false
  pub unknown : contains b.existing w.id ≡ false
  pub unseeded : contains b.seeded w.id ≡ false

pub record IsFreshList {F : Type 0} (b : Blocked) (quota : ℕ) (words : List (Word F)) : Type 0 where
  pub fits : length words ≤ quota
  pub distinct : AllPairs (λ v w. v.id ≢ w.id) words
  pub free : All (IsFree b) words

pub record IsSelected {F : Type 0} (b : Blocked) (quota : ℕ) (words : List (Word F))
    (ids : List Uuid) : Type 0 where
  pub fresh : IsFreshList b quota words
  pub listed : All (λ w. contains ids w.id ≡ true) words

contains-ne :
    (ids : List Uuid) (a b : Uuid) → contains ids a ≡ true → contains ids b ≡ false → a ≢ b
contains-ne ids a b there absent e = cc

pub contains-append-false :
    (xs ys : List Uuid) (a : Uuid)
    → contains (xs ++ ys) a ≡ false
    → (contains xs a ≡ false) × (contains ys a ≡ false)
contains-append-false [] ys a h = (refl, h)
contains-append-false (x ∷ xs) ys a h = ground (arith, contains-append-false xs ys a)

module _ {F : Type 0} (u : Unicode) (b : Blocked) (quota : ℕ) where
  select-IsSelected :
      (w : Word F) (sel : Selection F)
      → leb quota (length sel.words) ≡ false
      → contains sel.ids w.id ≡ false
      → IsFree b w
      → IsSelected b quota sel.words sel.ids
      → IsSelected b quota (select_word u w sel).words (select_word u w sel).ids
  unfolding select_word
  select-IsSelected w sel room absent free s = record {
    fresh = record {
      fits = ground (arith, room, length-append sel.words (w ∷ []));
      distinct =
          AllPairs-snoc (λ v w. v.id ≢ w.id) sel.words w s.fresh.distinct
            (All-map (λ v. contains sel.ids v.id ≡ true) (λ v. v.id ≢ w.id) sel.words
              (λ v there. contains-ne sel.ids v.id w.id there absent) s.listed);
      free = All-append (IsFree b) sel.words (w ∷ []) s.fresh.free (free, tt);
    };
    listed =
        All-append (λ v. contains (w.id ∷ sel.ids) v.id ≡ true) sel.words (w ∷ [])
          (All-map (λ v. contains sel.ids v.id ≡ true) (λ v. contains (w.id ∷ sel.ids) v.id ≡ true)
            sel.words (λ v there. ground (arith, there)) s.listed)
          (ground (arith, nat_beq_iff w.id w.id), tt);
  }

  pub take_bank-IsSelected :
      (words : List (Word F)) (sel : Selection F)
      → All (IsFree b) words
      → IsSelected b quota sel.words sel.ids
      → IsSelected b quota
          (take_bank_words u quota words sel).words
          (take_bank_words u quota words sel).ids
  unfolding take_bank_words
  take_bank-IsSelected [] sel all s = s
  take_bank-IsSelected (w ∷ words) sel (free, all) s =
      let P = λ (x : Selection F). IsSelected b quota x.words x.ids in
      if_elim P (leb quota (length sel.words)) (λ _. s)
        (λ room.
          take_bank-IsSelected words (if contains sel.ids w.id then sel else select_word u w sel)
            all
            (if_elim P (contains sel.ids w.id) (λ _. s)
              (λ absent. select-IsSelected w sel room absent free s)))

  not_duplicate :
      (ids : List Uuid) (w : Word F)
      → duplicate_reason b ids w.id ≡ none
      → IsFree b w × (contains ids w.id ≡ false)
  not_duplicate ids w h = (
    record {
      unseen = ground (arith, h);
      unknown = ground (arith, h);
      unseeded = ground (arith, h);
    },
    ground (arith, h),
  )

  settle_stored-IsSelected :
      (c : CandidateWord F) (w : Word F) (reason : Option String) (sel : Selection F)
      → duplicate_reason b sel.ids w.id ≡ reason
      → IsSelected b quota sel.words sel.ids
      → let sel' = settle_stored u quota c w reason sel in IsSelected b quota sel'.words sel'.ids
  settle_stored-IsSelected c w (some reason) sel h s = s
  settle_stored-IsSelected c w none sel h s =
      let (free, absent) = not_duplicate sel.ids w h in
      if_elim (λ (x : Selection F). IsSelected b quota x.words x.ids) (leb quota (length sel.words))
        (λ _. s) (λ room. select-IsSelected w sel room absent free s)

  settle_upsert-IsSelected :
      (c : CandidateWord F) (x : Upserted F) (sel : Selection F)
      → IsSelected b quota sel.words sel.ids
      → let sel' = settle_upsert u quota b c x sel in IsSelected b quota sel'.words sel'.ids
  settle_upsert-IsSelected c (refused e) sel s = s
  settle_upsert-IsSelected c (stored w) sel s =
      settle_stored-IsSelected c w (duplicate_reason b sel.ids w.id)
        (record sel { stored = c ∷ sel.stored }) refl s

  pub store-IsSelected :
      (source : WordSource F) (mark : Bool) (candidates : List (CandidateWord F))
      (sel : Selection F)
      → IsSelected b quota sel.words sel.ids
      → let sel' = store_accepted u source quota b mark candidates sel in
        IsSelected b quota sel'.words sel'.ids
  unfolding store_accepted
  store-IsSelected source mark [] sel s = s
  store-IsSelected source mark (candidate ∷ candidates) sel s =
      let c = if mark then mark_developer_list_fallback_candidate candidate else candidate in
      let x = source.upsert_word sel.stored c in
      store-IsSelected source mark candidates (settle_upsert u quota b c x sel)
        (settle_upsert-IsSelected c x sel s)

  pub filter_bank-All :
      (words : List (Word F)) (e : Exclusions)
      → All (λ w. contains (b.existing ++ b.seeded) w.id ≡ false) words
      → All (IsFree b) (filter_bank_words u words e b.seen_new)
  unfolding filter_bank_words
  filter_bank-All [] e all = tt
  filter_bank-All (w ∷ words) e (free, all) =
      if_elim (All (IsFree b)) (contains b.seen_new w.id || is_excluded u e w)
        (λ _. filter_bank-All words e all)
        (λ kept.
          let (unknown, unseeded) = contains-append-false b.existing b.seeded w.id free in
          (
            record { unseen = ground (arith, kept); unknown = unknown; unseeded = unseeded },
            filter_bank-All words (add_word_values u w e) all,
          ))
