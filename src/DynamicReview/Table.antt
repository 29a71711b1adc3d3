-- ===== src/DynamicReview/Table.antt =====
-- internal/repository/postgres/dynamic_review_prompt_repository.go: the rows of the prompts and what its statements
-- do to them; internal/service/dynamic_review_service.go, buildDynamicReviewCooldownKeySet.
use wordbit_advanced.Prelude.{
  ℕ, ◌-◌, Bool, true, false, not, ◌&&◌, ◌||◌, Option, none, some, List, [], ◌∷◌, String, string_eq,
  Text, nat_eq, ltb, leb, ◌==◌, if◌then◌else◌, contains,
}
use wordbit_advanced.Domain.{Time, Uuid, ReviewMode, mode_eq}
use wordbit_advanced.DynamicReview.{DynamicReviewKey, key_eq}

pub record DynamicReviewPromptPayload : Type 0 where
  pub prompt_text : Text
  pub source : String
  pub generated_at : String

pub record DailyDynamicReviewPrompt : Type 0 where
  pub id : Uuid
  pub user_id : Uuid
  pub local_date : String
  pub word_id : Uuid
  pub review_mode : ReviewMode
  pub payload : DynamicReviewPromptPayload
  pub llm_run_id : Option Uuid
  pub created_at : Time
  pub updated_at : Time

abbrev pub row_key : DailyDynamicReviewPrompt → DynamicReviewKey
row_key p = (p.word_id, p.review_mode)

abbrev pub dynamic_review_prompt_cooldown : ℕ
dynamic_review_prompt_cooldown = 2

-- `ON CONFLICT (user_id, local_date, word_id, review_mode)`
abbrev pub conflicts : DailyDynamicReviewPrompt → DailyDynamicReviewPrompt → Bool
conflicts a b = a.user_id == b.user_id && (a.local_date == b.local_date && row_key a == row_key b)

unfoldable pub upsert_prompt :
    DailyDynamicReviewPrompt → List DailyDynamicReviewPrompt → List DailyDynamicReviewPrompt
upsert_prompt p [] = p ∷ []
upsert_prompt p (q ∷ rows) =
    let rest = upsert_prompt p rows in
    if conflicts p q
    then record q { payload = p.payload; llm_run_id = p.llm_run_id } ∷ rows
    else q ∷ rest

-- `ListByLocalDate`, without its order, which no map of keys shows.
unfoldable pub list_by_local_date :
    Uuid → String → List DailyDynamicReviewPrompt → List DailyDynamicReviewPrompt
list_by_local_date user_id local_date [] = []
list_by_local_date user_id local_date (p ∷ rows) =
    let rest = list_by_local_date user_id local_date rows in
    if p.user_id == user_id && p.local_date == local_date then p ∷ rest else rest

-- Whether the days of a prompt and of today are within the cooldown, the prompt's first.
abbrev pub is_cooling : Option ℕ → ℕ → Bool
is_cooling none today = false
is_cooling (some day) today =
    not (ltb today day) && leb (today - day) dynamic_review_prompt_cooldown

-- `DISTINCT ON (word_id, review_mode)`: no row of the same key has a later day.
abbrev pub is_later : Option ℕ → Option ℕ → Bool
is_later none day = false
is_later (some other) none = true
is_later (some other) (some day) = ltb day other

module _ (parse_date : String → Option ℕ) (user_id : Uuid) where
  abbrev pub has_later : DailyDynamicReviewPrompt → List DailyDynamicReviewPrompt → Bool
  has_later p [] = false
  has_later p (q ∷ rows) =
      (q.user_id == user_id
        && (row_key q == row_key p && is_later (parse_date q.local_date) (parse_date p.local_date)))
      || has_later p rows

  abbrev pub latest_prompts :
      List Uuid
      → List DailyDynamicReviewPrompt
      → List DailyDynamicReviewPrompt
      → List DailyDynamicReviewPrompt
  latest_prompts word_ids table [] = []
  latest_prompts word_ids table (p ∷ rows) =
      let rest = latest_prompts word_ids table rows in
      if p.user_id == user_id && (contains word_ids p.word_id && not (has_later p table))
      then p ∷ rest
      else rest

  unfoldable pub list_latest_for_user_words :
      List Uuid → List DailyDynamicReviewPrompt → List DailyDynamicReviewPrompt
  list_latest_for_user_words word_ids table = latest_prompts word_ids table table

  abbrev pub recent_keys : ℕ → List DailyDynamicReviewPrompt → List DynamicReviewKey
  recent_keys today [] = []
  recent_keys today (p ∷ prompts) =
      let rest = recent_keys today prompts in
      if is_cooling (parse_date p.local_date) today then row_key p ∷ rest else rest

  -- The keys of the prompts of today and of the two days before.
  abbrev pub cooldown_keys : Option ℕ → List DailyDynamicReviewPrompt → List DynamicReviewKey
  cooldown_keys none prompts = []
  cooldown_keys (some today) prompts = recent_keys today prompts

  unfoldable pub build_dynamic_review_cooldown_key_set :
      String → List DailyDynamicReviewPrompt → List DynamicReviewKey
  build_dynamic_review_cooldown_key_set local_date prompts =
      cooldown_keys (parse_date local_date) prompts
