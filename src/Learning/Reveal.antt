-- ===== src/Learning/Reveal.antt =====
-- internal/service/learning_service.go, SubmitReveal and SubmitPronunciation, over the rows of one user. A kind
-- that is none of the constants is `none`; a number in a payload is read back as it was stored.
pub mod Hints
use wordbit_advanced.Prelude.{
  ℕ, zero, suc, ◌+◌, ◌-◌, ◌*◌, ◌^◌, Bool, true, false, not, ◌&&◌, Option, none, some, List, [], ◌∷◌,
  String, string_eq, Text, codes, nat_eq, ◌==◌, if◌then◌else◌, ltb, leb, nat_beq, ℤ, pos, negsuc,
  ltb_ℤ, keep_if, take,
}
use wordbit_advanced.Float64.{Float64}
use wordbit_advanced.Domain.{
  Time, Uuid, ReviewMode, RevealKind, EventType, UserWordState, DailyLearningPoolItem,
  LearningEvent, Json, JsonMap,
}
use wordbit_advanced.Learning.Answer.{revealed_state}
use wordbit_advanced.Learning.Store.{Store, StoredEvent, find_item, update_item, put_state}
use wordbit_advanced.Learning.Review.{Failure}

pub record RevealRequest : Type 0 where
  pub pool_item_id : Uuid
  pub kind : Option RevealKind
  pub mode_used : ReviewMode
  pub response_time_ms : ℤ
  pub client_event_id : String
  pub hint_step : ℤ

pub record PronunciationRequest : Type 0 where
  pub pool_item_id : Uuid
  pub client_event_id : String

-- `strconv.Atoi`, with 0 for an error: a sign, digits, and the range of 64 bits.
abbrev pub digits_from : ℕ → Text → Option ℕ
digits_from acc [] = some acc
digits_from acc (r ∷ rs) =
    if leb 48 r && leb r 57 then digits_from (acc * 10 + (r - 48)) rs else none

abbrev pub negated : ℕ → ℤ
negated zero = pos 0
negated (suc n) = negsuc n

abbrev pub below : (ℕ → ℤ) → ℕ → Option ℕ → ℤ
below sign limit none = pos 0
below sign limit (some n) = if leb n limit then sign n else pos 0

abbrev pub digits_of : Text → Option ℕ
digits_of [] = none
digits_of (r ∷ rs) = digits_from 0 (r ∷ rs)

abbrev pub parsed_int : Text → ℤ
parsed_int [] = pos 0
parsed_int (r ∷ rs) =
    if nat_beq r 45
    then below negated (2 ^ 63) (digits_of rs)
    else if nat_beq r 43
    then below pos (2 ^ 63 - 1) (digits_of rs)
    else below pos (2 ^ 63 - 1) (digits_of (r ∷ rs))

abbrev pub is_hint_usage : EventType → Bool
is_hint_usage EventType.hint_usage = true
is_hint_usage _ = false

abbrev pub is_of_item : Uuid → Option Uuid → Bool
is_of_item id none = false
is_of_item id (some item_id) = item_id == id

abbrev pub is_hint : RevealKind → Bool
is_hint RevealKind.hint = true
is_hint _ = false

-- A hint with its number, which is recorded once.
abbrev pub is_numbered : RevealKind → ℤ → Bool
is_numbered kind step = is_hint kind && ltb_ℤ (pos 0) step

abbrev pub reveal_event_type : RevealKind → EventType
reveal_event_type RevealKind.meaning = EventType.reveal_meaning
reveal_event_type RevealKind.example = EventType.reveal_example
reveal_event_type RevealKind.hint = EventType.hint_usage

abbrev pub beq_ℤ : ℤ → ℤ → Bool
beq_ℤ (pos a) (pos b) = nat_beq a b
beq_ℤ (negsuc a) (negsuc b) = nat_beq a b
beq_ℤ _ _ = false

module _ {F : Type 0} where
  -- `UpdatePoolItemReveal`
  abbrev pub update_pool_item_reveal :
      Uuid → RevealKind → List (DailyLearningPoolItem F) → List (DailyLearningPoolItem F)
  update_pool_item_reveal id RevealKind.meaning items =
      update_item id (λ item. record item { revealed_meaning = true }) items
  update_pool_item_reveal id RevealKind.example items =
      update_item id (λ item. record item { revealed_example = true }) items
  update_pool_item_reveal id RevealKind.hint items = items

  -- `ListRecentByPoolItem`
  abbrev pub list_recent_by_pool_item : Uuid → List (StoredEvent F) → List (StoredEvent F)
  list_recent_by_pool_item id events =
      take 100 (keep_if (λ e. is_of_item id e.event.pool_item_id) events)

module _ {F : Type 0} ⦃fl : Float64 F⦄ where
  abbrev pub json_int : Json F → ℤ
  json_int (Json.integer n) = n
  json_int (Json.float x) = fl.to_int x
  json_int (Json.text t) = parsed_int (codes t)
  json_int Json.other = pos 0

  unfoldable pub hint_step_from_payload : JsonMap F → ℤ
  hint_step_from_payload [] = pos 0
  hint_step_from_payload ((k, v) ∷ rest) =
      if k == "hint_step" then json_int v else hint_step_from_payload rest

  abbrev pub has_hint_step : ℤ → List (StoredEvent F) → Bool
  has_hint_step step [] = false
  has_hint_step step (e ∷ events) =
      let rest = has_hint_step step events in
      if not (is_hint_usage e.event.event_type)
      then rest
      else if beq_ℤ (hint_step_from_payload e.event.payload) step
      then true
      else rest

  unfoldable pub has_recorded_hint_step : Uuid → ℤ → List (StoredEvent F) → Bool
  unfolding hint_step_from_payload
  has_recorded_hint_step id step events = has_hint_step step (list_recent_by_pool_item id events)

  abbrev pub reveal_payload : RevealKind → ℤ → JsonMap F
  reveal_payload kind step =
      if is_numbered kind step then ("hint_step", Json.integer step) ∷ [] else []

  abbrev pub reveal_event :
      RevealRequest → Time → DailyLearningPoolItem F → RevealKind → StoredEvent F
  reveal_event req now item kind = record {
    event = record {
      id = 0;
      user_id = item.user_id;
      word_id = item.word_id;
      pool_item_id = some item.id;
      event_type = reveal_event_type kind;
      event_time = now;
      payload = reveal_payload kind req.hint_step;
      response_time_ms = req.response_time_ms;
      mode_used = req.mode_used;
      client_event_id = req.client_event_id;
      client_session_id = "";
      created_at = now;
    };
    undo = none;
  }

  -- The word's state counts the reveal, where it has one and the item is no bonus.
  abbrev pub reveal_state : RevealKind → Uuid → Option (UserWordState F) → Store F → Store F
  reveal_state kind word_id none store = store
  reveal_state kind word_id (some st) store =
      put_state word_id (some (revealed_state kind st)) store

  unfoldable pub record_reveal :
      Time → RevealRequest → DailyLearningPoolItem F → RevealKind → Store F → Store F
  unfolding revealed_state
  record_reveal now req item kind store =
      let counted = reveal_state kind item.word_id (store.states item.word_id) store in
      let store1 : Store F = if item.bonus_practice then store else counted in
      record store1 {
        items = update_pool_item_reveal item.id kind store1.items;
        events = reveal_event req now item kind ∷ store1.events;
      }

  abbrev pub reveal_kind :
      Time
      → RevealRequest
      → DailyLearningPoolItem F
      → Option RevealKind
      → Store F
      → Option Failure × Store F
  reveal_kind now req item none store = (some Failure.validation, store)
  reveal_kind now req item (some kind) store =
      if ltb_ℤ req.hint_step (pos 0)
      then (some Failure.validation, store)
      else if is_numbered kind req.hint_step
          && has_recorded_hint_step item.id req.hint_step store.events
      then (none, store)
      else (none, record_reveal now req item kind store)

  abbrev pub reveal_item :
      Time → RevealRequest → Option (DailyLearningPoolItem F) → Store F → Option Failure × Store F
  reveal_item now req none store = (some Failure.not_found, store)
  reveal_item now req (some item) store = reveal_kind now req item req.kind store

  unfoldable pub submit_reveal : Time → RevealRequest → Store F → Option Failure × Store F
  unfolding has_recorded_hint_step record_reveal
  submit_reveal now req store = reveal_item now req (find_item store.items req.pool_item_id) store

module _ {F : Type 0} where
  abbrev pub pronunciation_event :
      PronunciationRequest → Time → DailyLearningPoolItem F → StoredEvent F
  pronunciation_event req now item = record {
    event = record {
      id = 0;
      user_id = item.user_id;
      word_id = item.word_id;
      pool_item_id = some item.id;
      event_type = EventType.pronunciation;
      event_time = now;
      payload = [];
      response_time_ms = pos 0;
      mode_used = ReviewMode.unset;
      client_event_id = req.client_event_id;
      client_session_id = "";
      created_at = now;
    };
    undo = none;
  }

  abbrev pub pronounce_item :
      Time
      → PronunciationRequest
      → Option (DailyLearningPoolItem F)
      → Store F
      → Option Failure × Store F
  pronounce_item now req none store = (some Failure.not_found, store)
  pronounce_item now req (some item) store =
      (none, record store { events = pronunciation_event req now item ∷ store.events })

  unfoldable pub submit_pronunciation :
      Time → PronunciationRequest → Store F → Option Failure × Store F
  submit_pronunciation now req store =
      pronounce_item now req (find_item store.items req.pool_item_id) store
