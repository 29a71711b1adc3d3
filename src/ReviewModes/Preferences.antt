-- ===== src/ReviewModes/Preferences.antt =====
-- internal/service/word_set_service.go, `normalizeEnabledReviewModes`: the stored list of modes is
-- canonical.
use wordbit_advanced.Prelude.{
  ℕ, ◌<◌, ◌≤◌, ◌≡◌, Bool, true, false, not, ◌&&◌, List, [], ◌∷◌, none, some, arith, ◌==◌,
  if◌then◌else◌, contains, Bool-cases, inl, inr, refl, sym, ap, ◌∙◌, if_elim, subst,
}
use wordbit_advanced.Domain.{ReviewMode, mode_eq, mode_code}
use wordbit_advanced.ReviewModes.{
  all_review_modes, all_allowed, keep_enabled, normalize_enabled_review_modes,
}

mode_beq_sound : (a b : ReviewMode) → a == b ≡ true → a ≡ b
mode_beq_sound a b h = ground arith

keep_enabled-contains :
    (input order : List ReviewMode) (m : ReviewMode)
    → contains (keep_enabled input order) m ≡ contains order m && contains input m
keep_enabled-contains input [] m = refl
keep_enabled-contains input (x ∷ order) m =
    let ih = keep_enabled-contains input order m in
    elim (Bool-cases (x == m)) [
      | inl e ↦ rw (mode_beq_sound x m e) (ground (arith, ih))
      | inr e ↦ ground (arith, ih)
    ]

all_allowed-contains :
    (modes : List ReviewMode) (m : ReviewMode)
    → all_allowed modes ≡ true
    → contains all_review_modes m && contains modes m ≡ contains modes m
all_allowed-contains [] m h = ground arith
all_allowed-contains (x ∷ modes) m h = elim (Bool-cases (x == m)) [
  | inl e ↦ ground (arith, mode_beq_sound x m e)
  | inr e ↦ ground (arith, all_allowed-contains modes m)
]

keep_enabled-all_allowed :
    (input order : List ReviewMode)
    → all_allowed order ≡ true
    → all_allowed (keep_enabled input order) ≡ true
keep_enabled-all_allowed input [] h = refl
keep_enabled-all_allowed input (x ∷ order) h = ground (arith, keep_enabled-all_allowed input order)

keep_enabled-same :
    (a b : List ReviewMode) (order : List ReviewMode)
    → ((m : ReviewMode) → contains a m ≡ contains b m)
    → keep_enabled a order ≡ keep_enabled b order
keep_enabled-same a b [] h = refl
keep_enabled-same a b (x ∷ order) h = rw (h x) rw (keep_enabled-same a b order h) refl

-- Each mode comes later in the order of difficulty than the one before it; so none is there twice.
abbrev pub Ascending : ℕ → List ReviewMode → Type 0
Ascending n [] = Unit
Ascending n (m ∷ ms) = (n < mode_code m) × Ascending (mode_code m) ms

Ascending-weaken : (n k : ℕ) (ms : List ReviewMode) → n ≤ k → Ascending k ms → Ascending n ms
Ascending-weaken n k [] le h = tt
Ascending-weaken n k (m ∷ ms) le (lt, rest) = (omega arith, rest)

keep_enabled-Ascending :
    (input order : List ReviewMode) (n : ℕ)
    → Ascending n order
    → Ascending n (keep_enabled input order)
keep_enabled-Ascending input [] n h = tt
keep_enabled-Ascending input (x ∷ order) n (lt, rest) =
    let ih = keep_enabled-Ascending input order (mode_code x) rest in
    if_elim (Ascending n) (contains input x) (λ t. (lt, ih))
      (λ f. Ascending-weaken n (mode_code x) (keep_enabled input order) (omega arith) ih)

both_guards :
    (a b : Bool) {kept out : List ReviewMode}
    → (if not a then none else (if not b then none else some kept)) ≡ some out
    → (a ≡ true) × (b ≡ true) × (kept ≡ out)
both_guards true true h = ground arith
both_guards true false h = cc
both_guards false b h = cc

normalized_form :
    (modes out : List ReviewMode)
    → normalize_enabled_review_modes modes ≡ some out
    → (all_allowed modes ≡ true)
      × (contains modes ReviewMode.reveal ≡ true)
      × (keep_enabled modes all_review_modes ≡ out)
unfolding normalize_enabled_review_modes
normalized_form [] out h = cc
normalized_form (m ∷ ms) out h =
    both_guards (all_allowed (m ∷ ms)) (contains (m ∷ ms) ReviewMode.reveal) h

normalized-intro :
    (modes : List ReviewMode)
    → all_allowed modes ≡ true
    → contains modes ReviewMode.reveal ≡ true
    → normalize_enabled_review_modes modes ≡ some (keep_enabled modes all_review_modes)
unfolding normalize_enabled_review_modes
normalized-intro [] a r = cc
normalized-intro (m ∷ ms) a r = rw a rw r refl

normalized-contains :
    (modes out : List ReviewMode)
    → normalize_enabled_review_modes modes ≡ some out
    → (m : ReviewMode) → contains out m ≡ contains modes m
normalized-contains modes out h m =
    let (allowed, has, e) = normalized_form modes out h in
    rw (sym e)
      (keep_enabled-contains modes all_review_modes m ∙ all_allowed-contains modes m allowed)

-- A list of modes that is accepted is stored with the same modes, reveal among them, each once and in
-- the order of difficulty; and what is stored is accepted again and does not change.
pub normalize_enabled_review_modes-canonical :
    (modes out : List ReviewMode) (m : ReviewMode)
    → normalize_enabled_review_modes modes ≡ some out
    → (contains out m ≡ contains modes m)
      × (contains out ReviewMode.reveal ≡ true)
      × Ascending 0 out
      × (normalize_enabled_review_modes out ≡ some out)
normalize_enabled_review_modes-canonical modes out m h =
    let (allowed, has, e) = normalized_form modes out h in
    let same = normalized-contains modes out h in
    let reveal_in = same ReviewMode.reveal ∙ has in
    let sorted : Ascending 0 (keep_enabled modes all_review_modes) =
      keep_enabled-Ascending modes all_review_modes 0 (ground arith) in
    let kept = keep_enabled-all_allowed modes all_review_modes refl in
    let again = normalized-intro out (ap all_allowed (sym e) ∙ kept) reveal_in in
    (
      same m,
      reveal_in,
      subst (Ascending 0) e sorted,
      again ∙ ap some (keep_enabled-same out modes all_review_modes same ∙ e),
    )
