-- ===== src/Scheduling/Weakness.antt =====
-- internal/service/logic.go: the running response time and the weakness score.
pub mod Sign
use wordbit_advanced.Prelude.{ℕ, ◌&&◌, ltb, leb, if◌then◌else◌, ℤ, pos, leb_ℤ, ◌*ℤ◌, ◌-ℤ◌}
use wordbit_advanced.Float64.{Float64, max_float, min_float}
use wordbit_advanced.Domain.{ReviewRating, UserWordState}

module _ {F : Type 0} where
  unfoldable pub update_avg_response_time : Float64 F → ℤ → ℕ → ℤ → ℤ
  update_avg_response_time fl current count value =
      if leb_ℤ value (pos 0)
      then current
      else (if leb count 0
          then value
          else (if leb_ℤ current (pos 0)
              then value
              else fl.to_int (
                  fl.div (fl.add (fl.of_int (current *ℤ (pos count -ℤ pos 1))) (fl.of_int value))
                    (fl.of_int (pos count)))))

module _ {F : Type 0} ⦃fl : Float64 F⦄ where
  abbrev rating_signal : ReviewRating → F → F
  rating_signal ReviewRating.hard score = fl.add score (fl.dec 6 1)
  rating_signal ReviewRating.medium score = fl.add score (fl.dec 2 1)
  rating_signal _ score = score

  abbrev rating_recovery : ReviewRating → F → F
  rating_recovery ReviewRating.easy recovery = fl.add recovery (fl.dec 3 1)
  rating_recovery _ recovery = recovery

  unfoldable pub compute_weakness_signal : UserWordState F → F
  compute_weakness_signal st =
      let hard = fl.add (fl.dec 0 1) (fl.mul (fl.of_int (pos st.hard_count)) (fl.dec 10 1)) in
      let medium = fl.add hard (fl.mul (fl.of_int (pos st.medium_count)) (fl.dec 35 2)) in
      let struggle =
        fl.add medium
          (fl.mul (fl.of_int (pos st.word_construction_struggle_count)) (fl.dec 18 2)) in
      let mixed =
        (if leb 2 st.hard_count && ltb 0 st.medium_count
          then fl.add struggle
              (min_float (fl.mul (fl.of_int (pos st.medium_count)) (fl.dec 15 2)) (fl.dec 6 1))
          else struggle) in
      rating_signal st.last_rating mixed

  unfoldable pub compute_weakness_recovery : UserWordState F → F
  compute_weakness_recovery st =
      let easy = fl.mul (fl.of_int (pos st.easy_count)) (fl.dec 55 2) in
      let streak =
        fl.add easy (fl.mul (fl.of_int (pos st.word_construction_success_streak)) (fl.dec 20 2)) in
      rating_recovery st.last_rating streak

  unfoldable pub compute_weakness_score_from_ratings : UserWordState F → F
  compute_weakness_score_from_ratings st =
      let score = compute_weakness_signal st in
      let recovery = compute_weakness_recovery st in
      max_float (fl.dec 0 1) (fl.sub score (min_float recovery (fl.mul score (fl.dec 75 2))))

  unfoldable pub compute_weakness_score : UserWordState F → F
  unfolding compute_weakness_score_from_ratings
  compute_weakness_score st = compute_weakness_score_from_ratings st
