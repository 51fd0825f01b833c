-- ===== src/Match.antt =====
-- `MatchQuality` and `AcceptMatch` of algo/match_quality.h: whether a matched pose is given to the
-- filter. `residuals` and its minimum are `int`s that are not negative.
pub mod Accept
use adaptive_lio.Common.{
  ℕ, Bool, true, false, not, ◌||◌, ◌≡◌, refl, ap, ◌∙◌, ◌↔◌, ◌≤◌, arith, either, Option, none, some,
  ltb, if◌then◌else◌,
}
use adaptive_lio.Common.Double.{Double}
use adaptive_lio.Imu.{max}
use adaptive_lio.Linear.{Linear, Se3}
use adaptive_lio.Filter.{Snapshot, valid_snapshot, get_se3}
use adaptive_lio.Filter.Steps.{validate_observation_covariance, pose_innovation, pose_jacobian}

pub record MatchQuality (D : Type 0) : Type 0 where
  pub usable : Bool
  pub residuals : ℕ
  pub initial_cost : D
  pub final_cost : D

-- The reasons that are reported.
pub data Reason : Type 0 where
  solver_unusable insufficient_support invalid_state invalid_cost hard_innovation_limit : Reason
  invalid_covariance invalid_innovation_covariance innovation_score matched : Reason

pub record MatchLimits (D : Type 0) : Type 0 where
  pub minimum_support : ℕ
  pub max_score : D
  pub max_translation : D
  pub max_rotation : D

-- The result with what it reports through its last arguments.
pub record Verdict (D : Type 0) : Type 0 where
  pub accepted : Bool
  pub reason : Reason
  pub score : D

module _ {D : Type 0} ⦃d : Double D⦄ where
  abbrev pub reject : Reason → D → Verdict D
  reject why score = record { accepted = false; reason = why; score = score }

  unfoldable pub bad_cost : MatchQuality D → Bool
  bad_cost q =
      not (d.is_finite q.initial_cost)
      || not (d.is_finite q.final_cost)
      || d.lt q.final_cost (d.decimal 0 0)
      || d.lt (d.add q.initial_cost (d.mul (d.decimal 1 8) (max (d.decimal 1 0) q.initial_cost)))
          q.final_cost

  -- The last test, on the score.
  unfoldable pub judge_score : MatchLimits D → D → Verdict D
  judge_score limits score =
      if not (d.is_finite score) || d.lt score (d.decimal 0 0) || d.lt limits.max_score score
      then reject innovation_score score
      else record { accepted = true; reason = matched; score = score }

module _ {D : Type 0} ⦃d : Double D⦄ (l : Linear D) where
  unfoldable pub judge_innovation :
      MatchLimits D → l.Matrix → Option (l.Matrix → l.Matrix) → Verdict D
  unfolding judge_score
  judge_innovation limits innovation none = reject invalid_innovation_covariance d.infinity
  judge_innovation limits innovation (some solve) =
      judge_score limits (l.dot innovation (solve innovation))

  unfoldable pub judge_covariance :
      MatchLimits D → Snapshot l → l.Matrix → Option l.Matrix → Verdict D
  unfolding judge_innovation
  judge_covariance limits prior innovation none = reject invalid_covariance d.infinity
  judge_covariance limits prior innovation (some r) =
      let h = pose_jacobian l in
      judge_innovation limits innovation
        (l.ldlt (l.add (l.mul (l.mul h prior.covariance) (l.transpose h)) r))

  -- `hard_innovation_limit`.
  unfoldable pub too_far : MatchLimits D → l.Matrix → Bool
  too_far limits innovation =
      not (l.all_finite innovation)
      || d.lt limits.max_translation (l.norm (l.block 3 1 0 0 innovation))
      || d.lt limits.max_rotation (l.norm (l.block 3 1 3 0 innovation))

  unfoldable pub accept_match :
      MatchQuality D → MatchLimits D → Snapshot l → Se3 l.Matrix l.So3 → l.Matrix → Verdict D
  unfolding bad_cost too_far judge_covariance
  accept_match q limits prior candidate covariance =
      let innovation = pose_innovation l (get_se3 l prior.nav) candidate in
      if not q.usable
      then reject solver_unusable d.infinity
      else (if ltb q.residuals limits.minimum_support
          then reject insufficient_support d.infinity
          else (if not (l.se3_finite candidate) || not (valid_snapshot l prior)
              then reject invalid_state d.infinity
              else (if bad_cost q
                  then reject invalid_cost d.infinity
                  else (if too_far limits innovation
                      then reject hard_innovation_limit d.infinity
                      else judge_covariance limits prior innovation
                          (validate_observation_covariance l covariance)))))
