-- ===== src/Match/Accept.antt =====
-- What `AcceptMatch` of algo/match_quality.h accepts.
use adaptive_lio.Common.{
  true, false, not, ◌||◌, ◌≡◌, refl, ap, ◌∙◌, ◌↔◌, ◌≤◌, arith, either, Option, none, some, ltb,
  if◌then◌else◌,
}
use adaptive_lio.Common.Double.{Double}
use adaptive_lio.Linear.{Linear, Se3}
use adaptive_lio.Filter.{Snapshot, valid_snapshot, get_se3}
use adaptive_lio.Filter.Steps.{validate_observation_covariance, pose_innovation, pose_jacobian}
use adaptive_lio.Match.{
  MatchQuality, MatchLimits, Verdict, matched, bad_cost, judge_score, judge_innovation,
  judge_covariance, too_far, accept_match,
}

module _ {D : Type 0} ⦃d : Double D⦄ (l : Linear D) where
  -- `S`, the covariance of the innovation for the noise `r`.
  abbrev pub innovation_covariance : Snapshot l → l.Matrix → l.Matrix
  innovation_covariance prior r =
      l.add (l.mul (l.mul (pose_jacobian l) prior.covariance) (l.transpose (pose_jacobian l))) r

  -- The innovation is finite, and its two parts are within their limits.
  pub record IsNear (limits : MatchLimits D) (innovation : l.Matrix) : Type 0 where
    pub finite : l.all_finite innovation ≡ true
    pub translation : d.lt limits.max_translation (l.norm (l.block 3 1 0 0 innovation)) ≡ false
    pub rotation : d.lt limits.max_rotation (l.norm (l.block 3 1 3 0 innovation)) ≡ false

  -- The costs are finite, the final one is not negative and not above the initial one by more than
  -- 1e-8 of it, or of 1 where it is smaller.
  pub record IsCheaper (q : MatchQuality D) : Type 0 where
    pub initial_finite : d.is_finite q.initial_cost ≡ true
    pub final_finite : d.is_finite q.final_cost ≡ true
    pub not_negative : d.lt q.final_cost (d.decimal 0 0) ≡ false
    pub not_grown :
        d.lt
          (d.add q.initial_cost (
            d.mul
              (d.decimal 1 8)
              (if d.lt (d.decimal 1 0) q.initial_cost then q.initial_cost else d.decimal 1 0)))
          q.final_cost
        ≡ false

  -- There is a score: the noise is valid, `S` can be decomposed, and it is finite, not negative and
  -- within its limit.
  pub record IsLikely (limits : MatchLimits D) (prior : Snapshot l) (innovation : l.Matrix)
      (noise : Option l.Matrix) : Type 0 where
    pub r : l.Matrix
    pub noise_valid : noise ≡ some r
    pub solve : l.Matrix → l.Matrix
    pub decomposed : l.ldlt (innovation_covariance prior r) ≡ some solve
    pub score_finite : d.is_finite (l.dot innovation (solve innovation)) ≡ true
    pub score_not_negative : d.lt (l.dot innovation (solve innovation)) (d.decimal 0 0) ≡ false
    pub score_within : d.lt limits.max_score (l.dot innovation (solve innovation)) ≡ false

  pub record IsMatch (q : MatchQuality D) (limits : MatchLimits D) (prior : Snapshot l)
      (candidate : Se3 l.Matrix l.So3) (covariance : l.Matrix) : Type 0 where
    pub usable : q.usable ≡ true
    pub supported : limits.minimum_support ≤ q.residuals
    pub candidate_finite : l.se3_finite candidate ≡ true
    pub prior_valid : valid_snapshot l prior ≡ true
    pub cheaper : IsCheaper q
    pub near : IsNear limits (pose_innovation l (get_se3 l prior.nav) candidate)
    pub likely :
        IsLikely limits prior
          (pose_innovation l (get_se3 l prior.nav) candidate)
          (validate_observation_covariance l covariance)

  bad_cost_lem : (q : MatchQuality D) → (bad_cost q ≡ false) ↔ IsCheaper q
  unfolding bad_cost
  bad_cost_lem q = (
    λ h. record {
      initial_finite = ground arith;
      final_finite = ground arith;
      not_negative = ground arith;
      not_grown = ground arith;
    },
    λ c.
        let a = c.initial_finite in
        let b = c.final_finite in let n = c.not_negative in let g = c.not_grown in ground arith,
  )

  too_far_lem :
      (limits : MatchLimits D) (i : l.Matrix) → (too_far l limits i ≡ false) ↔ IsNear limits i
  unfolding too_far
  too_far_lem limits i = (
    λ h. record { finite = ground arith; translation = ground arith; rotation = ground arith },
    λ c. let a = c.finite in let b = c.translation in let g = c.rotation in ground arith,
  )

  judge_innovation-IsLikely :
      (limits : MatchLimits D) (prior : Snapshot l) (innovation r : l.Matrix)
      (o : Option (l.Matrix → l.Matrix))
      → l.ldlt (innovation_covariance prior r) ≡ o
      → (judge_innovation l limits innovation o).accepted ≡ true
      → IsLikely limits prior innovation (some r)
  unfolding judge_innovation judge_score
  judge_innovation-IsLikely limits prior innovation r none e h = cc
  judge_innovation-IsLikely limits prior innovation r (some solve) e h = record {
    r = r;
    noise_valid = refl;
    solve = solve;
    decomposed = e;
    score_finite = ground arith;
    score_not_negative = ground arith;
    score_within = ground arith;
  }

  IsLikely-accepted :
      (limits : MatchLimits D) (prior : Snapshot l) (innovation : l.Matrix)
      (noise : Option l.Matrix)
      → IsLikely limits prior innovation noise
      → (judge_covariance l limits prior innovation noise).accepted ≡ true
  unfolding judge_covariance judge_innovation judge_score
  IsLikely-accepted limits prior innovation noise k =
      let a = k.score_finite in
      let b = k.score_not_negative in
      let c = k.score_within in
      ap (λ o. (judge_covariance l limits prior innovation o).accepted) k.noise_valid
      ∙ ap (λ o. (judge_innovation l limits innovation o).accepted) k.decomposed
      ∙ ground arith

  judge_covariance_lem :
      (limits : MatchLimits D) (prior : Snapshot l) (innovation : l.Matrix)
      (noise : Option l.Matrix)
      → (judge_covariance l limits prior innovation noise).accepted ≡ true
      → IsLikely limits prior innovation noise
  unfolding judge_covariance
  judge_covariance_lem limits prior innovation none h = cc
  judge_covariance_lem limits prior innovation (some r) h =
      judge_innovation-IsLikely limits prior innovation r (l.ldlt (innovation_covariance prior r))
        refl h

  accepted-IsMatch :
      (q : MatchQuality D) (limits : MatchLimits D) (prior : Snapshot l)
      (candidate : Se3 l.Matrix l.So3) (covariance : l.Matrix)
      → (accept_match l q limits prior candidate covariance).accepted ≡ true
      → IsMatch q limits prior candidate covariance
  unfolding accept_match
  accepted-IsMatch q limits prior candidate covariance =
      let Good =
        λ (v : Verdict D). v.accepted ≡ true → IsMatch q limits prior candidate covariance in
      let innovation = pose_innovation l (get_se3 l prior.nav) candidate in
      let noise = validate_observation_covariance l covariance in
      either Good (not q.usable) _ _ (λ a h. ground arith)
        (λ a.
          either Good (ltb q.residuals limits.minimum_support) _ _ (λ b h. ground arith)
            (λ b.
              either Good (not (l.se3_finite candidate) || not (valid_snapshot l prior)) _ _
                (λ c h. ground arith)
                (λ c.
                  either Good (bad_cost q) _ _ (λ e h. ground arith)
                    (λ e.
                      either Good (too_far l limits innovation) _ _ (λ f h. ground arith)
                        (λ f h. record {
                          usable = ground arith;
                          supported = ground arith;
                          candidate_finite = ground arith;
                          prior_valid = ground arith;
                          cheaper = (bad_cost_lem q).0 e;
                          near = (too_far_lem limits innovation).0 f;
                          likely = judge_covariance_lem limits prior innovation noise h;
                        })))))

  IsMatch-accepted :
      (q : MatchQuality D) (limits : MatchLimits D) (prior : Snapshot l)
      (candidate : Se3 l.Matrix l.So3) (covariance : l.Matrix)
      → IsMatch q limits prior candidate covariance
      → (accept_match l q limits prior candidate covariance).accepted ≡ true
  unfolding accept_match
  IsMatch-accepted q limits prior candidate covariance m =
      let Good = λ (v : Verdict D). v.accepted ≡ true in
      let innovation = pose_innovation l (get_se3 l prior.nav) candidate in
      let u = m.usable in
      let s = m.supported in
      let c = m.candidate_finite in
      let p = m.prior_valid in
      let cheap = (bad_cost_lem q).1 m.cheaper in
      let close = (too_far_lem limits innovation).1 m.near in
      either Good (not q.usable) _ _ (λ h. absurd (cc))
        (λ _.
          either Good (ltb q.residuals limits.minimum_support) _ _ (λ h. absurd (ground arith))
            (λ _.
              either Good (not (l.se3_finite candidate) || not (valid_snapshot l prior)) _ _
                (λ h. absurd (ground arith))
                (λ _.
                  either Good (bad_cost q) _ _ (λ h. absurd (cc))
                    (λ _.
                      either Good (too_far l limits innovation) _ _ (λ h. absurd (cc))
                        (λ _. IsLikely-accepted limits prior innovation _ m.likely)))))

  judge_covariance-reason :
      (limits : MatchLimits D) (prior : Snapshot l) (innovation : l.Matrix)
      (noise : Option l.Matrix)
      → ((judge_covariance l limits prior innovation noise).accepted ≡ true)
        ↔ ((judge_covariance l limits prior innovation noise).reason ≡ matched)
  unfolding judge_covariance judge_innovation judge_score
  judge_covariance-reason limits prior innovation noise = ground arith

  -- A match is accepted exactly if it was usable and had enough residuals, the pose was finite and
  -- the prior valid, the costs finite, the final one not negative and not grown, the innovation
  -- finite and within the limits of translation and rotation, and its score can be computed and is
  -- finite, not negative and within its limit; and exactly then the reason says so.
  pub accept_match_lem :
      (q : MatchQuality D) (limits : MatchLimits D) (prior : Snapshot l)
      (candidate : Se3 l.Matrix l.So3) (covariance : l.Matrix)
      → (((accept_match l q limits prior candidate covariance).accepted ≡ true)
          ↔ IsMatch q limits prior candidate covariance)
        × (((accept_match l q limits prior candidate covariance).accepted ≡ true)
            ↔ ((accept_match l q limits prior candidate covariance).reason ≡ matched))
  unfolding accept_match
  accept_match_lem q limits prior candidate covariance = (
    (
      accepted-IsMatch q limits prior candidate covariance,
      IsMatch-accepted q limits prior candidate covariance,
    ),
    ground (
      arith,
      judge_covariance-reason limits prior (pose_innovation l (get_se3 l prior.nav) candidate)
          (validate_observation_covariance l covariance),
    ),
  )
