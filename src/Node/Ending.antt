-- ===== src/Node/Ending.antt =====
-- How the two workers of apps/main_ada.cpp end after their flag is set: each alone, as at the end of
-- `main`, where the producers have ended.
use mathlib.Core.List.{append_assoc, append-nil}
use adaptive_lio.Common.{
  ℕ, zero, suc, ◌≤◌, ◌≡◌, refl, ◌⊎◌, inl, inr, ap, ◌∙◌, sym, subst, arith, true, false, List, [],
  ◌∷◌, ◌++◌, length, either, if◌then◌else◌,
}
use adaptive_lio.Node.{Queue, Consumer, scan_publisher, scantext, take_from, take_task, work_round}
use adaptive_lio.Node.Workers.{scantext_cases}

-- The rounds that a worker needs to end.
abbrev pub enough : Consumer → ℕ → ℕ
enough scan_publisher n = suc n
enough scantext n = 2

module _ {A : Type 0} where
  -- A worker on its own.
  unfoldable pub rounds : Consumer → ℕ → Queue A → Queue A
  rounds w zero q = q
  rounds w (suc n) q = rounds w n (work_round w q)

  work_round-take_from :
      (q : Queue A) → q.ended ≡ false → work_round scan_publisher q ≡ take_from q.waiting q
  unfolding work_round take_task
  work_round-take_from q e = ap (λ b. if b then q else take_from q.waiting q) e

  round_last :
      (q : Queue A)
      → q.waiting ≡ []
      → q.stopping ≡ true
      → q.ended ≡ false
      → work_round scan_publisher q ≡ record q { ended = true }
  round_last q w s e =
      work_round-take_from q e
      ∙ ap (λ ws. take_from ws q) w
      ∙ ap (λ b. if b then record q { ended = true } else q) s

  round_task :
      (q : Queue A) (x : A) (ws : List A)
      → q.waiting ≡ x ∷ ws
      → q.ended ≡ false
      → work_round scan_publisher q
        ≡ record q { waiting = ws; taken = q.taken ++ x ∷ []; at_head = true }
  round_task q x ws w e = work_round-take_from q e ∙ ap (λ v. take_from v q) w

  -- `r` ended with all the tasks `ws` taken after those of `q`.
  Drained : List A → List A → Queue A → Type 0
  Drained before ws r = r.ended ≡ true × (r.waiting ≡ [] × r.taken ≡ before ++ ws)

  drained :
      (ws : List A) (q : Queue A)
      → q.waiting ≡ ws
      → q.stopping ≡ true
      → q.ended ≡ false
      → Drained q.taken ws (rounds scan_publisher (suc (length ws)) q)
  unfolding rounds Drained
  drained [] q w s e =
      subst (Drained q.taken []) (sym (round_last q w s e)) (refl, (w, sym (append-nil q.taken)))
  drained (x ∷ ws) q w s e =
      let q' : Queue A = record q { waiting = ws; taken = q.taken ++ x ∷ []; at_head = true } in
      let rest = drained ws q' refl s e in
      subst (λ v. Drained q.taken (x ∷ ws) (rounds scan_publisher (suc (length ws)) v))
        (sym (round_task q x ws w e))
        (rest.0, (rest.1.0, rest.1.1 ∙ append_assoc q.taken (x ∷ []) ws))

  -- After the flag is set, at the head of its loop, it ends and takes nothing.
  ends_at_head :
      (q : Queue A)
      → q.stopping ≡ true
      → (q.ended ≡ true) ⊎ (q.at_head ≡ true)
      → (work_round scantext q).ended ≡ true × (work_round scantext q).waiting ≡ q.waiting
  ends_at_head q s d =
      scantext_cases (λ v. v.ended ≡ true × v.waiting ≡ q.waiting) q (λ e. (e, refl)) (refl, refl)
        (λ n. absurd (cc)) (λ e h. elim d [ inl e' ↦ absurd (cc) | inr h' ↦ absurd (cc) ])

  Nearly : Queue A → Queue A → Type 0
  Nearly q v =
      ((v.ended ≡ true) ⊎ (v.at_head ≡ true))
      × (v.stopping ≡ true × length q.waiting ≤ suc (length v.waiting))

  take_from-Nearly :
      (ws : List A) (q : Queue A) → q.waiting ≡ ws → q.stopping ≡ true → Nearly q (take_from ws q)
  unfolding Nearly
  take_from-Nearly [] q w s =
      either (Nearly q) q.stopping (record q { ended = true }) q (λ e. (inl refl, (s, omega arith)))
        (λ e. absurd (cc))
  take_from-Nearly (x ∷ ws) q w s =
      (inr refl, (s, subst (λ v. length v ≤ suc (length ws)) (sym w) (omega arith)))

  work_round-Nearly : (q : Queue A) → q.stopping ≡ true → Nearly q (work_round scantext q)
  unfolding Nearly
  work_round-Nearly q s =
      scantext_cases (Nearly q) q (λ e. (inl e, (s, omega arith))) (inl refl, (s, omega arith))
        (λ n. absurd (cc)) (λ e h. take_from-Nearly q.waiting q refl s)

  -- How a worker leaves its queue: the publisher empty, the scan context without at most one task.
  pub Ends : Consumer → Queue A → Queue A → Type 0
  Ends scan_publisher q r = r.ended ≡ true × (r.waiting ≡ [] × r.taken ≡ q.taken ++ q.waiting)
  Ends scantext q r = r.ended ≡ true × length q.waiting ≤ suc (length r.waiting)

  -- A worker that has not ended and runs alone after its flag was set ends: the publisher's
  -- after one round more than scans wait, and then all of them are taken in order; that of the
  -- scan context after two rounds, and then at most one task was taken, the others are left.
  pub rounds-Ends :
      (w : Consumer) (q : Queue A)
      → q.stopping ≡ true
      → q.ended ≡ false
      → Ends w q (rounds w (enough w (length q.waiting)) q)
  unfolding Ends Drained rounds Nearly
  rounds-Ends scan_publisher q s e = drained q.waiting q refl s e
  rounds-Ends scantext q s e =
      let near = work_round-Nearly q s in
      let last = ends_at_head (work_round scantext q) near.1.0 near.0 in
      (last.0, subst (λ v. length q.waiting ≤ suc (length v)) (sym last.1) near.1.1)
