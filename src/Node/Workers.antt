-- ===== src/Node/Workers.antt =====
-- What the queues of the two workers of apps/main_ada.cpp promise.
use adaptive_lio.Common.{
  ℕ, ◌≤◌, ◌≡◌, refl, arith, true, false, List, [], ◌∷◌, ◌++◌, length, length-append, leb, ltb,
  either, if◌then◌else◌,
}
use adaptive_lio.Node.{
  Queue, Consumer, scan_publisher, scantext, enqueue, offer, take_from, take_task, work_round,
  stop_worker,
}
use adaptive_lio.Node.Channel.{
  Channel, Flows, send, refuse, lose, receive, still, then_flow, Sub, Flows-Sub, channel, joined,
}

abbrev pub capacity : Consumer → ℕ
capacity scan_publisher = 2
capacity scantext = 5

module _ {A : Type 0} where
  abbrev pub empty_queue : Queue A
  empty_queue = record {
    waiting = [];
    stopping = false;
    at_head = true;
    ended = false;
    offered = [];
    taken = [];
  }

  -- What a queue shows of itself as a channel.
  abbrev pub view : Queue A → Channel A
  view q = channel q.offered q.waiting q.taken

  pub data Step (w : Consumer) (q : Queue A) : Queue A → Type 0 where
    offering : (task : A) → Step w q (offer w task q)
    working : Step w q (work_round w q)
    stopping : Step w q (stop_worker q)

  pub data Reach (w : Consumer) : Queue A → Type 0 where
    begin : Reach w empty_queue
    step : {q r : Queue A} → Reach w q → Step w q r → Reach w r

  enqueue-Flows :
      (w : Consumer) (task : A) (ws s r : List A)
      → Flows (channel s ws r) (channel (s ++ task ∷ []) (enqueue w task ws) r)
  enqueue-Flows scan_publisher task [] s r = then_flow still (send task refl refl refl)
  enqueue-Flows scan_publisher task (x ∷ []) s r = then_flow still (send task refl refl refl)
  enqueue-Flows scan_publisher task (x ∷ y ∷ ws) s r =
      either (λ v. Flows (channel s (x ∷ y ∷ ws) r) (channel (s ++ task ∷ []) (v ++ task ∷ []) r))
        (leb 2 (length (x ∷ y ∷ ws))) (y ∷ ws) (x ∷ y ∷ ws)
        (λ e.
          then_flow (then_flow {e = channel s (y ∷ ws) r} still (lose x refl refl refl))
            (send task refl refl refl))
        (λ e. then_flow still (send task refl refl refl))
  enqueue-Flows scantext task ws s r =
      either (λ v. Flows (channel s ws r) (channel (s ++ task ∷ []) v r)) (ltb (length ws) 5)
        (ws ++ task ∷ []) ws (λ e. then_flow still (send task refl refl refl))
        (λ e. then_flow still (refuse task refl refl refl))

  take-Flows : (ws : List A) (q : Queue A) → q.waiting ≡ ws → Flows (view q) (view (take_from ws q))
  take-Flows [] q e =
      either (λ v. Flows (view q) (view v)) q.stopping (record q { ended = true }) q (λ h. still)
        (λ h. still)
  take-Flows (x ∷ rest) q e = then_flow still (receive x refl e refl)

  -- What a round of the worker of the scan context leads to, in four cases.
  pub scantext_cases :
      (P : Queue A → Type 0) (q : Queue A)
      → (q.ended ≡ true → P q)
      → P (record q { ended = true })
      → (q.stopping ≡ false → P (record q { at_head = false }))
      → (q.ended ≡ false → q.at_head ≡ false → P (take_from q.waiting q))
      → P (work_round scantext q)
  unfolding work_round take_task
  scantext_cases P q same ending leaving taking =
      either P q.ended q
        (if q.at_head
          then (if q.stopping then record q { ended = true } else record q { at_head = false })
          else take_from q.waiting q)
        same
        (λ e.
          either P q.at_head
            (if q.stopping then record q { ended = true } else record q { at_head = false })
            (take_from q.waiting q)
            (λ h.
              either P q.stopping (record q { ended = true }) (record q { at_head = false })
                (λ s. ending) leaving)
            (taking e))

  round_cases :
      (P : Queue A → Type 0) (w : Consumer) (q : Queue A)
      → P q
      → P (record q { ended = true })
      → P (record q { at_head = false })
      → P (take_from q.waiting q)
      → P (work_round w q)
  unfolding work_round take_task
  round_cases P scan_publisher q same ending leaving taking =
      either P q.ended q (take_from q.waiting q) (λ h. same) (λ h. taking)
  round_cases P scantext q same ending leaving taking =
      scantext_cases P q (λ e. same) ending (λ s. leaving) (λ e h. taking)

  Step-Flows : (w : Consumer) (q r : Queue A) → Step w q r → Flows (view q) (view r)
  unfolding offer stop_worker
  Step-Flows w q r (offering task) = enqueue-Flows w task q.waiting q.offered q.taken
  Step-Flows w q r working =
      round_cases (λ v. Flows (view q) (view v)) w q still still still (take-Flows q.waiting q refl)
  Step-Flows w q r stopping = still

  Reach-Flows : (w : Consumer) (q : Queue A) → Reach w q → Flows (channel [] [] []) (view q)
  Reach-Flows w q begin = still
  Reach-Flows w q (step {q = p} reach s) = joined (Reach-Flows w p reach) (Step-Flows w p q s)

  -- No task is taken twice, before its turn or out of order, and the queue stays in its capacity.
  pub Refines : Consumer → Queue A → Type 0
  Refines w q =
      Flows (channel [] [] []) (view q)
      × (Sub (q.taken ++ q.waiting) q.offered × length q.waiting ≤ capacity w)

  length-enqueue :
      (w : Consumer) (task : A) (ws : List A)
      → length ws ≤ capacity w
      → length (enqueue w task ws) ≤ capacity w
  length-enqueue scan_publisher task [] h = ground arith
  length-enqueue scan_publisher task (x ∷ []) h = ground arith
  length-enqueue scan_publisher task (x ∷ y ∷ []) h = ground arith
  length-enqueue scan_publisher task (x ∷ y ∷ z ∷ ws) h = absurd (ground arith)
  length-enqueue scantext task ws h =
      either (λ v. length v ≤ 5) (ltb (length ws) 5) (ws ++ task ∷ []) ws
        (λ e. ground (arith, length-append ws (task ∷ []), e)) (λ e. h)

  length-take_from :
      (w : Consumer) (q : Queue A) (ws : List A)
      → length ws ≤ capacity w
      → length q.waiting ≤ capacity w
      → length (take_from ws q).waiting ≤ capacity w
  length-take_from w q [] h g =
      either (λ v. length v.waiting ≤ capacity w) q.stopping (record q { ended = true }) q (λ e. g)
        (λ e. g)
  length-take_from w q (x ∷ ws) h g = omega arith

  length-step :
      (w : Consumer) (q r : Queue A)
      → Step w q r
      → length q.waiting ≤ capacity w
      → length r.waiting ≤ capacity w
  unfolding offer stop_worker
  length-step w q r (offering task) h = length-enqueue w task q.waiting h
  length-step w q r working h =
      round_cases (λ v. length v.waiting ≤ capacity w) w q h h h
        (length-take_from w q q.waiting h h)
  length-step w q r stopping h = h

  length-Reach : (w : Consumer) (q : Queue A) → Reach w q → length q.waiting ≤ capacity w
  length-Reach scan_publisher q begin = omega arith
  length-Reach scantext q begin = omega arith
  length-Reach w q (step {q = p} reach s) = length-step w p q s (length-Reach w p reach)

  -- After any sequence of tasks, rounds of the worker and stops from the empty queue, the
  -- queue has gone through steps of a channel that may lose a task when it is sent or while it
  -- waits; what was taken and then what waits is part of what was offered, in the same order
  -- and nothing twice; and at most two scans, or five tasks of the scan context, wait.
  pub Reach-Refines : (w : Consumer) (q : Queue A) → Reach w q → Refines w q
  unfolding Refines
  Reach-Refines w q reach =
      let flows = Reach-Flows w q reach in
      (flows, (Flows-Sub (view q) flows, length-Reach w q reach))
