-- ===== src/Node/Thin.antt =====
-- How many points the callback of the scan context in apps/main_ada.cpp keeps of a cloud, and which.
use native.Mathlib.Nat.{suc-mul, mul-le-mul_right}
use adaptive_lio.Common.{
  ℕ, zero, suc, ◌+◌, ◌-◌, ◌*◌, ◌/◌, ◌≤◌, ◌<◌, ◌≡◌, refl, ◌⊎◌, inl, inr, ap, ◌∙◌, sym, subst, arith,
  List, [], ◌∷◌, length, ltb, either, Bool-cases,
}
use adaptive_lio.Node.{every_nth, thin, step_of}
use adaptive_lio.Node.Channel.{Sub, none_left, keep, skip}

below_or_not : (a b : ℕ) → (a < b) ⊎ (b ≤ a)
below_or_not a b = elim (Bool-cases (ltb a b)) [
  | inl e ↦ inl (ground arith)
  | inr e ↦ inr (ground arith)
]

kept_upper : (m k n : ℕ) → 2 ≤ k → n < 2000 * k + 2000 → m * k < n + k → m ≤ 3000
kept_upper m k n g h i = elim (below_or_not m 3001) [
  | inl l ↦ omega arith
  | inr l ↦ absurd (omega (arith, mul-le-mul_right k l))
]

kept_lower : (m k n : ℕ) → 1 ≤ k → 2000 * k ≤ n → n ≤ m * k → 2000 ≤ m
kept_lower m k n g h i = elim (below_or_not m 2000) [
  | inl l ↦ absurd (omega (arith, mul-le-mul_right {m = m} {n = 1999} k (omega arith)))
  | inr l ↦ l
]

step_of-small : (n : ℕ) → n < 4000 → step_of n ≡ 1
step_of-small n h =
    either (λ v. v ≡ 1) (ltb 1 (n / 2000)) (n / 2000) 1 (λ e. absurd (ground arith)) (λ e. refl)

step_of-large : (n : ℕ) → 4000 ≤ n → step_of n ≡ n / 2000
step_of-large n h =
    either (λ v. v ≡ n / 2000) (ltb 1 (n / 2000)) (n / 2000) 1 (λ e. refl)
      (λ e. absurd (ground arith))

module _ {A : Type 0} where
  -- With a step of `k`, the `m` points kept of `n` are as many as there are steps in `n`.
  length-every_nth :
      (k left : ℕ) (xs : List A)
      → left < k
      → length (every_nth k left xs) * k + left < length xs + k
        × length xs ≤ length (every_nth k left xs) * k + left
  unfolding every_nth
  length-every_nth k left [] h = (omega arith, omega arith)
  length-every_nth k zero (x ∷ xs) h =
      let ih = length-every_nth k (k - 1) xs (omega arith) in
      let e = suc-mul (length (every_nth k (k - 1) xs)) k in
      (omega (arith, ih.0, e), omega (arith, ih.1, e))
  length-every_nth k (suc left) (x ∷ xs) h =
      let ih = length-every_nth k left xs (omega arith) in
      (omega (arith, ih.0), omega (arith, ih.1))

  every_nth-Sub : (k left : ℕ) (xs : List A) → Sub (every_nth k left xs) xs
  unfolding every_nth
  every_nth-Sub k left [] = none_left
  every_nth-Sub k zero (x ∷ xs) = keep (every_nth-Sub k (k - 1) xs)
  every_nth-Sub k (suc left) (x ∷ xs) = skip (every_nth-Sub k left xs)

  every_one : (xs : List A) → every_nth 1 0 xs ≡ xs
  unfolding every_nth
  every_one [] = refl
  every_one (x ∷ xs) = ap (λ v. x ∷ v) (every_one xs)

  -- Which points are kept: all of fewer than 4000, and of more between 2000 and 3000.
  pub Thinned : List A → List A → Type 0
  Thinned xs ys =
      Sub ys xs
      × ((length xs < 4000 × ys ≡ xs) ⊎ (4000 ≤ length xs × (2000 ≤ length ys × length ys ≤ 3000)))

  -- The points kept of a cloud are in the cloud's order; of fewer than 4000 all are kept, and
  -- of more between 2000 and 3000.
  pub thin-Thinned : (xs : List A) → Thinned xs (thin xs)
  unfolding Thinned thin
  thin-Thinned xs = elim (below_or_not (length xs) 4000) [
    | inl h ↦ (
      every_nth-Sub _ 0 xs,
      inl (h, ap (λ k. every_nth k 0 xs) (step_of-small (length xs) h) ∙ every_one xs),
    )
    | inr h ↦
        let k = length xs / 2000 in
        let counts = length-every_nth k 0 xs (omega arith) in
        (
          every_nth-Sub _ 0 xs,
          inr (
            h,
            subst (λ v. 2000 ≤ length (every_nth v 0 xs) × length (every_nth v 0 xs) ≤ 3000)
                (sym (step_of-large (length xs) h))
                (
                  kept_lower (length (every_nth k 0 xs)) k (length xs) (omega arith) (omega arith)
                      (omega (arith, counts.1)),
                  kept_upper (length (every_nth k 0 xs)) k (length xs) (omega arith) (omega arith)
                      (omega (arith, counts.0)),
                ),
          ),
        )
  ]
