-- ===== src/Sync/Rising.antt =====
-- Sequences whose time stamps grow strictly, and how `getMeasureMents` splits one at a scan's end.
use adaptive_lio.Common.{◌≡◌, refl, ap, true, false, inl, inr, List, [], ◌∷◌, ◌++◌, All, Bool-cases}
use adaptive_lio.Common.Double.{Double, IsOrdered}
use adaptive_lio.Imu.{Imu}
use adaptive_lio.Sync.{take_imu}

module _ {D : Type 0} ⦃d : Double D⦄ where
  -- The stamps of `xs` grow strictly from above `low`, and none is above `high`.
  abbrev pub Rises : {A : Type 0} → (A → D) → D → List A → D → Type 0
  Rises f low [] high = d.le low high ≡ true
  Rises f low (x ∷ xs) high = (d.lt low (f x) ≡ true) × Rises f (f x) xs high

  pub Rises-push :
      {A : Type 0} (f : A → D) (low high : D) (xs : List A) (x : A)
      → IsOrdered D
      → Rises f low xs high
      → d.lt high (f x) ≡ true
      → d.le (f x) (f x) ≡ true
      → Rises f low (xs ++ (x ∷ [])) (f x)
  Rises-push f low high [] x laws r above n = (laws.lt_of_le_of_lt _ _ _ r above, n)
  Rises-push f low high (y ∷ ys) x laws r above n =
      (r.0, Rises-push f (f y) high ys x laws r.1 above n)

  -- A stamp above one that is past the end is past the end.
  later_past : IsOrdered D → (a b e : D) → d.lt a b ≡ true → d.le a e ≡ false → d.le b e ≡ false
  later_past laws a b e up past = elim (Bool-cases (d.le b e)) [
    | inl h ↦ cc (laws.le_of_lt a e (laws.lt_of_lt_of_le a b e up h))
    | inr h ↦ h
  ]

  Rises-past :
      (e low high : D) (xs : List (Imu D))
      → IsOrdered D
      → Rises (λ x. x.timestamp) low xs high
      → d.le low e ≡ false
      → All (λ x. d.le x.timestamp e ≡ false) xs
  Rises-past e low high [] laws r h = tt
  Rises-past e low high (x ∷ xs) laws r h =
      let past = later_past laws low x.timestamp e r.0 h in
      (past, Rises-past e x.timestamp high xs laws r.1 past)

  -- The split: what is taken is up to the end, what is left is past it, nothing is lost or
  -- reordered, and what is left still rises.
  pub record IsSplit (e high : D) (xs : List (Imu D)) : Type 0 where
    pub whole : (take_imu e xs).taken ++ (take_imu e xs).rest ≡ xs
    pub taken_until : All (λ x. d.le x.timestamp e ≡ true) (take_imu e xs).taken
    pub rest_past : All (λ x. d.le x.timestamp e ≡ false) (take_imu e xs).rest
    pub next_low : D
    pub rest_rises : Rises (λ x. x.timestamp) next_low (take_imu e xs).rest high

  pub take_imu-IsSplit :
      (e low high : D) (xs : List (Imu D))
      → IsOrdered D
      → Rises (λ x. x.timestamp) low xs high
      → IsSplit e high xs
  unfolding take_imu
  take_imu-IsSplit e low high [] laws r = record {
    whole = refl;
    taken_until = tt;
    rest_past = tt;
    next_low = low;
    rest_rises = r;
  }
  take_imu-IsSplit e low high (x ∷ xs) laws r =
      let ih = take_imu-IsSplit e x.timestamp high xs laws r.1 in
      elim (Bool-cases (d.le x.timestamp e)) [
        | inl h ↦ record {
          whole = rw h (ap (λ t. x ∷ t) ih.whole);
          taken_until = rw h (h, ih.taken_until);
          rest_past = rw h ih.rest_past;
          next_low = ih.next_low;
          rest_rises = rw h ih.rest_rises;
        }
        | inr h ↦ record {
          whole = rw h;
          taken_until = rw h tt;
          rest_past = rw h (h, Rises-past e x.timestamp high xs laws r.1 h);
          next_low = low;
          rest_rises = rw h r;
        }
      ]
