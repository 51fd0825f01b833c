-- ===== src/Point/Crop.antt =====
-- `CropAuxPoints` against its description: the points before the end of the window are consumed, and
-- those in the half-open window come out, shifted, in order.
use adaptive_lio.Common.{
  drop, ℕ, suc, ◌+◌, ◌≤◌, ◌≡◌, refl, sym, ap, ◌∙◌, Bool, true, false, not, List, [], ◌∷◌, ◌++◌,
  arith, length, All, if◌then◌else◌, Bool-cases, inl, inr,
}
use native.Mathlib.Nat.{zero-add}
use Prim.Native.Nat.add
use mathlib.Core.List.{append-nil, append_assoc}
use adaptive_lio.Common.Double.{Double}
use adaptive_lio.Point.{Point, keep_if, crop_from, crop_aux_points}

abbrev pub take_while {ℓ} : {A : Type ℓ} → (A → Bool) → List A → List A
take_while p [] = []
take_while p (x ∷ xs) = if p x then x ∷ take_while p xs else []

module _ {D : Type 0} ⦃d : Double D⦄ where
  abbrev pub shift : D → Point D → Point D
  shift offset p = record p { timestamp = d.add p.timestamp offset }

  abbrev pub shift_all : D → List (Point D) → List (Point D)
  shift_all offset [] = []
  shift_all offset (p ∷ ps) = shift offset p ∷ shift_all offset ps

  -- A point with its shifted time stamp is before the window's end, and is not before its begin.
  abbrev pub before : D → D → Point D → Bool
  before end_time offset p = not (d.le end_time (d.add p.timestamp offset))

  abbrev pub reached : D → D → Point D → Bool
  reached begin_time offset p = d.le begin_time (d.add p.timestamp offset)

  -- The points that a window consumes, and those of them that it gives out.
  unfoldable pub consumed : D → D → List (Point D) → List (Point D)
  consumed end_time offset = take_while (before end_time offset)

  unfoldable pub in_window : D → D → List (Point D) → List (Point D)
  in_window begin_time offset ps = shift_all offset (keep_if (reached begin_time offset) ps)

  module _ (begin_time end_time offset : D) where
    crop_from_lem :
        (ps : List (Point D)) (cursor : ℕ) (out : List (Point D))
        → ((crop_from begin_time end_time offset ps cursor out).cursor
            ≡ cursor + length (consumed end_time offset ps))
          × ((crop_from begin_time end_time offset ps cursor out).out
              ≡ out ++ in_window begin_time offset (consumed end_time offset ps))
    unfolding crop_from consumed in_window
    crop_from_lem [] cursor out = (omega arith, sym (append-nil out))
    crop_from_lem (p ∷ ps) cursor out =
        elim (Bool-cases (d.le end_time (d.add p.timestamp offset))) [
          | inl e ↦ rw e (omega arith, sym (append-nil out))
          | inr e ↦ elim (Bool-cases (d.le begin_time (d.add p.timestamp offset))) [
            | inl b ↦
                let ih = crop_from_lem ps (suc cursor) (out ++ (shift offset p ∷ [])) in
                rw (e, b) (omega (arith, ih.0), ih.1 ∙ append_assoc out _ _)
            | inr b ↦
                let ih = crop_from_lem ps (suc cursor) out in rw (e, b) (omega (arith, ih.0), ih.1)
          ]
        ]

drop-nil {ℓ} : {A : Type ℓ} (n : ℕ) → drop {A = A} n [] ≡ []
drop-nil ℕ.zero = refl
drop-nil (suc n) = refl

drop-add {ℓ} : {A : Type ℓ} (c n : ℕ) (xs : List A) → drop (c + n) xs ≡ drop n (drop c xs)
drop-add ℕ.zero n xs = rw zero-add
drop-add (suc c) n [] = rw (drop-nil (suc c + n), drop-nil n)
drop-add (suc c) n (x ∷ xs) = rw (add.suc c n) (drop-add c n xs)

take_while-drop {ℓ} :
    {A : Type ℓ} (p : A → Bool) (xs : List A)
    → xs ≡ take_while p xs ++ drop (length (take_while p xs)) xs
take_while-drop p [] = refl
take_while-drop p (x ∷ xs) = elim (Bool-cases (p x)) [
  | inl e ↦ rw e (ap (λ r. x ∷ r) (take_while-drop p xs))
  | inr e ↦ rw e
]

length-take_while {ℓ} :
    {A : Type ℓ} (p : A → Bool) (xs : List A) → length (take_while p xs) ≤ length xs
length-take_while p [] = omega arith
length-take_while p (x ∷ xs) = elim (Bool-cases (p x)) [
  | inl e ↦ rw e (omega (arith, length-take_while p xs))
  | inr e ↦ rw e (omega arith)
]

length-drop {ℓ} :
    {A : Type ℓ} (c : ℕ) (xs : List A) → c ≤ length xs → c + length (drop c xs) ≡ length xs
length-drop ℕ.zero xs h = omega arith
length-drop (suc c) [] h = absurd (omega arith)
length-drop (suc c) (x ∷ xs) h = omega (arith, length-drop c xs (omega arith))

module _ {D : Type 0} ⦃d : Double D⦄ where
  -- A time stamp in the half-open window.
  abbrev pub Within : D → D → Point D → Type 0
  Within begin_time end_time p =
      (d.le begin_time p.timestamp ≡ true) × (d.le end_time p.timestamp ≡ false)

  in_window-Within :
      (begin_time end_time offset : D) (ps : List (Point D))
      → All (Within begin_time end_time) (in_window begin_time offset (consumed end_time offset ps))
  unfolding in_window consumed
  in_window-Within b e o [] = tt
  in_window-Within b e o (p ∷ ps) = ground (arith, in_window-Within b e o ps)

  -- A window consumes exactly the points from the cursor to the first one at or after its end, and
  -- appends, in order and with shifted time stamps, those at or after its begin. So every point that
  -- comes out lies in [begin, end), the cursor stays in the packet, and what it has passed is not
  -- looked at again.
  pub crop_aux_points_lem :
      (begin_time end_time offset : D) (points : List (Point D)) (cursor : ℕ) (out : List (Point D))
      → cursor ≤ length points
      → let r = crop_aux_points begin_time end_time offset points cursor out in
        let passed = consumed end_time offset (drop cursor points) in
        (r.out ≡ out ++ in_window begin_time offset passed)
        × All (Within begin_time end_time) (in_window begin_time offset passed)
        × (drop cursor points ≡ passed ++ drop r.cursor points)
        × (cursor ≤ r.cursor)
        × (r.cursor ≤ length points)
  unfolding crop_aux_points consumed
  crop_aux_points_lem b e o points cursor out h =
      let rest = drop cursor points in
      let p = crop_from_lem b e o rest cursor out in
      (
        p.1,
        in_window-Within b e o rest,
        rw (p.0, drop-add cursor (length (take_while (before e o) rest)) points)
            (take_while-drop (before e o) rest),
        omega (arith, p.0),
        omega (arith, p.0, length-drop cursor points h, length-take_while (before e o) rest),
      )
