-- ===== src/Convert/Slices.antt =====
-- Lemmas on the slices that the handlers of `CloudConvert2` fill: appending to one, and the loop.
use mathlib.Core.Option
use mathlib.Core.List.{append_assoc, append-nil}
use adaptive_lio.Common.{
  ℕ, zero, suc, ◌+◌, ◌<◌, ◌≡◌, refl, ap, ◌∙◌, sym, arith, Option, none, some, List, [], ◌∷◌, ◌++◌,
  ◌==◌, length, get_elem?, All, All-append, if◌then◌else◌, inl, inr, Bool-cases,
}
use adaptive_lio.Convert.{push_nat, replicate, run_loop}

-- A result that is there, and of which `P` holds.
abbrev pub Returns : {A : Type 0} → (A → Type 0) → Option A → Type 0
Returns P none = ⊥
Returns P (some a) = P a

-- The points of the slices, each with the number of its slice.
abbrev pub AllAt : {A : Type 0} → (ℕ → A → Type 0) → ℕ → List (List A) → Type 0
AllAt P k [] = Unit
AllAt P k (c ∷ cs) = All (P k) c × AllAt P (suc k) cs

pub Returns-map :
    {A B : Type 0} (P : B → Type 0) (f : A → B) (o : Option A)
    → Returns (λ a. P (f a)) o
    → Returns P (Option.map f o)
Returns-map P f none h = h
Returns-map P f (some a) h = h

pub Returns-weaken :
    {A : Type 0} (P : A → Type 0) (Q : A → Type 0) (o : Option A)
    → ((a : A) → P a → Q a)
    → Returns P o
    → Returns Q o
Returns-weaken P Q none f h = absurd h
Returns-weaken P Q (some a) f h = f a h

Returns-bind :
    {A B : Type 0} (P : A → Type 0) (Q : B → Type 0) (o : Option A) (f : A → Option B)
    → ((a : A) → P a → Returns Q (f a))
    → Returns P o
    → Returns Q (elim o [ none ↦ none | some a ↦ f a ])
Returns-bind P Q none f g h = h
Returns-bind P Q (some a) f g h = g a h

-- What each round keeps, the loop keeps.
pub run_loop-Returns :
    {P C : Type 0} (Q : C → Type 0) (step : ℕ → P → C → Option C)
    → ((i : ℕ) (p : P) (c : C) → Q c → Returns Q (step i p c))
    → (i : ℕ) (ps : List P) (c : C) → Q c
    → Returns Q (run_loop step i ps c)
unfolding run_loop
run_loop-Returns Q step keep i [] c h = h
run_loop-Returns Q step keep i (p ∷ ps) c h =
    Returns-bind Q Q (step i p c) (λ c'. run_loop step (suc i) ps c')
      (λ c' k. run_loop-Returns Q step keep (suc i) ps c' k) (keep i p c h)

module _ {A : Type 0} where
  pub length-replicate : (n : ℕ) (a : A) → length (replicate n a) ≡ n
  unfolding replicate
  length-replicate zero a = refl
  length-replicate (suc n) a = ap suc (length-replicate n a)

  pub get_elem?-replicate : (n k : ℕ) (a : A) → k < n → get_elem? (replicate n a) k ≡ some a
  unfolding replicate
  get_elem?-replicate zero k a h = absurd (omega arith)
  get_elem?-replicate (suc n) zero a h = refl
  get_elem?-replicate (suc n) (suc k) a h = get_elem?-replicate n k a (omega arith)

  pub replicate-AllAt : (P : ℕ → A → Type 0) (k n : ℕ) → AllAt P k (replicate n [])
  unfolding replicate
  replicate-AllAt P k zero = tt
  replicate-AllAt P k (suc n) = (tt, replicate-AllAt P (suc k) n)

  -- A point goes to the end of its slice.
  pub push_nat-AllAt :
      (P : ℕ → A → Type 0) (k n : ℕ) (p : A) (cs : List (List A))
      → n < length cs
      → ((j : ℕ) → j ≡ k + n → P j p)
      → AllAt P k cs
      → Returns (λ cs'. (length cs' ≡ length cs) × AllAt P k cs') (push_nat n p cs)
  unfolding push_nat
  push_nat-AllAt P k n p [] b h a = absurd (omega arith)
  push_nat-AllAt P k zero p (c ∷ cs) b h a =
      (refl, (All-append (P k) c (p ∷ []) a.0 (h k (omega arith), tt), a.1))
  push_nat-AllAt P k (suc n) p (c ∷ cs) b h a =
      Returns-map _ (λ rest. c ∷ rest) (push_nat n p cs)
        (Returns-weaken _ _ (push_nat n p cs) (λ rest r. (ap suc r.0, (a.0, r.1)))
          (push_nat-AllAt P (suc k) n p cs (omega arith) (λ j e. h j (omega arith)) a.1))

  abbrev pub longer : List A → Option (List A) → Option (List A)
  longer ps o = Option.map (λ c. c ++ ps) o

  pub get_elem?-push_nat :
      (n : ℕ) (p : A) (cs : List (List A))
      → n < length cs
      → Returns
          (λ cs'.
            (length cs' ≡ length cs)
            × ((k : ℕ)
                → get_elem? cs' k
                  ≡ (if n == k then longer (p ∷ []) (get_elem? cs k) else get_elem? cs k)))
          (push_nat n p cs)
  unfolding push_nat
  get_elem?-push_nat n p [] b = absurd (omega arith)
  get_elem?-push_nat zero p (c ∷ cs) b = (refl, first)
    where
      first :
          (k : ℕ)
          → get_elem? ((c ++ p ∷ []) ∷ cs) k
            ≡ (if 0 == k then longer (p ∷ []) (get_elem? (c ∷ cs) k) else get_elem? (c ∷ cs) k)
      first zero = refl
      first (suc k) = ground arith
  get_elem?-push_nat (suc n) p (c ∷ cs) b =
      Returns-map _ (λ rest. c ∷ rest) (push_nat n p cs)
        (Returns-weaken _ _ (push_nat n p cs) (λ rest r. (ap suc r.0, later rest r.1))
          (get_elem?-push_nat n p cs (omega arith)))
    where
      later :
          (rest : List (List A))
          → ((k : ℕ)
              → get_elem? rest k
                ≡ (if n == k then longer (p ∷ []) (get_elem? cs k) else get_elem? cs k))
          → (k : ℕ)
          → get_elem? (c ∷ rest) k
            ≡ (if suc n == k then longer (p ∷ []) (get_elem? (c ∷ cs) k) else get_elem? (c ∷ cs) k)
      later rest r zero = ground arith
      later rest r (suc k) = ground (arith, r k)

module _ {P A : Type 0} (slot : ℕ → P → Option (ℕ × A)) where
  -- The points of slice `k`, where `slot` says whether a point is kept, and its slice.
  abbrev to_slice : ℕ → Option (ℕ × A) → List A → List A
  to_slice k none rest = rest
  to_slice k (some (n, a)) rest = if n == k then a ∷ rest else rest

  unfoldable pub slice : ℕ → ℕ → List P → List A
  slice k i [] = []
  slice k i (p ∷ ps) = to_slice k (slot i p) (slice k (suc i) ps)

  abbrev pub by_slot : Option (ℕ × A) → List (List A) → Option (List (List A))
  by_slot none cs = some cs
  by_slot (some (n, a)) cs = push_nat n a cs

  -- The slot of every point is a slice.
  abbrev pub Fits : ℕ → Type 0
  Fits size = (i : ℕ) (p : P) (n : ℕ) (a : A) → slot i p ≡ some (n, a) → n < size

  longer-longer :
      (xs ys : List A) (o : Option (List A)) → longer ys (longer xs o) ≡ longer (xs ++ ys) o
  longer-longer xs ys none = refl
  longer-longer xs ys (some c) = ap some (append_assoc c xs ys)

  longer-nil : (o : Option (List A)) → longer [] o ≡ o
  longer-nil none = refl
  longer-nil (some c) = ap some (append-nil c)

  to_slice-append :
      (k : ℕ) (o : Option (ℕ × A)) (rest : List A) → to_slice k o [] ++ rest ≡ to_slice k o rest
  to_slice-append k none rest = refl
  to_slice-append k (some (n, a)) rest = elim (Bool-cases (n == k)) [ inl e ↦ rw e | inr e ↦ rw e ]

  -- What the slices `cs` are after the points `ps` of the message, from the index `i` on.
  abbrev pub IsSliced : ℕ → List P → List (List A) → List (List A) → Type 0
  IsSliced i ps cs cs' =
      (length cs' ≡ length cs)
      × ((k : ℕ) → get_elem? cs' k ≡ longer (slice k i ps) (get_elem? cs k))

  -- The same after one point.
  abbrev IsPlaced : Option (ℕ × A) → List (List A) → List (List A) → Type 0
  IsPlaced o cs cs' =
      (length cs' ≡ length cs)
      × ((k : ℕ) → get_elem? cs' k ≡ longer (to_slice k o []) (get_elem? cs k))

  by_slot_lem :
      (o : Option (ℕ × A)) (cs : List (List A))
      → ((n : ℕ) (a : A) → o ≡ some (n, a) → n < length cs)
      → Returns (IsPlaced o cs) (by_slot o cs)
  by_slot_lem none cs fits = (refl, λ k. sym (longer-nil (get_elem? cs k)))
  by_slot_lem (some (n, a)) cs fits =
      Returns-weaken _ _ (push_nat n a cs)
        (λ cs' r. (
          r.0,
          λ k. r.1 k ∙ elim (Bool-cases (n == k)) [
            | inl e ↦ rw e
            | inr e ↦ rw e (sym (longer-nil (get_elem? cs k)))
          ],
        ))
        (get_elem?-push_nat n a cs (fits n a refl))

  -- Each slice gets its points, in the order of the message.
  pub run_loop-IsSliced :
      (step : ℕ → P → List (List A) → Option (List (List A)))
      → ((i : ℕ) (p : P) (cs : List (List A)) → step i p cs ≡ by_slot (slot i p) cs)
      → (i : ℕ) (ps : List P) (cs : List (List A)) (size : ℕ) → Fits size
      → length cs ≡ size
      → Returns (IsSliced i ps cs) (run_loop step i ps cs)
  unfolding run_loop slice
  run_loop-IsSliced step same i [] cs size fits e = (refl, λ k. sym (longer-nil (get_elem? cs k)))
  run_loop-IsSliced step same i (p ∷ ps) cs size fits e =
      Returns-bind (IsPlaced (slot i p) cs) (IsSliced i (p ∷ ps) cs) (step i p cs)
        (λ c'. run_loop step (suc i) ps c')
        (λ c' placed.
          Returns-weaken (IsSliced (suc i) ps c') (IsSliced i (p ∷ ps) cs)
            (run_loop step (suc i) ps c')
            (λ cs' sliced. (
              sliced.0 ∙ placed.0,
              λ k.
                  sliced.1 k
                  ∙ ap (longer (slice k (suc i) ps)) (placed.1 k)
                  ∙ longer-longer (to_slice k (slot i p) []) (slice k (suc i) ps) (get_elem? cs k)
                  ∙ ap (λ xs. longer xs (get_elem? cs k))
                      (to_slice-append k (slot i p) (slice k (suc i) ps)),
            ))
            (run_loop-IsSliced step same (suc i) ps c' size fits (placed.0 ∙ e)))
        (rw (same i p cs) (by_slot_lem (slot i p) cs (λ n a h. rw e (fits i p n a h))))
