-- ===== src/Coverage/Turns.antt =====
-- The rounds of `SelectGeometricCoverage` of algo/lidar_sampling.h over lists of indices.
use mathlib.Core.List.{Perm, perm_middle, append_assoc}
use mathlib.Core.List.Perm
use adaptive_lio.Common.{
  ℕ, zero, suc, ◌+◌, ◌≤◌, ◌<◌, ◌≡◌, refl, ◌⊎◌, inl, inr, ap, ◌∙◌, sym, subst, arith, Bool, true,
  false, Option, none, some, List, [], ◌∷◌, ◌++◌, ltb, ◌==◌, length, length-append, get_elem?, drop,
  All, either, Bool-cases, if◌then◌else◌,
}
use adaptive_lio.Convert.Slices.{Returns}
use adaptive_lio.Coverage.{turn_over, take_turns}

-- What holds of both cases of an option holds of their `elim`.
pub on_option :
    {A B : Type 0} (P : B → Type 0) (o : Option A) (x : B) (f : A → B)
    → (o ≡ none → P x)
    → ((a : A) → o ≡ some a → P (f a))
    → P (elim o [ none ↦ x | some a ↦ f a ])
on_option P none x f g h = g refl
on_option P (some a) x f g h = h a refl

module _ {A : Type 0} where
  drop-none : (e : List A) (r : ℕ) → get_elem? e r ≡ none → drop r e ≡ []
  drop-none [] zero h = refl
  drop-none [] (suc r) h = refl
  drop-none (x ∷ e) zero h = cc
  drop-none (x ∷ e) (suc r) h = drop-none e r h

  drop-none_after : (e : List A) (r : ℕ) → get_elem? e r ≡ none → drop (suc r) e ≡ []
  drop-none_after [] r h = refl
  drop-none_after (x ∷ e) zero h = cc
  drop-none_after (x ∷ e) (suc r) h = drop-none_after e r h

  drop-some : (e : List A) (r : ℕ) (i : A) → get_elem? e r ≡ some i → drop r e ≡ i ∷ drop (suc r) e
  drop-some [] r i h = cc
  drop-some (x ∷ e) zero i h = cc
  drop-some (x ∷ e) (suc r) i h = drop-some e r i h

  get-none : (e : List A) (r : ℕ) → length e ≤ r → get_elem? e r ≡ none
  get-none [] r h = refl
  get-none (x ∷ e) zero h = absurd (omega arith)
  get-none (x ∷ e) (suc r) h = get-none e r (omega arith)

-- What the bins have from position `r` on.
abbrev pub left_of : ℕ → List (List ℕ) → List ℕ
left_of r [] = []
left_of r (e ∷ es) = drop r e ++ left_of r es

-- The indices `sel` are as many as the budget, or all of `all`; the others are a part of `all` too.
pub record IsSelected (budget : ℕ) (all : List ℕ) (sel : List ℕ) : Type 0 where
  pub others : List ℕ
  pub whole : Perm (sel ++ others) all
  pub fits : length sel ≤ budget
  pub enough : (length sel ≡ budget) ⊎ (others ≡ [])

-- After a round: the budget is reached, or what is left is `after`, nothing if no index was added.
record IsTurned (budget : ℕ) (all after : List ℕ) (r : List ℕ × Bool) : Type 0 where
  others : List ℕ
  whole : Perm (r.0 ++ others) all
  fits : length r.0 ≤ budget
  ended : (length r.0 ≡ budget) ⊎ (others ≡ after)
  idle : (r.1 ≡ false) → others ≡ []

-- An index that is taken moves from what is left to what was taken.
moved :
    (sel done d rest : List ℕ) (i : ℕ)
    → Perm ((sel ++ i ∷ []) ++ ((done ++ d) ++ rest)) (sel ++ (done ++ ((i ∷ d) ++ rest)))
moved sel done d rest i =
    let goal = sel ++ (done ++ (i ∷ (d ++ rest))) in
    subst (λ v. Perm v goal) (sym (append_assoc sel (i ∷ []) ((done ++ d) ++ rest)))
      (subst (λ v. Perm (sel ++ (i ∷ v)) goal) (sym (append_assoc done d rest))
        (Perm.append_left sel (Perm.symm (perm_middle done (d ++ rest)))))

turn_over-IsTurned :
    (r b : ℕ) (all after done : List ℕ) (added : Bool) (es : List (List ℕ)) (sel : List ℕ)
    → Perm (sel ++ (done ++ left_of r es)) all
    → done ++ left_of (suc r) es ≡ after
    → length sel < b
    → (added ≡ false → done ≡ [])
    → IsTurned b all after (turn_over r b added es sel)
unfolding turn_over
turn_over-IsTurned r b all after done added [] sel p e h idle = record {
  others = done ++ [];
  whole = p;
  fits = omega arith;
  ended = inr e;
  idle = λ a. ap (λ v. v ++ []) (idle a);
}
turn_over-IsTurned r b all after done added (e ∷ es) sel p q h idle =
    let d = drop (suc r) e in
    let after' : (done ++ d) ++ left_of (suc r) es ≡ after =
      append_assoc done d (left_of (suc r) es) ∙ q in
    on_option (IsTurned b all after) (get_elem? e r) (turn_over r b added es sel)
      (λ i.
        if length (sel ++ i ∷ []) == b
        then (sel ++ i ∷ [], true)
        else turn_over r b true es (sel ++ i ∷ []))
      (λ n.
        turn_over-IsTurned r b all after (done ++ d) added es sel
          (subst (λ v. Perm (sel ++ v) all)
            (ap (λ v. done ++ (v ++ left_of r es)) (drop-none e r n ∙ sym (drop-none_after e r n))
              ∙ sym (append_assoc done d (left_of r es)))
            p)
          after' h (λ a. ap (λ v. v ++ d) (idle a) ∙ drop-none_after e r n))
      (λ i s.
        let whole =
          Perm.trans (moved sel done d (left_of r es) i)
            (subst (λ v. Perm (sel ++ (done ++ (v ++ left_of r es))) all) (drop-some e r i s) p) in
        let longer = length-append sel (i ∷ []) in
        either (IsTurned b all after) (length (sel ++ i ∷ []) == b) (sel ++ i ∷ [], true)
          (turn_over r b true es (sel ++ i ∷ []))
          (λ e. record {
            others = (done ++ d) ++ left_of r es;
            whole = whole;
            fits = ground arith;
            ended = inl (ground arith);
            idle = λ a. cc;
          })
          (λ e.
            turn_over-IsTurned r b all after (done ++ d) true es (sel ++ i ∷ []) whole after'
              (ground (arith, longer)) (λ a. cc)))

-- In a round beyond the end of every bin nothing is added.
turn_over-idle :
    (r b : ℕ) (added : Bool) (es : List (List ℕ)) (sel : List ℕ)
    → All (λ e. length e ≤ r) es
    → turn_over r b added es sel ≡ (sel, added)
unfolding turn_over
turn_over-idle r b added [] sel h = refl
turn_over-idle r b added (e ∷ es) sel (h, hs) =
    on_option (λ v. v ≡ (sel, added)) (get_elem? e r) (turn_over r b added es sel)
      (λ i.
        if length (sel ++ i ∷ []) == b
        then (sel ++ i ∷ [], true)
        else turn_over r b true es (sel ++ i ∷ []))
      (λ n. turn_over-idle r b added es sel hs) (λ i s. let n = get-none e r h in absurd (cc))

full-Returns :
    (fuel r b : ℕ) (all : List ℕ) (bins : List (List ℕ)) (sel : List ℕ)
    → 0 < fuel
    → length sel ≡ b
    → IsSelected b all sel
    → Returns (IsSelected b all) (take_turns fuel r b bins sel)
unfolding take_turns
full-Returns zero r b all bins sel g e h = absurd (omega arith)
full-Returns (suc fuel) r b all bins sel g e h =
    either (Returns (IsSelected b all)) (ltb (length sel) b)
      (if (turn_over r b false bins sel).1
        then take_turns fuel (suc r) b bins (turn_over r b false bins sel).0
        else some (turn_over r b false bins sel).0)
      (some sel) (λ l. absurd (ground arith)) (λ l. h)

-- A round that adds an index is not beyond the longest bin.
added-lt :
    (n r b : ℕ) (bins : List (List ℕ)) (sel : List ℕ)
    → All (λ e. length e ≤ n) bins
    → r ≤ n
    → (turn_over r b false bins sel).1 ≡ true
    → r < n
added-lt n r b bins sel short h a = elim (Bool-cases (ltb r n)) [
  | inl l ↦ ground arith
  | inr l ↦
      let same : n ≡ r = ground arith in
      let idle =
        turn_over-idle r b false bins sel (subst (λ v. All (λ e. length e ≤ v) bins) same short) in
      absurd (cc)
]

pub take_turns-IsSelected :
    (n fuel r b : ℕ) (all : List ℕ) (bins : List (List ℕ)) (sel : List ℕ)
    → All (λ e. length e ≤ n) bins
    → r ≤ n
    → n < fuel + r
    → Perm (sel ++ left_of r bins) all
    → length sel ≤ b
    → Returns (IsSelected b all) (take_turns fuel r b bins sel)
unfolding take_turns
take_turns-IsSelected n zero r b all bins sel short g f p h = absurd (omega arith)
take_turns-IsSelected n (suc fuel) r b all bins sel short g f p h =
    let q = turn_over r b false bins sel in
    let rest = take_turns fuel (suc r) b bins q.0 in
    either (Returns (IsSelected b all)) (ltb (length sel) b) (if q.1 then rest else some q.0)
      (some sel)
      (λ l.
        let t =
          turn_over-IsTurned r b all (left_of (suc r) bins) [] false bins sel p refl (ground arith)
            (λ a. refl) in
        either (Returns (IsSelected b all)) q.1 rest (some q.0)
          (λ a.
            let more = added-lt n r b bins sel short g a in
            elim t.ended [
              | inl full ↦
                  full-Returns fuel (suc r) b all bins q.0 (omega arith) full (record {
                    others = t.others;
                    whole = t.whole;
                    fits = t.fits;
                    enough = inl full;
                  })
              | inr e ↦
                  take_turns-IsSelected n fuel (suc r) b all bins q.0 short more (omega arith)
                    (subst (λ v. Perm (q.0 ++ v) all) e t.whole) t.fits
            ])
          (λ a. record {
            others = t.others;
            whole = t.whole;
            fits = t.fits;
            enough = inr (t.idle a);
          }))
      (λ l. record { others = left_of r bins; whole = p; fits = h; enough = inl (ground arith) })
