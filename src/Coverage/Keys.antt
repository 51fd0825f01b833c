-- ===== src/Coverage/Keys.antt =====
-- The keys of the bins of `SelectGeometricCoverage` of algo/lidar_sampling.h: they are in order, so no
-- two bins have the same key.
use adaptive_lio.Common.{
  ℕ, suc, ◌≤◌, ◌≡◌, refl, ap, ◌∙◌, sym, subst, arith, true, false, List, [], ◌∷◌, ◌++◌, length, All,
  either, if◌then◌else◌,
}
use adaptive_lio.Common.Double.{Double}
use adaptive_lio.Common.Int.{ℤ}
use adaptive_lio.Coverage.{
  LidarCorrespondence, CoverageBin, Bins, lex_lt, push_bin, correspondence_bin, fill, index_lists,
}

lex_lt_irrefl : (xs : CoverageBin) → lex_lt xs xs ≡ false
lex_lt_irrefl [] = refl
lex_lt_irrefl (x ∷ xs) = let h = lex_lt_irrefl xs in ground arith

lex_lt_trans :
    (xs ys zs : CoverageBin) → lex_lt xs ys ≡ true → lex_lt ys zs ≡ true → lex_lt xs zs ≡ true
lex_lt_trans xs ys [] h g = cc
lex_lt_trans xs [] (z ∷ zs) h g = cc
lex_lt_trans [] (y ∷ ys) (z ∷ zs) h g = refl
lex_lt_trans (x ∷ xs) (y ∷ ys) (z ∷ zs) h g =
    let rest : lex_lt xs ys ≡ true → lex_lt ys zs ≡ true → lex_lt xs zs ≡ true =
      lex_lt_trans xs ys zs in
    ground arith

pub data IsIn (k : CoverageBin) : List CoverageBin → Type 0 where
  first : {x : CoverageBin} {ks : List CoverageBin} → k ≡ x → IsIn k (x ∷ ks)
  later : {x : CoverageBin} {ks : List CoverageBin} → IsIn k ks → IsIn k (x ∷ ks)

-- Every bin has the property, as far as its key goes.
abbrev AllKeys : (CoverageBin → Type 0) → Bins → Type 0
AllKeys P bs = All (λ b. P b.0) bs

AllKeys-weaken :
    (P Q : CoverageBin → Type 0) (bs : Bins)
    → ((k : CoverageBin) → P k → Q k)
    → AllKeys P bs
    → AllKeys Q bs
AllKeys-weaken P Q [] f a = tt
AllKeys-weaken P Q (b ∷ bs) f (h, a) = (f b.0 h, AllKeys-weaken P Q bs f a)

AllKeys-both :
    (P Q R : CoverageBin → Type 0) (bs : Bins)
    → ((k : CoverageBin) → P k → Q k → R k)
    → AllKeys P bs
    → AllKeys Q bs
    → AllKeys R bs
AllKeys-both P Q R [] f a c = tt
AllKeys-both P Q R (b ∷ bs) f (h, a) (g, c) = (f b.0 h g, AllKeys-both P Q R bs f a c)

push_bin-AllKeys :
    (P : CoverageBin → Type 0) (k : CoverageBin) (i : ℕ) (bs : Bins)
    → P k
    → AllKeys P bs
    → AllKeys P (push_bin k i bs)
unfolding push_bin
push_bin-AllKeys P k i [] p a = (p, tt)
push_bin-AllKeys P k i (b ∷ bs) p (h, a) =
    let rest = push_bin k i bs in
    either (AllKeys P) (lex_lt k b.0) ((k, i ∷ []) ∷ b ∷ bs)
      (if lex_lt b.0 k then b ∷ rest else (b.0, b.1 ++ i ∷ []) ∷ bs) (λ e. (p, (h, a)))
      (λ e.
        either (AllKeys P) (lex_lt b.0 k) (b ∷ rest) ((b.0, b.1 ++ i ∷ []) ∷ bs)
          (λ e'. (h, push_bin-AllKeys P k i bs p a)) (λ e'. (h, a)))

-- Every key comes before all that follow it.
abbrev InOrder : Bins → Type 0
InOrder [] = Unit
InOrder (b ∷ bs) = AllKeys (λ k. lex_lt b.0 k ≡ true) bs × InOrder bs

push_bin-InOrder : (k : CoverageBin) (i : ℕ) (bs : Bins) → InOrder bs → InOrder (push_bin k i bs)
unfolding push_bin
push_bin-InOrder k i [] o = (tt, tt)
push_bin-InOrder k i (b ∷ bs) (a, o) =
    let rest = push_bin k i bs in
    either InOrder (lex_lt k b.0) ((k, i ∷ []) ∷ b ∷ bs)
      (if lex_lt b.0 k then b ∷ rest else (b.0, b.1 ++ i ∷ []) ∷ bs)
      (λ e. (
        (
          e,
          AllKeys-weaken (λ x. lex_lt b.0 x ≡ true) (λ x. lex_lt k x ≡ true) bs
              (λ x g. lex_lt_trans k b.0 x e g) a,
        ),
        (a, o),
      ))
      (λ e.
        either InOrder (lex_lt b.0 k) (b ∷ rest) ((b.0, b.1 ++ i ∷ []) ∷ bs)
          (λ e'.
            (push_bin-AllKeys (λ x. lex_lt b.0 x ≡ true) k i bs e' a, push_bin-InOrder k i bs o))
          (λ e'. (a, o)))

-- A list without one of its keys still has all that come after that key.
without :
    (k : CoverageBin) (ks : List CoverageBin)
    → IsIn k ks
    → (rest : List CoverageBin) × (length ks ≡ suc (length rest))
      × ((x : CoverageBin) → lex_lt k x ≡ true → IsIn x ks → IsIn x rest)
without k [] i = elim i [ ]
without k (y ∷ ks) (first e) = (
  ks,
  refl,
  λ x h i. elim i [
    | first e' ↦
        let g : lex_lt k k ≡ true = subst (λ v. lex_lt k v ≡ true) (e' ∙ sym e) h in
        let irrefl = lex_lt_irrefl k in absurd cc
    | later j ↦ j
  ],
)
without k (y ∷ ks) (later j) =
    let (rest, n, keep) = without k ks j in
    (y ∷ rest, ap suc n, λ x h i. elim i [ first e ↦ first e | later j' ↦ later (keep x h j') ])

InOrder-length :
    (bs : Bins) (ks : List CoverageBin)
    → InOrder bs
    → AllKeys (λ k. IsIn k ks) bs
    → length bs ≤ length ks
InOrder-length [] ks o a = omega arith
InOrder-length (b ∷ bs) ks (below, o) (i, a) =
    let (rest, n, keep) = without b.0 ks i in
    let shorter = InOrder-length bs rest o (
      AllKeys-both (λ k. lex_lt b.0 k ≡ true) (λ k. IsIn k ks) (λ k. IsIn k rest) bs keep below
        a) in
    omega arith

length-index_lists : (bs : Bins) → length (index_lists bs) ≡ length bs
length-index_lists [] = refl
length-index_lists (b ∷ bs) = ap suc (length-index_lists bs)

module _ {D : Type 0} ⦃d : Double D⦄ (round : D → D) (to_int : D → ℤ) where
  -- The keys of all correspondences are in the list.
  abbrev pub HasKeys : List CoverageBin → List (LidarCorrespondence D) → Type 0
  HasKeys ks cs = All (λ c. IsIn (correspondence_bin round to_int c) ks) cs

  fill-length :
      (ks : List CoverageBin) (i : ℕ) (cs : List (LidarCorrespondence D)) (bins : Bins)
      → HasKeys ks cs
      → InOrder bins
      → AllKeys (λ k. IsIn k ks) bins
      → length (fill round to_int i cs bins) ≤ length ks
  unfolding fill
  fill-length ks i [] bins h o a = InOrder-length bins ks o a
  fill-length ks i (c ∷ cs) bins (k, h) o a =
      let key = correspondence_bin round to_int c in
      fill-length ks (suc i) cs (push_bin key i bins) h (push_bin-InOrder key i bins o)
        (push_bin-AllKeys (λ x. IsIn x ks) key i bins k a)

  -- There are at most as many bins as keys.
  pub length-bins :
      (ks : List CoverageBin) (cs : List (LidarCorrespondence D))
      → HasKeys ks cs
      → length (index_lists (fill round to_int 0 cs [])) ≤ length ks
  length-bins ks cs h =
      let n = length-index_lists (fill round to_int 0 cs []) in
      let m = fill-length ks 0 cs [] h tt tt in omega arith
