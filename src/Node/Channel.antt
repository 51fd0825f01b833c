-- ===== src/Node/Channel.antt =====
-- A channel that may lose what it carries: what a queue between two threads of apps/main_ada.cpp
-- promises, whatever its policy.
use mathlib.Core.List.{append_assoc}
use adaptive_lio.Common.{◌≡◌, refl, ap, ◌∙◌, sym, subst, List, [], ◌∷◌, ◌++◌}

pub record Channel (A : Type 0) : Type 0 where
  pub sent : List A
  pub flying : List A
  pub received : List A

module _ {A : Type 0} where
  -- One step of the channel.
  pub data Flow (c d : Channel A) : Type 0 where
    send :
        (x : A)
        → d.sent ≡ c.sent ++ x ∷ []
        → d.flying ≡ c.flying ++ x ∷ []
        → d.received ≡ c.received
        → Flow c d
    refuse :
        (x : A)
        → d.sent ≡ c.sent ++ x ∷ []
        → d.flying ≡ c.flying
        → d.received ≡ c.received
        → Flow c d
    lose : (x : A) → d.sent ≡ c.sent → c.flying ≡ x ∷ d.flying → d.received ≡ c.received → Flow c d
    receive :
        (x : A)
        → d.sent ≡ c.sent
        → c.flying ≡ x ∷ d.flying
        → d.received ≡ c.received ++ x ∷ []
        → Flow c d

  pub data Flows (c : Channel A) : Channel A → Type 0 where
    still : Flows c c
    then_flow : {d e : Channel A} → Flows c d → Flow d e → Flows c e

  -- The second list has the elements of the first in their order, and others between them.
  pub data Sub : List A → List A → Type 0 where
    none_left : Sub [] []
    keep : {x : A} {xs ys : List A} → Sub xs ys → Sub (x ∷ xs) (x ∷ ys)
    skip : {y : A} {xs ys : List A} → Sub xs ys → Sub xs (y ∷ ys)

  Sub-append : {xs ys : List A} (x : A) → Sub xs ys → Sub (xs ++ x ∷ []) (ys ++ x ∷ [])
  Sub-append x none_left = keep none_left
  Sub-append x (keep s) = keep (Sub-append x s)
  Sub-append x (skip s) = skip (Sub-append x s)

  Sub-append_right : {xs ys : List A} (x : A) → Sub xs ys → Sub xs (ys ++ x ∷ [])
  Sub-append_right x none_left = skip none_left
  Sub-append_right x (keep s) = keep (Sub-append_right x s)
  Sub-append_right x (skip s) = skip (Sub-append_right x s)

  -- Without an element in the middle.
  Sub-drop : (xs : List A) (x : A) (zs ys : List A) → Sub (xs ++ x ∷ zs) ys → Sub (xs ++ zs) ys
  Sub-drop [] x zs [] s = elim s [ ]
  Sub-drop (w ∷ ws) x zs [] s = elim s [ ]
  Sub-drop [] x zs (y ∷ ys) (keep s) = skip s
  Sub-drop (w ∷ ws) x zs (y ∷ ys) (keep s) = keep (Sub-drop ws x zs ys s)
  Sub-drop [] x zs (y ∷ ys) (skip s) = skip (Sub-drop [] x zs ys s)
  Sub-drop (w ∷ ws) x zs (y ∷ ys) (skip s) = skip (Sub-drop (w ∷ ws) x zs ys s)

  Sub-cast : {xs xs' ys ys' : List A} → xs ≡ xs' → ys ≡ ys' → Sub xs ys → Sub xs' ys'
  Sub-cast {xs = xs} {ys' = ys'} p q h = subst (λ v. Sub v ys') p (subst (Sub xs) q h)

  append_cong : {xs xs' ys ys' : List A} → xs ≡ xs' → ys ≡ ys' → xs ++ ys ≡ xs' ++ ys'
  append_cong {xs' = xs'} {ys = ys} p q = ap (λ v. v ++ ys) p ∙ ap (λ v. xs' ++ v) q

  abbrev pub channel : List A → List A → List A → Channel A
  channel s f r = record { sent = s; flying = f; received = r }

  pub joined : {b c d : Channel A} → Flows b c → Flows c d → Flows b d
  joined f still = f
  joined f (then_flow g x) = then_flow (joined f g) x

  Flow-Sub :
      (c d : Channel A)
      → Flow c d
      → Sub (c.received ++ c.flying) c.sent
      → Sub (d.received ++ d.flying) d.sent
  Flow-Sub c d (send x s f r) h =
      Sub-cast (append_assoc c.received c.flying (x ∷ []) ∙ append_cong (sym r) (sym f)) (sym s)
        (Sub-append x h)
  Flow-Sub c d (refuse x s f r) h =
      Sub-cast (append_cong (sym r) (sym f)) (sym s) (Sub-append_right x h)
  Flow-Sub c d (lose x s f r) h =
      Sub-cast (ap (λ v. v ++ d.flying) (sym r)) (sym s)
        (Sub-drop c.received x d.flying c.sent (Sub-cast (ap (λ v. c.received ++ v) f) refl h))
  Flow-Sub c d (receive x s f r) h =
      Sub-cast
        (ap (λ v. c.received ++ v) f
          ∙ sym (append_assoc c.received (x ∷ []) d.flying)
          ∙ ap (λ v. v ++ d.flying) (sym r))
        (sym s) h

  -- What the receiver has, and then what is under way, was sent in this order.
  pub Flows-Sub : (c : Channel A) → Flows (channel [] [] []) c → Sub (c.received ++ c.flying) c.sent
  Flows-Sub c still = none_left
  Flows-Sub c (then_flow {d = b} fs f) = Flow-Sub b c f (Flows-Sub b fs)
