-- ===== src/Mapping/Detect.antt =====
-- The checksum of scantext_module/Mapping.cpp over changed bytes, and `readBinary` beside
-- `writeBinary`.
use Prim.Native.Nat.{bit_xor}
use mathlib.Core.Option
use native.Mathlib.Nat.{pow-suc}
use adaptive_lio.Common.{
  ℕ, zero, suc, ◌+◌, ◌*◌, ◌/◌, ◌%◌, ◌^◌, ◌<◌, ◌≡◌, ◌≢◌, refl, ap, ◌∙◌, sym, arith, some, List, [],
  ◌∷◌, ◌++◌, length, All,
}
use adaptive_lio.Scan.{cols}
use adaptive_lio.Scan.Cart.{flat}
use adaptive_lio.Mapping.Bits.{bit_xor_inj_left, bit_xor_inj_right, bit_xor-lt}
use adaptive_lio.Mapping.Cache.{
  write_binary, read_binary, low_byte, checksum_step, checksum_append, Cached, doubles,
  compute_descriptor_checksum,
}

-- 64 bits.
abbrev IsWord : ℕ → Type 0
IsWord h = h < 2 ^ 64

abbrev pub IsByte : ℕ → Type 0
IsByte b = b < 256

-- The multiplier is odd: 14886173955864302971 is its inverse.
unscale : (x : ℕ) → IsWord x → x * 1099511628211 % 2 ^ 64 * 14886173955864302971 % 2 ^ 64 ≡ x
unscale x h = omega arith

scale_inj :
    (x y : ℕ)
    → IsWord x
    → IsWord y
    → x * 1099511628211 % 2 ^ 64 ≡ y * 1099511628211 % 2 ^ 64
    → x ≡ y
scale_inj x y hx hy e =
    sym (unscale x hx) ∙ ap (λ (z : ℕ). z * 14886173955864302971 % 2 ^ 64) e ∙ unscale y hy

bit_xor-IsWord : (h b : ℕ) → IsWord h → IsByte b → IsWord (bit_xor h b)
bit_xor-IsWord h b hh hb = bit_xor-lt 64 h b hh (omega arith)

checksum_step-IsWord : (h b : ℕ) → IsWord (checksum_step h b)
unfolding checksum_step
checksum_step-IsWord h b = omega arith

-- Other states stay other states, and other bytes lead to other states.
step_inj_hash :
    (h h' b : ℕ) → IsWord h → IsWord h' → IsByte b → checksum_step h b ≡ checksum_step h' b → h ≡ h'
unfolding checksum_step
step_inj_hash h h' b w w' hb e =
    bit_xor_inj_left h h' b (scale_inj _ _ (bit_xor-IsWord h b w hb) (bit_xor-IsWord h' b w' hb) e)

step_inj_byte :
    (h b b' : ℕ) → IsWord h → IsByte b → IsByte b' → checksum_step h b ≡ checksum_step h b' → b ≡ b'
unfolding checksum_step
step_inj_byte h b b' w hb hb' e =
    bit_xor_inj_right h b b' (scale_inj _ _ (bit_xor-IsWord h b w hb) (bit_xor-IsWord h b' w hb') e)

append_inj :
    (bytes : List ℕ) (h h' : ℕ)
    → All IsByte bytes
    → IsWord h
    → IsWord h'
    → checksum_append h bytes ≡ checksum_append h' bytes
    → h ≡ h'
unfolding checksum_append
append_inj [] h h' a w w' e = e
append_inj (b ∷ bytes) h h' a w w' e =
    step_inj_hash h h' b w w' a.0
      (append_inj bytes _ _ a.1 (checksum_step-IsWord h b) (checksum_step-IsWord h' b) e)

checksum_append-append :
    (xs ys : List ℕ) (h : ℕ)
    → checksum_append h (xs ++ ys) ≡ checksum_append (checksum_append h xs) ys
unfolding checksum_append
checksum_append-append [] ys h = refl
checksum_append-append (x ∷ xs) ys h = checksum_append-append xs ys (checksum_step h x)

checksum_append-IsWord : (bytes : List ℕ) (h : ℕ) → IsWord h → IsWord (checksum_append h bytes)
unfolding checksum_append
checksum_append-IsWord [] h w = w
checksum_append-IsWord (b ∷ bytes) h w =
    checksum_append-IsWord bytes (checksum_step h b) (checksum_step-IsWord h b)

one_byte :
    (before after : List ℕ) (b b' h : ℕ)
    → IsWord h
    → IsByte b
    → IsByte b'
    → All IsByte after
    → checksum_append h (before ++ b ∷ after) ≡ checksum_append h (before ++ b' ∷ after)
    → b ≡ b'
unfolding checksum_append
one_byte before after b b' h w hb hb' a e =
    let mid = checksum_append h before in
    let word = checksum_append-IsWord before h w in
    step_inj_byte mid b b' word hb hb' (
      append_inj after _ _ a (checksum_step-IsWord mid b) (checksum_step-IsWord mid b') (
        sym (checksum_append-append before (b ∷ after) h)
        ∙ e
        ∙ checksum_append-append before (b' ∷ after) h))

module _ {D : Type 0} (bytes_of : D → List ℕ) where
  -- All the bytes that the checksum covers, in their order.
  abbrev pub covered : Cached D → List ℕ
  covered kf =
      write_binary 4 kf.descriptor.rows
      ++ (write_binary 4 (cols kf.descriptor)
          ++ (write_binary 4 (length kf.ring_key)
              ++ (write_binary 4 kf.cart_descriptor.rows
                  ++ (write_binary 4 (cols kf.cart_descriptor)
                      ++ (doubles bytes_of (flat kf.descriptor.columns)
                          ++ (doubles bytes_of kf.ring_key
                              ++ doubles bytes_of (flat kf.cart_descriptor.columns)))))))

  checksum-covered :
      (kf : Cached D)
      → compute_descriptor_checksum bytes_of kf ≡ checksum_append 1469598103934665603 (covered kf)
  unfolding compute_descriptor_checksum
  checksum-covered kf = simp checksum_append-append refl

  -- If the bytes that the checksum covers, which are the sizes and the numbers of the descriptors and
  -- of the ring key, are the same for two key frames but for one byte, then their checksums differ.
  pub checksum-detects :
      (kf kf' : Cached D) (before after : List ℕ) (b b' : ℕ)
      → covered kf ≡ before ++ b ∷ after
      → covered kf' ≡ before ++ b' ∷ after
      → IsByte b
      → IsByte b'
      → All IsByte after
      → b ≢ b'
      → compute_descriptor_checksum bytes_of kf ≢ compute_descriptor_checksum bytes_of kf'
  checksum-detects kf kf' before after b b' c c' hb hb' a other same =
      let start : ℕ = 1469598103934665603 in
      other (
        one_byte before after b b' start (omega arith) hb hb' a (
          ap (checksum_append start) (sym c)
          ∙ sym (checksum-covered kf)
          ∙ same
          ∙ checksum-covered kf'
          ∙ ap (checksum_append start) c'))

-- `readBinary` gives the number that `writeBinary` wrote, and what stood behind it.
read-write_binary :
    (n v : ℕ) (rest : List ℕ)
    → v < 256 ^ n
    → read_binary n (write_binary n v ++ rest) ≡ some (v, rest)
unfolding read_binary write_binary
read-write_binary zero v rest h = ap (λ (w : ℕ). some (w, rest)) (let e : 0 ≡ v = omega arith in e)
read-write_binary (suc n) v rest h =
    ap (Option.map (low_byte (v % 256)))
      (read-write_binary n (v / 256) rest (omega (arith, pow-suc 256 n)))
    ∙ ap (λ (w : ℕ). some (w, rest)) (let e : v % 256 + 256 * (v / 256) ≡ v = omega arith in e)
