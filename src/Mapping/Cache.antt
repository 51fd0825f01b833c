-- ===== src/Mapping/Cache.antt =====
-- The descriptor cache of scantext_module/Mapping.cpp: the bytes that `writeBinary` writes and
-- `readBinary` reads, on a little-endian machine, the checksum, and the layout of the file. The eight
-- bytes of a `double` are the argument `bytes_of`, and the characters of a path are numbers.
use Prim.Native.Nat.{bit_xor}
use mathlib.Core.Option
use adaptive_lio.Common.{
  ℕ, zero, suc, ◌+◌, ◌*◌, ◌/◌, ◌%◌, ◌^◌, Option, none, some, List, [], ◌∷◌, ◌++◌, length,
  if◌then◌else◌,
}
use adaptive_lio.Scan.{ScParams, Descriptor, cols}
use adaptive_lio.Scan.Cart.{flat}

-- An unsigned number of `n` bytes, the low one first.
unfoldable pub write_binary : ℕ → ℕ → List ℕ
write_binary zero v = []
write_binary (suc n) v = v % 256 ∷ write_binary n (v / 256)

abbrev pub low_byte : ℕ → ℕ × List ℕ → ℕ × List ℕ
low_byte b (v, rest) = (b + 256 * v, rest)

-- `none` is a stream that has ended.
unfoldable pub read_binary : ℕ → List ℕ → Option (ℕ × List ℕ)
read_binary zero bytes = some (0, bytes)
read_binary (suc n) [] = none
read_binary (suc n) (b ∷ bytes) = Option.map (low_byte b) (read_binary n bytes)

-- A field with its width in bytes.
abbrev pub Field : Type 0
Field = ℕ × ℕ

unfoldable pub write_fields : List Field → List ℕ
unfolding write_binary
write_fields [] = []
write_fields ((n, v) ∷ fields) = write_binary n v ++ write_fields fields

-- `checksumAppend`: `hash ^= byte; hash *= 1099511628211` in 64 bits.
unfoldable pub checksum_step : ℕ → ℕ → ℕ
checksum_step hash byte = bit_xor hash byte * 1099511628211 % 2 ^ 64

unfoldable pub checksum_append : ℕ → List ℕ → ℕ
unfolding checksum_step
checksum_append hash [] = hash
checksum_append hash (b ∷ bytes) = checksum_append (checksum_step hash b) bytes

-- What of a key frame is written: its index, its time and pose as eight numbers, its path, and its
-- descriptors.
pub record Cached (D : Type 0) : Type 0 where
  pub index : ℕ
  pub pose_data : List D
  pub cloud_path : List ℕ
  pub descriptor : Descriptor D
  pub ring_key : List D
  pub cart_descriptor : Descriptor D

module _ {D : Type 0} (bytes_of : D → List ℕ) where
  abbrev pub doubles : List D → List ℕ
  doubles [] = []
  doubles (v ∷ vs) = bytes_of v ++ doubles vs

  unfoldable pub compute_descriptor_checksum : Cached D → ℕ
  unfolding checksum_append write_binary
  compute_descriptor_checksum kf =
      let h1 = checksum_append 1469598103934665603 (write_binary 4 kf.descriptor.rows) in
      let h2 = checksum_append h1 (write_binary 4 (cols kf.descriptor)) in
      let h3 = checksum_append h2 (write_binary 4 (length kf.ring_key)) in
      let h4 = checksum_append h3 (write_binary 4 kf.cart_descriptor.rows) in
      let h5 = checksum_append h4 (write_binary 4 (cols kf.cart_descriptor)) in
      let h6 = checksum_append h5 (doubles (flat kf.descriptor.columns)) in
      let h7 = checksum_append h6 (doubles kf.ring_key) in
      checksum_append h7 (doubles (flat kf.cart_descriptor.columns))

  -- The numbers in front of the `double`s, magic and version first.
  abbrev pub header : Cached D → ScParams D → List Field
  header kf p =
      (4, 0x53434348)
      ∷ (4, 1)
      ∷ (4, kf.index)
      ∷ (4, length kf.cloud_path)
      ∷ (4, kf.descriptor.rows)
      ∷ (4, cols kf.descriptor)
      ∷ (4, length kf.ring_key)
      ∷ (4, kf.cart_descriptor.rows)
      ∷ (4, cols kf.cart_descriptor)
      ∷ (4, p.num_ring)
      ∷ (4, p.num_sector)
      ∷ []

  -- The bytes of the file that `writeDescriptorCache` renames to its place.
  unfoldable pub write_descriptor_cache : Cached D → ScParams D → List ℕ
  unfolding write_fields write_binary compute_descriptor_checksum
  write_descriptor_cache kf p =
      write_fields (header kf p)
      ++ (doubles (p.max_radius ∷ p.lidar_height ∷ [])
          ++ (write_binary 1 (if p.use_scpp then 1 else 0)
              ++ (doubles (
                    p.scpp_search_ratio ∷ p.cart_x_unit ∷ p.cart_y_unit ∷ p.cart_x_max
                    ∷ p.cart_y_max ∷ [])
                  ++ (write_binary 8 (compute_descriptor_checksum kf)
                      ++ (doubles kf.pose_data
                          ++ (kf.cloud_path
                              ++ (doubles (flat kf.descriptor.columns)
                                  ++ (doubles kf.ring_key
                                      ++ doubles (flat kf.cart_descriptor.columns)))))))))
