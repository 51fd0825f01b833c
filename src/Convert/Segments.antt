-- ===== src/Convert/Segments.antt =====
-- What `Process` of preprocess/cloud_convert/cloud_convert2.cc makes of a Livox message: an
-- independent description of where each point goes, and the handlers beside it.
use adaptive_lio.Common.{
  ℕ, ◌-◌, ◌<◌, ◌≡◌, refl, ap, ◌∙◌, sym, subst, arith, true, false, ◌||◌, Option, none, some, List,
  [], length, take, get_elem?, either,
}
use adaptive_lio.Common.Double.{Double}
use adaptive_lio.Common.Int.{ℤ, pos, pos_part, leb_ℤ}
use adaptive_lio.Point.{Point}
use adaptive_lio.Convert.{
  CustomPoint, CustomMsg, CloudConvert, replicate, run_loop, plsize, seconds, header_time,
  slice_ends, reset, of_int, avia_step, avia_fill, avia_from, avia_handler,
}
use adaptive_lio.Convert.Slices.{
  Returns, Returns-map, Returns-weaken, slice, IsSliced, longer, run_loop-IsSliced,
  length-replicate, get_elem?-replicate,
}
use adaptive_lio.Convert.Clouds.{Processed, process_custom, move_out}
use adaptive_lio.Convert.Places.{
  magnitude, reset_lem, avia_slot, avia_step-by_slot, avia_slot-Fits, get_elem?-lt,
}

module _ {D : Type 0} ⦃d : Double D⦄ where
  -- There are as many points as are read.
  plsize_lem :
      (m : CustomMsg D)
      → leb_ℤ (plsize m) (pos 0) ≡ false
      → pos_part (plsize m) - 1 < length m.points
  unfolding plsize
  plsize_lem m h = ground arith

  module _ (to_int : D → ℤ) (c : CloudConvert D) (m : CustomMsg D) where
    -- The members when the loop over the points starts.
    abbrev pub ready : CustomPoint D → CloudConvert D
    ready last =
        let span = seconds last.offset_time in
        let delta = d.div span (of_int (reset c).sweep_cut_num) in
        record (reset c) {
          timespan = span;
          delta_time = delta;
          v_timestamp = slice_ends (pos_part (reset c).sweep_cut_num) 0 delta;
        }

    abbrev pub slices : ℕ
    slices = pos_part (reset c).sweep_cut_num

    -- What `Process` gives: empty slices and no times if the message has no points or a span that is
    -- not positive; otherwise the end of each slice, and in each slice its points in their order.
    pub data IsConverted (r : Processed D) : Type 0 where
      nothing_read :
          leb_ℤ (plsize m) (pos 0) ≡ true
          → r.v_t ≡ []
          → r.pcl_out ≡ replicate slices []
          → IsConverted r
      no_span :
          (last : CustomPoint D)
          → leb_ℤ (plsize m) (pos 0) ≡ false
          → get_elem? m.points (pos_part (plsize m) - 1) ≡ some last
          → d.le (seconds last.offset_time) (d.decimal 0 0) ≡ true
          → r.v_t ≡ []
          → r.pcl_out ≡ replicate slices []
          → IsConverted r
      sliced :
          (last : CustomPoint D)
          → leb_ℤ (plsize m) (pos 0) ≡ false
          → get_elem? m.points (pos_part (plsize m) - 1) ≡ some last
          → d.le (seconds last.offset_time) (d.decimal 0 0) ≡ false
          → r.v_t ≡ (ready last).v_timestamp
          → length r.pcl_out ≡ slices
          → ((k : ℕ)
              → k < slices
              → get_elem? r.pcl_out k
                ≡ some (
                    slice
                      (avia_slot to_int (ready last) (header_time m.sec m.nanosec))
                      k
                      0
                      (take (pos_part (plsize m)) m.points)))
          → IsConverted r

    avia_fill-IsConverted :
        0 < magnitude c.point_filter_num
        → (last : CustomPoint D) → get_elem? m.points (pos_part (plsize m) - 1) ≡ some last
        → leb_ℤ (plsize m) (pos 0) ≡ false
        → d.le (seconds last.offset_time) (d.decimal 0 0) ≡ false
        → Returns (λ c'. IsConverted (move_out c')) (avia_fill to_int (ready last) m)
    unfolding avia_fill
    avia_fill-IsConverted filter last e read positive =
        let (some_slice, fresh, same, _) = reset_lem c in
        let header = header_time m.sec m.nanosec in
        let heard = take (pos_part (plsize m)) m.points in
        let size : length (reset c).v_cloud ≡ slices =
          ap (λ (cs : List (List (Point D))). length cs) fresh ∙ length-replicate slices [] in
        Returns-map (λ c'. IsConverted (move_out c'))
          (λ clouds. record (ready last) { v_cloud = clouds })
          (run_loop (avia_step to_int (ready last) header) 0 heard (reset c).v_cloud)
          (Returns-weaken
            (IsSliced (avia_slot to_int (ready last) header) 0 heard (reset c).v_cloud) _ _
            (λ clouds r. IsConverted.sliced last read e positive refl (r.0 ∙ size) (λ k b.
              let empty : get_elem? (reset c).v_cloud k ≡ some [] =
                ap (λ (cs : List (List (Point D))). get_elem? cs k) fresh
                ∙ get_elem?-replicate slices k [] b in
              r.1 k ∙ ap (longer (slice (avia_slot to_int (ready last) header) k 0 heard)) empty))
            (run_loop-IsSliced (avia_slot to_int (ready last) header)
              (avia_step to_int (ready last) header)
              (avia_step-by_slot to_int (ready last) header
                (subst (λ z. 0 < magnitude z) (sym same) filter) some_slice)
              0 heard (reset c).v_cloud slices
              (avia_slot-Fits to_int (ready last) header some_slice) size))

    avia_from-IsConverted :
        0 < magnitude c.point_filter_num
        → (o : Option (CustomPoint D)) → get_elem? m.points (pos_part (plsize m) - 1) ≡ o
        → leb_ℤ (plsize m) (pos 0) ≡ false
        → Returns (λ c'. IsConverted (move_out c')) (avia_from to_int (reset c) m o)
    unfolding avia_from
    avia_from-IsConverted filter none e some_points =
        let (x, h) = get_elem?-lt m.points _ (plsize_lem m some_points) in cc
    avia_from-IsConverted filter (some last) e some_points =
        let (some_slice, fresh, same, untimed) = reset_lem c in
        either (λ o. Returns (λ c'. IsConverted (move_out c')) o)
          (d.le (seconds last.offset_time) (d.decimal 0 0)) _ _
          (λ h. IsConverted.no_span last some_points e h untimed fresh)
          (λ h. avia_fill-IsConverted filter last e some_points h)

    -- `Process` of a message of the main LiDAR never writes outside of the slices, whatever the
    -- message and the options, if the filter of points is not zero. The slices are empty and there are
    -- no times if no point is read or the last one is not after the start. Otherwise the end of each
    -- slice is given, and each slice holds exactly the points whose coordinates are finite, whose time
    -- is not after that of the last, which the filter takes, whose range is within the bounds and whose
    -- tag is good, and whose slice it is, in the order of the message.
    pub process_custom-IsConverted :
        0 < magnitude c.point_filter_num → Returns IsConverted (process_custom to_int c m false)
    unfolding process_custom avia_handler
    process_custom-IsConverted filter =
        let (some_slice, fresh, same, untimed) = reset_lem c in
        Returns-map IsConverted move_out (avia_handler to_int (reset c) m) (
          either (λ o. Returns (λ c'. IsConverted (move_out c')) o)
            (leb_ℤ (plsize m) (pos 0) || leb_ℤ (reset c).sweep_cut_num (pos 0)) _ _
            (λ h. IsConverted.nothing_read (ground arith) untimed fresh)
            (λ h.
              avia_from-IsConverted filter (get_elem? m.points (pos_part (plsize m) - 1)) refl
                (ground arith)))
