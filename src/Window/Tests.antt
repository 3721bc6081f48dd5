-- ===== src/Window/Tests.antt =====
-- Runs of the anti-replay window, among them those of src/TLS/AntiReplayWindow.test.ts.
use node_dtls_client.Prelude.{◌≡◌, refl, true, false, [], ◌∷◌, arith, inl, inr, ◌+◌}
use node_dtls_client.Window.{
  reset, has_received, may_receive, mark_as_received, locate, flag_is_set, set_flag, shift_blocks,
  shift_block, shift_bits,
}
use node_dtls_client.Window.Replay.{mark_all, may_receive-mark_all, reset-IsWindow, mark-IsWindow}
use node_dtls_client.Window.Fresh.{
  window_after, is_fresh, may_receive-is_fresh, may_receive_phantom,
}

-- The runs of "usage 1".
usage_start :
    (may_receive reset 0 ≡ true) × (may_receive reset 127 ≡ true) × (may_receive reset 128 ≡ false)
unfolding reset may_receive has_received locate flag_is_set
usage_start = (refl, refl, refl)

usage_marked :
    let w = mark_all reset (5 ∷ 65 ∷ 100 ∷ []) in
    (has_received w 5 ≡ false) × (has_received w 65 ≡ true) × (has_received w 100 ≡ true)
unfolding reset mark_all mark_as_received has_received locate flag_is_set set_flag shift_blocks
    shift_block shift_bits
usage_marked = (refl, refl, refl)

-- A jump by 32 from 63: number 50 was received, number 82 was not, and is refused.
jump_of_a_block :
    let w = mark_all reset (50 ∷ 95 ∷ []) in (has_received w 82 ≡ true) × (may_receive w 82 ≡ false)
unfolding reset mark_all mark_as_received may_receive has_received locate flag_is_set set_flag
    shift_blocks shift_block shift_bits
jump_of_a_block = (refl, refl)

may_receive-mark_all_example :
    may_receive (mark_all (mark_as_received reset 70) (200 ∷ 71 ∷ [])) 70 ≡ false
may_receive-mark_all_example = may_receive-mark_all reset 70 (200 ∷ 71 ∷ []) reset-IsWindow

may_receive-is_fresh_example :
    may_receive (window_after (80 ∷ 70 ∷ 5 ∷ [])) 75 ≡ is_fresh (80 ∷ 70 ∷ 5 ∷ []) 75
may_receive-is_fresh_example =
    may_receive-is_fresh (80 ∷ 70 ∷ 5 ∷ []) 75
      (inr (omega arith), (inr (omega arith), (inl (omega arith), tt)))

may_receive_phantom_example :
    (may_receive (mark_as_received reset 50) (50 + 32) ≡ true)
    × (may_receive (mark_as_received (mark_as_received reset 50) 95) (50 + 32) ≡ false)
may_receive_phantom_example =
    may_receive_phantom (mark_as_received reset 50) 50 95 (mark-IsWindow reset 50 reset-IsWindow)
      (unfold mark_as_received reset set_flag locate in omega arith)
      (unfold mark_as_received reset set_flag locate in omega arith)
      (unfold mark_as_received has_received reset set_flag locate flag_is_set in refl)
      (unfold mark_as_received reset set_flag locate in omega arith) (omega arith) (omega arith)
      (unfold mark_as_received reset set_flag locate in omega arith)
