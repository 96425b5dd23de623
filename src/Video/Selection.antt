-- ===== src/Video/Selection.antt =====
-- Which files `process_video` puts into a clip, and which ones `remove_video` deletes.
use rpi_cam.Base.{
  true, ℕ, ◌*◌, ◌^◌, ◌≤◌, arith, ap, lt→ltb, ◌≡◌, refl, Bool, ◌&&◌, List, [], ◌∷◌, String, All,
  select, map, Bool-cases, inl, inr,
}
use rpi_cam.Base.Outcome.{◌>>=◌, ok}
use native.Mathlib.Nat.{mul-div_cancel}
use rpi_cam.Config.Recording.{VideoConfig, split_time}
use rpi_cam.Video.Clips.{
  file_path, Gst, set_filename, process_video, run_pipeline, to_int, remove_video, file_timestamp,
  signed_result, overlaps, choose, remove_old,
}
use rpi_cam.Base.Int.{ℤ, pos, ◌+ℤ◌, ◌-ℤ◌, ltb_ℤ, leb_ℤ}

-- A file that starts at `stamp file`, and whose end is an `int`.
abbrev pub IsRecording : ℤ → (String → ℤ) → String → Type 0
IsRecording split stamp file =
    (file_timestamp file ≡ ok (stamp file))
    × (signed_result 31 (stamp file +ℤ split) ≡ ok (stamp file +ℤ split))
    × (signed_result 31 (stamp file +ℤ split -ℤ pos 1) ≡ ok (stamp file +ℤ split -ℤ pos 1))

-- It has begun by the end of the range and does not end before its start.
abbrev pub is_in_range : ℤ → ℤ → ℤ → (String → ℤ) → String → Bool
is_in_range start_time end_time split stamp file =
    leb_ℤ (stamp file) end_time && leb_ℤ start_time (stamp file +ℤ split -ℤ pos 1)

overlaps-is_in_range :
    (start_time end_time split : ℤ) (stamp : String → ℤ) (file : String)
    → IsRecording split stamp file
    → overlaps start_time end_time split file
      ≡ ok (is_in_range start_time end_time split stamp file)
unfolding overlaps
overlaps-is_in_range start_time end_time split stamp file (t, s, e) = rw (t, s, e) refl

-- A clip is made of exactly the files that overlap the range, in their order.
pub choose-select :
    (start_time end_time split : ℤ) (stamp : String → ℤ) (files : List String)
    → All (IsRecording split stamp) files
    → choose start_time end_time split files
      ≡ ok (select (is_in_range start_time end_time split stamp) files)
unfolding choose
choose-select start_time end_time split stamp [] h = refl
choose-select start_time end_time split stamp (file ∷ files) (r, h) =
    rw
      (
        overlaps-is_in_range start_time end_time split stamp file r,
        choose-select start_time end_time split stamp files h,
      )
      refl

-- If no removal throws, exactly the files that started before the limit are removed, in their order.
pub remove_old-select :
    (removes : String → Bool) (path : String) (limit : ℤ) (stamp : String → ℤ) (files : List String)
    → ((file : String) → removes (file_path path file) ≡ true)
    → All (λ file. file_timestamp file ≡ ok (stamp file)) files
    → remove_old removes path limit files
      ≡ ok (map (file_path path) (select (λ file. ltb_ℤ (stamp file) limit) files))
unfolding remove_old
remove_old-select removes path limit stamp [] g h = refl
remove_old-select removes path limit stamp (file ∷ files) g (t, h) =
    elim (Bool-cases (ltb_ℤ (stamp file) limit)) [
      | inl y ↦ rw (t, y, g file, remove_old-select removes path limit stamp files g h, ◌>>=◌) refl
      | inr n ↦ rw (t, n, remove_old-select removes path limit stamp files g h, ◌>>=◌) refl
    ]

split_time_small :
    (config : VideoConfig) (s : ℕ)
    → config.split_seconds ≡ pos s
    → s ≤ 2
    → split_time config ≡ ok (pos (s * 1000000000))
unfolding split_time
split_time_small config s e le = rw (e, lt→ltb (s * 1000000000) (2 ^ 31) (omega (arith, le))) refl

-- With a split time of at most two seconds and files whose times are in range, the clip of an
-- event is made of exactly the files that overlap the seconds around it, in the order of the
-- directory's sorting.
pub process_video-select :
    (config : VideoConfig) (gst : Gst) (entries : List (String × Bool)) (timestamp : ℤ)
    (event_id : String) (s : ℕ) (stamp : String → ℤ) (files : List String)
    → config.split_seconds ≡ pos s
    → s ≤ 2
    → signed_result 63 (timestamp -ℤ config.duration) ≡ ok (timestamp -ℤ config.duration)
    → signed_result 63 (timestamp +ℤ config.duration) ≡ ok (timestamp +ℤ config.duration)
    → set_filename entries ≡ ok files
    → All (IsRecording (pos s) stamp) files
    → process_video config gst entries timestamp event_id
      ≡ ok (
          run_pipeline gst config.vid_path event_id (
            select
              (is_in_range
                (to_int (timestamp -ℤ config.duration))
                (to_int (timestamp +ℤ config.duration))
                (pos s)
                stamp)
              files))
unfolding process_video
process_video-select config gst entries timestamp event_id s stamp files e le from until sorted h =
    rw
      (
        split_time_small config s e le,
        from,
        until,
        sorted,
        mul-div_cancel s {n = 1000000000} (omega arith),
      )
      (ap (λ r. r >>= λ chosen. ok (run_pipeline gst config.vid_path event_id chosen))
        (choose-select (to_int (timestamp -ℤ config.duration))
          (to_int (timestamp +ℤ config.duration)) (pos s) stamp files h))

-- If no removal throws, the files that `remove_video` deletes are those that started more than the
-- configured time ago.
pub remove_video-select :
    (removes : String → Bool) (now maintain_time : ℤ) (path : String)
    (entries : List (String × Bool)) (stamp : String → ℤ) (files : List String)
    → ((file : String) → removes (file_path path file) ≡ true)
    → set_filename entries ≡ ok files
    → signed_result 31 (to_int now -ℤ maintain_time) ≡ ok (to_int now -ℤ maintain_time)
    → All (λ file. file_timestamp file ≡ ok (stamp file)) files
    → remove_video removes now maintain_time path entries
      ≡ ok (
        0,
        map
            (file_path path)
            (select (λ file. ltb_ℤ (stamp file) (to_int now -ℤ maintain_time)) files),
      )
unfolding remove_video
remove_video-select removes now maintain_time path entries stamp files g sorted l h =
    rw
      (
        sorted,
        l,
        remove_old-select removes path (to_int now -ℤ maintain_time) stamp files g h,
        ◌>>=◌,
      )
      refl
