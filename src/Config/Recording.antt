-- ===== src/Config/Recording.antt =====
-- VideoConfig.cpp: the configuration of the recorded video.
use rpi_cam.Base.{
  ◌↔◌, ◌≤◌, ℕ, ◌+◌, ◌*◌, ◌^◌, Option, none, some, String, ◌≡◌, arith, if◌then◌else◌, ltb, leb,
}
use rpi_cam.Base.Int.{ℤ, pos, negsuc}
use rpi_cam.Base.Outcome.{Outcome, ok, fault, overflow}
use rpi_cam.Config.Tree.{Tree, get_string, get_int, reading}

-- `class VideoConfig`
pub record VideoConfig : Type 0 where
  pub width : ℤ
  pub height : ℤ
  pub frame_rate : String
  pub format : String
  pub split_seconds : ℤ
  pub duration : ℤ
  pub vid_path : String
  pub maintain_sec : ℤ

-- The keys after the picture's format.
unfoldable pub read_saving : Tree → VideoConfig → Outcome (ℕ × VideoConfig)
read_saving props c = reading 1 c (get_int props "split-time") λ split.
    let c = record c { split_seconds = split } in
    reading 1 c (get_int props "duration") λ duration.
      let c = record c { duration = duration } in
      reading 1 c (get_string props "save_path") λ path.
        let c = record c { vid_path = path } in
        reading 1 c (get_int props "maintain")
          λ maintain. ok (0, record c { maintain_sec = maintain })

-- `VideoConfig::read_config`
unfoldable pub read_config : Tree → VideoConfig → Outcome (ℕ × VideoConfig)
unfolding read_saving
read_config props c = reading 1 c (get_int props "width") λ width.
    let c = record c { width = width } in
    reading 1 c (get_int props "height") λ height.
      let c = record c { height = height } in
      reading 1 c (get_string props "framerate") λ rate.
        let c = record c { frame_rate = rate } in
        reading 1 c (get_string props "format")
          λ format. read_saving props (record c { format = format })

-- `VideoConfig::set_file`
unfoldable pub set_file : (String → Option Tree) → VideoConfig → Outcome (ℕ × VideoConfig)
unfolding read_config
set_file json c = elim (json "video") [ none ↦ ok (1, c) | some props ↦ read_config props c ]

-- `VideoConfig::split_time`: nanoseconds as an `int`.
abbrev pub in_nanoseconds : ℤ → Outcome ℤ
in_nanoseconds (pos n) =
    if ltb (n * 1000000000) (2 ^ 31) then ok (pos (n * 1000000000)) else fault overflow
in_nanoseconds (negsuc n) =
    if leb ((n + 1) * 1000000000) (2 ^ 31)
    then ok (negsuc (n * 1000000000 + 999999999))
    else fault overflow

unfoldable pub split_time : VideoConfig → Outcome ℤ
split_time c = in_nanoseconds c.split_seconds

nanoseconds-eq-ok : (n : ℕ) → (in_nanoseconds (pos n) ≡ ok (pos (n * 1000000000))) ↔ (n ≤ 2)
nanoseconds-eq-ok n = ground arith

-- A split time of n seconds, not negative, is that many nanoseconds if and only if n is at most
-- two; the code's `int` overflows above.
pub split_time-le :
    (c : VideoConfig) (n : ℕ)
    → c.split_seconds ≡ pos n
    → (split_time c ≡ ok (pos (n * 1000000000))) ↔ (n ≤ 2)
unfolding split_time
split_time-le c n e = rw e (nanoseconds-eq-ok n)
