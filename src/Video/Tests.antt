-- ===== src/Video/Tests.antt =====
-- The clips at concrete directories.
use rpi_cam.Base.{
  if◌then◌else◌, ◌≡◌, refl, List, [], ◌∷◌, String, All, arith, true, false, str_eq, Bool, ◌&&◌,
  eq_iff, inl, inr, ap, subst, ◌==◌, ℕ, Bool-cases, map,
}
use rpi_cam.Base.Int.{ℤ, pos, pos_part, ltb_ℤ, leb_ℤ, ◌+ℤ◌, ◌-ℤ◌}
use rpi_cam.Base.Outcome.{ok}
use rpi_cam.Base.Text.{stoi, number}
use rpi_cam.Config.Recording.{VideoConfig}
use rpi_cam.Video.Clips.{
  Gst, eos, set_filename, process_video, run_pipeline, remove_video, file_timestamp, is_member,
  signed_result, file_path,
}
use rpi_cam.Video.Sorting.{is_listed, IsNumbered}
use rpi_cam.Video.Ascending.{IsAscending}
use rpi_cam.Video.Directory.{video-same_directory, remove_video-directory, process_video-directory}
use rpi_cam.Video.Selection.{IsRecording, process_video-select, remove_video-select}

abbrev pub config : VideoConfig
config = record {
  width = pos 640;
  height = pos 480;
  frame_rate = "30/1";
  format = "YUY2";
  split_seconds = pos 2;
  duration = pos 2;
  vid_path = "videos";
  maintain_sec = pos 60;
}

abbrev pub gst : Gst
gst = record { parses = true; plays = true; message = eos }

abbrev pub entries : List (String × Bool)
entries = ("104.mp4", true) ∷ ("event", false) ∷ ("90.mp4", true) ∷ ("102.mp4", true) ∷ []

abbrev sorted : List String
sorted = "90.mp4" ∷ "102.mp4" ∷ "104.mp4" ∷ []

abbrev stamp : String → ℤ
stamp f = if str_eq f "90.mp4" then pos 90 else if str_eq f "102.mp4" then pos 102 else pos 104

entries-sorted : set_filename entries ≡ ok sorted
unfolding set_filename stoi
entries-sorted = refl

sorted-stamps : All (λ file. file_timestamp file ≡ ok (stamp file)) sorted
unfolding file_timestamp
sorted-stamps = (refl, (refl, (refl, tt)))

sorted-IsRecording : All (IsRecording (pos 2) stamp) sorted
sorted-IsRecording = (
  (sorted-stamps.0, refl, refl),
  ((sorted-stamps.1.0, refl, refl), ((sorted-stamps.1.1.0, refl, refl), tt)),
)

clip_at_103 :
    process_video config gst entries (pos 103) "7"
    ≡ ok (run_pipeline gst "videos" "7" ("102.mp4" ∷ "104.mp4" ∷ []))
clip_at_103 =
    process_video-select config gst entries (pos 103) "7" 2 stamp sorted refl (omega arith) refl
      refl entries-sorted sorted-IsRecording

-- A file system in which no removal throws.
abbrev removes : String → Bool
removes path = true

removed_at_160 :
    remove_video removes (pos 160) (pos 60) "videos" entries ≡ ok (0, "videos/90.mp4" ∷ [])
removed_at_160 =
    remove_video-select removes (pos 160) (pos 60) "videos" entries stamp sorted (λ file. refl)
      entries-sorted refl sorted-stamps

-- The same directory in another order.
abbrev relisted : List (String × Bool)
relisted = ("102.mp4", true) ∷ ("90.mp4", true) ∷ ("104.mp4", true) ∷ ("event", false) ∷ []

on_listed :
    (P : String → Type 0)
    → P "104.mp4"
    → P "90.mp4"
    → P "102.mp4"
    → (f : String) → is_listed f entries ≡ true
    → P f
on_listed P a b c f h = elim (Bool-cases (str_eq "104.mp4" f)) [
  | inl e ↦ subst P ((eq_iff "104.mp4" f).0 e) a
  | inr n ↦ elim (Bool-cases (str_eq "90.mp4" f)) [
    | inl e ↦ subst P ((eq_iff "90.mp4" f).0 e) b
    | inr m ↦ subst P ((eq_iff "102.mp4" f).0 (ground (arith, h, n, m))) c
  ]
]

apart : (a b : ℕ) → (a == b) ≡ false → pos a ≡ pos b → ⊥
apart a b n e = let same : a ≡ b = ap pos_part e in ground (arith, n, same)

entries-IsNumbered : IsNumbered stamp entries
unfolding stoi
entries-IsNumbered = (
  on_listed (λ f. stoi f ≡ number (stamp f)) refl refl refl,
  λ f g l k.
      on_listed (λ f. stamp f ≡ stamp g → f ≡ g)
        (on_listed (λ g. pos 104 ≡ stamp g → "104.mp4" ≡ g) (λ e. refl)
          (λ e. absurd (apart 104 90 refl e)) (λ e. absurd (apart 104 102 refl e)) g k)
        (on_listed (λ g. pos 90 ≡ stamp g → "90.mp4" ≡ g) (λ e. absurd (apart 90 104 refl e))
          (λ e. refl) (λ e. absurd (apart 90 102 refl e)) g k)
        (on_listed (λ g. pos 102 ≡ stamp g → "102.mp4" ≡ g) (λ e. absurd (apart 102 104 refl e))
          (λ e. absurd (apart 102 90 refl e)) (λ e. refl) g k)
        f l,
)

relisted-same : (f : String) → is_listed f entries ≡ is_listed f relisted
relisted-same f = ground arith

video-same_directory_example :
    (set_filename entries ≡ set_filename relisted)
    × (process_video config gst entries (pos 103) "7"
        ≡ process_video config gst relisted (pos 103) "7")
    × (remove_video removes (pos 160) (pos 60) "videos" entries
        ≡ remove_video removes (pos 160) (pos 60) "videos" relisted)
video-same_directory_example =
    video-same_directory config gst removes "videos" (pos 103) (pos 160) (pos 60) "7" stamp entries
      relisted entries-IsNumbered relisted-same

remove_video-directory_example :
    (removed : List String) × (remove_video removes (pos 160) (pos 60) "elsewhere" entries
      ≡ ok (0, map (file_path "elsewhere") removed))
    × IsAscending stamp removed
    × ((f : String) → is_member f removed ≡ (is_listed f entries && ltb_ℤ (stamp f) (pos 100)))
remove_video-directory_example =
    remove_video-directory removes (pos 160) (pos 60) "elsewhere" stamp entries (λ file. refl)
      entries-IsNumbered refl

process_video-directory_example :
    (chosen : List String) × (process_video config gst entries (pos 103) "7"
      ≡ ok (run_pipeline gst "videos" "7" chosen))
    × IsAscending stamp chosen
    × ((f : String)
        → is_member f chosen ≡ (
            is_listed f entries
            && (leb_ℤ (stamp f) (pos 105) && leb_ℤ (pos 101) (stamp f +ℤ pos 2 -ℤ pos 1))))
process_video-directory_example =
    process_video-directory config gst (pos 103) "7" 2 stamp entries refl (omega arith) refl refl
      entries-IsNumbered
      (on_listed (λ f. signed_result 31 (stamp f +ℤ pos 2) ≡ ok (stamp f +ℤ pos 2)) refl refl refl)
      (on_listed
        (λ f. signed_result 31 (stamp f +ℤ pos 2 -ℤ pos 1) ≡ ok (stamp f +ℤ pos 2 -ℤ pos 1)) refl
        refl refl)
