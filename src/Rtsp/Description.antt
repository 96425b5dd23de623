-- ===== src/Rtsp/Description.antt =====
-- What the description of a stream says, from the samples that its pipeline has delivered.
use rpi_cam.Base.{
  Bool, true, false, Option, none, some, List, [], ◌∷◌, ◌++◌, String, ◌≡◌, ◌≢◌, refl, ◌⊎◌, inl, inr,
  if◌then◌else◌, arith, All, Bool-cases,
}
use rpi_cam.Rtsp.Sdp.{
  H264CodecInfo, fresh_info, Structure, FlowReturn, flow_ok, flow_error, flow_eos, read_fields,
  needs_more, new_sample_callback, multicast_sdp_new_sample_callback,
}

abbrev pub Callback : Type 0
Callback = Option Structure → Option H264CodecInfo → FlowReturn × Option H264CodecInfo

abbrev pub goes_on : FlowReturn → Bool
goes_on flow_ok = true
goes_on flow_error = false
goes_on flow_eos = false

abbrev pub info_or : H264CodecInfo → Option H264CodecInfo → H264CodecInfo
info_or old none = old
info_or old (some info) = info

-- What an appsink with this callback learns of its samples: the first answer other than
-- `GST_FLOW_OK` ends the stream.
abbrev pub learn : Callback → List Structure → H264CodecInfo → H264CodecInfo
learn callback [] info = info
learn callback (s ∷ samples) info =
    let answer = callback (some s) (some info) in
    let later = learn callback samples (info_or info answer.1) in
    if goes_on answer.0 then later else info_or info answer.1

pub learn-multicast :
    (samples : List Structure) (info : H264CodecInfo)
    → (seen rest : List Structure) × (samples ≡ seen ++ rest)
      × (learn multicast_sdp_new_sample_callback samples info ≡ learn new_sample_callback seen info)
      × (rest ≢ [] → needs_more (learn multicast_sdp_new_sample_callback samples info) ≡ false)
unfolding multicast_sdp_new_sample_callback new_sample_callback
learn-multicast [] info = ([], [], refl, refl, λ h. absurd (h refl))
learn-multicast (s ∷ samples) info = elim (Bool-cases (needs_more (read_fields s info))) [
  | inl more ↦
      let (seen, rest, split, same, complete) = learn-multicast samples (read_fields s info) in
      (s ∷ seen, rest, rw split refl, rw more same, rw more complete)
  | inr done ↦ (s ∷ [], samples, refl, rw done refl, λ h. rw (done, done) refl)
]

-- No sample states another frame rate than `f`.
abbrev pub States : String → Structure → Type 0
States f s = (s.get_string "a-framerate" ≡ none) ⊎ (s.get_string "a-framerate" ≡ some f)

abbrev pub IsRate : String → H264CodecInfo → Type 0
IsRate f info = (info.profile_level ≡ "") ⊎ (info.profile_level ≡ f)

read_fields-IsRate :
    (f : String) (s : Structure) (info : H264CodecInfo)
    → States f s
    → IsRate f info
    → IsRate f (read_fields s info)
unfolding read_fields
read_fields-IsRate f s info h i = ground arith

learn_file-IsRate :
    (f : String) (samples : List Structure) (info : H264CodecInfo)
    → All (States f) samples
    → IsRate f info
    → IsRate f (learn new_sample_callback samples info)
unfolding new_sample_callback
learn_file-IsRate f [] info a i = i
learn_file-IsRate f (s ∷ samples) info (h, a) i =
    learn_file-IsRate f samples (read_fields s info) a (read_fields-IsRate f s info h i)

All-first : (f : String) (xs ys : List Structure) → All (States f) (xs ++ ys) → All (States f) xs
All-first f [] ys a = tt
All-first f (x ∷ xs) ys (h, a) = (h, All-first f xs ys a)

-- The profile level of a description is a frame rate: if no sample states another frame rate than
-- `f`, then what either pipeline takes for the profile level is `f` or empty, whatever profiles the
-- samples state.
pub learn-IsRate :
    (f : String) (samples : List Structure)
    → All (States f) samples
    → IsRate f (learn new_sample_callback samples fresh_info)
      × IsRate f (learn multicast_sdp_new_sample_callback samples fresh_info)
unfolding fresh_info
learn-IsRate f samples a =
    let (seen, rest, split, same, _) = learn-multicast samples fresh_info in
    (
      learn_file-IsRate f samples fresh_info a (inl refl),
      rw same
          (learn_file-IsRate f seen fresh_info (All-first f seen rest (rw split at a)) (inl refl)),
    )
