-- ===== src/Config/Program.antt =====
-- ProgramConfig.cpp: the configurations, read at their first use.
use rpi_cam.Base.{ℕ, ◌==◌, ◌≢◌, Option, none, some, ◌≡◌, refl, if◌then◌else◌, zero_test}
use rpi_cam.Base.Outcome.{Outcome, ok, ◌>>=◌}

-- A getter such as `http_config`: `cached` is the member pointer, `fresh` the new object and `read`
-- its `set_file` on `config.json`. A failed reading answers `nullptr`, with the member set.
abbrev pub answered {ℓ} : {C : Type ℓ} → ℕ × C → Option C × Option C
answered (code, c) = (if code == 0 then some c else none, some c)

unfoldable pub get_config {ℓ} :
    {C : Type ℓ} → (C → Outcome (ℕ × C)) → C → Option C → Outcome (Option C × Option C)
get_config read fresh (some c) = ok (some c, some c)
get_config read fresh none = read fresh >>= λ r. ok (answered r)

-- A configuration whose reading failed is `nullptr` at its first use, and at its second use the
-- object that was read in part.
pub get_config_failed {ℓ} :
    {C : Type ℓ} (read : C → Outcome (ℕ × C)) (fresh part : C) (code : ℕ)
    → read fresh ≡ ok (code, part)
    → code ≢ 0
    → (get_config read fresh none ≡ ok (none, some part))
      × (get_config read fresh (some part) ≡ ok (some part, some part))
unfolding get_config
get_config_failed read fresh part code e nz = (rw (e, zero_test code nz) refl, refl)
