-- ===== src/Opt/Vreg.antt =====
-- src/opt.c: the test that guards every table that a pass indexes by a virtual register.
use winds.Base.{ℕ, ◌≡◌, ◌<◌, ◌&&◌, Option, none, some, arith, if◌then◌else◌, ltb}
use winds.Base.Int.{ℤ, pos, negsuc}

-- The register of `v > 0 && v < max_vreg`.
abbrev pub reg_below : ℕ → ℤ → Option ℕ
reg_below max_vreg (pos v) = if ltb 0 v && ltb v max_vreg then some v else none
reg_below max_vreg (negsuc v) = none

pub reg_below-pos :
    (max_vreg : ℕ) (v : ℤ) (r : ℕ) → reg_below max_vreg v ≡ some r → (v ≡ pos r) × (0 < r)
reg_below-pos max_vreg (pos v) r h = ground arith
reg_below-pos max_vreg (negsuc v) r h = cc
