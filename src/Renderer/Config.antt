-- ===== src/Renderer/Config.antt =====
-- `compute_max_supported_aa`, the `to_rt64` conversions and `set_application_user_config`. RT64's
-- doubles and `strtod` are parameters.
use pokemon_stadium_recomp.Prelude.{
  ℕ, ◌*◌, Bool, not, ◌||◌, Option, none, some, max, bit_and, ◌==◌, if◌then◌else◌,
}
use pokemon_stadium_recomp.Prelude.Int.{ℤ, pos_part}
use pokemon_stadium_recomp.Prelude.Text.{Bytes, codes, equal}

pub data Antialiasing : Type 0 where
  no_msaa : Antialiasing
  msaa_2x : Antialiasing
  msaa_4x : Antialiasing
  msaa_8x : Antialiasing
  msaa_count : Antialiasing

-- `RenderSampleCount::Bits`: bit k of the mask is 2^k samples.
unfoldable pub compute_max_supported_aa : ℕ → Antialiasing
compute_max_supported_aa bits =
    if not (bit_and bits 2 == 0)
    then (if not (bit_and bits 4 == 0)
        then (if not (bit_and bits 8 == 0) then msaa_8x else msaa_4x)
        else msaa_2x)
    else no_msaa

-- The settings of ultramodern, each with the values that the switches name and one for any other.
pub data Resolution : Type 0 where
  auto : Resolution
  original : Resolution
  original_2x : Resolution
  unnamed : Resolution

pub data HudRatioMode : Type 0 where
  hud_original : HudRatioMode
  clamp_16x9 : HudRatioMode
  full : HudRatioMode
  hud_unnamed : HudRatioMode

pub data AspectRatio : Type 0 where
  aspect_original : AspectRatio
  expand : AspectRatio
  aspect_manual : AspectRatio
  aspect_count : AspectRatio

pub data RefreshRate : Type 0 where
  rate_original : RefreshRate
  display : RefreshRate
  rate_manual : RefreshRate
  rate_count : RefreshRate

pub data Precision : Type 0 where
  off : Precision
  on : Precision
  precision_auto : Precision
  precision_count : Precision

pub data WindowMode : Type 0 where
  windowed : WindowMode
  fullscreen : WindowMode

pub record GraphicsConfig : Type 0 where
  pub res_option : Resolution
  pub ds_option : ℤ
  pub hr_option : HudRatioMode
  pub ar_option : AspectRatio
  pub msaa_option : Antialiasing
  pub rr_option : RefreshRate
  pub rr_manual_value : ℤ
  pub hpfb_option : Precision
  pub wm_option : WindowMode

-- RT64's side. Its antialiasing, aspect and rate values have the same names.
pub data RtResolution : Type 0 where
  rt_original : RtResolution
  window_integer_scale : RtResolution
  rt_manual : RtResolution

pub data ColorFormat : Type 0 where
  standard : ColorFormat
  high : ColorFormat
  automatic : ColorFormat
  format_count : ColorFormat

pub data Buffering : Type 0 where
  double_buffering : Buffering
  triple_buffering : Buffering

pub data Filtering : Type 0 where
  nearest : Filtering
  linear : Filtering
  anti_aliased_pixel_scaling : Filtering

pub data Upscale : Type 0 where
  upscale_original : Upscale
  scaled_only : Upscale
  upscale_all : Upscale

-- `RT64::UserConfiguration`, over a type of doubles.
pub record UserConfig (D : Type 0) : Type 0 where
  pub resolution : RtResolution
  pub resolution_multiplier : D
  pub downsample_multiplier : ℕ
  pub ext_aspect_ratio : AspectRatio
  pub ext_aspect_target : D
  pub aspect_ratio : AspectRatio
  pub antialiasing : Antialiasing
  pub refresh_rate : RefreshRate
  pub refresh_rate_target : ℤ
  pub internal_color_format : ColorFormat
  pub display_buffering : Buffering
  pub filtering : Filtering
  pub upscale_2d : Upscale
  pub three_point_filtering : Bool

pub record DoubleOps (D : Type 0) : Type 0 where
  pub of_int : ℕ → D
  pub sixteen_ninths : D
  -- `none` where `strtod` consumes nothing.
  pub strtod : Bytes → Option D
  -- `m >= 1.0 && m <= 16.0`
  pub in_range : D → Bool

-- `getenv` of the four overrides; `none` where a variable is unset.
pub record Overrides : Type 0 where
  pub res_mult : Option Bytes
  pub filtering : Option Bytes
  pub upscale : Option Bytes
  pub three_point : Option Bytes

-- The four `to_rt64`, from ultramodern's enumeration to the one of RT64 with the same values.
unfoldable pub to_rt64_aspect : AspectRatio → AspectRatio
to_rt64_aspect aspect_original = aspect_original
to_rt64_aspect expand = expand
to_rt64_aspect aspect_manual = aspect_manual
to_rt64_aspect aspect_count = aspect_count

unfoldable pub to_rt64_msaa : Antialiasing → Antialiasing
to_rt64_msaa no_msaa = no_msaa
to_rt64_msaa msaa_2x = msaa_2x
to_rt64_msaa msaa_4x = msaa_4x
to_rt64_msaa msaa_8x = msaa_8x
to_rt64_msaa msaa_count = msaa_count

unfoldable pub to_rt64_rate : RefreshRate → RefreshRate
to_rt64_rate rate_original = rate_original
to_rt64_rate display = display
to_rt64_rate rate_manual = rate_manual
to_rt64_rate rate_count = rate_count

unfoldable pub color_format : Precision → ColorFormat
color_format off = standard
color_format on = high
color_format precision_auto = automatic
color_format precision_count = format_count

-- `std::max(config.ds_option, 1)`
unfoldable pub downsample : GraphicsConfig → ℕ
downsample c = max (pos_part c.ds_option) 1

-- `resolutionMultiplier` is written as a double: `2.0 * n` of a small integer is exact.
unfoldable pub set_resolution :
    {D : Type 0} → DoubleOps D → Resolution → ℕ → UserConfig D → UserConfig D
set_resolution ops auto ds u = record u {
  resolution = window_integer_scale;
  downsample_multiplier = 1;
}
set_resolution ops original ds u = record u {
  resolution = rt_manual;
  resolution_multiplier = ops.of_int ds;
  downsample_multiplier = ds;
}
set_resolution ops original_2x ds u = record u {
  resolution = rt_manual;
  resolution_multiplier = ops.of_int (2 * ds);
  downsample_multiplier = ds;
}
set_resolution ops unnamed ds u = record u {
  resolution = window_integer_scale;
  downsample_multiplier = 1;
}

unfoldable pub set_hud_ratio :
    {D : Type 0} → DoubleOps D → HudRatioMode → UserConfig D → UserConfig D
set_hud_ratio ops hud_original u = record u { ext_aspect_ratio = aspect_original }
set_hud_ratio ops clamp_16x9 u = record u {
  ext_aspect_ratio = aspect_manual;
  ext_aspect_target = ops.sixteen_ninths;
}
set_hud_ratio ops full u = record u { ext_aspect_ratio = expand }
set_hud_ratio ops hud_unnamed u = record u { ext_aspect_ratio = aspect_original }

unfoldable pub set_fixed : {D : Type 0} → GraphicsConfig → UserConfig D → UserConfig D
unfolding color_format to_rt64_aspect to_rt64_msaa to_rt64_rate
set_fixed c u = record u {
  aspect_ratio = to_rt64_aspect c.ar_option;
  antialiasing = to_rt64_msaa c.msaa_option;
  refresh_rate = to_rt64_rate c.rr_option;
  refresh_rate_target = c.rr_manual_value;
  internal_color_format = color_format c.hpfb_option;
  display_buffering = triple_buffering;
}

unfoldable pub force_resolution :
    {D : Type 0} → DoubleOps D → Option Bytes → UserConfig D → UserConfig D
force_resolution ops none u = u
force_resolution ops (some r) u = elim (ops.strtod r) [
  | none ↦ u
  | some m ↦
      if ops.in_range m
      then record u { resolution = rt_manual; resolution_multiplier = m; downsample_multiplier = 1 }
      else u
]

unfoldable pub force_filtering : {D : Type 0} → Option Bytes → UserConfig D → UserConfig D
unfolding equal
force_filtering none u = u
force_filtering (some f) u =
    if equal f (codes "Nearest")
    then record u { filtering = nearest }
    else if equal f (codes "Linear")
    then record u { filtering = linear }
    else if equal f (codes "AAPS")
    then record u { filtering = anti_aliased_pixel_scaling }
    else u

unfoldable pub force_upscale : {D : Type 0} → Option Bytes → UserConfig D → UserConfig D
unfolding equal
force_upscale none u = u
force_upscale (some f) u =
    if equal f (codes "Original")
    then record u { upscale_2d = upscale_original }
    else if equal f (codes "ScaledOnly")
    then record u { upscale_2d = scaled_only }
    else if equal f (codes "All")
    then record u { upscale_2d = upscale_all }
    else u

unfoldable pub force_three_point : {D : Type 0} → Option Bytes → UserConfig D → UserConfig D
unfolding equal
force_three_point none u = u
force_three_point (some t) u = record u {
  three_point_filtering = not (equal t (codes "0") || equal t (codes "false"));
}

unfoldable pub set_application_user_config :
    {D : Type 0} → DoubleOps D → Overrides → GraphicsConfig → UserConfig D → UserConfig D
unfolding set_resolution downsample set_hud_ratio set_fixed force_resolution force_filtering
    force_upscale force_three_point
set_application_user_config ops env c u = force_three_point env.three_point (
    force_upscale env.upscale (
      force_filtering env.filtering (
        force_resolution ops env.res_mult (
          set_fixed c
            (set_hud_ratio ops c.hr_option (set_resolution ops c.res_option (downsample c) u))))))
