-- ===== src/Renderer/Context/Scaling.antt =====
-- What the settings make of the resolution.
use native.Mathlib.Decide.{dec_lt}
use mathlib.Core.Option.{some-injective}
use pokemon_stadium_recomp.Prelude.{
  Option-cases, ℕ, ◌+◌, ◌-◌, ◌*◌, ◌/◌, ◌%◌, ◌^◌, ◌≤◌, ◌<◌, ◌≡◌, refl, ap, ◌∙◌, arith, inl, inr,
  Bool, true, false, max, if◌then◌else◌, Option, none, some, Bool-cases,
}
use pokemon_stadium_recomp.Prelude.Int.{pos_part}
use pokemon_stadium_recomp.Prelude.Text.{Bytes}
use pokemon_stadium_recomp.Renderer.Config.{
  Resolution, auto, original, original_2x, unnamed, GraphicsConfig, window_integer_scale,
  UserConfig, DoubleOps, Overrides, downsample, set_resolution, set_hud_ratio, set_fixed,
  force_resolution, force_filtering, force_upscale, force_three_point, set_application_user_config,
  HudRatioMode, hud_original, clamp_16x9, full, hud_unnamed, Filtering, nearest, linear,
  anti_aliased_pixel_scaling, Upscale, upscale_original, scaled_only, upscale_all,
}
use pokemon_stadium_recomp.Renderer.Context.{Scale, whole, of_multiplier, get_resolution_scale}

-- The whole factor of a window: the smallest that covers its height with lines of 240, at least 1.
pub record Covers (height s : ℕ) : Type 0 where
  pub positive : 1 ≤ s
  pub enough : height ≤ 240 * s
  pub least : (r : ℕ) → 1 ≤ r → height ≤ 240 * r → s ≤ r

-- The scale that the settings alone ask for: that of the window, or the multiple chosen.
abbrev pub Scaled : {D : Type 0} → DoubleOps D → Resolution → ℕ → ℕ → Scale D → Type 0
Scaled ops auto ds height s = (k : ℕ) × (s ≡ whole k) × Covers height k
Scaled ops original ds height s = s ≡ of_multiplier (ops.of_int ds)
Scaled ops original_2x ds height s = s ≡ of_multiplier (ops.of_int (2 * ds))
Scaled ops unnamed ds height s = (k : ℕ) × (s ≡ whole k) × Covers height k

module _ {D : Type 0} where
  if_scale :
      (height : ℕ) (b : Bool) (s : Scale D) (v w : UserConfig D)
      → get_resolution_scale height v ≡ s
      → get_resolution_scale height w ≡ s
      → get_resolution_scale height (if b then v else w) ≡ s
  if_scale height true s v w e f = e
  if_scale height false s v w e f = f

  keep_filtering :
      (height : ℕ) (u : UserConfig D) (x : Filtering)
      → get_resolution_scale height (record u { filtering = x }) ≡ get_resolution_scale height u
  unfolding get_resolution_scale
  keep_filtering height u x = refl

  keep_upscale :
      (height : ℕ) (u : UserConfig D) (x : Upscale)
      → get_resolution_scale height (record u { upscale_2d = x }) ≡ get_resolution_scale height u
  unfolding get_resolution_scale
  keep_upscale height u x = refl

  filtering_scale :
      (height : ℕ) (f : Option Bytes) (u : UserConfig D)
      → get_resolution_scale height (force_filtering f u) ≡ get_resolution_scale height u
  unfolding force_filtering
  filtering_scale height none u = refl
  filtering_scale height (some f) u = if_scale height _ _ _ _ (keep_filtering height u nearest) (
      if_scale height _ _ _ _ (keep_filtering height u linear)
        (if_scale height _ _ _ _ (keep_filtering height u anti_aliased_pixel_scaling) refl))

  upscale_scale :
      (height : ℕ) (f : Option Bytes) (u : UserConfig D)
      → get_resolution_scale height (force_upscale f u) ≡ get_resolution_scale height u
  unfolding force_upscale
  upscale_scale height none u = refl
  upscale_scale height (some f) u =
      if_scale height _ _ _ _ (keep_upscale height u upscale_original) (
        if_scale height _ _ _ _ (keep_upscale height u scaled_only)
          (if_scale height _ _ _ _ (keep_upscale height u upscale_all) refl))

  three_point_scale :
      (height : ℕ) (f : Option Bytes) (u : UserConfig D)
      → get_resolution_scale height (force_three_point f u) ≡ get_resolution_scale height u
  unfolding force_three_point get_resolution_scale
  three_point_scale height none u = refl
  three_point_scale height (some f) u = refl

  hud_scale :
      (ops : DoubleOps D) (height : ℕ) (c : GraphicsConfig) (m : HudRatioMode) (u : UserConfig D)
      → get_resolution_scale height (set_fixed c (set_hud_ratio ops m u))
        ≡ get_resolution_scale height u
  unfolding set_fixed set_hud_ratio get_resolution_scale
  hud_scale ops height c hud_original u = refl
  hud_scale ops height c clamp_16x9 u = refl
  hud_scale ops height c full u = refl
  hud_scale ops height c hud_unnamed u = refl

  window_scale :
      (height : ℕ) (u : UserConfig D)
      → height < 2 ^ 31
      → (k : ℕ) × (get_resolution_scale height
            (record u { resolution = window_integer_scale; downsample_multiplier = 1 })
          ≡ whole k)
        × Covers height k
  unfolding get_resolution_scale
  window_scale height u h = elim (dec_lt 0 height) [
    | yes some_height ↦ (
      max (((height + 240 + 2 ^ 32 - 1) % 2 ^ 32) / 240) 1,
      ground arith,
      record { positive = omega arith; enough = omega arith; least = λ r one more. omega arith },
    )
    | no nothing ↦ (
      1,
      ground arith,
      record { positive = omega arith; enough = omega arith; least = λ r one more. one },
    )
  ]

  base_scale :
      (ops : DoubleOps D) (height ds : ℕ) (r : Resolution) (m : HudRatioMode) (c : GraphicsConfig)
      (u : UserConfig D)
      → height < 2 ^ 31
      → Scaled ops r ds height (
          get_resolution_scale height
            (set_fixed c (set_hud_ratio ops m (set_resolution ops r ds u))))
  unfolding set_resolution
  base_scale ops height ds auto m c u h =
      rw
        (hud_scale ops height c m
          (record u { resolution = window_integer_scale; downsample_multiplier = 1 }))
        (window_scale height u h)
  base_scale ops height ds unnamed m c u h =
      rw
        (hud_scale ops height c m
          (record u { resolution = window_integer_scale; downsample_multiplier = 1 }))
        (window_scale height u h)
  base_scale ops height ds original m c u h =
      hud_scale ops height c m _ ∙ unfold get_resolution_scale in refl
  base_scale ops height ds original_2x m c u h =
      hud_scale ops height c m _ ∙ unfold get_resolution_scale in refl

  -- The number that `PSR_RT64_RES_MULT` asks for: one that `strtod` reads, of 1 to 16.
  pub wanted : DoubleOps D → Option D → Option D
  wanted ops none = none
  wanted ops (some m) = if ops.in_range m then some m else none

  pub forced_multiplier : DoubleOps D → Option Bytes → Option D
  unfolding wanted
  forced_multiplier ops none = none
  forced_multiplier ops (some text) = wanted ops (ops.strtod text)

  forced_scale :
      (ops : DoubleOps D) (height : ℕ) (o : Option Bytes) (v : UserConfig D)
      → ((m : D)
          → forced_multiplier ops o ≡ some m
          → get_resolution_scale height (force_resolution ops o v) ≡ of_multiplier m)
        × (forced_multiplier ops o ≡ none
            → get_resolution_scale height (force_resolution ops o v)
              ≡ get_resolution_scale height v)
  unfolding forced_multiplier wanted force_resolution get_resolution_scale
  forced_scale ops height none v = ((λ m e. absurd (cc)), (λ e. refl))
  forced_scale ops height (some text) v = elim (Option-cases (ops.strtod text)) [
    | inl unread ↦
        rw (unread, forced_multiplier, force_resolution, wanted) ((λ m e. absurd (cc)), (λ e. refl))
    | inr (x, read) ↦ elim (Bool-cases (ops.in_range x)) [
      | inl inside ↦
          rw (read, inside, forced_multiplier, force_resolution, wanted)
            ((λ m e. ap of_multiplier (some-injective _ _ e)), (λ e. absurd (cc)))
      | inr outside ↦
          rw (read, outside, forced_multiplier, force_resolution, wanted)
            ((λ m e. absurd (cc)), (λ e. refl))
    ]
  ]

  -- The scale that the application reports behind any change of settings, for a window less than
  -- 2^31 high. With a `PSR_RT64_RES_MULT` that `strtod` reads as a number of 1 to 16 it is that
  -- number, whatever the settings. Otherwise it is the chosen multiple, Original or Original2x times
  -- the downsampling of at least 1, or else the smallest whole factor, at least 1, whose lines of
  -- 240 cover the window's height. None of the other settings and overrides matters.
  pub set_application_user_config-scale :
      (ops : DoubleOps D) (env : Overrides) (c : GraphicsConfig) (u : UserConfig D) (height : ℕ)
      → height < 2 ^ 31
      → ((m : D)
          → forced_multiplier ops env.res_mult ≡ some m
          → get_resolution_scale height (set_application_user_config ops env c u) ≡ of_multiplier m)
        × (forced_multiplier ops env.res_mult ≡ none
            → Scaled ops c.res_option
                (max (pos_part c.ds_option) 1)
                height
                (get_resolution_scale height (set_application_user_config ops env c u)))
  unfolding set_application_user_config downsample
  set_application_user_config-scale ops env c u height h = (
    (λ m e. late ∙ (forced_scale ops height env.res_mult base).0 m e),
    (λ e.
        rw (late, (forced_scale ops height env.res_mult base).1 e)
          (base_scale ops height _ c.res_option c.hr_option c u h)),
  )
    where
      base : UserConfig D
      base =
          set_fixed c
            (set_hud_ratio ops c.hr_option (set_resolution ops c.res_option (downsample c) u))

      late :
          get_resolution_scale height (set_application_user_config ops env c u)
          ≡ get_resolution_scale height (force_resolution ops env.res_mult base)
      late =
          three_point_scale height env.three_point _
          ∙ upscale_scale height env.upscale _
          ∙ filtering_scale height env.filtering _
