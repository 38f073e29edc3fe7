-- ===== src/Renderer/Setup.antt =====
-- The constructor of `RT64Context`: the settings, the set-up of RT64's application, and what the
-- device supports. The register blocks and the window are handed to RT64 as they are.
pub mod Supported
use pokemon_stadium_recomp.Prelude.{
  ℕ, Bool, true, false, List, [], ◌∷◌, Option, none, some, bit_and, if◌then◌else◌,
}
use pokemon_stadium_recomp.Renderer.Config.{
  Antialiasing, no_msaa, compute_max_supported_aa, GraphicsConfig, UserConfig, DoubleOps, Overrides,
  set_application_user_config,
}
use pokemon_stadium_recomp.Renderer.Context.{is_fullscreen}

-- `SetupResult` of RT64 and of ultramodern, which have the same values; `result_unnamed` is RT64's alone.
pub data SetupResult : Type 0 where
  success : SetupResult
  dynamic_libraries_not_found : SetupResult
  invalid_graphics_api : SetupResult
  graphics_api_not_found : SetupResult
  graphics_device_not_found : SetupResult
  result_unnamed : SetupResult

-- `none` where the process ends.
unfoldable pub map_setup_result : SetupResult → Option SetupResult
map_setup_result success = some success
map_setup_result dynamic_libraries_not_found = some dynamic_libraries_not_found
map_setup_result invalid_graphics_api = some invalid_graphics_api
map_setup_result graphics_api_not_found = some graphics_api_not_found
map_setup_result graphics_device_not_found = some graphics_device_not_found
map_setup_result result_unnamed = none

-- The graphics interfaces of RT64 and of ultramodern, likewise.
pub data GraphicsApi : Type 0 where
  d3d12 : GraphicsApi
  vulkan : GraphicsApi
  metal : GraphicsApi
  automatic : GraphicsApi
  api_unnamed : GraphicsApi

unfoldable pub map_graphics_api : GraphicsApi → Option GraphicsApi
map_graphics_api d3d12 = some d3d12
map_graphics_api vulkan = some vulkan
map_graphics_api metal = some metal
map_graphics_api automatic = some automatic
map_graphics_api api_unnamed = none

-- The switch on the configured interface; any other value leaves RT64's default.
unfoldable pub set_graphics_api : GraphicsApi → GraphicsApi → GraphicsApi
set_graphics_api d3d12 old = d3d12
set_graphics_api vulkan old = vulkan
set_graphics_api metal old = metal
set_graphics_api automatic old = automatic
set_graphics_api api_unnamed old = old

-- `device_max_msaa`, `sample_positions_supported` and `high_precision_fb_enabled`.
pub record Statics : Type 0 where
  pub device_max_msaa : Antialiasing
  pub sample_positions_supported : Bool
  pub high_precision_fb_enabled : Bool

-- What RT64 answers: the result of the set-up, the interface it chose, the device's sample masks,
-- and whether its shaders use a wide colour format.
pub record Rt64 : Type 0 where
  pub setup : SetupResult
  pub chosen : GraphicsApi
  pub sample_locations : Bool
  pub color_sample_counts : ℕ
  pub depth_sample_counts : ℕ
  pub uses_hdr : Bool

-- The settings of the application beside its user configuration.
pub record App (D : Type 0) : Type 0 where
  pub user_config : UserConfig D
  pub developer_mode : Bool
  pub graphics_api : GraphicsApi
  pub force_branch : Bool
  pub lod_scale : Bool
  pub full_screen : Bool

pub record Rt64Context (D : Type 0) : Type 0 where
  pub setup_result : SetupResult
  pub chosen_api : GraphicsApi
  pub app : Option (App D)

-- What the device supports.
unfoldable pub device_statics : Rt64 → Statics
unfolding compute_max_supported_aa
device_statics rt =
    if rt.sample_locations
    then record {
      device_max_msaa =
          compute_max_supported_aa (bit_and rt.color_sample_counts rt.depth_sample_counts);
      sample_positions_supported = true;
      high_precision_fb_enabled = rt.uses_hdr;
    }
    else record {
      device_max_msaa = no_msaa;
      sample_positions_supported = false;
      high_precision_fb_enabled = rt.uses_hdr;
    }

module _ {D : Type 0} where
  -- The application before its set-up, from RT64's default configuration and interface.
  unfoldable pub configured_app :
      DoubleOps D
      → Overrides
      → GraphicsConfig
      → GraphicsApi
      → Bool
      → UserConfig D
      → GraphicsApi
      → App D
  unfolding set_application_user_config set_graphics_api
  configured_app ops env c api_option debug u api = record {
    user_config = set_application_user_config ops env c u;
    developer_mode = debug;
    graphics_api = set_graphics_api api_option api;
    force_branch = true;
    lod_scale = true;
    full_screen = false;
  }

  unfoldable pub set_up_app :
      SetupResult → GraphicsApi → GraphicsConfig → App D → Rt64 → Statics → Rt64Context D × Statics
  unfolding device_statics
  set_up_app success chosen c app rt st = (
    record {
      setup_result = success;
      chosen_api = chosen;
      app = some (record app { full_screen = is_fullscreen c.wm_option });
    },
    device_statics rt,
  )
  set_up_app result chosen c app rt st =
      (record { setup_result = result; chosen_api = chosen; app = none }, st)

  -- The whole constructor; `none` where an answer that has no name ends the process.
  unfoldable pub rt64_context :
      GraphicsConfig → App D → Rt64 → Statics → Option (Rt64Context D × Statics)
  unfolding map_setup_result map_graphics_api set_up_app
  rt64_context c app rt st = elim (map_setup_result rt.setup) [
    | none ↦ none
    | some result ↦ elim (map_graphics_api rt.chosen) [
      | none ↦ none
      | some chosen ↦ some (set_up_app result chosen c app rt st)
    ]
  ]
