-- ===== src/Renderer/Context.antt =====
-- The context's operations on the program's own state: `send_dl`, `update_screen`, `update_config`
-- and `get_resolution_scale`. RT64's own work behind them is a library's.
pub mod Scaling
pub mod Samples
pub mod Tasks
use pokemon_stadium_recomp.Prelude.{
  ℕ, ◌+◌, ◌-◌, ◌/◌, ◌%◌, ◌^◌, Bool, true, false, not, max, bit_and, ◌==◌, ltb, if◌then◌else◌, List,
  [], ◌∷◌, ◌++◌, Option, none, some,
}
use pokemon_stadium_recomp.DebugServer.State.{Dbg}
use pokemon_stadium_recomp.Renderer.Config.{
  Antialiasing, no_msaa, msaa_2x, msaa_4x, msaa_8x, msaa_count, WindowMode, windowed, fullscreen,
  GraphicsConfig, RtResolution, rt_original, window_integer_scale, rt_manual, UserConfig, DoubleOps,
  Overrides, set_application_user_config,
}

-- The fields of `OSTask` that the context reads.
pub record Task : Type 0 where
  pub task_type : ℕ
  pub ucode : ℕ
  pub ucode_data : ℕ
  pub data_ptr : ℕ

-- `M_GFXTASK` and `M_AUDTASK` of the N64's SP tasks.
abbrev pub gfx_task : ℕ
gfx_task = 1

abbrev pub audio_task : ℕ
audio_task = 2

-- `fetch_add(1)` on an atomic of 64 bits.
abbrev pub bump : ℕ → ℕ
bump n = (n + 1) % 2 ^ 64

-- The switch on the task's type.
unfoldable pub count_dl : ℕ → Dbg → Dbg
count_dl task_type s =
    if task_type == gfx_task
    then record s { send_dl_gfx_count = bump s.send_dl_gfx_count }
    else if task_type == audio_task
    then record s { send_dl_audio_count = bump s.send_dl_audio_count }
    else record s { send_dl_other_count = bump s.send_dl_other_count }

-- What `send_dl` asks of the others: the snapshot of the display list, with its address and number,
-- for a graphics task; then RT64's load of the microcode and its walk.
pub record DlCalls : Type 0 where
  pub snapshot : Option (ℕ × ℕ)
  pub ucode : ℕ
  pub ucode_data : ℕ
  pub walk : ℕ

abbrev pub dl_address : ℕ → ℕ
dl_address p = bit_and p 0x3FFFFFF

unfoldable pub send_dl : Task → Dbg → DlCalls × Dbg
unfolding count_dl
send_dl task s =
    let t = count_dl task.task_type (record s { send_dl_count = bump s.send_dl_count }) in
    (
      record {
        snapshot =
            if task.task_type == gfx_task
            then some (dl_address task.data_ptr, t.send_dl_gfx_count)
            else none;
        ucode = dl_address task.ucode;
        ucode_data = dl_address task.ucode_data;
        walk = dl_address task.data_ptr;
      },
      t,
    )

unfoldable pub update_screen : Dbg → Dbg
update_screen s = record s { update_screen_count = bump s.update_screen_count }

-- The calls of RT64's application that a change of settings makes, in order.
pub data AppCall : Type 0 where
  set_full_screen : Bool → AppCall
  update_user_config : AppCall
  update_multisampling : AppCall

abbrev msaa_code : Antialiasing → ℕ
msaa_code no_msaa = 0
msaa_code msaa_2x = 1
msaa_code msaa_4x = 2
msaa_code msaa_8x = 3
msaa_code msaa_count = 4

abbrev pub is_fullscreen : WindowMode → Bool
is_fullscreen fullscreen = true
is_fullscreen windowed = false

abbrev pub window_code : WindowMode → ℕ
window_code fullscreen = 1
window_code windowed = 0

-- `same` is ultramodern's `operator==` on two configurations.
unfoldable pub update_config :
    {D : Type 0}
    → (GraphicsConfig → GraphicsConfig → Bool)
    → DoubleOps D
    → Overrides
    → GraphicsConfig
    → GraphicsConfig
    → UserConfig D
    → Bool × List AppCall × UserConfig D
unfolding set_application_user_config
update_config same ops env old new u = if same old new then (false, [], u) else (
  true,
  (if window_code new.wm_option == window_code old.wm_option
        then []
        else set_full_screen (is_fullscreen new.wm_option) ∷ [])
      ++ (update_user_config
          ∷ (if msaa_code new.msaa_option == msaa_code old.msaa_option
              then []
              else update_multisampling ∷ [])),
  set_application_user_config ops env new u,
)

-- A float: a whole number, or a double of the configuration.
pub data Scale (D : Type 0) : Type 0 where
  whole : ℕ → Scale D
  of_multiplier : D → Scale D

-- `ReferenceHeight` is 240; the height is unsigned, of 32 bits.
unfoldable pub get_resolution_scale : {D : Type 0} → ℕ → UserConfig D → Scale D
get_resolution_scale height u = elim u.resolution [
  | window_integer_scale ↦
      if ltb 0 height then whole (max (((height + 240 + 2 ^ 32 - 1) % 2 ^ 32) / 240) 1) else whole 1
  | rt_manual ↦ of_multiplier u.resolution_multiplier
  | rt_original ↦ whole 1
]
