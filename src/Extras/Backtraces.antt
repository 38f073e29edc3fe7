-- ===== src/Extras/Backtraces.antt =====
-- The host backtraces that Windows builds print beside the diagnostics of extras.c: behind the lines on
-- segment 6, for an entry of process_geo_layout with a null or a new literal, and for a new literal of
-- Util_ConvertAddrToVirtAddr. The frames that `CaptureStackBackTrace` finds are a parameter.
pub mod Origins
use pokemon_stadium_recomp.Prelude.{
  ℕ, ◌+◌, Bool, true, false, ◌&&◌, ◌||◌, List, [], ◌∷◌, ◌++◌, Option, none, some, take, ◌==◌,
  if◌then◌else◌,
}
use pokemon_stadium_recomp.Prelude.Text.{Bytes, codes}
use pokemon_stadium_recomp.Libc.Print.{decimal, hex8, hex_upper_digits, drop_zeros}
use pokemon_stadium_recomp.Threads.{Frame}
use pokemon_stadium_recomp.Threads.Stack.{symbol_text, file_text, line_number}
use pokemon_stadium_recomp.Threads.Log.{two_digits}
use pokemon_stadium_recomp.Extras.Probes.{
  Census, Counted, is_new, remember, in_pattern_bucket, census_of, geo_entry_log,
  addr_translate_log,
}

-- `  #%02u %s (%s:%lu)`
unfoldable pub trace_lines : ℕ → List Frame → Bytes
unfolding two_digits symbol_text file_text line_number decimal
trace_lines i [] = []
trace_lines i (f ∷ frames) =
    codes "  #"
    ++ two_digits i
    ++ codes " "
    ++ symbol_text f
    ++ codes " ("
    ++ file_text f
    ++ codes ":"
    ++ decimal (line_number f)
    ++ codes ")\n"
    ++ trace_lines (i + 1) frames

-- At most 16 frames are captured, and 12 printed.
unfoldable pub segmap_dump_host_backtrace : List Frame → Bytes
unfolding trace_lines
segmap_dump_host_backtrace frames = trace_lines 0 (take 12 (take 16 frames))

-- What the setter and the clear hook print behind their lines.
unfoldable pub segmap_trace : ℕ → List Frame → Bytes
unfolding segmap_dump_host_backtrace
segmap_trace id frames = if id == 6 then segmap_dump_host_backtrace frames else []

-- At most 24 frames are captured, and 18 printed.
abbrev pub origin_trace : List Frame → Bytes
origin_trace frames = trace_lines 0 (take 18 (take 24 frames))

-- The end of `geo_entry_log`; the state is `s_bt_done`.
unfoldable pub geo_entry_origin : ℕ → ℕ → List Frame → List ℕ → Option Bytes × List ℕ
unfolding remember hex8 trace_lines
geo_entry_origin segptr pool frames traced =
    let new = in_pattern_bucket segptr && is_new 32 segptr traced in
    (
      if (segptr == 0) || new
          then some (
              codes "[geo-entry-origin] segptr=0x"
              ++ hex8 segptr
              ++ codes " pool=0x"
              ++ hex8 pool
              ++ (b' ' ∷ 0xE2 ∷ 0x80 ∷ 0x94 ∷ codes " host backtrace:\n")
              ++ origin_trace frames)
          else none,
      if new then remember 32 segptr traced else traced,
    )

-- The whole hook: what it does without the backtraces, the backtrace, and the state.
unfoldable pub geo_entry :
    ℕ → ℕ → List Frame → Counted × List ℕ → Bool × List Census × Option Bytes × Counted × List ℕ
unfolding geo_entry_log geo_entry_origin
geo_entry segptr pool frames (s, traced) =
    let (printed, censuses, s') = geo_entry_log segptr s in
    let (trace, traced') = geo_entry_origin segptr pool frames traced in
    if printed
    then (printed, censuses, trace, s', traced')
    else (printed, censuses, none, s', traced)

-- The trace behind a census of `addr_translate_log`.
unfoldable pub addr_translate_origin : ℕ → List Frame → Bytes
unfolding census_of hex8 hex_upper_digits drop_zeros trace_lines
addr_translate_origin input frames =
    codes "[addr-xlate-origin] in=0x"
    ++ hex8 input
    ++ codes " (pattern_id=0x"
    ++ drop_zeros (hex8 (census_of input).pattern_id)
    ++ codes " off=0x"
    ++ drop_zeros (hex8 (census_of input).offset)
    ++ codes ") host backtrace:\n"
    ++ origin_trace frames

-- The hook with its trace, if any.
unfoldable pub addr_translate :
    ℕ → ℕ → List Frame → Counted → Bool × List Census × Option Bytes × Counted
unfolding addr_translate_log addr_translate_origin
addr_translate input out frames s =
    let (printed, censuses, s') = addr_translate_log input out s in
    (
      printed,
      censuses,
      elim censuses [ [] ↦ none | c ∷ cs ↦ some (addr_translate_origin input frames) ],
      s',
    )
