-- ===== src/DebugServer/Events.antt =====
-- `mesg_recent` and `sp_task_recent`: the event rings that ultramodern and librecomp keep. What the
-- rings hold is a parameter of each command.
use pokemon_stadium_recomp.Prelude.{ℕ, true, List, ◌++◌, ◌==◌, if◌then◌else◌}
use pokemon_stadium_recomp.Prelude.Int.{pos}
use pokemon_stadium_recomp.Prelude.Text.{Bytes, codes}
use pokemon_stadium_recomp.Libc.Print.{decimal}
use pokemon_stadium_recomp.DebugServer.Json.{get_int}
use pokemon_stadium_recomp.DebugServer.Render.{items, clamp_count}

-- `MesgEvent`, less its padding.
pub record MesgEvent : Type 0 where
  pub seq : ℕ
  pub ms : ℕ
  pub mq : ℕ
  pub msg : ℕ
  pub valid_before : ℕ
  pub valid_after : ℕ
  pub op : ℕ
  pub block : ℕ
  pub game_thread : ℕ

-- `sizeof(MesgEvent)`: two 64-bit, two 32-bit, two 16-bit fields and four bytes.
abbrev pub mesg_event_size : ℕ
mesg_event_size = 32

-- What another library's ring answers: the size of its record, and for a number of slots the events
-- copied out with the write index.
pub record EventLog {ℓ} (A : Type ℓ) : Type ℓ where
  pub event_size : ℕ
  pub recent_copy : ℕ → List A × ℕ

unfoldable pub op_name : ℕ → Bytes
op_name op =
    if op == 1
    then codes "send_game"
    else if op == 2
    then codes "send_external"
    else if op == 3
    then codes "recv_enter"
    else if op == 4
    then codes "recv_block"
    else if op == 5
    then codes "recv_return_ok"
    else if op == 6
    then codes "ext_deq_ok"
    else if op == 7
    then codes "ext_deq_full"
    else if op == 8
    then codes "do_send_block"
    else codes "?"

unfoldable pub mesg_fields : MesgEvent → Bytes
unfolding op_name decimal
mesg_fields e =
    codes "{\"seq\":"
    ++ decimal e.seq
    ++ codes ",\"ms\":"
    ++ decimal e.ms
    ++ codes ",\"op\":\""
    ++ op_name e.op
    ++ codes "\",\"mq\":"
    ++ decimal e.mq
    ++ codes ",\"msg\":"
    ++ decimal e.msg
    ++ codes ",\"vb\":"
    ++ decimal e.valid_before
    ++ codes ",\"va\":"
    ++ decimal e.valid_after
    ++ codes ",\"block\":"
    ++ decimal e.block
    ++ codes ",\"gt\":"
    ++ decimal e.game_thread
    ++ codes "}"

-- The reply to a ring's copy: the write index, then the events.
events_reply {ℓ} : {A : Type ℓ} → ℕ → (A → Bytes) → List A × ℕ → Bytes
unfolding items decimal
events_reply size render (events, widx) =
    codes "{\"ok\":true,\"write_idx\":"
    ++ decimal widx
    ++ codes ",\"events\":["
    ++ items size render true events
    ++ codes "]}"

unfoldable pub mesg_recent : EventLog MesgEvent → Bytes → Bytes
unfolding clamp_count events_reply mesg_fields
mesg_recent log line =
    if log.event_size == mesg_event_size
    then events_reply 256 mesg_fields
        (log.recent_copy (clamp_count 65536 (get_int line (codes "n") (pos 128))))
    else codes "{\"ok\":false,\"error\":\"mesg event size mismatch\"}"

pub record SpTaskEvent : Type 0 where
  pub seq : ℕ
  pub ms : ℕ
  pub frame : ℕ
  pub send_dl : ℕ
  pub mips_ra : ℕ
  pub task_ptr : ℕ
  pub task_type : ℕ
  pub task_flags : ℕ
  pub ucode : ℕ
  pub data_ptr : ℕ
  pub data_size : ℕ
  pub output_buff : ℕ
  pub output_buff_size : ℕ

-- Four 64-bit and nine 32-bit fields, rounded up to a multiple of 8.
abbrev pub sp_task_event_size : ℕ
sp_task_event_size = 72

unfoldable pub type_name : ℕ → Bytes
type_name t =
    if t == 1
    then codes "M_GFXTASK"
    else if t == 2
    then codes "M_AUDTASK"
    else if t == 3
    then codes "M_VIDTASK"
    else if t == 4
    then codes "M_NJPEGTASK"
    else if t == 6
    then codes "M_HVQMTASK"
    else codes "?"

unfoldable pub sp_task_fields : SpTaskEvent → Bytes
unfolding type_name decimal
sp_task_fields e =
    codes "{\"seq\":"
    ++ decimal e.seq
    ++ codes ",\"ms\":"
    ++ decimal e.ms
    ++ codes ",\"frame\":"
    ++ decimal e.frame
    ++ codes ",\"send_dl\":"
    ++ decimal e.send_dl
    ++ codes ",\"type\":\""
    ++ type_name e.task_type
    ++ codes "\",\"task_ptr\":"
    ++ decimal e.task_ptr
    ++ codes ",\"mips_ra\":"
    ++ decimal e.mips_ra
    ++ codes ",\"ucode\":"
    ++ decimal e.ucode
    ++ codes ",\"data_ptr\":"
    ++ decimal e.data_ptr
    ++ codes ",\"data_size\":"
    ++ decimal e.data_size
    ++ codes ",\"output_buff\":"
    ++ decimal e.output_buff
    ++ codes ",\"output_buff_size\":"
    ++ decimal e.output_buff_size
    ++ codes ",\"flags\":"
    ++ decimal e.task_flags
    ++ codes "}"

unfoldable pub sp_task_recent : EventLog SpTaskEvent → Bytes → Bytes
unfolding clamp_count events_reply sp_task_fields
sp_task_recent log line =
    if log.event_size == sp_task_event_size
    then events_reply 384 sp_task_fields
        (log.recent_copy (clamp_count 4096 (get_int line (codes "n") (pos 128))))
    else codes "{\"ok\":false,\"error\":\"sp_task event size mismatch\"}"
