-- ===== src/Renderer/Context/Tasks.antt =====
-- How the task counters add up.
use pokemon_stadium_recomp.Prelude.{
  ℕ, ◌+◌, ◌^◌, ◌<◌, ◌≡◌, ◌≢◌, refl, ap, arith, inl, inr, ◌==◌, none, some, Bool-cases,
}
use pokemon_stadium_recomp.DebugServer.State.{Dbg}
use pokemon_stadium_recomp.Renderer.Context.{
  Task, gfx_task, audio_task, count_dl, send_dl, dl_address,
}

-- A task of any type raises the total by one and one of the three kinds by one, so that the total
-- stays their sum, and asks for the snapshot of its display list, numbered with the count of
-- graphics tasks so far, exactly when it is a graphics task.
send_dl_lem :
    (task : Task) (s : Dbg)
    → s.send_dl_count ≡ s.send_dl_gfx_count + s.send_dl_audio_count + s.send_dl_other_count
    → s.send_dl_count + 1 < 2 ^ 64
    → ((send_dl task s).1.send_dl_count ≡ s.send_dl_count + 1)
      × ((send_dl task s).1.send_dl_count
          ≡ (send_dl task s).1.send_dl_gfx_count
            + (send_dl task s).1.send_dl_audio_count
            + (send_dl task s).1.send_dl_other_count)
      × (task.task_type ≡ gfx_task
          → (send_dl task s).0.snapshot ≡ some (dl_address task.data_ptr, s.send_dl_gfx_count + 1))
      × (task.task_type ≢ gfx_task → (send_dl task s).0.snapshot ≡ none)
unfolding send_dl count_dl
send_dl_lem task s e small = elim (Bool-cases (task.task_type == gfx_task)) [
  | inl gfx ↦
      rw (gfx, count_dl)
        (
          omega arith,
          omega arith,
          (λ is. ap (λ (n : ℕ). some (dl_address task.data_ptr, n)) (omega arith)),
          (λ is. ground arith),
        )
  | inr other ↦ elim (Bool-cases (task.task_type == audio_task)) [
    | inl audio ↦
        rw (other, audio, count_dl) (omega arith, omega arith, (λ is. ground arith), (λ is. refl))
    | inr neither ↦
        rw (other, neither, count_dl) (omega arith, omega arith, (λ is. ground arith), (λ is. refl))
  ]
]
