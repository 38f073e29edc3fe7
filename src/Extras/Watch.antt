-- ===== src/Extras/Watch.antt =====
-- The event rings of extras.c that watch a pointer: n_alLoadParam, n_alFxPull, n_alMainBusPull and
-- its dispatch. The first bad pointer of a ring is shouted to stderr.
pub mod Shouts
use pokemon_stadium_recomp.Prelude.{
  ℕ, ◌+◌, ◌-◌, ◌%◌, List, [], ◌∷◌, Bool, false, ◌&&◌, ◌||◌, not, ◌==◌, if◌then◌else◌, get_or, set,
  replicate, bit_and,
}
use pokemon_stadium_recomp.Ring.{Ring, push, at}
use pokemon_stadium_recomp.Rdram.{in_rdram}

-- A ring with its `s_..._logged_bad`.
pub record Watched {ℓ} (E : Type ℓ) : Type ℓ where
  pub ring : Ring E
  pub logged_bad : Bool

module _ {ℓ} {E : Type ℓ} where
  unfoldable pub idle_watch : ℕ → E → Watched E
  idle_watch cap d = record {
    ring = record { slots = replicate cap d; seq = 0 };
    logged_bad = false;
  }

  -- `(p < 0x80000000u || p >= 0x80800000u) && !logged_bad`
  abbrev pub shouts : ℕ → Watched E → Bool
  shouts p w = not (in_rdram p) && not w.logged_bad

  -- The event goes to the ring; the line shows it with its sequence number.
  unfoldable pub watch : ℕ → E → ℕ → Watched E → List (E × ℕ) × Watched E
  unfolding push
  watch cap e p w = (
    if shouts p w then (e, w.ring.seq) ∷ [] else [],
    record { ring = push cap e w.ring; logged_bad = w.logged_bad || not (in_rdram p) },
  )

-- `struct voice_ev`
pub record VoiceEv : Type 0 where
  pub a3 : ℕ
  pub v0 : ℕ
  pub v1 : ℕ

abbrev pub voice_ring_cap : ℕ
voice_ring_cap = 64

unfoldable pub audio_voice_check :
    ℕ → ℕ → ℕ → Watched VoiceEv → List (VoiceEv × ℕ) × Watched VoiceEv
unfolding watch
audio_voice_check a3 v0 v1 w = watch voice_ring_cap (record { a3 = a3; v0 = v0; v1 = v1 }) v1 w

-- `struct afx_ev`
pub record AfxEv : Type 0 where
  pub a : ℕ
  pub b : ℕ
  pub c : ℕ

abbrev pub afx_ring_cap : ℕ
afx_ring_cap = 32

unfoldable pub afxpull_enter : ℕ → ℕ → Ring AfxEv → Ring AfxEv
unfolding push
afxpull_enter a0 a1 r =
    push afx_ring_cap (record { a = a0; b = a1; c = bit_and r.seq 0xFFFFFFFF }) r

unfoldable pub afxpull_exit : ℕ → ℕ → Watched AfxEv → List (AfxEv × ℕ) × Watched AfxEv
unfolding watch
afxpull_exit v0 s0 w =
    watch afx_ring_cap (record { a = v0; b = s0; c = bit_and w.ring.seq 0xFFFFFFFF }) v0 w

unfoldable pub mbp_precrash : ℕ → ℕ → ℕ → Watched AfxEv → List (AfxEv × ℕ) × Watched AfxEv
unfolding watch
mbp_precrash v0 s7 a1 w = watch afx_ring_cap (record { a = v0; b = s7; c = a1 }) v0 w

-- `struct dispatch_ev`
pub record DispatchEv : Type 0 where
  pub t8 : ℕ
  pub t9 : ℕ
  pub v0 : ℕ

unfoldable pub mbp_dispatch :
    ℕ → ℕ → Watched DispatchEv → List (DispatchEv × ℕ) × Watched DispatchEv
unfolding watch
mbp_dispatch t8 t9 w = watch afx_ring_cap (record { t8 = t8; t9 = t9; v0 = 0xDEADBEEF }) t9 w

abbrev pub no_dispatch : DispatchEv
no_dispatch = record { t8 = 0; t9 = 0; v0 = 0 }

-- `s_mbp_disp_ring[(s - 1) % AFX_RING_CAP].v0 = v0`
unfoldable pub patch_last : ℕ → Ring DispatchEv → Ring DispatchEv
unfolding at
patch_last v0 r =
    let e = at afx_ring_cap no_dispatch r (r.seq - 1) in
    record r { slots = set r.slots ((r.seq - 1) % afx_ring_cap) (record e { v0 = v0 }) }

unfoldable pub mbp_dispatch_ret :
    ℕ → Watched DispatchEv → List (DispatchEv × ℕ) × Watched DispatchEv
unfolding patch_last at
mbp_dispatch_ret v0 w = if w.ring.seq == 0 then ([], w) else (
  if shouts v0 w
      then (at afx_ring_cap no_dispatch (patch_last v0 w.ring) (w.ring.seq - 1), w.ring.seq - 1)
        ∷ []
      else [],
  record { ring = patch_last v0 w.ring; logged_bad = w.logged_bad || not (in_rdram v0) },
)

-- The getters: `ring[i % AFX_RING_CAP]`
abbrev pub no_afx : AfxEv
no_afx = record { a = 0; b = 0; c = 0 }

unfoldable pub afx_get : Ring AfxEv → ℕ → AfxEv
unfolding at
afx_get r i = at afx_ring_cap no_afx r i

unfoldable pub mbp_disp_get : Ring DispatchEv → ℕ → DispatchEv
unfolding at
mbp_disp_get r i = at afx_ring_cap no_dispatch r i
