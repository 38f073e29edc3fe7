-- ===== src/PostMortem/Rings.antt =====
-- The event rings of extras.c in the post-mortem report, `dump_audio_rings_json`: each ring is walked
-- from its oldest event to its newest.
pub mod Newest
use pokemon_stadium_recomp.Prelude.{
  ℕ, zero, suc, ◌+◌, ◌-◌, ◌%◌, Bool, true, false, List, [], ◌∷◌, ◌++◌, ltb, ◌==◌, if◌then◌else◌,
}
use pokemon_stadium_recomp.Prelude.Text.{Bytes, codes}
use pokemon_stadium_recomp.Libc.Print.{decimal, hex2_upper}
use pokemon_stadium_recomp.Ring.{Ring}
use pokemon_stadium_recomp.Extras.Watch.{AfxEv, DispatchEv, afx_ring_cap, afx_get, mbp_disp_get}
use pokemon_stadium_recomp.Extras.Chain.{ChainEv, chain_ring_cap, mbp_chain_get}
use pokemon_stadium_recomp.Extras.Snapshots.{SnapEv, snap_ring_cap, gdl_get}

-- The items with a comma before all but the first, as `fprintf` writes them.
unfoldable pub joined {ℓ} : {A : Type ℓ} → (A → Bytes) → Bool → List A → Bytes
joined render first [] = []
joined render first (x ∷ xs) =
    (if first then [] else codes ",") ++ render x ++ joined render false xs

module _ {ℓ} {A : Type ℓ} (cap : ℕ) (get : ℕ → A) where
  -- `n` events from number `start` on: `get((start + i) % cap)`.
  unfoldable pub events_at : ℕ → ℕ → List (ℕ × A)
  events_at zero start = []
  events_at (suc n) start = (start, get (start % cap)) ∷ events_at n (start + 1)

  -- `n = (seq < cap) ? seq : cap`, `start = (seq < cap) ? 0 : (seq - cap)`
  unfoldable pub window : ℕ → List (ℕ × A)
  unfolding events_at
  window seq = events_at (if ltb seq cap then seq else cap) (if ltb seq cap then 0 else seq - cap)

-- `"key": {"seq":...,"cap":...,"events":[...]},`
unfoldable pub ring_section {ℓ} : {A : Type ℓ} → Bytes → ℕ → (ℕ → A) → (ℕ × A → Bytes) → ℕ → Bytes
unfolding joined window decimal
ring_section key cap get render seq =
    codes "  \""
    ++ key
    ++ codes "\": {\"seq\":"
    ++ decimal seq
    ++ codes ",\"cap\":"
    ++ decimal cap
    ++ codes ",\"events\":["
    ++ joined render true (window cap get seq)
    ++ codes "]},\n"

-- `"key":value` behind a comma.
abbrev pub keyed : Bytes → ℕ → Bytes
keyed key value = codes ",\"" ++ key ++ codes "\":" ++ decimal value

unfoldable pub triple : Bytes → Bytes → Bytes → ℕ → ℕ → ℕ → ℕ → Bytes
unfolding decimal
triple ka kb kc i a b c =
    codes "{\"i\":" ++ decimal i ++ keyed ka a ++ keyed kb b ++ keyed kc c ++ codes "}"

unfoldable pub afx_section : Bytes → Bytes → Bytes → Bytes → Ring AfxEv → Bytes
unfolding ring_section triple afx_get
afx_section key ka kb kc r =
    ring_section key afx_ring_cap (afx_get r) (λ e. triple ka kb kc e.0 e.1.a e.1.b e.1.c) r.seq

unfoldable pub disp_section : Ring DispatchEv → Bytes
unfolding ring_section triple mbp_disp_get
disp_section r =
    ring_section (codes "audio_mbp_disp") afx_ring_cap (mbp_disp_get r)
      (λ e. triple (codes "t8") (codes "t9") (codes "v0") e.0 e.1.t8 e.1.t9 e.1.v0) r.seq

unfoldable pub chain_fields : ℕ × ChainEv → Bytes
unfolding decimal
chain_fields (i, e) =
    if e.kind == 0
    then codes "{\"i\":"
      ++ decimal i
      ++ codes ",\"kind\":\"in\""
      ++ keyed (codes "depth") e.depth_in
      ++ keyed (codes "a0") e.a0_in
      ++ keyed (codes "a1") e.a1_in
      ++ keyed (codes "v0_in") e.v0_in
      ++ codes "}"
    else codes "{\"i\":"
      ++ decimal i
      ++ codes ",\"kind\":\"out\""
      ++ keyed (codes "depth") e.depth_out
      ++ keyed (codes "v0") e.v0_out
      ++ keyed (codes "s0") e.s0_out
      ++ codes "}"

unfoldable pub chain_section : Ring ChainEv → Bytes
unfolding ring_section chain_fields mbp_chain_get
chain_section r =
    ring_section (codes "audio_mbp_chain") chain_ring_cap (mbp_chain_get r) chain_fields r.seq

unfoldable pub head_text : List ℕ → Bytes
unfolding hex2_upper
head_text [] = []
head_text (b ∷ bs) = hex2_upper b ++ head_text bs

unfoldable pub snap_fields : ℕ × SnapEv → Bytes
unfolding decimal head_text
snap_fields (i, e) =
    codes "{\"i\":"
    ++ decimal i
    ++ keyed (codes "submit_seq") e.submit_seq
    ++ keyed (codes "target") e.target_vaddr
    ++ keyed (codes "parent") e.parent_vaddr
    ++ codes ",\"head\":\""
    ++ head_text e.head
    ++ codes "\"}"

unfoldable pub gdl_section : Bytes → Ring SnapEv → Bytes
unfolding ring_section snap_fields gdl_get
gdl_section key r = ring_section key snap_ring_cap (gdl_get r) snap_fields r.seq

-- The rings of extras.c that the report shows.
pub record AudioRings : Type 0 where
  pub afx_in : Ring AfxEv
  pub afx_out : Ring AfxEv
  pub mbp_pre : Ring AfxEv
  pub mbp_disp : Ring DispatchEv
  pub mbp_chain : Ring ChainEv
  pub gdl_submit : Ring SnapEv
  pub gdl_walk : Ring SnapEv

unfoldable pub dump_audio_rings : AudioRings → Bytes
unfolding afx_section disp_section chain_section gdl_section
dump_audio_rings a =
    afx_section (codes "audio_afx_in") (codes "a0") (codes "a1") (codes "seq") a.afx_in
    ++ afx_section (codes "audio_afx_out") (codes "v0") (codes "s0") (codes "seq") a.afx_out
    ++ afx_section (codes "audio_mbp_pre") (codes "v0") (codes "s7") (codes "a1") a.mbp_pre
    ++ disp_section a.mbp_disp
    ++ chain_section a.mbp_chain
    ++ gdl_section (codes "gdl_submit") a.gdl_submit
    ++ gdl_section (codes "gdl_walk") a.gdl_walk
