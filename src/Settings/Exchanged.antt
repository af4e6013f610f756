-- ===== src/Settings/Exchanged.antt =====
-- SETTINGS that one side sends and the other keeps.
use webtransport_h2_go.Prelude.{
  ◌≡◌, ◌≢◌, refl, arith, false, ◌||◌, some, leb, ◌&&◌, Bool-cases, inl, inr,
}
use webtransport_h2_go.Settings.{
  WebTransportSettings, Setting, settings, apply, apply_all, wt_enabled,
}

-- Applying the SETTINGS that a side sends to what was known of it gives that side's values, where only
-- WT_ENABLED stays set if it was: it is not sent where it is not set.
pub apply_all-settings :
    (s p : WebTransportSettings)
    → apply_all (settings (some s)) p ≡ record s { enabled = s.enabled || p.enabled }
unfolding settings apply_all apply
apply_all-settings s p = elim (Bool-cases s.enabled) [ inl y ↦ rw y refl | inr n ↦ rw n refl ]

-- A setting is WebTransport's exactly if its ID is between 0x2b60 and 0x2b66; any other changes nothing.
pub apply_handles :
    (s : Setting) (p : WebTransportSettings)
    → ((apply s p).1 ≡ leb wt_enabled s.id && leb s.id 0x2b66)
      × ((apply s p).1 ≡ false → (apply s p).0 ≡ p)
unfolding apply
apply_handles s p = (ground arith, ground arith)

-- The order of two settings with different IDs does not matter, and of two with one ID the last counts.
pub apply-apply :
    (s t : Setting) (p : WebTransportSettings)
    → (s.id ≢ t.id → (apply t (apply s p).0).0 ≡ (apply s (apply t p).0).0)
      × (s.id ≡ t.id → (apply t (apply s p).0).0 ≡ (apply t p).0)
unfolding apply
apply-apply s t p = (λ n. ground (arith, n), λ e. rw e (ground arith))
